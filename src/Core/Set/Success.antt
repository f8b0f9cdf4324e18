-- ===== src/Core/Set/Success.antt =====
-- core/core.go: when Set succeeds, and what a merge leaves.
use go_warp.Base.{
  ℤ, ◌≡◌, ◌≢◌, refl, true, Time, Duration, Key, Option, none, some, arith, inl, inr, Bool-cases,
  Option-cases,
}
use go_warp.Errors.{Error, Got, hit, miss, failed, ok, err}
use go_warp.Merge.Engine.{Value, stamped, has_custom}
use go_warp.Core.Ports.{Ports}
use go_warp.Core.Registry.{
  Registration, Mode, get_reg, quorum_size, strong_local, eventual_distributed, strong_distributed,
}
use go_warp.Core.State.{
  World, Act, resume-elim, cache_get, record_access, after_ttl, ttl_of, effective_ttl,
}
use go_warp.Core.Set.{
  set, set_found, set_rest, count_set, old_value, stored_value, merged, deliver, apply_set,
}
use go_warp.Core.Set.Coherence.{Lawful, Holds, WasThere, set-merged}

module _ {F T C S B Q : Type 0} (p : Ports F T C S B Q) where
  -- The cache and the store take every write of the key.
  pub record Accepts (key : Key) : Type 0 where
    pub cache_set : (v : Value T) (d : Duration) (c : C) → (p.cache_ops.set key v d c).0 ≡ none
    pub store_set : (d : T) (s : S) → (p.store_ops.set key d s).0 ≡ none

  -- No lookup of the key fails: in the cache, nor in the store if the key has a merge function.
  pub record Reads (key : Key) (w : World p) : Type 0 where
    pub cache_get : (e : Error) → (p.cache_ops.get key w.cache).0 ≢ failed e
    pub store_get :
        has_custom key w.merges ≡ true
        → (s : S) (e : Error) → w.store ≡ some s
        → (p.store_ops.get key s).0 ≢ failed e

  -- The quorum that a strong write needs.
  abbrev pub Reaches : Mode → ℤ → Key → Option B → Type 0
  Reaches strong_local quorum key bus = Unit {0}
  Reaches eventual_distributed quorum key bus = Unit {0}
  Reaches strong_distributed quorum key bus =
      (b : B) × (bus ≡ some b) × ((p.bus_ops.publish_and_await key quorum b).0 ≡ none)

  old_value-bus :
      (key : Key) (g : Got (Value T)) (w : World p) → (old_value p key g w).1.bus ≡ w.bus
  unfolding old_value stored_value
  old_value-bus key (failed e) w = refl
  old_value-bus key (hit v) w = refl
  old_value-bus key miss w = ground arith

  module _ (key : Key) (takes : Accepts key) where
    apply_set-Succeeds :
        (reg : Registration F) (v : Value T) (ttl : Duration) (now : Time) (w : World p)
        → (apply_set p key reg v ttl now w).0 ≡ ok tt
    unfolding apply_set
    apply_set-Succeeds reg v ttl now w = elim (Option-cases (w.store)) [
      | inl gone ↦ ground (arith, takes.cache_set v (effective_ttl p reg ttl) w.cache)
      | inr (s, there) ↦
          ground
            (arith, takes.cache_set v (effective_ttl p reg ttl) w.cache, takes.store_set v.datum s)
    ]

    deliver-Succeeds :
        (mode : Mode) (reg : Registration F) (apply : Act (World p) (Unit {0})) (w : World p)
        → Reaches mode (quorum_size reg) key w.bus
        → ((w' : World p) → (apply w').0 ≡ ok tt)
        → (deliver p mode reg key apply w).0 ≡ ok tt
    unfolding deliver
    deliver-Succeeds strong_local reg apply w reach fine = fine w
    deliver-Succeeds eventual_distributed reg apply w reach fine = rw (fine w) refl
    deliver-Succeeds strong_distributed reg apply w (b, there, acked) fine =
        elim (Bool-cases (p.bus_ops.is_healthy b)) [
          | inl well ↦ rw (there, well, acked) (fine _)
          | inr ill ↦ rw (there, ill) (fine _)
        ]

    old_value-Succeeds :
        (g : Got (Value T)) (w : World p)
        → ((e : Error) → g ≢ failed e)
        → (has_custom key w.merges ≡ true
            → (s : S) (e : Error) → w.store ≡ some s
            → (p.store_ops.get key s).0 ≢ failed e)
        → (e : Error) → (old_value p key g w).0 ≢ err e
    unfolding old_value stored_value
    old_value-Succeeds (failed x) w read there e h = read x refl
    old_value-Succeeds (hit v) w read there e h = absurd (ground arith)
    old_value-Succeeds miss w read there e h = elim (Option-cases (w.store)) [
      | inl gone ↦ absurd (ground arith)
      | inr (s, held) ↦ there (ground arith) s e held (ground arith)
    ]

    set_found-Succeeds :
        (now : Time) (value : T) (reg : Registration F) (w : World p)
        → Reads key w
        → Reaches reg.mode (quorum_size reg) key w.bus
        → (set_found p now key value reg w).0 ≡ ok tt
    unfolding set_found set_rest
    set_found-Succeeds now value reg w reads reach =
        let looked : World p = (cache_get p key (record_access p reg key w)).1 in
        let g = (p.cache_ops.get key w.cache).0 in
        let found = old_value p key g looked in
        resume-elim (λ r. r.0 ≡ ok tt) found.0 found.1 (set_rest p reg now key value)
          (λ old e.
            deliver-Succeeds reg.mode reg _ (after_ttl p reg key found.1)
              (rw (old_value-bus key g looked) reach)
              (apply_set-Succeeds reg (merged p key found.1.merges old (stamped value now))
                (ttl_of p reg key reg.ttl found.1.strategies) now))
          (λ e x. absurd (old_value-Succeeds g looked reads.cache_get reads.store_get e x))

    -- Set of a registered key succeeds where no lookup that it needs fails and every write is taken.
    pub set-Succeeds :
        (now : Time) (value : T) (reg : Registration F) (w : World p)
        → get_reg key w.shards ≡ some reg
        → Reads key w
        → Reaches reg.mode (quorum_size reg) key w.bus
        → (set p now key value w).0 ≡ ok tt
    unfolding set
    set-Succeeds now value reg w found reads reach = rw found (
        set_found-Succeeds now value reg (count_set p w)
          (record { cache_get = reads.cache_get; store_get = reads.store_get }) reach)

  -- After a successful Set the cache and the store hold the merge of the new value with what was
  -- there before: the cached value; on a miss, if the key has a merge function, the stored one; and
  -- nothing if that is missing, too, or there is no store or no merge function. Set of a registered
  -- key succeeds if no such lookup fails, the cache and the store take every write of it,
  -- and, for a strong key, the bus reaches the quorum.
  pub set-Holds-merged :
      (l : Lawful p) (now : Time) (key : Key) (value : T) (w : World p)
      → ((set p now key value w).0 ≡ ok tt
          → (old : Option (Value T)) × WasThere p l key w old
            × Holds p l key
                (merged p key w.merges old (stamped value now))
                (set p now key value w).1)
        × ((reg : Registration F)
            → get_reg key w.shards ≡ some reg
            → Reads key w
            → Reaches reg.mode (quorum_size reg) key w.bus
            → Accepts key
            → (set p now key value w).0 ≡ ok tt)
  set-Holds-merged l now key value w = (
    set-merged p l now key value w,
    λ reg found reads reach takes. set-Succeeds key takes now value reg w found reads reach,
  )
