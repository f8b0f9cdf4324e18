-- ===== src/Core/Set/Coherence.antt =====
-- core/core.go: after a successful Set the cache and the store hold the same value.
use go_warp.Base.{
  pos, ◌≡◌, refl, sym, ◌∙◌, true, false, Time, Duration, Key, key_eq, Option, none, some, arith,
  inl, inr, ◌≢◌, ◌⊎◌, Option-cases, Bool-cases, subst, ◌<ℤ◌, ap,
}
use go_warp.Errors.{Error, Got, hit, miss, failed, Result, ok}
use go_warp.Merge.Engine.{Value, Engine, has_custom, stamped}
use go_warp.Merge.Engine.Laws.{merge-newer}
use go_warp.Core.Ports.{Ports}
use go_warp.Core.Registry.{
  Registration, Mode, get_reg, quorum_size, strong_local, eventual_distributed, strong_distributed,
}
use go_warp.Core.State.{
  World, Act, resume-elim, cache_get, record_access, effective_ttl, ttl_of, after_ttl, registered,
}
use go_warp.Core.Set.{
  set, set_found, set_rest, count_set, old_value, stored_value, merged, deliver, apply_set,
}

-- The law of a cache and of a store that core relies on: what a successful write put in is found.
pub record Lawful {F T C S B Q : Type 0} (p : Ports F T C S B Q) : Type 0 where
  pub cache_get-set :
      (k : Key) (v : Value T) (d : Duration) (c : C)
      → (p.cache_ops.set k v d c).0 ≡ none
      → (p.cache_ops.get k (p.cache_ops.set k v d c).1).0 ≡ hit v
  pub store_get-set :
      (k : Key) (d : T) (s : S)
      → (p.store_ops.set k d s).0 ≡ none
      → (p.store_ops.get k (p.store_ops.set k d s).1).0 ≡ hit d

module _ {F T C S B Q : Type 0} (p : Ports F T C S B Q) (l : Lawful p) where
  -- The cache finds `v` under the key, and the store, if there is one, finds its data.
  abbrev pub Holds : Key → Value T → World p → Type 0
  Holds key v w =
      ((p.cache_ops.get key w.cache).0 ≡ hit v)
      × ((s : S) → w.store ≡ some s → (p.store_ops.get key s).0 ≡ hit v.datum)

  apply_set-ok :
      (key : Key) (reg : Registration F) (v : Value T) (ttl : Duration) (now : Time) (w : World p)
      → (apply_set p key reg v ttl now w).0 ≡ ok tt
      → let c = p.cache_ops.set key v (effective_ttl p reg ttl) w.cache in
        (c.0 ≡ none)
        × ((apply_set p key reg v ttl now w).1.cache ≡ c.1)
        × ((s : S)
            → (apply_set p key reg v ttl now w).1.store ≡ some s
            → (s0 : S) × (p.store_ops.set key v.datum s0 ≡ (none, s)))
  unfolding apply_set
  apply_set-ok key reg v ttl now w h = (
    ground arith,
    ground arith,
    λ s e. elim (Option-cases (w.store)) [
      | inl gone ↦ absurd (ground arith)
      | inr (s0, there) ↦ (s0, ground arith)
    ],
  )

  apply_set-Holds :
      (key : Key) (reg : Registration F) (v : Value T) (ttl : Duration) (now : Time) (w : World p)
      → (apply_set p key reg v ttl now w).0 ≡ ok tt
      → Holds key v (apply_set p key reg v ttl now w).1
  apply_set-Holds key reg v ttl now w h =
      let (set_ok, after, wrote) = apply_set-ok key reg v ttl now w h in
      (
        rw after (l.cache_get-set key v (effective_ttl p reg ttl) w.cache set_ok),
        λ s e.
            let (s0, put) = wrote s e in
            let s1 : (p.store_ops.set key v.datum s0).0 ≡ none = ap (λ r. r.0) put in
            rw (ap (λ r. r.1) put) at (l.store_get-set key v.datum s0 s1),
      )

  -- Each mode applies the change last, or starts a publication after it.
  deliver-ok :
      (mode : Mode) (reg : Registration F) (key : Key) (apply : Act (World p) (Unit {0}))
      (w : World p)
      → (deliver p mode reg key apply w).0 ≡ ok tt
      → (w0 : World p) × ((apply w0).0 ≡ ok tt)
        × ((deliver p mode reg key apply w).1.cache ≡ (apply w0).1.cache)
        × ((deliver p mode reg key apply w).1.store ≡ (apply w0).1.store)
        × ((deliver p mode reg key apply w).1.shards ≡ (apply w0).1.shards)
        × (w0.shards ≡ w.shards)
  unfolding deliver
  deliver-ok strong_local reg key apply w h = (w, h, refl, refl, refl, refl)
  deliver-ok eventual_distributed reg key apply w h =
      (w, ground arith, ground arith, ground arith, ground arith, refl)
  deliver-ok strong_distributed reg key apply w h = elim (Option-cases (w.bus)) [
    | inl none_there ↦ absurd (ground arith)
    | inr (b, there) ↦ elim (Bool-cases (p.bus_ops.is_healthy b)) [
      | inl well ↦ (
        record w { bus = some ((p.bus_ops.publish_and_await key (quorum_size reg) b).1) },
        ground arith,
        ground arith,
        ground arith,
        ground arith,
        refl,
      )
      | inr ill ↦ (w, ground arith, ground arith, ground arith, ground arith, refl)
    ]
  ]

  -- What was there before the write: the cached value, or, for a key with a merge function that the
  -- cache misses, the stored one, or else nothing. No lookup has failed.
  abbrev pub WasThere : Key → World p → Option (Value T) → Type 0
  WasThere key w old =
      ((v : Value T) → (p.cache_ops.get key w.cache).0 ≡ hit v → old ≡ some v)
      × ((e : Error) → (p.cache_ops.get key w.cache).0 ≢ failed e)
      × ((p.cache_ops.get key w.cache).0 ≡ miss
          → (has_custom key w.merges ≡ false)
            ⊎ (w.store ≡ none)
            ⊎ ((s : S) × (w.store ≡ some s) × ((p.store_ops.get key s).0 ≡ miss))
          → old ≡ none)
      × ((p.cache_ops.get key w.cache).0 ≡ miss
          → (s : S) (e : Error) → w.store ≡ some s
          → (p.store_ops.get key s).0 ≡ failed e
          → has_custom key w.merges ≢ true)
      × ((p.cache_ops.get key w.cache).0 ≡ miss
          → (s : S) (d : T) → w.store ≡ some s
          → (p.store_ops.get key s).0 ≡ hit d
          → has_custom key w.merges ≡ true
          → old ≡ some (stamped d (pos 0)))

  old_value-WasThere :
      (key : Key) (g : Got (Value T)) (w : World p) (old : Option (Value T))
      → (old_value p key g w).0 ≡ ok old
      → ((v : Value T) → g ≡ hit v → old ≡ some v)
        × ((e : Error) → g ≢ failed e)
        × (g ≡ miss
            → (has_custom key w.merges ≡ false)
              ⊎ (w.store ≡ none)
              ⊎ ((s : S) × (w.store ≡ some s) × ((p.store_ops.get key s).0 ≡ miss))
            → old ≡ none)
        × (g ≡ miss
            → (s : S) (e : Error) → w.store ≡ some s
            → (p.store_ops.get key s).0 ≡ failed e
            → has_custom key w.merges ≢ true)
        × (g ≡ miss
            → (s : S) (d : T) → w.store ≡ some s
            → (p.store_ops.get key s).0 ≡ hit d
            → has_custom key w.merges ≡ true
            → old ≡ some (stamped d (pos 0)))
  unfolding old_value stored_value
  old_value-WasThere key (failed e) w old h = absurd (ground arith)
  old_value-WasThere key (hit v) w old h = (
    λ v' e. ground arith,
    λ x e. cc,
    λ e n. absurd (ground arith),
    λ e s x a b c. absurd (ground arith),
    λ e s d a b c. absurd (ground arith),
  )
  old_value-WasThere key miss w old h = (
    λ v' e. absurd (ground arith),
    λ x e. cc,
    λ e n. elim n [
      | inl plain ↦ ground arith
      | inr rest ↦ elim rest [ inl gone ↦ ground arith | inr (s, there, gone) ↦ ground arith ]
    ],
    λ e s x a b c. absurd (ground arith),
    λ e s d a b c. ground arith,
  )

  old_value-merges :
      (key : Key) (g : Got (Value T)) (w : World p) → (old_value p key g w).1.merges ≡ w.merges
  unfolding old_value stored_value
  old_value-merges key (failed e) w = refl
  old_value-merges key (hit v) w = refl
  old_value-merges key miss w = ground arith

  set_rest-Holds :
      (reg : Registration F) (now : Time) (key : Key) (value : T) (old : Option (Value T))
      (w : World p)
      → (set_rest p reg now key value old w).0 ≡ ok tt
      → Holds key
          (merged p key w.merges old (stamped value now))
          (set_rest p reg now key value old w).1
  unfolding set_rest
  set_rest-Holds reg now key value old w h =
      let new = merged p key w.merges old (stamped value now) in
      let ttl = ttl_of p reg key reg.ttl w.strategies in
      let (w0, fine, same_cache, same_store, _, _) =
        deliver-ok reg.mode reg key (apply_set p key reg new ttl now) (after_ttl p reg key w) h in
      let held = apply_set-Holds key reg new ttl now w0 fine in
      (rw same_cache (held.0), λ s e. held.1 s (sym same_store ∙ e))

  abbrev HoldsMerged : Time → Key → T → World p → Result (Unit {0}) × World p → Type 0
  HoldsMerged now key value w r =
      r.0 ≡ ok tt
      → (old : Option (Value T)) × WasThere key w old
        × Holds key (merged p key w.merges old (stamped value now)) r.1

  set_found-Holds :
      (now : Time) (key : Key) (value : T) (reg : Registration F) (w : World p)
      → HoldsMerged now key value w (set_found p now key value reg w)
  unfolding set_found
  set_found-Holds now key value reg w =
      let looked : World p = (cache_get p key (record_access p reg key w)).1 in
      let g = (p.cache_ops.get key w.cache).0 in
      let found = old_value p key g looked in
      let same = old_value-merges key g looked in
      resume-elim (HoldsMerged now key value w) found.0 found.1 (set_rest p reg now key value)
        (λ old e h. (
          old,
          old_value-WasThere key g looked old e,
          subst
              (λ m.
                Holds key (merged p key m old (stamped value now))
                  (set_rest p reg now key value old found.1).1)
              same (set_rest-Holds reg now key value old found.1 h),
        ))
        (λ e x h. cc)

  -- After a successful Set the cache and the store hold the merge of the new value with the old.
  pub set-merged :
      (now : Time) (key : Key) (value : T) (w : World p)
      → (set p now key value w).0 ≡ ok tt
      → (old : Option (Value T)) × WasThere key w old
        × Holds key (merged p key w.merges old (stamped value now)) (set p now key value w).1
  unfolding set
  set-merged now key value w =
      resume-elim (HoldsMerged now key value w) (registered (get_reg key w.shards)) (count_set p w)
        (λ reg. set_found p now key value reg)
        (λ reg e. set_found-Holds now key value reg (count_set p w)) (λ e x h. cc)

  merged_newer :
      (key : Key) (merges : Engine T) (old : Option (Value T)) (value : T) (now : Time)
      → has_custom key merges ≡ false
      → ((v : Value T) → old ≡ some v → v.timestamp <ℤ now)
      → merged p key merges old (stamped value now) ≡ stamped value now
  unfolding merged
  merged_newer key merges none value now h k = refl
  merged_newer key merges (some v) value now h k =
      rw (merge-newer key merges v value now h (k v refl), merged)

  old_is_older :
      (key : Key) (w : World p) (now : Time) (g : Got (Value T)) (old : Option (Value T))
      → (p.cache_ops.get key w.cache).0 ≡ g
      → WasThere key w old
      → has_custom key w.merges ≡ false
      → ((v : Value T) → (p.cache_ops.get key w.cache).0 ≡ hit v → v.timestamp <ℤ now)
      → (v : Value T) → old ≡ some v
      → v.timestamp <ℤ now
  old_is_older key w now (hit x) old e there plain older v o =
      older v (rw e (let same : x ≡ v = cc (there.0 x e) in rw same))
  old_is_older key w now miss old e there plain older v o = absurd (cc (there.2 e (inl plain)))
  old_is_older key w now (failed x) old e there plain older v o = absurd (there.1 x e)

  -- A successful Set of a key with no merge function, over a cached value that is older, if any:
  -- the cache holds the new value, stamped with the time of the call, and the store its data.
  pub set-Holds :
      (now : Time) (key : Key) (value : T) (w : World p)
      → (set p now key value w).0 ≡ ok tt
      → has_custom key w.merges ≡ false
      → ((v : Value T) → (p.cache_ops.get key w.cache).0 ≡ hit v → v.timestamp <ℤ now)
      → Holds key (stamped value now) (set p now key value w).1
  set-Holds now key value w h plain older =
      let (old, there, held) = set-merged now key value w h in
      let newer =
        old_is_older key w now (p.cache_ops.get key w.cache).0 old refl there plain older in
      subst (λ v. Holds key v (set p now key value w).1)
        (merged_newer key w.merges old value now plain newer) held
