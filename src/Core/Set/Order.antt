-- ===== src/Core/Set/Order.antt =====
-- core/core.go: in which order Set and Invalidate reach the bus, the cache and the store.
use go_warp.Base.{
  ◌∙◌, ◌≡◌, refl, ◌⊎◌, inl, inr, true, false, Time, Key, Option, some, arith, ◌≢◌, Option-cases,
  Bool-cases,
}
use go_warp.Errors.{Got, hit, miss, failed, Error, Result, ok, err}
use go_warp.Merge.Engine.{Value, has_custom}
use go_warp.Core.Ports.{Ports}
use go_warp.Core.Registry.{Registration, get_reg, quorum_size, strong_distributed}
use go_warp.Core.State.{World, resume-elim, cache_get, record_access}
use go_warp.Core.Set.{set, old_value, set_rest, set_found, count_set, invalidate}

module _ {F T C S B Q : Type 0} (p : Ports F T C S B Q) where
  -- What a handler may read and write, apart from its counters.
  pub record Untouched (w w' : World p) : Type 0 where
    pub cache : w'.cache ≡ w.cache
    pub store : w'.store ≡ w.store
    pub shards : w'.shards ≡ w.shards
    pub spawned : w'.spawned ≡ w.spawned

  -- A strong invalidation that the bus refuses fails with the bus's error, and is not applied.
  pub invalidate-refused :
      (key : Key) (w : World p) (reg : Registration F) (b : B) (e : Error)
      → get_reg key w.shards ≡ some reg
      → reg.mode ≡ strong_distributed
      → w.bus ≡ some b
      → p.bus_ops.is_healthy b ≡ true
      → (p.bus_ops.publish_and_await key (quorum_size reg) b).0 ≡ some e
      → ((invalidate p key w).0 ≡ err e) × Untouched w (invalidate p key w).1
  unfolding invalidate
  invalidate-refused key w reg b e found strong bus healthy refused = ground arith

  -- What the read-only steps of a handler keep.
  pub record Kept (w w' : World p) : Type 0 where
    pub cache : w'.cache ≡ w.cache
    pub bus : w'.bus ≡ w.bus
    pub merges : w'.merges ≡ w.merges
    pub shards : w'.shards ≡ w.shards
    pub spawned : w'.spawned ≡ w.spawned

  -- The store as it was, or after a lookup of the key.
  abbrev pub Peeked : Key → World p → World p → Type 0
  Peeked key w w' =
      (w'.store ≡ w.store)
      ⊎ ((s : S) × (w.store ≡ some s) × (w'.store ≡ some ((p.store_ops.get key s).1)))

  old_value-Kept :
      (key : Key) (g : Got (Value T)) (w : World p)
      → Kept w (old_value p key g w).1
        × (has_custom key w.merges ≡ false → (old_value p key g w).1.store ≡ w.store)
        × Peeked key w (old_value p key g w).1
  unfolding old_value
  old_value-Kept key (failed e) w = (ground arith, ground arith, inl refl)
  old_value-Kept key (hit v) w = (ground arith, ground arith, inl refl)
  old_value-Kept key miss w = (
    ground arith,
    ground arith,
    elim (Option-cases (w.store)) [
      | inl gone ↦ inl (ground arith)
      | inr (s, there) ↦ elim (Bool-cases (has_custom key w.merges)) [
        | inl custom ↦ inr (s, there, ground arith)
        | inr plain ↦ inl (ground arith)
      ]
    ],
  )

  set_rest-refused :
      (reg : Registration F) (now : Time) (key : Key) (value : T) (old : Option (Value T))
      (w : World p) (b : B) (e : Error)
      → reg.mode ≡ strong_distributed
      → w.bus ≡ some b
      → p.bus_ops.is_healthy b ≡ true
      → (p.bus_ops.publish_and_await key (quorum_size reg) b).0 ≡ some e
      → ((set_rest p reg now key value old w).0 ≡ err e)
        × Untouched w (set_rest p reg now key value old w).1
  unfolding set_rest
  set_rest-refused reg now key value old w b e strong bus healthy refused = ground arith

  abbrev pub Unwritten : Key → World p → Result (Unit {0}) × World p → Type 0
  Unwritten key w r =
      (r.0 ≢ ok tt)
      × (r.1.cache ≡ (p.cache_ops.get key w.cache).1)
      × (r.1.shards ≡ w.shards)
      × (r.1.spawned ≡ w.spawned)
      × Peeked key w r.1
      × (has_custom key w.merges ≡ false → r.1.store ≡ w.store)

  Peeked-same :
      (key : Key) (w w' w'' : World p) → w''.store ≡ w'.store → Peeked key w w' → Peeked key w w''
  Peeked-same key w w' w'' same seen = elim seen [
    | inl as_was ↦ inl (same ∙ as_was)
    | inr (s, there, after) ↦ inr (s, there, same ∙ after)
  ]

  set_found-refused :
      (now : Time) (key : Key) (value : T) (w : World p) (reg : Registration F) (b : B) (e : Error)
      → reg.mode ≡ strong_distributed
      → w.bus ≡ some b
      → p.bus_ops.is_healthy b ≡ true
      → (p.bus_ops.publish_and_await key (quorum_size reg) b).0 ≡ some e
      → Unwritten key w (set_found p now key value reg w)
  unfolding set_found
  set_found-refused now key value w reg b e strong bus healthy refused =
      let looked : World p = (cache_get p key (record_access p reg key w)).1 in
      let kept = old_value-Kept key (p.cache_ops.get key w.cache).0 looked in
      let found = old_value p key (p.cache_ops.get key w.cache).0 looked in
      resume-elim (Unwritten key w) found.0 found.1 (set_rest p reg now key value)
        (λ old h.
          let (nack, same) =
            set_rest-refused reg now key value old found.1 b e strong (kept.0.bus ∙ bus) healthy
              refused in
          (
            λ x. cc nack,
            same.cache ∙ kept.0.cache,
            same.shards ∙ kept.0.shards,
            same.spawned ∙ kept.0.spawned,
            Peeked-same key w found.1 (set_rest p reg now key value old found.1).1 same.store
                kept.2,
            λ n. same.store ∙ kept.1 n,
          ))
        (λ e' h. (λ x. cc, kept.0.cache, kept.0.shards, kept.0.spawned, kept.2, kept.1))

  -- A strong set that the bus refuses fails, and writes neither the cache, the store nor the
  -- registration, and starts nothing. The cache has seen the lookup of the key. The store is as it
  -- was, or, only where the key has a merge function, as after one lookup of the key.
  pub set-refused :
      (now : Time) (key : Key) (value : T) (w : World p) (reg : Registration F) (b : B) (e : Error)
      → get_reg key w.shards ≡ some reg
      → reg.mode ≡ strong_distributed
      → w.bus ≡ some b
      → p.bus_ops.is_healthy b ≡ true
      → (p.bus_ops.publish_and_await key (quorum_size reg) b).0 ≡ some e
      → Unwritten key w (set p now key value w)
  unfolding set
  set-refused now key value w reg b e found strong bus healthy refused =
      rw found (set_found-refused now key value (count_set p w) reg b e strong bus healthy refused)
