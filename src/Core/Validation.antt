-- ===== src/Core/Validation.antt =====
-- core/core.go: validatorCache, the cache of raw values that a validator sees. A write has a reading
-- of the clock, and its TTL is the registration's, not the caller's.
use go_warp.Base.{
  ℕ, beq_refl, ◌≡◌, refl, ap, ◌∙◌, Duration, Time, pos, Bool-cases, inl, inr, Key, key_eq, ◌==◌,
  Option, none, some,
}
use go_warp.Errors.{Error, Got, hit, miss, failed}
use go_warp.Cache.Api.{CacheOps, IsCache}
use go_warp.Merge.Engine.{Value, stamped}
use go_warp.Core.Ports.{Ports}
use go_warp.Core.Registry.{Registration, get_reg, update_reg}
use go_warp.Core.Registry.Shards.{get_reg-update_reg}
use go_warp.Core.State.{World, record_access, ttl_of, after_ttl, touch_reg}

abbrev pub raw : {T : Type 0} → Got (Value T) → Got T
raw (hit v) = hit v.datum
raw miss = miss
raw (failed e) = failed e

module _ {F T C S B Q : Type 0} (p : Ports F T C S B Q) where
  raw_get : Key → World p → Got T × World p
  raw_get key w = let (r, c) = p.cache_ops.get key w.cache in (raw r, record w { cache = c })

  -- The TTL of a registered key, and the world with its registration and strategy told.
  write_ttl : Key → Time → Option (Registration F) → World p → Duration × World p
  write_ttl key now none w = (pos 0, w)
  write_ttl key now (some reg) w =
      let w' = record_access p reg key w in
      let ttl = ttl_of p reg key reg.ttl w'.strategies in
      (ttl, touch_reg p key ttl now (after_ttl p reg key w'))

  raw_set : Time → Key → T → World p → Option Error × World p
  unfolding write_ttl
  raw_set now key d w =
      let (ttl, w') = write_ttl key now (get_reg key w.shards) w in
      let (e, c) = p.cache_ops.set key (stamped d now) ttl w'.cache in (e, record w' { cache = c })

  raw_invalidate : Key → World p → Option Error × World p
  raw_invalidate key w =
      let (e, c) = p.cache_ops.invalidate key w.cache in (e, record w { cache = c })

  unfoldable pub validator_cache : Time → CacheOps (World p) T
  unfolding raw_get raw_set raw_invalidate
  validator_cache now = record {
    get = raw_get;
    set = λ key d ttl w. raw_set now key d w;
    invalidate = raw_invalidate;
  }

  write_ttl-cache :
      (key : Key) (now : Time) (o : Option (Registration F)) (w : World p)
      → (write_ttl key now o w).1.cache ≡ w.cache
  unfolding write_ttl
  write_ttl-cache key now none w = refl
  write_ttl-cache key now (some reg) w = refl

  -- What a strategy says of a key after the access, and its state then; or the TTL of the key.
  abbrev pub chosen : Option ℕ → Duration → Key → Q → Duration × Q
  chosen none ttl key q = (ttl, q)
  chosen (some n) ttl key q = p.strategy_ops.ttl n key (p.strategy_ops.note_access n key q)

  abbrev pub Written : Time → Key → T → Duration → World p → Option Error × World p → Type 0
  Written now key d ttl w r =
      (r.0 ≡ (p.cache_ops.set key (stamped d now) ttl w.cache).0)
      × (r.1.cache ≡ (p.cache_ops.set key (stamped d now) ttl w.cache).1)

  chosen-steps :
      (reg : Registration F) (key : Key) (w : World p)
      → let told = record_access p reg key w in
        let q = chosen reg.ttl_strategy reg.ttl key w.strategies in
        (ttl_of p reg key reg.ttl told.strategies ≡ q.0)
        × ((after_ttl p reg key told).strategies ≡ q.1)
  chosen-steps reg key w =
      elim (reg.ttl_strategy)
        as (λ o.
          let told : Q = elim o [
            | none ↦ w.strategies
            | some n ↦ p.strategy_ops.note_access n key w.strategies
          ] in
          let ttl : Duration = elim o [
            | none ↦ reg.ttl
            | some n ↦ (p.strategy_ops.ttl n key told).0
          ] in
          let after : Q = elim o [ none ↦ told | some n ↦ (p.strategy_ops.ttl n key told).1 ] in
          (ttl ≡ (chosen o reg.ttl key w.strategies).0)
          × (after ≡ (chosen o reg.ttl key w.strategies).1)) [
            | none ↦ (refl, refl)
            | some n ↦ (refl, refl)
          ]

  write_ttl-registered :
      (key : Key) (now : Time) (reg : Registration F) (w : World p)
      → let q = chosen reg.ttl_strategy reg.ttl key w.strategies in
        let (ttl, w') = write_ttl key now (some reg) w in
        (ttl ≡ q.0)
        × (w'.strategies ≡ q.1)
        × (w'.cache ≡ w.cache)
        × (w'.shards
            ≡ update_reg key (λ r. record r { current_ttl = q.0; last_access = now }) w.shards)
  unfolding write_ttl
  write_ttl-registered key now reg w =
      let (ttl, strategies) = chosen-steps reg key w in
      (
        ttl,
        strategies,
        refl,
        ap (λ t. update_reg key (λ r. record r { current_ttl = t; last_access = now }) w.shards)
            ttl,
      )

  raw_set-registered :
      (now : Time) (key : Key) (d : T) (w : World p) (reg : Registration F)
      → get_reg key w.shards ≡ some reg
      → let q = chosen reg.ttl_strategy reg.ttl key w.strategies in
        let r = raw_set now key d w in
        Written now key d q.0 w r
        × (r.1.strategies ≡ q.1)
        × (get_reg key r.1.shards ≡ some (record reg { current_ttl = q.0; last_access = now }))
  unfolding raw_set
  raw_set-registered now key d w reg found =
      let (ttl, told, same, touched) = write_ttl-registered key now reg w in
      rw found (
        (rw (ttl, same) refl, rw (ttl, same) refl),
        told,
        rw (touched, get_reg-update_reg key key _ w.shards, beq_refl key, found) refl,
      )

  -- Over a cache that keeps what it is given, the validator's view is one, too: what it writes is
  -- what it reads, whether the key is registered or not, and reads change no value. A write reaches
  -- the cache with the time of the call. For a registered key its TTL is the one that the strategy
  -- gives after it is told of the access, or that of the registration where it has no strategy, and
  -- never the caller's; the registration then has this TTL and the time as its last access. For
  -- any other key the TTL is 0, and no registration or strategy changes.
  pub validator_cache-IsCache :
      (law : IsCache p.cache_ops) (now : Time)
      → IsCache (validator_cache now)
        × ((key : Key) (d : T) (ttl : Duration) (w : World p) (reg : Registration F)
            → get_reg key w.shards ≡ some reg
            → let q = chosen reg.ttl_strategy reg.ttl key w.strategies in
              let r = (validator_cache now).set key d ttl w in
              Written now key d q.0 w r
              × (r.1.strategies ≡ q.1)
              × (get_reg key r.1.shards
                  ≡ some (record reg { current_ttl = q.0; last_access = now })))
        × ((key : Key) (d : T) (ttl : Duration) (w : World p)
            → get_reg key w.shards ≡ none
            → let r = (validator_cache now).set key d ttl w in
              Written now key d (pos 0) w r
              × (r.1.strategies ≡ w.strategies)
              × (r.1.shards ≡ w.shards))
  unfolding validator_cache raw_get raw_set write_ttl
  validator_cache-IsCache law now = (
    record {
      get-get = λ k j w. ap raw (law.get-get k j w.cache);
      get-set = λ k j d ttl w.
          let (ttl', w') = write_ttl k now (get_reg k w.shards) w in
          let same : w'.cache ≡ w.cache = write_ttl-cache k now (get_reg k w.shards) w in
          ap raw (law.get-set k j (stamped d now) ttl' w'.cache)
          ∙ elim (Bool-cases (k == j)) [ inl t ↦ rw t refl | inr f ↦ rw (f, same) refl ];
    },
    λ key d ttl w reg found. raw_set-registered now key d w reg found,
    λ key d ttl w gone. rw gone ((refl, refl), refl, refl),
  )
