-- ===== src/Validator.antt =====
-- validator/validator.go: Validator, which compares the cache with the store and may repair it. The
-- digester is a parameter (the default one is JSON and SHA-256), and so is the context, as the
-- rounds of the loop at which it is done.

pub mod Healing
use go_warp.Base.{
  ℕ, zero, suc, ◌+◌, ◌%◌, ◌^◌, pos, Bool, true, false, List, [], ◌∷◌, Key, key_beq, if◌then◌else◌,
  Option, none, some,
}
use go_warp.Errors.{Error, Result, ok, err, Got, hit, miss, failed}
use go_warp.Cache.Api.{CacheOps}
use go_warp.Core.Ports.{StoreOps}

pub data Mode : Type 0 where
  mode_noop mode_alert mode_auto_heal : Mode

abbrev pub heals : Mode → Bool
heals mode_auto_heal = true
heals _ = false

-- The store is nil where there is none; `mismatches` is a uint64.
pub record Validator (C S : Type 0) : Type 0 where
  pub cache : C
  pub store : Option S
  pub mode : Mode
  pub mismatches : ℕ

unfoldable pub new_validator : {C S : Type 0} → C → Option S → Mode → Validator C S
new_validator cache store mode = record {
  cache = cache;
  store = store;
  mode = mode;
  mismatches = 0;
}

unfoldable pub metrics : {C S : Type 0} → Validator C S → ℕ
metrics v = v.mismatches

-- The comparison of two digests, where neither failed.
abbrev pub differ : Result Key → Result Key → Bool
differ (ok a) (ok b) = if key_beq a b then false else true
differ (ok a) (err e) = false
differ (err e) b = false

module _ {C S T : Type 0} (cache_ops : CacheOps C T) (store_ops : StoreOps S T)
    (digest : T → Result Key) where
  -- A mismatch counts, and a repair ignores the error of the cache.
  repair : Mode → Key → T → C → C
  repair mode key sv cache = if heals mode then (cache_ops.set key sv (pos 0) cache).1 else cache

  -- What a key's two values lead to: the count of mismatches, and the cache.
  compare_values : Mode → Key → T → Got T → C → ℕ × C
  unfolding repair
  compare_values mode key cv (hit sv) cache =
      if differ (digest cv) (digest sv) then (1, repair mode key sv cache) else (0, cache)
  compare_values mode key cv miss cache = (0, cache)
  compare_values mode key cv (failed e) cache = (0, cache)

  check_value : Mode → Key → Got T → C → S → ℕ × C × S
  unfolding compare_values
  check_value mode key (hit cv) cache store =
      let (r, store') = store_ops.get key store in
      let (n, cache') = compare_values mode key cv r cache in (n, cache', store')
  check_value mode key miss cache store = (0, cache, store)
  check_value mode key (failed e) cache store = (0, cache, store)

  -- One round of the loop.
  pub check_key : Mode → Key → C → S → ℕ × C × S
  unfolding check_value
  check_key mode key cache store =
      let (r, cache') = cache_ops.get key cache in check_value mode key r cache' store

  abbrev count_more : ℕ → ℕ × C × S → ℕ × C × S
  count_more n (m, cache, store) = (n + m, cache, store)

  -- The loop from round `i`, with the mismatches that it finds.
  pub check_keys : (ℕ → Bool) → ℕ → Mode → List Key → C → S → ℕ × C × S
  unfolding check_key
  check_keys done i mode [] cache store = (0, cache, store)
  check_keys done i mode (key ∷ keys) cache store =
      let (n, cache', store') = check_key mode key cache store in
      let rest = check_keys done (suc i) mode keys cache' store' in
      if done i then (0, cache, store) else count_more n rest

  scan_keys : (ℕ → Bool) → Mode → Result (List Key) → C → S → ℕ × C × S
  unfolding check_keys
  scan_keys done mode (ok keys) cache store = check_keys done 0 mode keys cache store
  scan_keys done mode (err e) cache store = (0, cache, store)

  scan_store : (ℕ → Bool) → Option S → Validator C S → Validator C S
  unfolding scan_keys
  scan_store done none v = v
  scan_store done (some store) v =
      let (keys, store') = store_ops.keys store in
      let (n, cache, store'') = scan_keys done v.mode keys v.cache store' in
      record v { cache = cache; store = some store''; mismatches = (v.mismatches + n) % 2 ^ 64 }

  -- A tick of Run: without a store Run returns at once.
  unfoldable pub scan : (ℕ → Bool) → Validator C S → Validator C S
  unfolding scan_store
  scan done v = scan_store done v.store v
