-- ===== src/Cache/Resilient.antt =====
-- cache/resilient.go: ResilientCache hides the failures of the cache that it wraps.
use go_warp.Base.{◌≡◌, refl, ◌≢◌, Key, Duration, Option, none, arith}
use go_warp.Errors.{Error, Got, hit, miss, failed}
use go_warp.Cache.Api.{CacheOps}

module _ {V : Type 0} where
  miss_on_failure : Got V → Got V
  miss_on_failure (failed e) = miss
  miss_on_failure (hit v) = hit v
  miss_on_failure miss = miss

module _ {C V : Type 0} where
  resilient_get : CacheOps C V → Key → C → Got V × C
  unfolding miss_on_failure
  resilient_get inner key c = let (g, c') = inner.get key c in (miss_on_failure g, c')

  resilient_set : CacheOps C V → Key → V → Duration → C → Option Error × C
  resilient_set inner key v ttl c = (none, (inner.set key v ttl c).1)

  resilient_invalidate : CacheOps C V → Key → C → Option Error × C
  resilient_invalidate inner key c = (none, (inner.invalidate key c).1)

  -- NewResilient
  pub resilient : CacheOps C V → CacheOps C V
  unfolding resilient_get resilient_set resilient_invalidate
  resilient inner = record {
    get = resilient_get inner;
    set = resilient_set inner;
    invalidate = resilient_invalidate inner;
  }

  -- A wrapped cache never fails: a failed lookup is a miss and a failed write a success, the state
  -- is that of the wrapped cache, and so is every answer that is no failure.
  pub resilient_lem :
      (inner : CacheOps C V) (key : Key) (v : V) (ttl : Duration) (c : C)
      → (((e : Error) → ((resilient inner).get key c).0 ≢ failed e)
          × (((resilient inner).get key c).1 ≡ (inner.get key c).1)
          × ((x : V) → (((resilient inner).get key c).0 ≡ hit x) → ((inner.get key c).0 ≡ hit x))
          × ((x : V) → ((inner.get key c).0 ≡ hit x) → (((resilient inner).get key c).0 ≡ hit x)))
        × ((((resilient inner).set key v ttl c).0 ≡ none)
            × (((resilient inner).set key v ttl c).1 ≡ (inner.set key v ttl c).1))
        × ((((resilient inner).invalidate key c).0 ≡ none)
            × (((resilient inner).invalidate key c).1 ≡ (inner.invalidate key c).1))
  unfolding resilient
  resilient_lem inner key v ttl c = (
    (λ e. ground arith, refl, λ x h. ground arith, λ x h. ground arith),
    (refl, refl),
    (refl, refl),
  )
