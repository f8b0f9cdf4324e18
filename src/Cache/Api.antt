-- ===== src/Cache/Api.antt =====
-- cache/cache.go: the Cache interface, as the operations of a cache with states `C` and values
-- `V`. A lookup is found, absent or failed; a write returns its error.
use go_warp.Base.{◌≡◌, Key, key_eq, ◌==◌, if◌then◌else◌, Option, Duration}
use go_warp.Errors.{Error, Got, hit}

pub record CacheOps (C V : Type 0) : Type 0 where
  pub get : Key → C → Got V × C
  pub set : Key → V → Duration → C → Option Error × C
  pub invalidate : Key → C → Option Error × C

-- A cache that keeps what it was given, and reads that change no value.
pub record IsCache {C T : Type 0} (ops : CacheOps C T) : Type 0 where
  pub get-get : (k j : Key) (c : C) → (ops.get j (ops.get k c).1).0 ≡ (ops.get j c).0
  pub get-set :
      (k j : Key) (v : T) (ttl : Duration) (c : C)
      → (ops.get j (ops.set k v ttl c).1).0 ≡ (if k == j then hit v else (ops.get j c).0)
