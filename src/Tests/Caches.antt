-- ===== src/Tests/Caches.antt =====
-- Runs of the sweeper of cache/cache.go and of cache/versioned/versioned.go.
use go_warp.Base.{
  ℕ, ◌≡◌, refl, ap, pos, Time, List, [], ◌∷◌, Key, key_beq, key_eq, lookup, insert, delete,
  lookup-insert_self, lookup-delete_ne, arith, Option, none, some, map, ◌-₆₄◌, ◌-ℤ◌, wrap64,
}
use go_warp.Errors.{Got, hit, miss}
use go_warp.Cache.Api.{CacheOps}
use go_warp.Cache.InMemory.{InMemory, back, remove_key, remove_back}
use go_warp.Cache.InMemory.Order.{contains}
use go_warp.Cache.InMemory.Sweep.{sweep}
use go_warp.Cache.InMemory.Sweep.Ends.{SweptBy, sweep-ends}
use go_warp.Merge.Engine.{Value}
use go_warp.Merge.Versioned.{VersionedValue, at, add, latest, new_versioned_value}
use go_warp.Cache.Versioned.{Versioned, get, get_at, set, invalidate}
use go_warp.Cache.Versioned.Recency.{Tracked, IsValid as Valid, operations-IsValid}
use go_warp.Cache.Versioned.Reading.{KeepsWrites, extended, as_got, get_at-set}
use go_warp.Tests.Cache.{full, full-IsValid, first, second, third, item}

-- The clock of a pass, and the keys in the order of the map.
abbrev late : ℕ → Time
late i = pos 51

abbrev in_order : ℕ → InMemory ℕ → List Key
in_order i c = map (λ e. e.0) c.items

sweep-ends_example : SweptBy late in_order (sweep late in_order full) full
sweep-ends_example = sweep-ends late in_order full full-IsValid

-- The expired item goes, and the one without an expiry stays.
swept :
    sweep late in_order full
    ≡ some (record full {
      items = (second, item 20 0) ∷ [];
      order = second ∷ [];
      current_memory = pos 8;
      evictions = 1;
    })
unfolding sweep lookup delete key_beq remove_key ◌-₆₄◌ ◌-ℤ◌ wrap64
swept = refl

abbrev pub got : {V : Type 0} → Option V → Got V
got none = miss
got (some v) = hit v

-- A base cache that is an association list.
abbrev pub assoc_cache : {V : Type 0} → CacheOps (List (Key × V)) V
assoc_cache = record {
  get = λ k c. (got (lookup k c), c);
  set = λ k v ttl c. (none, insert k v c);
  invalidate = λ k c. (none, delete k c);
}

assoc_cache-KeepsWrites : {V : Type 0} → KeepsWrites (assoc_cache {V = V})
assoc_cache-KeepsWrites = record {
  get-set = λ k v ttl c h. ap got (lookup-insert_self k v c);
  get-invalidate = λ k j c h. ap got (lookup-delete_ne k j c h);
}

abbrev value : ℕ → ℕ → Value ℕ
value x t = record { datum = x; timestamp = pos t; vector = none; region = [] }

abbrev Store : Type 0
Store = List (Key × VersionedValue ℕ)

-- At most two keys, of which the cache holds two.
abbrev two_keys : Versioned Store
two_keys = record {
  base =
      (first, record { versions = value 1 5 ∷ []; limit = 2 })
      ∷ (second, record { versions = value 2 6 ∷ []; limit = 2 })
      ∷ [];
  limit = 2;
  order = second ∷ first ∷ [];
  entries = (first, tt) ∷ (second, tt) ∷ [];
  max_entries = pos 2;
  hits = 0;
  misses = 0;
  evictions = 0;
}

two_keys-IsValid : Tracked (pos 2) two_keys.entries two_keys.order
unfolding contains lookup key_beq
two_keys-IsValid = record { unique = ground arith; same = λ k. ground arith; bounded = refl }

operations-IsValid_example :
    let ops = assoc_cache {V = VersionedValue ℕ} in
    Valid (get ops first two_keys).1
    × Valid (get_at ops first (pos 5) two_keys).1
    × Valid (set ops first (value 3 8) (pos 0) two_keys).1
    × Valid (invalidate ops first two_keys).1
operations-IsValid_example =
    operations-IsValid assoc_cache first (value 3 8) (pos 0) (pos 5) two_keys two_keys-IsValid

program : Unit {0}
unfolding get get_at set invalidate lookup insert delete key_beq back remove_key remove_back latest
    at add new_versioned_value
program = tt

get_at-set_example :
    let c' = (set (assoc_cache {V = VersionedValue ℕ}) first (value 3 8) (pos 0) two_keys).1 in
    ((get assoc_cache first c').0 ≡ hit (value 3 8))
    × ((t : Time)
        → (get_at assoc_cache first t c').0
          ≡ as_got (at t (extended (value 3 8) 2 (assoc_cache.get first two_keys.base).0)))
unfolding program
get_at-set_example =
    get_at-set assoc_cache assoc_cache-KeepsWrites first (value 3 8) (pos 0) two_keys
      two_keys-IsValid refl

-- The older value is read at its time; a third key evicts the least recently used one.
histories :
    let c' = (set (assoc_cache {V = VersionedValue ℕ}) first (value 3 8) (pos 0) two_keys).1 in
    ((get_at assoc_cache first (pos 7) c').0 ≡ hit (value 1 5))
    × ((set (assoc_cache {V = VersionedValue ℕ}) third (value 4 9) (pos 0) c').1.order
        ≡ third ∷ first ∷ [])
unfolding program
histories = (refl, refl)
