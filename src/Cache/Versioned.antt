-- ===== src/Cache/Versioned.antt =====
-- cache/versioned/versioned.go: Cache, which keeps the history of each key in a base cache and the
-- keys by recency, most recent first. A list element is known by its key, so `entries` holds the
-- keys alone.
pub mod Recency
pub mod Reading
use go_warp.Base.{
  ℕ, zero, suc, ◌+◌, ◌%◌, ◌^◌, ℤ, pos, ltb_ℤ, Duration, Time, Bool, true, false, ◌&&◌, List, [],
  ◌∷◌, Key, key_eq, insert, delete, has, length, if◌then◌else◌, Option, none, some,
}
use go_warp.Errors.{Error, Got, hit, miss, failed}
use go_warp.Cache.Api.{CacheOps}
use go_warp.Cache.InMemory.{remove_key, back, remove_back}
use go_warp.Merge.Engine.{Value}
use go_warp.Merge.Versioned.{VersionedValue, new_versioned_value, add, latest, at}

-- `hits`, `misses` and `evictions` are the atomic counters (uint64).
pub record Versioned (C : Type 0) : Type 0 where
  pub base : C
  pub limit : ℕ
  pub order : List Key
  pub entries : List (Key × Unit {0})
  pub max_entries : ℤ
  pub hits : ℕ
  pub misses : ℕ
  pub evictions : ℕ

abbrev pub add_one : ℕ → ℕ
add_one n = (n + 1) % 2 ^ 64

pub record Metrics : Type 0 where
  pub hits : ℕ
  pub misses : ℕ
  pub evictions : ℕ

module _ {C : Type 0} where
  unfoldable pub new_versioned : C → ℕ → ℤ → Versioned C
  new_versioned base limit max_entries = record {
    base = base;
    limit = limit;
    order = [];
    entries = [];
    max_entries = max_entries;
    hits = 0;
    misses = 0;
    evictions = 0;
  }

  unfoldable pub metrics : Versioned C → Metrics
  metrics c = record { hits = c.hits; misses = c.misses; evictions = c.evictions }

  abbrev pub count_hit : Versioned C → Versioned C
  count_hit c = record c { hits = add_one c.hits }

  abbrev pub count_miss : Versioned C → Versioned C
  count_miss c = record c { misses = add_one c.misses }

  -- MoveToFront of a key's element, where it has one.
  pub touch : Key → Versioned C → Versioned C
  touch key c = if has key c.entries then record c { order = key ∷ remove_key key c.order } else c

  over_limit : Versioned C → Bool
  over_limit c = ltb_ℤ (pos 0) c.max_entries && ltb_ℤ c.max_entries (pos (length c.order))

  push_front : Key → Versioned C → Versioned C
  push_front key c = record c { order = key ∷ c.order; entries = insert key tt c.entries }

  forget : Key → Versioned C → Versioned C
  forget key c =
      if has key c.entries
      then record c { order = remove_key key c.order; entries = delete key c.entries }
      else c

module _ {C T : Type 0} (ops : CacheOps C (VersionedValue T)) where
  -- The end of Get: a hit of the base counts, and a history without values counts a miss, too.
  get_latest : Option (Value T) → Versioned C → Got (Value T) × Versioned C
  get_latest none c = (miss, count_miss (count_hit c))
  get_latest (some v) c = (hit v, count_hit c)

  get_from : Key → Got (VersionedValue T) → Versioned C → Got (Value T) × Versioned C
  unfolding touch get_latest
  get_from key (failed e) c = (failed e, c)
  get_from key miss c = (miss, count_miss c)
  get_from key (hit vv) c = get_latest (latest vv) (touch key c)

  -- Get
  unfoldable pub get : Key → Versioned C → Got (Value T) × Versioned C
  unfolding get_from
  get key c = let (r, base) = ops.get key c.base in get_from key r (record c { base = base })

  get_version : Option (Value T) → Versioned C → Got (Value T) × Versioned C
  get_version none c = (miss, count_miss c)
  get_version (some v) c = (hit v, count_hit c)

  get_at_from : Key → Time → Got (VersionedValue T) → Versioned C → Got (Value T) × Versioned C
  unfolding touch get_version
  get_at_from key t (failed e) c = (failed e, c)
  get_at_from key t miss c = (miss, count_miss c)
  get_at_from key t (hit vv) c = get_version (at t vv) (touch key c)

  -- GetAt
  unfoldable pub get_at : Key → Time → Versioned C → Got (Value T) × Versioned C
  unfolding get_at_from
  get_at key t c =
      let (r, base) = ops.get key c.base in get_at_from key t r (record c { base = base })

  -- The eviction of the least recently used key; an error of the base cache is ignored.
  evict_last : Option Key → Versioned C → Versioned C
  evict_last none c = c
  evict_last (some k) c = record c {
    base = (ops.invalidate k c.base).1;
    order = remove_back c.order;
    entries = delete k c.entries;
    evictions = add_one c.evictions;
  }

  enter : Key → Versioned C → Versioned C
  unfolding over_limit evict_last push_front
  enter key c =
      let c' = push_front key c in if over_limit c' then evict_last (back c'.order) c' else c'

  pub track : Key → Versioned C → Versioned C
  unfolding enter
  track key c =
      if has key c.entries then record c { order = key ∷ remove_key key c.order } else enter key c

  set_written : Key → Option Error → Versioned C → Option Error × Versioned C
  unfolding track
  set_written key (some e) c = (some e, c)
  set_written key none c = (none, track key c)

  write_history : Key → VersionedValue T → Duration → Versioned C → Option Error × Versioned C
  unfolding set_written
  write_history key vv ttl c =
      let (e, base) = ops.set key vv ttl c.base in set_written key e (record c { base = base })

  set_from :
      Key → Value T → Duration → Got (VersionedValue T) → Versioned C → Option Error × Versioned C
  unfolding write_history
  set_from key val ttl (failed e) c = (some e, c)
  set_from key val ttl miss c = write_history key (new_versioned_value val c.limit) ttl c
  set_from key val ttl (hit vv) c = write_history key (add val vv) ttl c

  -- Set
  unfoldable pub set : Key → Value T → Duration → Versioned C → Option Error × Versioned C
  unfolding set_from
  set key val ttl c =
      let (r, base) = ops.get key c.base in set_from key val ttl r (record c { base = base })

  -- Invalidate
  unfoldable pub invalidate : Key → Versioned C → Option Error × Versioned C
  unfolding forget
  invalidate key c =
      let (e, base) = ops.invalidate key (forget key c).base in
      (e, record (forget key c) { base = base })

  -- The wrapper is a cache of values.
  unfoldable pub versioned_ops : CacheOps (Versioned C) (Value T)
  unfolding get set invalidate
  versioned_ops = record { get = get; set = set; invalidate = invalidate }
