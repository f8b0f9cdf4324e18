-- ===== src/Cache/InMemory.antt =====
-- cache/cache.go: InMemoryCache. `order` is the recency list, most recent first; a list element is
-- known by the key that it holds. A call has the state of its context at its two checks (the
-- error of a context that is done) and one reading of the clock.
pub mod Order
pub mod Laws
pub mod Bounds
pub mod Lawful
pub mod Sweep
use go_warp.Base.{
  ℕ, zero, suc, ◌+◌, ◌%◌, ◌^◌, ℤ, pos, negsuc, ltb_ℤ, Duration, Time, ◌+₆₄◌, ◌-₆₄◌, time_add, after,
  is_zero, Bool, true, false, not, ◌&&◌, ◌||◌, List, [], ◌∷◌, Key, key_eq, lookup, insert, delete,
  has, length, ◌==◌, if◌then◌else◌, Option, none, some,
}
use go_warp.Errors.{Error, Got, hit, miss, failed}
use go_warp.Cache.Api.{CacheOps}

-- An increment of an `atomic.Uint64`.
abbrev count_one : ℕ → ℕ
count_one n = (n + 1) % 2 ^ 64

pub record Item (V : Type 0) : Type 0 where
  pub value : V
  pub size : ℤ
  pub expires_at : Time

-- The options of a cache, and EstimateSize.
pub record Config (V : Type 0) : Type 0 where
  pub max_entries : ℤ
  pub max_memory : ℤ
  pub estimate_size : V → ℤ

-- `hits` and `misses` are the atomic counters; `evictions` is the Prometheus counter, as it counts
-- where metrics are enabled.
pub record InMemory (V : Type 0) : Type 0 where
  pub items : List (Key × Item V)
  pub order : List Key
  pub current_memory : ℤ
  pub hits : ℕ
  pub misses : ℕ
  pub evictions : ℕ

pub record Ctx : Type 0 where
  pub at_entry : Option Error
  pub locked : Option Error

-- container/list: Remove of a key's element, and the last element.
unfoldable pub remove_key : Key → List Key → List Key
remove_key k [] = []
remove_key k (x ∷ xs) = if x == k then xs else x ∷ remove_key k xs

unfoldable pub back : List Key → Option Key
back [] = none
back (x ∷ []) = some x
back (x ∷ y ∷ ys) = back (y ∷ ys)

unfoldable pub remove_back : List Key → List Key
remove_back [] = []
remove_back (x ∷ []) = []
remove_back (x ∷ y ∷ ys) = x ∷ remove_back (y ∷ ys)

expiry : Time → Duration → Time
expiry now ttl = if ltb_ℤ (pos 0) ttl then time_add now ttl else pos 0

module _ {V : Type 0} where
  unfoldable pub new_in_memory : InMemory V
  new_in_memory = record {
    items = [];
    order = [];
    current_memory = pos 0;
    hits = 0;
    misses = 0;
    evictions = 0;
  }

  unfoldable pub is_expired : Time → Item V → Bool
  is_expired now it = not (is_zero it.expires_at) && after now it.expires_at

  -- Removes a key's item and element, and counts an eviction.
  unfoldable pub drop_item : Key → Item V → InMemory V → InMemory V
  drop_item key it c = record c {
    items = delete key c.items;
    order = remove_key key c.order;
    current_memory = c.current_memory -₆₄ it.size;
    evictions = suc c.evictions;
  }

  -- A live item becomes the most recent; the context is checked once more before it is returned.
  get_live : Option Error → Key → Item V → InMemory V → Got V × InMemory V
  get_live (some e) key it c = (failed e, record c { order = key ∷ remove_key key c.order })
  get_live none key it c =
      (hit it.value, record c { order = key ∷ remove_key key c.order; hits = count_one c.hits })

  get_item : Ctx → Time → Key → Option (Item V) → InMemory V → Got V × InMemory V
  unfolding drop_item is_expired get_live
  get_item ctx now key none c = (miss, record c { misses = count_one c.misses })
  get_item ctx now key (some it) c =
      if is_expired now it
      then (miss, record (drop_item key it c) { misses = count_one c.misses })
      else get_live ctx.locked key it c

  get_entered : Option Error → Ctx → Time → Key → InMemory V → Got V × InMemory V
  unfolding get_item
  get_entered (some e) ctx now key c = (failed e, c)
  get_entered none ctx now key c = get_item ctx now key (lookup key c.items) c

  -- Get
  unfoldable pub get : Ctx → Time → Key → InMemory V → Got V × InMemory V
  unfolding get_entered
  get ctx now key c = get_entered ctx.at_entry ctx now key c

  -- Evicts the least recently used key.
  evict_key : Key → Option (Item V) → InMemory V → InMemory V
  evict_key k none c = record c { order = remove_back c.order }
  evict_key k (some it) c = record c {
    items = delete k c.items;
    order = remove_back c.order;
    current_memory = c.current_memory -₆₄ it.size;
    evictions = suc c.evictions;
  }

  evict_from : Option Key → InMemory V → InMemory V
  unfolding evict_key
  evict_from none c = c
  evict_from (some k) c = evict_key k (lookup k c.items) c

  unfoldable pub evict_back : InMemory V → InMemory V
  unfolding evict_from
  evict_back c = evict_from (back c.order) c

  over_entries : Config V → InMemory V → Bool
  over_entries cfg c = ltb_ℤ (pos 0) cfg.max_entries && ltb_ℤ cfg.max_entries (pos (length c.items))

  enforce_entries : Config V → InMemory V → InMemory V
  unfolding over_entries evict_back
  enforce_entries cfg c = if over_entries cfg c then evict_back c else c

  -- `for currentMemory > maxMemory`, which ends on an empty list: each round removes an element.
  evict_memory : ℕ → Config V → InMemory V → InMemory V
  unfolding evict_back
  evict_memory zero cfg c = c
  evict_memory (suc fuel) cfg c =
      let rest = evict_memory fuel cfg (evict_back c) in
      if ltb_ℤ cfg.max_memory c.current_memory then rest else c

  enforce_memory : Config V → InMemory V → InMemory V
  unfolding evict_memory
  enforce_memory cfg c =
      if ltb_ℤ (pos 0) cfg.max_memory then evict_memory (length c.order) cfg c else c

  old_size : Option (Item V) → ℤ
  old_size none = pos 0
  old_size (some it) = it.size

  -- The update of a present key, and the insertion of a new one.
  pub write_item : Config V → Time → Key → V → Duration → InMemory V → InMemory V
  unfolding old_size expiry
  write_item cfg now key v ttl c = record c {
    items =
        insert key (record { value = v; size = cfg.estimate_size v; expires_at = expiry now ttl })
          c.items;
    order = key ∷ remove_key key c.order;
    current_memory = c.current_memory +₆₄ (cfg.estimate_size v -₆₄ old_size (lookup key c.items));
  }

  -- A write behind the two checks of the context.
  checked : Option Error → Option Error → InMemory V → InMemory V → Option Error × InMemory V
  checked (some e) locked before written = (some e, before)
  checked none (some e) before written = (some e, before)
  checked none none before written = (none, written)

  -- Set
  unfoldable pub set :
      Config V → Ctx → Time → Key → V → Duration → InMemory V → Option Error × InMemory V
  unfolding write_item enforce_entries enforce_memory checked
  set cfg ctx now key v ttl c =
      checked ctx.at_entry ctx.locked c
        (enforce_memory cfg (enforce_entries cfg (write_item cfg now key v ttl c)))

  invalidate_item : Key → Option (Item V) → InMemory V → InMemory V
  unfolding drop_item
  invalidate_item key none c = c
  invalidate_item key (some it) c = drop_item key it c

  -- Invalidate
  unfoldable pub invalidate : Ctx → Key → InMemory V → Option Error × InMemory V
  unfolding invalidate_item checked
  invalidate ctx key c =
      checked ctx.at_entry ctx.locked c (invalidate_item key (lookup key c.items) c)

  -- Close empties the items and the list, and leaves `currentMemory`.
  unfoldable pub close : InMemory V → InMemory V
  close c = record c { items = []; order = [] }

  -- The cache as the interface sees it, at one reading of the clock.
  unfoldable pub in_memory_ops : Config V → Ctx → Time → CacheOps (InMemory V) V
  unfolding get set invalidate
  in_memory_ops cfg ctx now = record {
    get = get ctx now;
    set = set cfg ctx now;
    invalidate = invalidate ctx;
  }
