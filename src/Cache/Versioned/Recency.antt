-- ===== src/Cache/Versioned/Recency.antt =====
-- cache/versioned/versioned.go: the keys and their recency list, and the maximum of keys.
use go_warp.Base.{
  suc, ◌≤◌, ◌≡◌, ℤ, pos, ltb_ℤ, Duration, Time, true, false, ◌&&◌, List, [], ◌∷◌, Key, key_eq,
  key_beq_iff, beq_refl, insert, delete, has, lookup-insert, lookup-delete, length, Option, none,
  some, arith, Bool-cases, Option-cases, inl, inr,
}
use go_warp.Errors.{Error, Got, hit, miss, failed}
use go_warp.Cache.Api.{CacheOps}
use go_warp.Cache.InMemory.{remove_key}
use go_warp.Cache.InMemory.Order.{
  contains, Unique, contains-remove_key, remove_key-Unique, contains-remove_back,
  remove_back-Unique, back-some, length-remove_back,
}
use go_warp.Merge.Engine.{Value}
use go_warp.Merge.Versioned.{VersionedValue, latest, at}
use go_warp.Cache.Versioned.{
  Versioned, touch, get_latest, get_from, get, get_version, get_at_from, get_at, evict_last,
  over_limit, push_front, enter, track, set_written, write_history, set_from, set, forget,
  invalidate,
}

length-remove_key :
    (k : Key) (xs : List Key) → contains k xs ≡ true → suc (length (remove_key k xs)) ≡ length xs
unfolding contains remove_key
length-remove_key k [] h = cc
length-remove_key k (x ∷ xs) h = ground (arith, length-remove_key k xs)

length-remove_key_le : (k : Key) (xs : List Key) → length (remove_key k xs) ≤ length xs
unfolding remove_key
length-remove_key_le k [] = omega arith
length-remove_key_le k (x ∷ xs) = ground (arith, length-remove_key_le k xs)

-- The map and the list hold the same keys, each once, and no more than a positive maximum.
pub record Tracked (max : ℤ) (entries : List (Key × Unit {0})) (order : List Key) : Type 0 where
  pub unique : Unique order
  pub same : (k : Key) → has k entries ≡ contains k order
  pub bounded : (ltb_ℤ (pos 0) max && ltb_ℤ max (pos (length order))) ≡ false

abbrev pub IsValid : {C : Type 0} → Versioned C → Type 0
IsValid c = Tracked c.max_entries c.entries c.order

to_front-Tracked :
    (key : Key) (max : ℤ) (entries : List (Key × Unit {0})) (order : List Key)
    → has key entries ≡ true
    → Tracked max entries order
    → Tracked max entries (key ∷ remove_key key order)
unfolding contains
to_front-Tracked key max entries order there v = record {
  unique = (
    ground (arith, contains-remove_key key key order v.unique, beq_refl key),
    remove_key-Unique key order v.unique,
  );
  same = λ k.
      ground
        (arith, contains-remove_key key k order v.unique, v.same k, v.same key, key_beq_iff key k);
  bounded = ground (arith, length-remove_key key order, v.same key, v.bounded);
}

removed-Tracked :
    (key : Key) (max : ℤ) (entries : List (Key × Unit {0})) (order : List Key)
    → Tracked max entries order
    → Tracked max (delete key entries) (remove_key key order)
removed-Tracked key max entries order v = record {
  unique = remove_key-Unique key order v.unique;
  same = λ k.
      ground
        (arith, lookup-delete key k entries, contains-remove_key key k order v.unique, v.same k);
  bounded = ground (arith, length-remove_key_le key order, v.bounded);
}

-- A key that is new stands in front; one key goes where there are more than the maximum.
push_front_Tracked :
    (key : Key) (entries : List (Key × Unit {0})) (order : List Key) (max : ℤ)
    → has key entries ≡ false
    → Tracked max entries order
    → (Unique (key ∷ order))
      × ((k : Key) → has k (insert key tt entries) ≡ contains k (key ∷ order))
unfolding contains
push_front_Tracked key entries order max fresh v = (
  (ground (arith, v.same key, fresh), v.unique),
  λ k. ground (arith, lookup-insert key k tt entries, v.same k, key_beq_iff key k),
)

module _ {C : Type 0} where
  touch-IsValid : (key : Key) (c : Versioned C) → IsValid c → IsValid (touch key c)
  unfolding touch
  touch-IsValid key c v = elim (Bool-cases (has key c.entries)) [
    | inl t ↦ rw t (to_front-Tracked key c.max_entries c.entries c.order t v)
    | inr f ↦ rw f v
  ]

  forget-IsValid : (key : Key) (c : Versioned C) → IsValid c → IsValid (forget key c)
  unfolding forget
  forget-IsValid key c v = elim (Bool-cases (has key c.entries)) [
    | inl t ↦ rw t (removed-Tracked key c.max_entries c.entries c.order v)
    | inr f ↦ rw f v
  ]

module _ {C T : Type 0} (ops : CacheOps C (VersionedValue T)) where
  enter-IsValid :
      (key : Key) (c : Versioned C)
      → has key c.entries ≡ false
      → IsValid c
      → IsValid (enter ops key c)
  unfolding enter evict_last push_front over_limit
  enter-IsValid key c fresh v =
      let (unique, same) = push_front_Tracked key c.entries c.order c.max_entries fresh v in
      let (k, last) = back-some key c.order in
      elim (Bool-cases (over_limit (push_front key c))) [
        | inr fits ↦ rw fits (record { unique = unique; same = same; bounded = fits })
        | inl over ↦
            rw (over, last)
              (record {
                unique = remove_back-Unique (key ∷ c.order) unique;
                same = λ j. ground (
                  arith,
                  lookup-delete k j (insert key tt c.entries),
                  contains-remove_back (key ∷ c.order) k j unique last,
                  same j,
                );
                bounded = ground (arith, length-remove_back key c.order, v.bounded);
              })
      ]

  track-IsValid : (key : Key) (c : Versioned C) → IsValid c → IsValid (track ops key c)
  unfolding track
  track-IsValid key c v = elim (Bool-cases (has key c.entries)) [
    | inl t ↦ rw t (to_front-Tracked key c.max_entries c.entries c.order t v)
    | inr f ↦ rw f (enter-IsValid key c f v)
  ]

  get_from-IsValid :
      (key : Key) (r : Got (VersionedValue T)) (c : Versioned C)
      → IsValid c
      → IsValid (get_from ops key r c).1
  unfolding get_from get_latest
  get_from-IsValid key (failed e) c v = v
  get_from-IsValid key miss c v = v
  get_from-IsValid key (hit vv) c v = elim (Option-cases (latest vv)) [
    | inl nothing ↦ rw nothing (touch-IsValid key c v)
    | inr (x, last) ↦ rw last (touch-IsValid key c v)
  ]

  get_at_from-IsValid :
      (key : Key) (t : Time) (r : Got (VersionedValue T)) (c : Versioned C)
      → IsValid c
      → IsValid (get_at_from ops key t r c).1
  unfolding get_at_from get_version
  get_at_from-IsValid key t (failed e) c v = v
  get_at_from-IsValid key t miss c v = v
  get_at_from-IsValid key t (hit vv) c v = elim (Option-cases (at t vv)) [
    | inl nothing ↦ rw nothing (touch-IsValid key c v)
    | inr (x, there) ↦ rw there (touch-IsValid key c v)
  ]

  set_written-IsValid :
      (key : Key) (e : Option Error) (c : Versioned C)
      → IsValid c
      → IsValid (set_written ops key e c).1
  unfolding set_written
  set_written-IsValid key (some e) c v = v
  set_written-IsValid key none c v = track-IsValid key c v

  set_from-IsValid :
      (key : Key) (val : Value T) (ttl : Duration) (r : Got (VersionedValue T)) (c : Versioned C)
      → IsValid c
      → IsValid (set_from ops key val ttl r c).1
  unfolding set_from write_history
  set_from-IsValid key val ttl (failed e) c v = v
  set_from-IsValid key val ttl miss c v = set_written-IsValid key _ _ v
  set_from-IsValid key val ttl (hit vv) c v = set_written-IsValid key _ _ v

  -- Whatever the base cache answers, each of Get, GetAt, Set and Invalidate keeps the keys and the
  -- recency list in step, each key once, and no more keys than a positive maximum.
  pub operations-IsValid :
      (key : Key) (val : Value T) (ttl : Duration) (t : Time) (c : Versioned C)
      → IsValid c
      → IsValid (get ops key c).1
        × IsValid (get_at ops key t c).1
        × IsValid (set ops key val ttl c).1
        × IsValid (invalidate ops key c).1
  unfolding get get_at set invalidate
  operations-IsValid key val ttl t c v = (
    get_from-IsValid key _ _ v,
    get_at_from-IsValid key t _ _ v,
    set_from-IsValid key val ttl _ _ v,
    forget-IsValid key c v,
  )
