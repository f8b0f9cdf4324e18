-- ===== src/Cache/InMemory/Laws.antt =====
-- cache/cache.go: the invariant of InMemoryCache, its bounds, and what is read after a write.
use go_warp.Base.{
  ◌+◌, ◌≡◌, refl, ◌⊎◌, inl, inr, Duration, Time, List, [], ◌∷◌, Key, key_eq, key_beq_iff, beq_refl,
  lookup, has, lookup-insert, lookup-delete, Distinct, insert-Distinct, delete-Distinct,
  length-delete, length, Option, none, some, arith, Bool-cases,
}
use go_warp.Errors.{Error}
use go_warp.Cache.InMemory.{
  Item, Config, InMemory, Ctx, remove_key, back, is_expired, drop_item, get_live, get_item,
  get_entered, get, evict_from, evict_key, evict_back, expiry, write_item,
}
use go_warp.Cache.InMemory.Order.{
  contains, Unique, contains-remove_key, remove_key-Unique, contains-remove_back,
  remove_back-Unique, back-some,
}

-- The items and the recency list hold the same keys, each once.
pub record Sound {V : Type 0} (items : List (Key × Item V)) (order : List Key) : Type 0 where
  pub distinct : Distinct items
  pub unique : Unique order
  pub same : (k : Key) → has k items ≡ contains k order

abbrev pub IsValid : {V : Type 0} → InMemory V → Type 0
IsValid c = Sound c.items c.order

module _ {V : Type 0} where
  pub drop_item-IsValid :
      (key : Key) (it : Item V) (c : InMemory V) → IsValid c → IsValid (drop_item key it c)
  unfolding drop_item
  drop_item-IsValid key it c v = record {
    distinct = delete-Distinct key c.items v.distinct;
    unique = remove_key-Unique key c.order v.unique;
    same = λ k.
        ground (
          arith,
          lookup-delete key k c.items,
          contains-remove_key key k c.order v.unique,
          v.same k,
        );
  }

  touch-IsValid :
      (key : Key) (it : Item V) (c : InMemory V)
      → IsValid c
      → lookup key c.items ≡ some it
      → IsValid (record c { order = key ∷ remove_key key c.order })
  unfolding contains
  touch-IsValid key it c v found = record {
    distinct = v.distinct;
    unique = (
      ground (arith, contains-remove_key key key c.order v.unique, beq_refl key),
      remove_key-Unique key c.order v.unique,
    );
    same = λ k.
        ground
          (arith, contains-remove_key key k c.order v.unique, v.same k, key_beq_iff key k, found);
  }

  get_live-IsValid :
      (locked : Option Error) (key : Key) (it : Item V) (c : InMemory V)
      → IsValid c
      → lookup key c.items ≡ some it
      → IsValid (get_live locked key it c).1
  unfolding get_live
  get_live-IsValid none key it c v found = touch-IsValid key it c v found
  get_live-IsValid (some e) key it c v found = touch-IsValid key it c v found

  get_item-IsValid :
      (ctx : Ctx) (now : Time) (key : Key) (o : Option (Item V)) (c : InMemory V)
      → IsValid c
      → lookup key c.items ≡ o
      → IsValid (get_item ctx now key o c).1
  unfolding get_item
  get_item-IsValid ctx now key none c v found = v
  get_item-IsValid ctx now key (some it) c v found = elim (Bool-cases (is_expired now it)) [
    | inl old ↦ rw old (drop_item-IsValid key it c v)
    | inr live ↦ rw live (get_live-IsValid ctx.locked key it c v found)
  ]

  get_entered-IsValid :
      (o : Option Error) (ctx : Ctx) (now : Time) (key : Key) (c : InMemory V)
      → IsValid c
      → IsValid (get_entered o ctx now key c).1
  unfolding get_entered
  get_entered-IsValid (some e) ctx now key c v = v
  get_entered-IsValid none ctx now key c v = get_item-IsValid ctx now key _ c v refl

  pub write_item-IsValid :
      (cfg : Config V) (now : Time) (key : Key) (x : V) (ttl : Duration) (c : InMemory V)
      → IsValid c
      → IsValid (write_item cfg now key x ttl c)
  unfolding write_item contains
  write_item-IsValid cfg now key x ttl c v = record {
    distinct = insert-Distinct key _ c.items v.distinct;
    unique = (
      ground (arith, contains-remove_key key key c.order v.unique, beq_refl key),
      remove_key-Unique key c.order v.unique,
    );
    same = λ k. ground (
      arith,
      lookup-insert key k
          (record { value = x; size = cfg.estimate_size x; expires_at = expiry now ttl }) c.items,
      contains-remove_key key k c.order v.unique,
      v.same k,
    );
  }

  evict_key-IsValid :
      (k : Key) (o : Option (Item V)) (c : InMemory V)
      → IsValid c
      → back c.order ≡ some k
      → lookup k c.items ≡ o
      → IsValid (evict_key k o c) × (length (evict_key k o c).items + 1 ≡ length c.items)
  unfolding evict_key
  evict_key-IsValid k none c v last gone =
      absurd (ground (arith, v.same k, contains-remove_back c.order k k v.unique last))
  evict_key-IsValid k (some it) c v last found = (
    record {
      distinct = delete-Distinct k c.items v.distinct;
      unique = remove_back-Unique c.order v.unique;
      same = λ j. ground (
        arith,
        lookup-delete k j c.items,
        contains-remove_back c.order k j v.unique last,
        v.same j,
      );
    },
    ground (arith, length-delete k c.items v.distinct),
  )

  evict_from-IsValid :
      (order : List Key) (c : InMemory V)
      → IsValid c
      → c.order ≡ order
      → IsValid (evict_from (back order) c)
        × ((order ≡ []) ⊎ (length (evict_from (back order) c).items + 1 ≡ length c.items))
  unfolding evict_from back
  evict_from-IsValid [] c v e = (v, inl refl)
  evict_from-IsValid (x ∷ xs) c v e =
      let (k, last) = back-some x xs in
      let there : back c.order ≡ some k = rw e last in
      let kept = evict_key-IsValid k (lookup k c.items) c v there refl in
      rw last (kept.0, inr kept.1)

  -- An eviction from a list that is not empty removes an item.
  pub evict_back-IsValid :
      (c : InMemory V)
      → IsValid c
      → IsValid (evict_back c)
        × ((c.order ≡ []) ⊎ (length (evict_back c).items + 1 ≡ length c.items))
  unfolding evict_back
  evict_back-IsValid c v = evict_from-IsValid c.order c v refl

  -- Get keeps the items and the recency list in step, on a hit, a miss, an expired item and a
  -- context that is done.
  pub get-IsValid :
      (ctx : Ctx) (now : Time) (key : Key) (c : InMemory V)
      → IsValid c
      → IsValid (get ctx now key c).1
  unfolding get
  get-IsValid ctx now key c v = get_entered-IsValid ctx.at_entry ctx now key c v
