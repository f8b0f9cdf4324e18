-- ===== src/Cache/InMemory/Bounds.antt =====
-- cache/cache.go: the entry and memory bounds of InMemoryCache hold after every call.
use go_warp.Base.{
  ℕ, zero, suc, ◌+◌, ◌≤◌, ◌≡◌, refl, ap, ◌∙◌, ◌≢◌, ◌⊎◌, inl, inr, pos, ltb_ℤ, ◌≤ℤ◌, Duration, Time,
  true, List, [], ◌∷◌, Key, key_eq, lookup, has, length-insert, length, Option, none, some, arith,
  Bool-cases, ◌&&◌,
}
use go_warp.Errors.{Error}
use go_warp.Cache.InMemory.{
  Item, Config, InMemory, Ctx, back, remove_back, evict_key, evict_from, evict_back, over_entries,
  enforce_entries, evict_memory, enforce_memory, write_item, expiry, set, checked,
}
use go_warp.Cache.InMemory.Order.{length-remove_back, back-some}
use go_warp.Cache.InMemory.Laws.{IsValid, write_item-IsValid, evict_back-IsValid}

empty_of_length : (order : List Key) → length order ≤ 0 → order ≡ []
empty_of_length [] h = refl
empty_of_length (x ∷ xs) h = absurd (omega arith)

evict_key-order :
    {V : Type 0} (k : Key) (o : Option (Item V)) (c : InMemory V)
    → (evict_key k o c).order ≡ remove_back c.order
unfolding evict_key
evict_key-order k none c = refl
evict_key-order k (some it) c = refl

evict_from-order :
    {V : Type 0} (order : List Key) (c : InMemory V) (n : ℕ)
    → c.order ≡ order
    → length order ≤ suc n
    → length (evict_from (back order) c).order ≤ n
unfolding evict_from back
evict_from-order [] c n e h = rw e (omega arith)
evict_from-order (x ∷ xs) c n e h =
    let (k, last) = back-some x xs in
    let gone = evict_key-order k (lookup k c.items) c in
    rw last (rw (gone ∙ ap remove_back e) (omega (arith, length-remove_back x xs)))

module _ {V : Type 0} (cfg : Config V) where
  -- The entries are within the maximum, if there is one.
  abbrev pub WithinEntries : InMemory V → Type 0
  WithinEntries c = (cfg.max_entries ≤ℤ pos 0) ⊎ (pos (length c.items) ≤ℤ cfg.max_entries)

  -- The memory is within the maximum, if there is one, or nothing is left to evict.
  abbrev pub WithinMemory : InMemory V → Type 0
  WithinMemory c = (cfg.max_memory ≤ℤ pos 0) ⊎ (c.current_memory ≤ℤ cfg.max_memory) ⊎ (c.order ≡ [])

  -- One entry over the maximum at most, which an eviction from a list that is not empty undoes.
  enforce_entries-Within :
      (c : InMemory V) (n : ℕ)
      → IsValid c
      → c.order ≢ []
      → (cfg.max_entries ≤ℤ pos 0) ⊎ (pos n ≤ℤ cfg.max_entries)
      → length c.items ≤ n + 1
      → IsValid (enforce_entries cfg c) × WithinEntries (enforce_entries cfg c)
  unfolding enforce_entries over_entries
  enforce_entries-Within c n v full h k =
      let (kept, shrunk) = evict_back-IsValid c v in
      elim (Bool-cases
        (ltb_ℤ (pos 0) cfg.max_entries && ltb_ℤ cfg.max_entries (pos (length c.items)))) [
          | inl over ↦ rw over (kept, ground arith)
          | inr fits ↦ rw fits (v, ground arith)
        ]

  evict_back-empty : (c : InMemory V) → c.order ≡ [] → evict_back c ≡ c
  unfolding evict_back evict_from back
  evict_back-empty c e = rw (ap back e, evict_from)

  fewer : (c : InMemory V) → IsValid c → WithinEntries c → WithinEntries (evict_back c)
  fewer c v e = let (kept, shrunk) = evict_back-IsValid c v in ground (arith, evict_back-empty c)

  evict_memory-Within :
      (fuel : ℕ) (c : InMemory V)
      → IsValid c
      → WithinEntries c
      → length c.order ≤ fuel
      → IsValid (evict_memory fuel cfg c)
        × WithinEntries (evict_memory fuel cfg c)
        × (((evict_memory fuel cfg c).current_memory ≤ℤ cfg.max_memory)
            ⊎ ((evict_memory fuel cfg c).order ≡ []))
  unfolding evict_memory evict_back
  evict_memory-Within zero c v e h = (v, e, inr (empty_of_length c.order h))
  evict_memory-Within (suc fuel) c v e h =
      let (kept, shrunk) = evict_back-IsValid c v in
      elim (Bool-cases (ltb_ℤ cfg.max_memory c.current_memory)) [
        | inl over ↦ rw over (
            evict_memory-Within fuel (evict_back c) kept (fewer c v e)
              (evict_from-order c.order c fuel refl h))
        | inr fits ↦ rw fits (v, e, inl (ground arith))
      ]

  abbrev Bounded : InMemory V → Type 0
  Bounded c = IsValid c × WithinEntries c

  enforce_memory-Within :
      (c : InMemory V)
      → Bounded c
      → Bounded (enforce_memory cfg c) × WithinMemory (enforce_memory cfg c)
  unfolding enforce_memory
  enforce_memory-Within c b = elim (Bool-cases (ltb_ℤ (pos 0) cfg.max_memory)) [
    | inr off ↦ rw off (b, inl (ground arith))
    | inl on ↦
        let (v, e, m) = evict_memory-Within (length c.order) c b.0 b.1 (omega arith) in
        rw on ((v, e), inr m)
  ]

  checked-Within :
      (entry locked : Option Error) (before written : InMemory V)
      → Bounded before
      → Bounded written × WithinMemory written
      → Bounded (checked entry locked before written).1
        × ((checked entry locked before written).0 ≡ none
            → WithinMemory (checked entry locked before written).1)
  unfolding checked
  checked-Within (some e) locked before written b w = (b, λ h. absurd (cc))
  checked-Within none (some e) before written b w = (b, λ h. absurd (cc))
  checked-Within none none before written b w = (w.0, λ h. w.1)

  written-order :
      (now : Time) (key : Key) (x : V) (ttl : Duration) (c : InMemory V)
      → ((write_item cfg now key x ttl c).order ≢ [])
        × (length (write_item cfg now key x ttl c).items ≤ length c.items + 1)
        × (has key c.items ≡ true → length (write_item cfg now key x ttl c).items ≡ length c.items)
  unfolding write_item
  written-order now key x ttl c =
      let n =
        length-insert key
          (record { value = x; size = cfg.estimate_size x; expires_at = expiry now ttl }) c.items in
      (λ h. cc, ground (arith, n), λ h. ground (arith, n))

  -- Whatever the contexts of the calls, Set keeps the items and the recency list in step and the
  -- entries within the maximum; if it returns no error, the memory is within its maximum too, or
  -- everything was evicted.
  pub set-Within :
      (ctx : Ctx) (now : Time) (key : Key) (x : V) (ttl : Duration) (c : InMemory V)
      → IsValid c
      → WithinEntries c
      → (IsValid (set cfg ctx now key x ttl c).1 × WithinEntries (set cfg ctx now key x ttl c).1)
        × ((set cfg ctx now key x ttl c).0 ≡ none → WithinMemory (set cfg ctx now key x ttl c).1)
  unfolding set
  set-Within ctx now key x ttl c v e =
      let written = write_item cfg now key x ttl c in
      let (full, count, _) = written-order now key x ttl c in
      checked-Within ctx.at_entry ctx.locked c _ (v, e)
        (enforce_memory-Within (enforce_entries cfg written) (
          enforce_entries-Within written (length c.items) (write_item-IsValid cfg now key x ttl c v)
            full e count))
