-- ===== src/Cache/InMemory/Sweep/Ends.antt =====
-- cache/cache.go: a tick of the sweeper ends, and removes only what is expired.
use go_warp.Base.{
  ℕ, zero, suc, ◌+◌, ◌≤◌, ◌≡◌, refl, Time, false, List, [], ◌∷◌, Key, key_eq, key_beq_iff, lookup,
  lookup-delete, length-delete, length, ltb, nat_beq, Option, none, some, arith, Bool-cases, inl,
  inr,
}
use go_warp.Cache.InMemory.{Item, InMemory, is_expired}
use go_warp.Cache.InMemory.Laws.{IsValid, drop_item-IsValid}
use go_warp.Cache.InMemory.Sweep.{
  sample_size, repeat_from, sweep_entry, sweep_sample, sweep_passes, sweep,
}

module _ {V : Type 0} where
  -- From `before` to `after`, where `n` entries were removed.
  record Swept (n : ℕ) (before after : InMemory V) : Type 0 where
    fewer : length after.items + n ≡ length before.items
    counted : after.evictions ≡ before.evictions + n
    valid : IsValid after

  -- An entry that is live at the reading is kept.
  abbrev Keeps : Time → InMemory V → InMemory V → Type 0
  Keeps now before after =
      (k : Key) (it : Item V)
      → lookup k before.items ≡ some it
      → is_expired now it ≡ false
      → lookup k after.items ≡ some it

  sweep_entry-Swept :
      (now : Time) (k : Key) (o : Option (Item V)) (c : InMemory V)
      → IsValid c
      → lookup k c.items ≡ o
      → let (n, c') = sweep_entry now k o c in Swept n c c' × Keeps now c c'
  unfolding sweep_entry
  sweep_entry-Swept now k none c v e =
      (record { fewer = omega arith; counted = omega arith; valid = v }, λ j it found live. found)
  sweep_entry-Swept now k (some it) c v e = elim (Bool-cases (is_expired now it)) [
    | inr live ↦
        rw live (
          record { fewer = omega arith; counted = omega arith; valid = v },
          λ j x found lives. found,
        )
    | inl old ↦ rw old (
      record {
        fewer = ground (arith, length-delete k c.items v.distinct);
        counted = omega arith;
        valid = drop_item-IsValid k it c v;
      },
      λ j x found lives. ground (arith, lookup-delete k j c.items, key_beq_iff k j),
    )
  ]

  Swept-trans : {n m : ℕ} {a b c : InMemory V} → Swept n a b → Swept m b c → Swept (n + m) a c
  Swept-trans s t = record {
    fewer = omega (arith, s.fewer, t.fewer);
    counted = omega (arith, s.counted, t.counted);
    valid = t.valid;
  }

  sweep_sample-Swept :
      (left : ℕ) (now : Time) (ks : List Key) (c : InMemory V)
      → IsValid c
      → let (n, c') = sweep_sample left now ks c in Swept n c c' × Keeps now c c'
  unfolding sweep_sample
  sweep_sample-Swept left now [] c v =
      (record { fewer = omega arith; counted = omega arith; valid = v }, λ j x found lives. found)
  sweep_sample-Swept zero now (k ∷ ks) c v =
      (record { fewer = omega arith; counted = omega arith; valid = v }, λ j x found lives. found)
  sweep_sample-Swept (suc left) now (k ∷ ks) c v =
      let c' = (sweep_entry now k (lookup k c.items) c).1 in
      let (first, kept) = sweep_entry-Swept now k (lookup k c.items) c v refl in
      let (later, kept') = sweep_sample-Swept left now ks c' first.valid in
      (Swept-trans first later, λ j x found lives. kept' j x (kept j x found lives) lives)

  module _ (clock : ℕ → Time) (range : ℕ → InMemory V → List Key) where
    -- The outcome of a tick.
    abbrev pub SweptBy : Option (InMemory V) → InMemory V → Type 0
    SweptBy result c =
        (c' : InMemory V) × (result ≡ some c')
        × IsValid c'
        × (length c'.items + c'.evictions ≡ length c.items + c.evictions)
        × ((k : Key) (it : Item V)
            → lookup k c.items ≡ some it
            → ((i : ℕ) → is_expired (clock i) it ≡ false)
            → lookup k c'.items ≡ some it)

    sweep_passes-ends :
        (fuel i : ℕ) (c : InMemory V)
        → IsValid c
        → suc (length c.items) ≤ fuel
        → SweptBy (sweep_passes clock range fuel i c) c
    unfolding sweep_passes
    sweep_passes-ends zero i c v h = absurd (omega arith)
    sweep_passes-ends (suc fuel) i c v h =
        let (n, c') = sweep_sample sample_size (clock i) (range i c) c in
        let (pass, kept) = sweep_sample-Swept sample_size (clock i) (range i c) c v in
        elim (Bool-cases (nat_beq (length c.items) 0)) [
          | inl empty ↦ (c, rw empty refl, v, refl, λ k it found lives. found)
          | inr filled ↦ elim (Bool-cases (ltb n repeat_from)) [
            | inl few ↦ (
              c',
              rw (filled, few) refl,
              pass.valid,
              omega (arith, pass.fewer, pass.counted),
              λ k it found lives. kept k it found (lives i),
            )
            | inr many ↦
                let some_gone : suc (length c'.items) ≤ fuel = ground (arith, pass.fewer) in
                let (c'', ran, valid, counted, kept') =
                  sweep_passes-ends fuel (suc i) c' pass.valid some_gone in
                (
                  c'',
                  rw (filled, many) ran,
                  valid,
                  omega (arith, pass.fewer, pass.counted, counted),
                  λ k it found lives. kept' k it (kept k it found (lives i)) lives,
                )
          ]
        ]

    -- A tick of the sweeper ends, whatever the order in which the map is read and the readings of
    -- the clock: no more passes are made than there are entries, and one. On a valid cache it
    -- keeps the items and the recency list in step, counts an eviction for each item that it
    -- removes, and keeps each item that is not expired at any of the readings.
    pub sweep-ends : (c : InMemory V) → IsValid c → SweptBy (sweep clock range c) c
    unfolding sweep
    sweep-ends c v = sweep_passes-ends (suc (length c.items)) 0 c v (omega arith)
