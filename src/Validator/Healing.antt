-- ===== src/Validator/Healing.antt =====
-- validator/validator.go: what a scan counts and repairs.
use go_warp.Base.{
  ℕ, suc, ◌+◌, ◌%◌, ◌^◌, ◌≡◌, refl, ap, ◌∙◌, pos, Bool, true, false, ◌&&◌, List, [], ◌∷◌, Key,
  key_eq, key_beq_iff, beq_refl, ◌==◌, if◌then◌else◌, listed, some, arith, Bool-cases, inl, inr,
}
use go_warp.Errors.{Result, ok, Got, hit, miss, failed}
use go_warp.Cache.Api.{CacheOps, IsCache}
use go_warp.Core.Ports.{StoreOps, IsStore}
use go_warp.Validator.{
  Mode, heals, Validator, differ, repair, compare_values, check_value, check_key, check_keys,
  scan_keys, scan_store, scan,
}

either : {A : Type 0} (c : Bool) (a : A) → (if c then a else a) ≡ a
either true a = refl
either false a = refl

module _ {C S T : Type 0} (cache_ops : CacheOps C T) (store_ops : StoreOps S T)
    (digest : T → Result Key) (cache_law : IsCache cache_ops) (store_law : IsStore store_ops) where
  abbrev pub differ_got : Got T → Got T → Bool
  differ_got (hit cv) (hit sv) = differ (digest cv) (digest sv)
  differ_got (hit cv) miss = false
  differ_got (hit cv) (failed e) = false
  differ_got miss r = false
  differ_got (failed e) r = false

  -- The two values of a key have digests that differ.
  abbrev pub mismatch : Key → C → S → Bool
  mismatch k c s = differ_got (cache_ops.get k c).0 (store_ops.get k s).0

  -- A second check of a key changes nothing.
  settled :
      (a b : Got T) (h e l : Bool)
      → let a' = if differ_got a b && (h && e) then b else a in
        (if differ_got a' b && (h && l) then b else a')
        ≡ (if differ_got a b && (h && (if e then true else l)) then b else a)
  settled a b false e l = elim (Bool-cases (differ_got a b)) [
    | inl t ↦ rw (t, t) refl
    | inr f ↦ rw (f, f) refl
  ]
  settled a b true false l = elim (Bool-cases (differ_got a b)) [
    | inl t ↦ rw (t, t) refl
    | inr f ↦ rw (f, f) refl
  ]
  settled a b true true l = elim (Bool-cases (differ_got a b)) [
    | inl t ↦ rw t (either (differ_got b b && l) b)
    | inr f ↦ rw (f, f) refl
  ]

  -- What one check leaves.
  abbrev Checked : Mode → Key → C → S → ℕ × C × S → Type 0
  Checked mode k c s (n, c', s') =
      (n ≡ (if mismatch k c s then 1 else 0))
      × ((j : Key)
          → (cache_ops.get j c').0 ≡ (
              if mismatch j c s && (heals mode && (k == j))
              then (store_ops.get j s).0
              else (cache_ops.get j c).0))
      × ((j : Key) → (store_ops.get j s').0 ≡ (store_ops.get j s).0)

  compare_values-lem :
      (mode : Mode) (k : Key) (cv : T) (r : Got T) (c : C)
      → let (n, c') = compare_values cache_ops store_ops digest mode k cv r c in
        (n ≡ (if differ_got (hit cv) r then 1 else 0))
        × ((j : Key)
            → (cache_ops.get j c').0 ≡ (
                if differ_got (hit cv) r && (heals mode && (k == j))
                then r
                else (cache_ops.get j c).0))
  unfolding compare_values repair
  compare_values-lem mode k cv miss c = (refl, λ j. refl)
  compare_values-lem mode k cv (failed e) c = (refl, λ j. refl)
  compare_values-lem mode k cv (hit sv) c = elim (Bool-cases (differ (digest cv) (digest sv))) [
    | inr same ↦ rw same (refl, λ j. refl)
    | inl other ↦ elim (Bool-cases (heals mode)) [
      | inl t ↦ rw (other, t) (refl, λ j. cache_law.get-set k j sv (pos 0) c)
      | inr f ↦ rw (other, f) (refl, λ j. refl)
    ]
  ]

  check_value-Checked :
      (mode : Mode) (k : Key) (r : Got T) (c : C) (s : S)
      → let (n, c', s') = check_value cache_ops store_ops digest mode k r c s in
        (n ≡ (if differ_got r (store_ops.get k s).0 then 1 else 0))
        × ((j : Key)
            → (cache_ops.get j c').0 ≡ (
                if differ_got r (store_ops.get k s).0 && (heals mode && (k == j))
                then (store_ops.get k s).0
                else (cache_ops.get j c).0))
        × ((j : Key) → (store_ops.get j s').0 ≡ (store_ops.get j s).0)
  unfolding check_value
  check_value-Checked mode k miss c s = (refl, λ j. refl, λ j. refl)
  check_value-Checked mode k (failed e) c s = (refl, λ j. refl, λ j. refl)
  check_value-Checked mode k (hit cv) c s =
      let (n, kept) = compare_values-lem mode k cv (store_ops.get k s).0 c in
      (n, kept, λ j. store_law.get-get k j s)

  about_key :
      (mode : Mode) (k j : Key) (c : C) (s : S) (r : Got T)
      → r ≡ (
          if mismatch k c s && (heals mode && (k == j))
          then (store_ops.get k s).0
          else (cache_ops.get j c).0)
      → r ≡ (
          if mismatch j c s && (heals mode && (k == j))
          then (store_ops.get j s).0
          else (cache_ops.get j c).0)
  about_key mode k j c s r e = elim (Bool-cases (k == j)) [
    | inl t ↦ rw t (rw (t, (key_beq_iff k j).0 t) at e)
    | inr f ↦ ground (arith, e)
  ]

  check_key-Checked :
      (mode : Mode) (k : Key) (c : C) (s : S)
      → Checked mode k c s (check_key cache_ops store_ops digest mode k c s)
  unfolding check_key
  check_key-Checked mode k c s =
      let (n, kept, same) =
        check_value-Checked mode k (cache_ops.get k c).0 (cache_ops.get k c).1 s in
      (n, λ j. about_key mode k j c s _ (rw (cache_law.get-get k j c) at (kept j)), same)

  -- What a whole loop leaves.
  abbrev Repaired : Mode → List Key → C → S → C → S → Type 0
  Repaired mode keys c s c' s' =
      ((j : Key)
        → (cache_ops.get j c').0 ≡ (
            if mismatch j c s && (heals mode && listed j keys)
            then (store_ops.get j s).0
            else (cache_ops.get j c).0))
      × ((j : Key) → (store_ops.get j s').0 ≡ (store_ops.get j s).0)

  abbrev pub mismatches_in : List Key → C → S → ℕ
  mismatches_in [] c s = 0
  mismatches_in (k ∷ ks) c s = (if mismatch k c s then 1 else 0) + mismatches_in ks c s

  check_keys-Repaired :
      (done : ℕ → Bool) (i : ℕ) (mode : Mode) (keys : List Key) (c : C) (s : S)
      → ((k : ℕ) → done k ≡ false)
      → let (n, c', s') = check_keys cache_ops store_ops digest done i mode keys c s in
        Repaired mode keys c s c' s'
  unfolding check_keys
  check_keys-Repaired done i mode [] c s going = (λ j. ground arith, λ j. refl)
  check_keys-Repaired done i mode (k ∷ ks) c s going =
      let (n, c', s') = check_key cache_ops store_ops digest mode k c s in
      let (one, kept, same) = check_key-Checked mode k c s in
      let (rest, same') = check_keys-Repaired done (suc i) mode ks c' s' going in
      rw (going i) (
        λ j.
            rest j
            ∙ rw (kept j, same j)
                (settled (cache_ops.get j c).0 (store_ops.get j s).0 (heals mode) (k == j)
                  (listed j ks)),
        λ j. same' j ∙ same j,
      )

  mismatches_kept :
      (keys : List Key) (c c' : C) (s s' : S)
      → ((j : Key) → listed j keys ≡ true → mismatch j c' s' ≡ mismatch j c s)
      → mismatches_in keys c' s' ≡ mismatches_in keys c s
  mismatches_kept [] c c' s s' h = refl
  mismatches_kept (k ∷ ks) c c' s s' h =
      let first : mismatch k c' s' ≡ mismatch k c s = h k (rw (beq_refl k) refl) in
      rw first (
        ap (λ (n : ℕ). (if mismatch k c s then 1 else 0) + n)
          (mismatches_kept ks c c' s s'
            λ j l. h j (elim (Bool-cases (k == j)) [ inl t ↦ rw t refl | inr f ↦ rw (f, l) refl ])))

  -- The keys of a list, each once.
  abbrev pub AllDifferent : List Key → Type 0
  AllDifferent [] = Unit
  AllDifferent (k ∷ ks) = (listed k ks ≡ false) × AllDifferent ks

  check_keys-count :
      (done : ℕ → Bool) (i : ℕ) (mode : Mode) (keys : List Key) (c : C) (s : S)
      → ((k : ℕ) → done k ≡ false)
      → AllDifferent keys
      → (check_keys cache_ops store_ops digest done i mode keys c s).0 ≡ mismatches_in keys c s
  unfolding check_keys
  check_keys-count done i mode [] c s going d = refl
  check_keys-count done i mode (k ∷ ks) c s going d =
      let (n, c', s') = check_key cache_ops store_ops digest mode k c s in
      let (one, kept, same) = check_key-Checked mode k c s in
      let rest = check_keys-count done (suc i) mode ks c' s' going d.1 in
      let apart : mismatches_in ks c' s' ≡ mismatches_in ks c s =
        mismatches_kept ks c c' s s' λ j l. elim (Bool-cases (k == j)) [
          | inl t ↦
              let clash : listed j ks ≡ false = rw ((key_beq_iff k j).0 t) at (d.0) in absurd (cc)
          | inr other ↦
              let value : (cache_ops.get j c').0 ≡ (cache_ops.get j c).0 =
                ground (arith, kept j, other) in
              rw (value, same j) refl
        ] in
      rw (going i) (omega (arith, one, rest, apart))

  -- A scan that reaches the end of the store's keys, each listed once, counts the keys whose cached
  -- value has a digest that differs from the stored one's. In the mode that heals, exactly these
  -- keys then read as the store has them; every other read of the cache, and every read in the
  -- other modes, answers what it did. The cache keeps what it is given, and reads change nothing.
  pub scan_lem :
      (done : ℕ → Bool) (v : Validator C S) (store : S) (keys : List Key)
      → v.store ≡ some store
      → (store_ops.keys store).0 ≡ ok keys
      → ((i : ℕ) → done i ≡ false)
      → AllDifferent keys
      → let v' = scan cache_ops store_ops digest done v in
        (v'.mismatches ≡ (v.mismatches + mismatches_in keys v.cache store) % 2 ^ 64)
        × ((j : Key)
            → (cache_ops.get j v'.cache).0 ≡ (
                if mismatch j v.cache store && (heals v.mode && listed j keys)
                then (store_ops.get j store).0
                else (cache_ops.get j v.cache).0))
  unfolding scan scan_store scan_keys
  scan_lem done v store keys held listing going different =
      let read : S = (store_ops.keys store).1 in
      let (repaired, same) = check_keys-Repaired done 0 v.mode keys v.cache read going in
      let counted = check_keys-count done 0 v.mode keys v.cache read going different in
      rw (held, listing)
        (
          ap (λ (n : ℕ). (v.mismatches + n) % 2 ^ 64)
              (counted
                ∙ mismatches_kept keys v.cache v.cache store read λ j l.
                  ap (λ (r : Got T). differ_got (cache_ops.get j v.cache).0 r)
                    (store_law.get-keys j store)),
          λ j. rw (store_law.get-keys j store) at (repaired j),
        )
