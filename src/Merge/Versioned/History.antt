-- ===== src/Merge/Versioned/History.antt =====
-- merge/versioned.go: what the history of a versioned value holds.
use go_warp.Base.{
  ℕ, zero, suc, ◌-◌, ◌≤◌, ◌<◌, ◌≡◌, refl, ◌⊎◌, ◌≢◌, inl, inr, Time, after, ◌≤ℤ◌, ◌<ℤ◌, ◌&&◌, List,
  [], ◌∷◌, ◌++◌, Option, none, some, length, length-append, length-drop, drop, get_elem?, ltb,
  arith, Bool-cases, ap,
}
use native.Mathlib.Decide.{dec_lt}
use go_warp.Merge.Engine.{Value}
use go_warp.Merge.Versioned.{VersionedValue, add, trim, latest, at, at_step, at_below}

module _ {T : Type 0} where
  -- A bounded history is within its limit.
  abbrev pub Bounded : VersionedValue T → Type 0
  Bounded v = (v.limit ≡ 0) ⊎ (length v.versions ≤ v.limit)

  take_drop : (n : ℕ) (vs : List (Value T)) → (front : List (Value T)) × (front ++ drop n vs ≡ vs)
  take_drop zero vs = ([], refl)
  take_drop (suc n) [] = ([], refl)
  take_drop (suc n) (v ∷ vs) = let (front, e) = take_drop n vs in (v ∷ front, ap (◌∷◌ v) e)

  trim-window :
      (limit : ℕ) (vs : List (Value T))
      → (front : List (Value T)) × (front ++ trim limit vs ≡ vs)
        × ((limit ≡ 0) ⊎ (length (trim limit vs) ≤ limit))
        × ((front ≡ []) ⊎ ((0 < limit) × (length (trim limit vs) ≡ limit)))
  unfolding trim
  trim-window limit vs = elim (Bool-cases (ltb 0 limit && ltb limit (length vs))) [
    | inl t ↦
        let (front, e) = take_drop (length vs - limit) vs in
        let n = length-drop (length vs - limit) vs in
        rw t (front, e, ground (arith, n), ground (arith, n))
    | inr f ↦ rw f ([], refl, ground arith, inl refl)
  ]

  -- `Add` keeps a suffix of the old history with the new value at its end: at most `limit`
  -- values, and nothing is dropped unless `limit` are kept.
  pub add-window :
      (val : Value T) (v : VersionedValue T)
      → (front : List (Value T)) × (front ++ (add val v).versions ≡ v.versions ++ val ∷ [])
        × Bounded (add val v)
        × ((front ≡ []) ⊎ ((0 < v.limit) × (length (add val v).versions ≡ v.limit)))
  unfolding add
  add-window val v = trim-window v.limit (v.versions ++ val ∷ [])

  get_elem?-append_last :
      (vs : List (Value T)) (val : Value T)
      → get_elem? (vs ++ val ∷ []) (length (vs ++ val ∷ []) - 1) ≡ some val
  get_elem?-append_last [] val = refl
  get_elem?-append_last (v ∷ vs) val =
      ground (arith, length-append vs (val ∷ []), get_elem?-append_last vs val)

  last_append :
      (front back vs : List (Value T)) (val : Value T)
      → front ++ back ≡ vs ++ val ∷ []
      → 0 < length back
      → get_elem? back (length back - 1) ≡ some val
  last_append [] back vs val e h = rw e (get_elem?-append_last vs val)
  last_append (f ∷ fs) back [] val e h = absurd (omega (arith, ap length e, length-append fs back))
  last_append (f ∷ fs) back (v ∷ vs) val e h = last_append fs back vs val (cc) h

  kept_length :
      (front back : List (Value T)) (limit : ℕ)
      → (front ≡ []) ⊎ ((0 < limit) × (length back ≡ limit))
      → (length front ≡ 0) ⊎ (0 < length back)
  kept_length front back limit h = ground arith

  -- `Latest` after `Add` is the added value.
  pub latest-add : (val : Value T) (v : VersionedValue T) → latest (add val v) ≡ some val
  unfolding latest
  latest-add val v =
      let (front, e, bounded, kept) = add-window val v in
      last_append front (add val v).versions v.versions val e (
        omega (
          arith,
          kept_length front (add val v).versions v.limit kept,
          ap length e,
          length-append front (add val v).versions,
          length-append v.versions (val ∷ []),
        ))

  -- The newest entry below `n` that is not after `t`.
  abbrev pub Newest : List (Value T) → Time → ℕ → Option (Value T) → Type 0
  Newest vs t n (some v) =
      (i : ℕ) × (i < n)
      × (get_elem? vs i ≡ some v)
      × (v.timestamp ≤ℤ t)
      × ((j : ℕ) (w : Value T) → i < j → j < n → get_elem? vs j ≡ some w → t <ℤ w.timestamp)
  Newest vs t n none = (j : ℕ) (w : Value T) → j < n → get_elem? vs j ≡ some w → t <ℤ w.timestamp

  -- A later entry that is after `t` does not change the newest one that is not.
  Newest-later :
      (vs : List (Value T)) (t : Time) (n : ℕ) (v : Value T) (o : Option (Value T))
      → get_elem? vs n ≡ some v
      → t <ℤ v.timestamp
      → Newest vs t n o
      → Newest vs t (suc n) o
  Newest-later vs t n v none here late h = λ j w lt there. elim (dec_lt j n) [
    | yes low ↦ h j w low there
    | no high ↦ let e : j ≡ n = omega arith in let same : w ≡ v = cc in rw same late
  ]
  Newest-later vs t n v (some x) here late (i, low, at_i, fits, above) = (
    i,
    omega arith,
    at_i,
    fits,
    λ j w gt lt there. elim (dec_lt j n) [
      | yes low' ↦ above j w gt low' there
      | no high ↦ let e : j ≡ n = omega arith in let same : w ≡ v = cc in rw same late
    ],
  )

  get_elem?_lt : (vs : List (Value T)) (n : ℕ) → n < length vs → get_elem? vs n ≢ none
  get_elem?_lt [] n h = absurd (omega arith)
  get_elem?_lt (x ∷ vs) zero h = λ e. cc
  get_elem?_lt (x ∷ vs) (suc n) h = get_elem?_lt vs n (omega arith)

  at_step-Newest :
      (vs : List (Value T)) (t : Time) (n : ℕ) (o rest : Option (Value T))
      → get_elem? vs n ≡ o
      → n < length vs
      → Newest vs t n rest
      → Newest vs t (suc n) (at_step t o rest)
  unfolding at_step
  at_step-Newest vs t n none rest here lt h = absurd (get_elem?_lt vs n lt here)
  at_step-Newest vs t n (some v) rest here lt h = elim (Bool-cases (after v.timestamp t)) [
    | inl late ↦ rw late (Newest-later vs t n v rest here (ground arith) h)
    | inr fits ↦
        rw fits (n, omega arith, here, ground arith, λ j w gt lt' there. absurd (omega arith))
  ]

  at_below-Newest :
      (vs : List (Value T)) (t : Time) (n : ℕ) → n ≤ length vs → Newest vs t n (at_below vs t n)
  unfolding at_below
  at_below-Newest vs t zero h = λ j w lt _. absurd (omega arith)
  at_below-Newest vs t (suc n) h =
      at_step-Newest vs t n (get_elem? vs n) (at_below vs t n) refl h
        (at_below-Newest vs t n (omega arith))

  -- `At` returns the newest value whose timestamp is not after `t`, and nothing only if all are.
  pub at-Newest :
      (t : Time) (v : VersionedValue T) → Newest v.versions t (length v.versions) (at t v)
  unfolding at
  at-Newest t v = at_below-Newest v.versions t (length v.versions) (omega arith)
