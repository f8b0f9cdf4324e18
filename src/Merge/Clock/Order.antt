-- ===== src/Merge/Clock/Order.antt =====
-- merge/merge.go: what Compare, Merge and Copy of VectorClock mean for the counters.
use go_warp.Base.{
  ℕ, ◌≤◌, ◌≡◌, refl, ◌↔◌, ◌⊎◌, inl, inr, ℤ, pos, negsuc, Bool, true, false, [], ◌∷◌, Key, key_eq,
  key_beq_iff, lookup, insert, lookup-insert, has, ltb, max, if◌then◌else◌, some, arith, Distinct,
  insert-Distinct, All, All-lookup, lookup-All, Option-cases, Bool-cases, not, ◌&&◌,
}
use go_warp.Merge.Clock.{
  VectorClock, counter, copy_into, copy, merge, scan_own, scan_missing, verdict, compare,
}

-- Every counter of `b` is at most that of `a`.
abbrev pub Dominates : VectorClock → VectorClock → Type 0
Dominates a b = (k : Key) → counter k b ≤ counter k a

abbrev AtMost : VectorClock → Key × ℕ → Type 0
AtMost other e = e.1 ≤ counter (e.0) other

abbrev AtLeast : VectorClock → Key × ℕ → Type 0
AtLeast other e = counter (e.0) other ≤ e.1

abbrev Covered : VectorClock → Key × ℕ → Type 0
Covered vc e = (has (e.0) vc ≡ true) ⊎ (e.1 ≤ 0)

scan_own_greater :
    (vc other : VectorClock) (g s : Bool)
    → ((scan_own vc other g s).0 ≡ false) ↔ ((g ≡ false) × All (AtMost other) vc)
unfolding scan_own
scan_own_greater [] other g s = ground arith
scan_own_greater ((k, v) ∷ vc) other g s = ground (
  arith,
  scan_own_greater vc other (if ltb (counter k other) v then true else g)
      (if ltb v (counter k other) then true else s),
)

scan_own_smaller :
    (vc other : VectorClock) (g s : Bool)
    → ((scan_own vc other g s).1 ≡ false) ↔ ((s ≡ false) × All (AtLeast other) vc)
unfolding scan_own
scan_own_smaller [] other g s = ground arith
scan_own_smaller ((k, v) ∷ vc) other g s = ground (
  arith,
  scan_own_smaller vc other (if ltb (counter k other) v then true else g)
      (if ltb v (counter k other) then true else s),
)

scan_missing_lem :
    (other vc : VectorClock) (s : Bool)
    → (scan_missing other vc s ≡ false) ↔ ((s ≡ false) × All (Covered vc) other)
unfolding scan_missing
scan_missing_lem [] vc s = ground arith
scan_missing_lem ((k, v) ∷ other) vc s =
    ground (arith, scan_missing_lem other vc (if not (has k vc) && ltb 0 v then true else s))

found_counter : (k : Key) (v : ℕ) (vc : VectorClock) → lookup k vc ≡ some v → counter k vc ≡ v
found_counter k v vc h = ground arith

-- The first loop raises no `greater` flag exactly when `other` dominates.
AtMost-iff : (vc other : VectorClock) → Distinct vc → All (AtMost other) vc ↔ Dominates other vc
AtMost-iff vc other d = (
  λ a k. elim (Option-cases (lookup k vc)) [
    | inl gone ↦ ground arith
    | inr (v, found) ↦ ground (arith, All-lookup (AtMost other) vc k v a found)
  ],
  λ dom.
      lookup-All (AtMost other) vc d λ k v found. ground (arith, dom k, found_counter k v vc found),
)

-- The four answers, for what the two flags mean.
abbrev pub Reads : ℤ → Type 0 → Type 0 → Type 0
Reads answer dominates dominated =
    ((answer ≡ pos 1) ↔ (dominates × ¬ dominated))
    × ((answer ≡ negsuc 0) ↔ (dominated × ¬ dominates))
    × ((answer ≡ pos 0) ↔ (dominates × dominated))
    × ((answer ≡ negsuc 1) ↔ (¬ dominates × ¬ dominated))

verdict-Reads :
    {P Q : Type 0} (greater smaller : Bool)
    → (greater ≡ false) ↔ Q
    → (smaller ≡ false) ↔ P
    → Reads (verdict greater smaller) P Q
unfolding verdict
verdict-Reads false false q p = (
  (λ e. cc, λ h. absurd (h.1 (q.0 refl))),
  (λ e. cc, λ h. absurd (h.1 (p.0 refl))),
  (λ e. (p.0 refl, q.0 refl), λ h. refl),
  (λ e. cc, λ h. absurd (h.0 (p.0 refl))),
)
verdict-Reads false true q p = (
  (λ e. cc, λ h. absurd (h.1 (q.0 refl))),
  (λ e. (q.0 refl, λ x. cc (p.1 x)), λ h. refl),
  (λ e. cc, λ h. cc (p.1 h.0)),
  (λ e. cc, λ h. absurd (h.1 (q.0 refl))),
)
verdict-Reads true false q p = (
  (λ e. (p.0 refl, λ x. cc (q.1 x)), λ h. refl),
  (λ e. cc, λ h. absurd (h.1 (p.0 refl))),
  (λ e. cc, λ h. cc (q.1 h.1)),
  (λ e. cc, λ h. absurd (h.0 (p.0 refl))),
)
verdict-Reads true true q p = (
  (λ e. cc, λ h. cc (p.1 h.0)),
  (λ e. cc, λ h. cc (q.1 h.0)),
  (λ e. cc, λ h. cc (p.1 h.0)),
  (λ e. (λ x. cc (p.1 x), λ x. cc (q.1 x)), λ h. refl),
)

module _ (vc other : VectorClock) (dv : Distinct vc) (dw : Distinct other) where
  -- No `smaller` flag is raised exactly when `vc` dominates.
  Covered-iff : (All (AtLeast other) vc × All (Covered vc) other) ↔ Dominates vc other
  Covered-iff = (
    λ a k. elim (Option-cases (lookup k vc)) [
      | inr (v, found) ↦ ground (arith, All-lookup (AtLeast other) vc k v a.0 found)
      | inl gone ↦ elim (Option-cases (lookup k other)) [
        | inr (w, there) ↦ ground (arith, All-lookup (Covered vc) other k w a.1 there)
        | inl absent ↦ ground arith
      ]
    ],
    λ dom. (
      lookup-All (AtLeast other) vc dv
          λ k v found. ground (arith, dom k, found_counter k v vc found),
      lookup-All (Covered vc) other dw
          λ k w there. ground (arith, dom k, found_counter k w other there),
    ),
  )

  greater_iff : ((scan_own vc other false false).0 ≡ false) ↔ Dominates other vc
  greater_iff =
      let flag = scan_own_greater vc other false false in
      let all = AtMost-iff vc other dv in (λ e. all.0 (flag.0 e).1, λ dom. flag.1 (refl, all.1 dom))

  smaller_iff :
      (scan_missing other vc (scan_own vc other false false).1 ≡ false) ↔ Dominates vc other
  smaller_iff =
      let own = scan_own_smaller vc other false false in
      let missing = scan_missing_lem other vc (scan_own vc other false false).1 in
      (
        λ e. let m = missing.0 e in Covered-iff.0 ((own.0 m.0).1, m.1),
        λ dom. let c = Covered-iff.1 dom in missing.1 (own.1 (refl, c.0), c.1),
      )

  -- `Compare` answers 1, -1, 0 or -2 exactly when the first clock dominates alone, the second one
  -- alone, both, or neither.
  pub compare-Reads : Reads (compare vc other) (Dominates vc other) (Dominates other vc)
  unfolding compare
  compare-Reads = verdict-Reads _ _ greater_iff smaller_iff

-- `Merge` takes the larger counter of each region.
counter-insert :
    (k j : Key) (v : ℕ) (vc : VectorClock)
    → counter j (insert k v vc) ≡ (if key_eq.beq k j then v else counter j vc)
counter-insert k j v vc = ground (arith, lookup-insert k j v vc)

-- A merged clock has each region once.
merge-Distinct : (vc other : VectorClock) → Distinct vc → Distinct (merge vc other)
unfolding merge
merge-Distinct vc [] d = d
merge-Distinct vc ((k, v) ∷ other) d = elim (Bool-cases (ltb (counter k vc) v)) [
  | inl t ↦ rw t (merge-Distinct (insert k v vc) other (insert-Distinct k v vc d))
  | inr f ↦ rw f (merge-Distinct vc other d)
]

pub counter-merge :
    (vc other : VectorClock) (j : Key)
    → Distinct other
    → counter j (merge vc other) ≡ max (counter j vc) (counter j other)
unfolding merge lookup
counter-merge vc [] j d = omega arith
counter-merge vc ((k, v) ∷ other) j d =
    let same : key_eq.beq k j ≡ true → k ≡ j = (key_beq_iff k j).0 in
    ground (
      arith,
      same,
      key_beq_iff k j,
      counter-merge (if ltb (counter k vc) v then insert k v vc else vc) other j d.1,
      counter-insert k j v vc,
      d.0,
    )

-- The merged clock is the least that dominates both.
pub merge-least :
    (vc other bound : VectorClock)
    → Distinct other
    → Dominates (merge vc other) vc
      × Dominates (merge vc other) other
      × ((Dominates bound vc × Dominates bound other) ↔ Dominates bound (merge vc other))
merge-least vc other bound d = (
  λ k. omega (arith, counter-merge vc other k d),
  λ k. omega (arith, counter-merge vc other k d),
  (
    λ h k. omega (arith, counter-merge vc other k d, h.0 k, h.1 k),
    λ h. (
      λ k. omega (arith, counter-merge vc other k d, h k),
      λ k. omega (arith, counter-merge vc other k d, h k),
    ),
  ),
)

counter-copy_into :
    (n vc : VectorClock) (j : Key)
    → Distinct vc
    → counter j (copy_into n vc) ≡ (if has j vc then counter j vc else counter j n)
unfolding copy_into lookup
counter-copy_into n [] j d = refl
counter-copy_into n ((k, v) ∷ vc) j d =
    ground (
      arith,
      key_beq_iff k j,
      counter-copy_into (insert k v n) vc j d.1,
      counter-insert k j v n,
      d.0,
    )

-- A copy has the counters of the original.
pub counter-copy : (vc : VectorClock) (j : Key) → Distinct vc → counter j (copy vc) ≡ counter j vc
unfolding copy lookup
counter-copy vc j d = ground (arith, counter-copy_into [] vc j d)
