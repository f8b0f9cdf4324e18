-- ===== src/Base/MapLaws.antt =====
-- Maps whose keys are distinct, as a Go map's are, and what holds of all their entries.
use Prim.Native.Nat.{◌+◌}
use mathlib.Core.Path.{◌≡◌, refl}
use mathlib.Core.Logic.{inl, inr}
use mathlib.Core.List.{List, [], ◌∷◌}
use mathlib.Core.Option.{none, some}
use native.Mathlib.Omega.{arith}
use go_warp.Base.Bools.{if◌then◌else◌, Bool-cases}
use go_warp.Base.Lists.{All, length}
use go_warp.Base.Maps.{
  Eq, ◌==◌, has, lookup, insert, delete, lookup-insert, lookup-delete, beq_refl,
}

module _ {ℓ κ} {K : Type ℓ} {V : Type κ} ⦃e : Eq K⦄ where
  abbrev pub Distinct : List (K × V) → Type κ
  Distinct [] = Unit
  Distinct ((k, v) ∷ m) = (lookup k m ≡ none) × Distinct m

  pub insert-Distinct : (k : K) (v : V) (m : List (K × V)) → Distinct m → Distinct (insert k v m)
  unfolding insert lookup
  insert-Distinct k v [] d = (refl, tt)
  insert-Distinct k v ((j, w) ∷ m) d = elim (Bool-cases (j == k)) [
    | inl t ↦ let same : j ≡ k = (e.beq_iff j k).0 t in rw t (rw same at (d.0), d.1)
    | inr f ↦ rw f (
      rw (lookup-insert k j v m) (ground (arith, e.beq_iff k j, e.beq_iff j k, d.0)),
      insert-Distinct k v m d.1,
    )
  ]

  pub delete-Distinct : (k : K) (m : List (K × V)) → Distinct m → Distinct (delete k m)
  unfolding delete
  delete-Distinct k [] d = tt
  delete-Distinct k ((j, w) ∷ m) d = elim (Bool-cases (j == k)) [
    | inl t ↦ rw t (delete-Distinct k m d.1)
    | inr f ↦ rw f (
      rw (lookup-delete k j m) (ground (arith, e.beq_iff k j, e.beq_iff j k, d.0)),
      delete-Distinct k m d.1,
    )
  ]

  -- A property of every entry is one of every key that is found.
  pub All-lookup {μ} :
      (P : K × V → Type μ) (m : List (K × V)) (k : K) (v : V)
      → All P m
      → lookup k m ≡ some v
      → P (k, v)
  unfolding lookup
  All-lookup P [] k v a h = cc
  All-lookup P ((j, w) ∷ m) k v a h = elim (Bool-cases (j == k)) [
    | inl t ↦
        let same : j ≡ k = (e.beq_iff j k).0 t in
        let value : w ≡ v = ground arith in rw (← same, ← value) (a.0)
    | inr f ↦ All-lookup P m k v a.1 (ground arith)
  ]

  pub lookup-All {μ} :
      (P : K × V → Type μ) (m : List (K × V))
      → Distinct m
      → ((k : K) (v : V) → lookup k m ≡ some v → P (k, v))
      → All P m
  unfolding lookup
  lookup-All P [] d h = tt
  lookup-All P ((j, w) ∷ m) d h = (
    h j w (rw (beq_refl j)),
    lookup-All P m d.1 λ k v found. elim (Bool-cases (j == k)) [
      | inl t ↦
          let same : j ≡ k = (e.beq_iff j k).0 t in
          let clash : lookup k m ≡ none = rw (← same) (d.0) in absurd (cc)
      | inr f ↦ h k v (rw f found)
    ],
  )

  pub length-insert :
      (k : K) (v : V) (m : List (K × V))
      → length (insert k v m) ≡ (if has k m then length m else length m + 1)
  unfolding insert lookup
  length-insert k v [] = omega arith
  length-insert k v ((j, w) ∷ m) = ground (arith, length-insert k v m)

  delete_absent : (k : K) (m : List (K × V)) → lookup k m ≡ none → delete k m ≡ m
  unfolding delete lookup
  delete_absent k [] h = refl
  delete_absent k ((j, w) ∷ m) h = ground (arith, delete_absent k m)

  pub length-delete :
      (k : K) (m : List (K × V))
      → Distinct m
      → length m ≡ (if has k m then length (delete k m) + 1 else length (delete k m))
  unfolding delete lookup
  length-delete k [] d = refl
  length-delete k ((j, w) ∷ m) d = elim (Bool-cases (j == k)) [
    | inl t ↦
        let same : j ≡ k = (e.beq_iff j k).0 t in
        let gone : lookup k m ≡ none = rw same at (d.0) in ground (arith, delete_absent k m gone)
    | inr f ↦ ground (arith, length-delete k m d.1)
  ]
