-- ===== src/Base/Maps.antt =====
-- Go maps as association lists. A write to a present key replaces its entry in place and a new
-- key goes to the end; `delete` removes every entry of the key. `Eq` is Go's `==` on the keys.
use Prim.Native.Nat.{ℕ}
use mathlib.Core.Path.{◌≡◌, refl}
use mathlib.Core.Logic.{◌↔◌, ◌≢◌, inl, inr}
use mathlib.Core.Bool.{Bool, true, false}
use mathlib.Core.List.{List, [], ◌∷◌}
use mathlib.Core.Option.{Option, none, some}
use native.Mathlib.Omega.{arith}
use go_warp.Base.Bools.{if◌then◌else◌, is_some, Bool-cases, nat_beq, nat_beq_iff}

pub record Eq {ℓ} (K : Type ℓ) : Type ℓ where
  pub beq : K → K → Bool
  pub beq_iff : (a b : K) → (beq a b ≡ true) ↔ (a ≡ b)

infix 50 ◌==◌
abbrev pub ◌==◌ {ℓ} : {K : Type ℓ} ⦃e : Eq K⦄ → K → K → Bool
◌==◌ ⦃e⦄ = e.beq

instance abbrev pub nat_eq : Eq ℕ
nat_eq = record { beq = nat_beq; beq_iff = nat_beq_iff }

pub beq_refl {ℓ} : {K : Type ℓ} ⦃e : Eq K⦄ (k : K) → (k == k) ≡ true
beq_refl ⦃e⦄ k = (e.beq_iff k k).1 refl

pub beq_ne {ℓ} : {K : Type ℓ} ⦃e : Eq K⦄ (a b : K) → a ≢ b → (a == b) ≡ false
beq_ne ⦃e⦄ a b h = elim (Bool-cases (a == b)) [
  | inl t ↦ absurd (h ((e.beq_iff a b).0 t))
  | inr f ↦ f
]

pub beq_sym {ℓ} : {K : Type ℓ} ⦃e : Eq K⦄ (a b : K) → (a == b) ≡ (b == a)
beq_sym ⦃e⦄ a b = ground (arith, e.beq_iff a b, e.beq_iff b a)

module _ {ℓ κ} {K : Type ℓ} {V : Type κ} ⦃e : Eq K⦄ where
  -- Removes every entry of the key.
  unfoldable pub delete : K → List (K × V) → List (K × V)
  delete key [] = []
  delete key ((other, x) ∷ rest) =
      if other == key then delete key rest else (other, x) ∷ delete key rest

  unfoldable pub lookup : K → List (K × V) → Option V
  lookup key [] = none
  lookup key ((other, x) ∷ rest) = if other == key then some x else lookup key rest

  -- Replaces the first entry of the key, or adds one at the end.
  unfoldable pub insert : K → V → List (K × V) → List (K × V)
  insert key x [] = (key, x) ∷ []
  insert key x ((other, old) ∷ rest) =
      if other == key then (key, x) ∷ rest else (other, old) ∷ insert key x rest

  pub lookup-insert :
      (k wanted : K) (x : V) (entries : List (K × V))
      → lookup wanted (insert k x entries) ≡ (if k == wanted then some x else lookup wanted entries)
  unfolding lookup insert
  lookup-insert k wanted x [] = refl
  lookup-insert k wanted x ((i, old) ∷ rest) =
      let later = lookup-insert k wanted x rest in
      ground (arith, e.beq_iff i k, e.beq_iff i wanted, e.beq_iff k wanted, later)

  pub lookup-delete :
      (k j : K) (m : List (K × V)) → lookup j (delete k m) ≡ (if k == j then none else lookup j m)
  unfolding lookup delete
  lookup-delete k j [] = ground arith
  lookup-delete k j ((i, w) ∷ m) =
      ground (arith, e.beq_iff k j, e.beq_iff i k, e.beq_iff i j, lookup-delete k j m)

  pub lookup-insert_self : (k : K) (v : V) (m : List (K × V)) → lookup k (insert k v m) ≡ some v
  lookup-insert_self k v m = rw (lookup-insert, beq_refl k)

  pub lookup-insert_ne :
      (k j : K) (v : V) (m : List (K × V)) → k ≢ j → lookup j (insert k v m) ≡ lookup j m
  lookup-insert_ne k j v m h = rw (lookup-insert, beq_ne k j h)

  pub lookup-delete_self : (k : K) (m : List (K × V)) → lookup k (delete k m) ≡ none
  lookup-delete_self k m = rw (lookup-delete, beq_refl k)

  pub lookup-delete_ne : (k j : K) (m : List (K × V)) → k ≢ j → lookup j (delete k m) ≡ lookup j m
  lookup-delete_ne k j m h = rw (lookup-delete, beq_ne k j h)

  -- The value of a missing key is the zero value.
  abbrev pub at_or : V → K → List (K × V) → V
  at_or zero_value k m = elim (lookup k m) [ none ↦ zero_value | some v ↦ v ]

  abbrev pub has : K → List (K × V) → Bool
  has k m = is_some (lookup k m)
