-- ===== src/Base/Text.antt =====
-- Go strings as lists of bytes, the keys of the maps.
use Prim.Native.Nat.{ℕ}
use mathlib.Core.Path.{◌≡◌}
use mathlib.Core.Logic.{◌↔◌}
use mathlib.Core.Bool.{Bool, true, false, ◌&&◌}
use mathlib.Core.List.{List, [], ◌∷◌}
use native.Mathlib.Omega.{arith}
use go_warp.Base.Bools.{nat_beq, if◌then◌else◌}
use go_warp.Base.Maps.{Eq, ◌==◌}

abbrev pub Key : Type 0
Key = List ℕ

unfoldable pub key_beq : Key → Key → Bool
key_beq [] [] = true
key_beq (x ∷ xs) (y ∷ ys) = nat_beq x y && key_beq xs ys
key_beq _ _ = false

pub key_beq_iff : (a b : Key) → (key_beq a b ≡ true) ↔ (a ≡ b)
unfolding key_beq
key_beq_iff [] [] = ground arith
key_beq_iff [] (y ∷ ys) = ground arith
key_beq_iff (x ∷ xs) [] = ground arith
key_beq_iff (x ∷ xs) (y ∷ ys) = ground (arith, key_beq_iff xs ys)

instance abbrev pub key_eq : Eq Key
key_eq = record { beq = key_beq; beq_iff = key_beq_iff }

-- A key is in a list.
abbrev pub listed : Key → List Key → Bool
listed j [] = false
listed j (k ∷ ks) = if k == j then true else listed j ks
