-- ===== src/Base/Ints.antt =====
-- Signed integers, and the durations (int64 nanoseconds) and instants of package time.
-- An instant counts nanoseconds from Go's zero Time, so `time.Time{}` is `pos 0`.
use Prim.Native.Nat.{ℕ, suc, ◌+◌, ◌-◌, ◌%◌, ◌^◌, ◌≤◌, ◌<◌}
use mathlib.Core.Path.{◌≡◌}
use mathlib.Core.Bool.{Bool}
use native.Mathlib.Omega.{arith}
use go_warp.Base.Bools.{ltb, leb, nat_beq, if◌then◌else◌}

-- `negsuc n` is -(n + 1).
pub data ℤ : Type 0 where
  pos : ℕ → ℤ
  negsuc : ℕ → ℤ

abbrev pub pos_part : ℤ → ℕ
pos_part (pos n) = n
pos_part (negsuc n) = 0

abbrev pub neg_part : ℤ → ℕ
neg_part (pos n) = 0
neg_part (negsuc n) = suc n

abbrev pub sub_ℕ : ℕ → ℕ → ℤ
sub_ℕ a b = if leb b a then pos (a - b) else negsuc (b - a - 1)

infixl 65 ◌+ℤ◌ ◌-ℤ◌
infix 50 ◌≤ℤ◌ ◌<ℤ◌
unfoldable pub ◌+ℤ◌ : ℤ → ℤ → ℤ
a +ℤ b = sub_ℕ (pos_part a + pos_part b) (neg_part a + neg_part b)

unfoldable pub ◌-ℤ◌ : ℤ → ℤ → ℤ
a -ℤ b = sub_ℕ (pos_part a + neg_part b) (neg_part a + pos_part b)

abbrev pub ◌≤ℤ◌ : ℤ → ℤ → Type 0
a ≤ℤ b = pos_part a + neg_part b ≤ pos_part b + neg_part a

abbrev pub ◌<ℤ◌ : ℤ → ℤ → Type 0
a <ℤ b = pos_part a + neg_part b < pos_part b + neg_part a

abbrev pub ltb_ℤ : ℤ → ℤ → Bool
ltb_ℤ a b = ltb (pos_part a + neg_part b) (pos_part b + neg_part a)

abbrev pub leb_ℤ : ℤ → ℤ → Bool
leb_ℤ a b = leb (pos_part a + neg_part b) (pos_part b + neg_part a)

abbrev pub beq_ℤ : ℤ → ℤ → Bool
beq_ℤ a b = nat_beq (pos_part a + neg_part b) (pos_part b + neg_part a)

pub +ℤ_parts :
    (a b : ℤ)
    → pos_part (a +ℤ b) + neg_part a + neg_part b ≡ neg_part (a +ℤ b) + pos_part a + pos_part b
unfolding ◌+ℤ◌
+ℤ_parts a b = ground arith

pub -ℤ_parts :
    (a b : ℤ)
    → pos_part (a -ℤ b) + neg_part a + pos_part b ≡ neg_part (a -ℤ b) + pos_part a + neg_part b
unfolding ◌-ℤ◌
-ℤ_parts a b = ground arith

pub eq_of_parts : (a b : ℤ) → pos_part a + neg_part b ≡ pos_part b + neg_part a → a ≡ b
eq_of_parts a b h = ground arith

pub ruleset int_laws = (arith, +ℤ_parts, -ℤ_parts, eq_of_parts)

-- int64 arithmetic wraps around.
abbrev pub Int64 : ℤ → Type 0
Int64 z = (pos_part z < 2 ^ 63) × (neg_part z ≤ 2 ^ 63)

signed64 : ℕ → ℤ
signed64 u = if ltb u (2 ^ 63) then pos u else negsuc (2 ^ 64 - 1 - u)

unfoldable pub wrap64 : ℤ → ℤ
unfolding signed64
wrap64 (pos n) = signed64 (n % 2 ^ 64)
wrap64 (negsuc n) = signed64 (2 ^ 64 - 1 - n % 2 ^ 64)

pub wrap64-Int64 : (z : ℤ) → Int64 (wrap64 z)
unfolding wrap64
wrap64-Int64 (pos n) = ground arith
wrap64-Int64 (negsuc n) = ground arith

pub wrap64_of_Int64 : (z : ℤ) → Int64 z → wrap64 z ≡ z
unfolding wrap64
wrap64_of_Int64 (pos n) h = ground arith
wrap64_of_Int64 (negsuc n) h = ground arith

abbrev pub Duration : Type 0
Duration = ℤ

abbrev pub Time : Type 0
Time = ℤ

-- `a + b` and `a - b` on time.Duration.
infixl 65 ◌+₆₄◌ ◌-₆₄◌
unfoldable pub ◌+₆₄◌ : Duration → Duration → Duration
a +₆₄ b = wrap64 (a +ℤ b)

unfoldable pub ◌-₆₄◌ : Duration → Duration → Duration
a -₆₄ b = wrap64 (a -ℤ b)

-- `t.Add(d)`, `t.After(u)`, and `t.Sub(u)`, which saturates at the ends of int64.
unfoldable pub time_add : Time → Duration → Time
unfolding ◌+ℤ◌
time_add t d = t +ℤ d

abbrev pub after : Time → Time → Bool
after t u = ltb_ℤ u t

saturate64 : ℤ → Duration
saturate64 z =
    if leb (2 ^ 63) (pos_part z)
    then pos (2 ^ 63 - 1)
    else if ltb (2 ^ 63) (neg_part z)
    then negsuc (2 ^ 63 - 1)
    else z

unfoldable pub time_sub : Time → Time → Duration
unfolding saturate64 ◌-ℤ◌
time_sub t u = saturate64 (t -ℤ u)

abbrev pub is_zero : Time → Bool
is_zero t = beq_ℤ t (pos 0)

pub +₆₄_exact : (a b : Duration) → Int64 (a +ℤ b) → a +₆₄ b ≡ a +ℤ b
unfolding ◌+₆₄◌
+₆₄_exact a b h = wrap64_of_Int64 (a +ℤ b) h

pub -₆₄_exact : (a b : Duration) → Int64 (a -ℤ b) → a -₆₄ b ≡ a -ℤ b
unfolding ◌-₆₄◌
-₆₄_exact a b h = wrap64_of_Int64 (a -ℤ b) h
