-- ===== src/StreamBus/Varint.antt =====
-- The varints of encoding/binary that streambus/wire.go writes and reads: a number in groups of
-- seven bits, lowest first, with the top bit set on all but the last.
use go_warp.Base.{
  ℕ, zero, suc, ◌+◌, ◌*◌, ◌/◌, ◌%◌, ◌^◌, ◌<◌, ◌≡◌, refl, ap, ◌∙◌, ℤ, pos, negsuc, Int64, List, [],
  ◌∷◌, ◌++◌, ltb, nat_beq, if◌then◌else◌, arith, false, Bool-cases, inl, inr,
}
use native.Mathlib.Nat.{div-add-mod}

-- Why a number cannot be read: io.EOF at its first byte, io.ErrUnexpectedEOF later, or overflow.
pub data VarintError : Type 0 where
  end_of_file unexpected_end varint_overflow : VarintError

pub data Taken {ℓ} (A : Type ℓ) : Type ℓ where
  took : A → List ℕ → Taken A
  broken : VarintError → Taken A

-- PutUvarint: at most ten bytes for a uint64, so nine rounds and the last byte.
put_loop : ℕ → ℕ → List ℕ
put_loop zero v = v % 256 ∷ []
put_loop (suc n) v =
    let rest = put_loop n (v / 128) in if ltb v 128 then v ∷ [] else (v % 128 + 128) ∷ rest

unfoldable pub put_uvarint : ℕ → List ℕ
unfolding put_loop
put_uvarint v = put_loop 9 v

-- ReadUvarint: `left` rounds after this one, the sum so far, and `1 << s`.
abbrev ended : ℕ → VarintError
ended left = if nat_beq left 9 then end_of_file else unexpected_end

read_loop : ℕ → ℕ → ℕ → List ℕ → Taken ℕ
read_loop left x place [] = broken (ended left)
read_loop zero x place (b ∷ bs) =
    if ltb b 128
    then (if ltb 1 b then broken varint_overflow else took (x + b * place) bs)
    else broken varint_overflow
read_loop (suc left) x place (b ∷ bs) =
    let rest = read_loop left (x + b % 128 * place) (place * 128) bs in
    if ltb b 128 then took (x + b * place) bs else rest

unfoldable pub read_uvarint : List ℕ → Taken ℕ
unfolding read_loop
read_uvarint src = read_loop 9 0 1 src

-- PutVarint and ReadVarint: `uint64(x) << 1`, and its complement for a negative number.
abbrev pub zigzag : ℤ → ℕ
zigzag (pos n) = 2 * n
zigzag (negsuc n) = 2 * n + 1

abbrev pub unzigzag : ℕ → ℤ
unzigzag u = if nat_beq (u % 2) 0 then pos (u / 2) else negsuc (u / 2)

read_loop-put_loop :
    (k v x place : ℕ) (rest : List ℕ)
    → k < 10
    → v < 2 * 128 ^ k
    → read_loop k x place (put_loop k v ++ rest) ≡ took (x + v * place) rest
unfolding read_loop put_loop
read_loop-put_loop zero v x place rest few small =
    let same : v % 256 ≡ v = omega arith in rw same (ground arith)
read_loop-put_loop (suc k) v x place rest few small = elim (Bool-cases (ltb v 128)) [
  | inl t ↦ rw (t, t) refl
  | inr f ↦
      let inner : ltb (v % 128 + 128) 128 ≡ false = ground arith in
      let group : (v % 128 + 128) % 128 ≡ v % 128 = omega arith in
      let sum : x + v % 128 * place + v / 128 * (place * 128) ≡ x + v * place =
        omega (arith, ap (λ (t : ℕ). t * place) (div-add-mod v 128)) in
      rw (f, inner, group)
        (read_loop-put_loop k (v / 128) (x + v % 128 * place) (place * 128) rest (omega arith)
            (omega arith)
          ∙ ap (λ (t : ℕ). took t rest) sum)
]

-- What is read is what was written, and the reader stops behind it.
pub read_uvarint-put_uvarint :
    (v : ℕ) (rest : List ℕ) → v < 2 ^ 64 → read_uvarint (put_uvarint v ++ rest) ≡ took v rest
unfolding read_uvarint put_uvarint
read_uvarint-put_uvarint v rest h =
    read_loop-put_loop 9 v 0 1 rest (omega arith) (omega arith)
    ∙ ap (λ (t : ℕ). took t rest) (omega arith)

pub unzigzag-zigzag : (z : ℤ) → unzigzag (zigzag z) ≡ z
unzigzag-zigzag (pos n) = ground arith
unzigzag-zigzag (negsuc n) = ground arith

pub zigzag_fits : (z : ℤ) → Int64 z → zigzag z < 2 ^ 64
zigzag_fits (pos n) h = ground arith
zigzag_fits (negsuc n) h = ground arith
