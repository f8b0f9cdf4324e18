-- ===== src/Mesh/Buffer.antt =====
-- Slices of bytes: Go's copy into a slice, and the big-endian numbers of encoding/binary.
use mathlib.Core.List.{append_assoc}
use go_warp.Base.{
  ℕ, zero, suc, ◌+◌, ◌-◌, ◌*◌, ◌/◌, ◌%◌, ◌^◌, ◌≤◌, ◌<◌, ◌≡◌, refl, sym, ◌∙◌, ap, List, [], ◌∷◌,
  ◌++◌, length, drop, get_elem?, arith, none, some,
}

-- `copy(b[i:], src)`, which stops at the end of `b`.
unfoldable pub copy_at : List ℕ → ℕ → List ℕ → List ℕ
copy_at [] i src = []
copy_at (x ∷ b) (suc i) src = x ∷ copy_at b i src
copy_at (x ∷ b) zero [] = x ∷ b
copy_at (x ∷ b) zero (s ∷ src) = s ∷ copy_at b zero src

abbrev pub take : ℕ → List ℕ → List ℕ
take zero xs = []
take (suc n) [] = []
take (suc n) (x ∷ xs) = x ∷ take n xs

-- `b[i:j]`, within the bounds of `b`.
abbrev pub slice : List ℕ → ℕ → ℕ → List ℕ
slice b i j = take (j - i) (drop i b)

-- `b[i]`, within the bounds of `b`.
abbrev pub byte_at : List ℕ → ℕ → ℕ
byte_at b i = elim (get_elem? b i) [ none ↦ 0 | some x ↦ x ]

-- PutUint16 and PutUint64.
unfoldable pub uint16_bytes : ℕ → List ℕ
uint16_bytes v = v / 256 % 256 ∷ v % 256 ∷ []

unfoldable pub uint64_bytes : ℕ → List ℕ
uint64_bytes v =
    v / 2 ^ 56 % 256
    ∷ v / 2 ^ 48 % 256
    ∷ v / 2 ^ 40 % 256
    ∷ v / 2 ^ 32 % 256
    ∷ v / 2 ^ 24 % 256
    ∷ v / 2 ^ 16 % 256
    ∷ v / 2 ^ 8 % 256
    ∷ v % 256
    ∷ []

-- Uint16 and Uint64, of a slice of 2 and of 8 bytes.
value_from : ℕ → List ℕ → ℕ
value_from acc [] = acc
value_from acc (x ∷ xs) = value_from (acc * 256 + x) xs

unfoldable pub big_endian : List ℕ → ℕ
unfolding value_from
big_endian xs = value_from 0 xs

pub big_endian-uint16_bytes : (v : ℕ) → v < 2 ^ 16 → big_endian (uint16_bytes v) ≡ v
unfolding big_endian uint16_bytes
big_endian-uint16_bytes v h = omega arith

pub big_endian-uint64_bytes : (v : ℕ) → v < 2 ^ 64 → big_endian (uint64_bytes v) ≡ v
unfolding big_endian uint64_bytes
big_endian-uint64_bytes v h = omega arith

pub take-append : (n : ℕ) (xs ys : List ℕ) → length xs ≡ n → take n (xs ++ ys) ≡ xs
take-append zero [] ys h = refl
take-append zero (x ∷ xs) ys h = absurd (omega arith)
take-append (suc n) [] ys h = absurd (omega arith)
take-append (suc n) (x ∷ xs) ys h = ap (◌∷◌ x) (take-append n xs ys (omega arith))

pub drop-append : (n : ℕ) (xs ys : List ℕ) → length xs ≡ n → drop n (xs ++ ys) ≡ ys
drop-append zero [] ys h = refl
drop-append zero (x ∷ xs) ys h = absurd (omega arith)
drop-append (suc n) [] ys h = absurd (omega arith)
drop-append (suc n) (x ∷ xs) ys h = drop-append n xs ys (omega arith)

copy_at-start :
    (src b : List ℕ) → length src ≤ length b → copy_at b 0 src ≡ src ++ drop (length src) b
unfolding copy_at
copy_at-start [] [] h = refl
copy_at-start [] (x ∷ b) h = refl
copy_at-start (s ∷ src) [] h = absurd (omega arith)
copy_at-start (s ∷ src) (x ∷ b) h = ap (◌∷◌ s) (copy_at-start src b (omega arith))

drop-drop : (i m j : ℕ) (b : List ℕ) → i + m ≡ j → drop m (drop i b) ≡ drop j b
drop-drop zero m j b e = ap (λ (k : ℕ). drop k b) (omega (arith, e))
drop-drop (suc i) zero zero [] e = refl
drop-drop (suc i) (suc m) zero [] e = refl
drop-drop (suc i) zero (suc j) [] e = refl
drop-drop (suc i) (suc m) (suc j) [] e = refl
drop-drop (suc i) m zero (x ∷ b) e = absurd (omega (arith, e))
drop-drop (suc i) m (suc j) (x ∷ b) e = drop-drop i m j b (omega (arith, e))

-- A copy behind what was written so far extends it.
pub copy_at-next :
    (i : ℕ) (done src b : List ℕ)
    → length done ≡ i
    → length done + length src ≤ length b
    → copy_at (done ++ drop i b) i src ≡ done ++ (src ++ drop (length src) (drop i b))
unfolding copy_at
copy_at-next zero [] src b e h = copy_at-start src b (omega arith)
copy_at-next zero (d ∷ done) src b e h = absurd (omega arith)
copy_at-next (suc i) [] src b e h = absurd (omega arith)
copy_at-next (suc i) (d ∷ done) src [] e h = absurd (omega arith)
copy_at-next (suc i) (d ∷ done) src (x ∷ b) e h =
    ap (◌∷◌ d) (copy_at-next i done src b (omega arith) (omega arith))

pub length-copy_at : (b : List ℕ) (i : ℕ) (src : List ℕ) → length (copy_at b i src) ≡ length b
unfolding copy_at
length-copy_at [] i src = refl
length-copy_at (x ∷ b) (suc i) src = ap suc (length-copy_at b i src)
length-copy_at (x ∷ b) zero [] = refl
length-copy_at (x ∷ b) zero (s ∷ src) = ap suc (length-copy_at b zero src)

-- The same, with what was written bracketed to the left.
pub copy_at-extend :
    (i j : ℕ) (done src b : List ℕ)
    → length done ≡ i
    → i + length src ≡ j
    → j ≤ length b
    → copy_at (done ++ drop i b) i src ≡ (done ++ src) ++ drop j b
copy_at-extend i j done src b e f h =
    copy_at-next i done src b e (omega arith)
    ∙ ap (λ (rest : List ℕ). done ++ (src ++ rest)) (drop-drop i (length src) j b f)
    ∙ sym (append_assoc done src (drop j b))

pub slice-append :
    (i j : ℕ) (pre mid post : List ℕ)
    → length pre ≡ i
    → i + length mid ≡ j
    → slice (pre ++ (mid ++ post)) i j ≡ mid
slice-append i j pre mid post e f =
    let n : length mid ≡ j - i = omega arith in
    ap (take (j - i)) (drop-append i pre (mid ++ post) e) ∙ take-append (j - i) mid post n
