-- ===== src/StreamBus/Ring/Window.antt =====
-- The frames that a slice holds from an index on, going round at its end: what ringQueue and
-- replayBuffer keep.
use native.Mathlib.Nat.{mod-add-mod, mod-eq_of_lt, mod-eq-sub-mod, mod-lt, add-zero}
use native.Mathlib.Decide.{dec_lt}
use go_warp.Base.{
  ℕ, zero, suc, ◌+◌, ◌-◌, ◌%◌, ◌<◌, ◌≡◌, ◌≢◌, refl, sym, ◌∙◌, ap, List, [], ◌∷◌, ◌++◌, length, set,
  drop, arith,
}
use go_warp.StreamBus.Ring.{Frame, item_at}

unfoldable pub read : List Frame → ℕ → ℕ → List Frame
read items i zero = []
read items i (suc n) = item_at items (i % length items) ∷ read items (i + 1) n

pub length-set :
    (items : List Frame) (j : ℕ) (frame : Frame) → length (set items j frame) ≡ length items
length-set [] j frame = refl
length-set (x ∷ items) zero frame = refl
length-set (x ∷ items) (suc j) frame = ap suc (length-set items j frame)

item_at-set_self :
    (items : List Frame) (j : ℕ) (frame : Frame)
    → j < length items
    → item_at (set items j frame) j ≡ frame
unfolding item_at
item_at-set_self [] j frame h = absurd (omega arith)
item_at-set_self (x ∷ items) zero frame h = refl
item_at-set_self (x ∷ items) (suc j) frame h = item_at-set_self items j frame (omega arith)

item_at-set_ne :
    (items : List Frame) (j k : ℕ) (frame : Frame)
    → j ≢ k
    → item_at (set items j frame) k ≡ item_at items k
unfolding item_at
item_at-set_ne [] j k frame h = refl
item_at-set_ne (x ∷ items) zero zero frame h = absurd (h refl)
item_at-set_ne (x ∷ items) zero (suc k) frame h = refl
item_at-set_ne (x ∷ items) (suc j) zero frame h = refl
item_at-set_ne (x ∷ items) (suc j) (suc k) frame h =
    item_at-set_ne items j k frame (λ e. h (ap suc e))

pub length-read : (items : List Frame) (i n : ℕ) → length (read items i n) ≡ n
unfolding read
length-read items i zero = refl
length-read items i (suc n) = ap suc (length-read items (i + 1) n)

-- Fewer steps than the slice is long do not come back to the start.
mod_ne : (i d c : ℕ) → 0 < d → d < c → (i + d) % c ≢ i % c
mod_ne i d c low high e =
    let r : i % c < c = mod-lt i (omega arith) in
    let same : (i % c + d) % c ≡ i % c = mod-add-mod i c d ∙ e in
    elim (dec_lt (i % c + d) c) [
      | yes p ↦ omega (arith, mod-eq_of_lt p, same)
      | no p ↦ omega (
        arith,
        same,
        mod-eq-sub-mod {n = i % c + d} {m = c} (omega arith),
        mod-eq_of_lt {n = i % c + d - c} {m = c} (omega arith),
      )
    ]

-- Only the index modulo the length matters.
pub read-mod :
    (items : List Frame) (i j n : ℕ)
    → i % length items ≡ j % length items
    → read items i n ≡ read items j n
unfolding read
read-mod items i j zero e = refl
read-mod items i j (suc n) e =
    let next : (i + 1) % length items ≡ (j + 1) % length items =
      sym (mod-add-mod i (length items) 1)
      ∙ ap (λ (k : ℕ). (k + 1) % length items) e
      ∙ mod-add-mod j (length items) 1 in
    cc (e, read-mod items (i + 1) (j + 1) n next)

-- Writing just past the frames appends one.
pub read-set :
    (items : List Frame) (i n j : ℕ) (frame : Frame)
    → n < length items
    → j ≡ (i + n) % length items
    → read (set items j frame) i (suc n) ≡ read items i n ++ (frame ∷ [])
unfolding read
read-set items i zero j frame room e =
    let here : j ≡ i % length items = e ∙ ap (λ (k : ℕ). k % length items) (add-zero i) in
    let self =
      item_at-set_self items j frame
        (omega (arith, here, mod-lt i {m = length items} (omega arith))) in
    rw (length-set items j frame, ← here, self) refl
read-set items i (suc n) j frame room e =
    let other =
      item_at-set_ne items j (i % length items) frame
        (λ same. mod_ne i (suc n) (length items) (omega arith) room (sym e ∙ same)) in
    let later =
      read-set items (i + 1) n j frame (omega arith)
        (e ∙ ap (λ (k : ℕ). k % length items) (omega arith)) in
    let first : item_at (set items j frame) (i % length (set items j frame))
        ≡ item_at items (i % length items) =
      ap (λ (c : ℕ). item_at (set items j frame) (i % c)) (length-set items j frame) ∙ other in
    cc (first, later)

-- A write outside the frames changes none of them.
pub read-set_outside :
    (items : List Frame) (i n j : ℕ) (frame : Frame)
    → ((k : ℕ) → k < n → (i + k) % length items ≢ j)
    → read (set items j frame) i n ≡ read items i n
unfolding read
read-set_outside items i zero j frame h = refl
read-set_outside items i (suc n) j frame h =
    let other =
      item_at-set_ne items j (i % length items) frame
        (λ same. h 0 (omega arith) (ap (λ (k : ℕ). k % length items) (add-zero i) ∙ sym same)) in
    let later = read-set_outside items (i + 1) n j frame (λ k low same.
      h (suc k) (omega arith) (ap (λ (m : ℕ). m % length items) (omega arith) ∙ same)) in
    let first : item_at (set items j frame) (i % length (set items j frame))
        ≡ item_at items (i % length items) =
      ap (λ (c : ℕ). item_at (set items j frame) (i % c)) (length-set items j frame) ∙ other in
    cc (first, later)

-- A write behind the frames.
pub read-set_behind :
    (items : List Frame) (i n : ℕ) (frame : Frame)
    → n < length items
    → read (set items (i % length items) frame) (i + 1) n ≡ read items (i + 1) n
read-set_behind items i n frame room =
    read-set_outside items (i + 1) n (i % length items) frame (λ k low same.
      mod_ne i (suc k) (length items) (omega arith) (omega arith)
        (ap (λ (m : ℕ). m % length items) (omega arith) ∙ same))

pub drop-read :
    (items : List Frame) (i k n m : ℕ) → m ≡ k + n → drop k (read items i m) ≡ read items (i + k) n
unfolding read
drop-read items i zero n m e =
    ap (λ (k : ℕ). read items i k) (omega (arith, e))
    ∙ ap (λ (j : ℕ). read items j n) (sym (add-zero i))
drop-read items i (suc k) n zero e = absurd (omega arith)
drop-read items i (suc k) n (suc m) e =
    drop-read items (i + 1) k n m (omega (arith, e)) ∙ ap (λ (j : ℕ). read items j n) (omega arith)
