-- ===== src/SyncBus/Channels/Counts.antt =====
-- How often a channel stands in a list, and what a removal by swapping with the last one changes.
use go_warp.Base.{
  ℕ, ◌+◌, ◌≡◌, ◌≢◌, refl, List, [], ◌∷◌, ◌++◌, nat_eq, nat_beq_iff, ◌==◌, if◌then◌else◌, Option,
  none, some, arith, Bool-cases, Option-cases, inl, inr,
}
use go_warp.SyncBus.Channels.{last_of, without_last, fill_gap, remove_channel}

abbrev pub count : ℕ → List ℕ → ℕ
count i [] = 0
count i (x ∷ xs) = (if x == i then 1 else 0) + count i xs

count-last : (i x : ℕ) (xs : List ℕ) → count i (last_of x xs ∷ without_last x xs) ≡ count i (x ∷ xs)
count-last i x [] = refl
count-last i x (y ∷ ys) = omega (arith, count-last i y ys)

count-fill_gap : (i : ℕ) (xs : List ℕ) → count i (fill_gap xs) ≡ count i xs
count-fill_gap i [] = refl
count-fill_gap i (x ∷ xs) = count-last i x xs

pub count-append :
    (i x : ℕ) (xs : List ℕ) → count i (xs ++ x ∷ []) ≡ (if x == i then 1 else 0) + count i xs
count-append i x [] = refl
count-append i x (y ∷ ys) = omega (arith, count-append i x ys)

some_eq : {a b : List ℕ} → ◌≡◌ {A = Option (List ℕ)} (some a) (some b) → a ≡ b
some_eq e = ground arith

none_ne : {a : List ℕ} → ◌≢◌ {A = Option (List ℕ)} none (some a)
none_ne e = ground arith

some_ne : {a : List ℕ} → ◌≢◌ {A = Option (List ℕ)} (some a) none
some_ne e = ground arith

-- One occurrence of the channel goes, where there is one, and nothing else does.
pub count-remove_channel :
    (ch i : ℕ) (xs ys : List ℕ)
    → remove_channel ch xs ≡ some ys
    → count i xs ≡ (if ch == i then 1 else 0) + count i ys
unfolding remove_channel
count-remove_channel ch i [] ys e = cc
count-remove_channel ch i (x ∷ xs) ys e = elim (Bool-cases (x == ch)) [
  | inl t ↦
      let same : x ≡ ch = (nat_beq_iff x ch).0 t in
      let left : fill_gap xs ≡ ys = some_eq (rw t at e) in
      rw (← left, count-fill_gap i xs, same) refl
  | inr f ↦ elim (Option-cases (remove_channel ch xs)) [
    | inl none_there ↦ absurd (none_ne (rw (f, none_there) at e))
    | inr (zs, there) ↦
        let left : x ∷ zs ≡ ys = some_eq (rw (f, there) at e) in
        rw (← left) (omega (arith, count-remove_channel ch i xs zs there))
  ]
]

pub remove_channel-none : (ch : ℕ) (xs : List ℕ) → remove_channel ch xs ≡ none → count ch xs ≡ 0
unfolding remove_channel
remove_channel-none ch [] e = refl
remove_channel-none ch (x ∷ xs) e = elim (Bool-cases (x == ch)) [
  | inl t ↦ absurd (some_ne (rw t at e))
  | inr f ↦ elim (Option-cases (remove_channel ch xs)) [
    | inl none_there ↦ rw f (omega (arith, remove_channel-none ch xs none_there))
    | inr (zs, there) ↦ absurd (some_ne (rw (f, there) at e))
  ]
]
