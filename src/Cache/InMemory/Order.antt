-- ===== src/Cache/InMemory/Order.antt =====
-- cache/cache.go: the recency list of InMemoryCache.
use go_warp.Base.{
  ◌≡◌, refl, Bool, true, false, List, [], ◌∷◌, Key, key_eq, key_beq_iff, ◌==◌, length,
  if◌then◌else◌, some, arith,
}
use go_warp.Cache.InMemory.{remove_key, back, remove_back}

unfoldable pub contains : Key → List Key → Bool
contains k [] = false
contains k (x ∷ xs) = if x == k then true else contains k xs

-- No key stands twice.
abbrev pub Unique : List Key → Type 0
Unique [] = Unit
Unique (x ∷ xs) = (contains x xs ≡ false) × Unique xs

pub contains-remove_key :
    (k j : Key) (xs : List Key)
    → Unique xs
    → contains j (remove_key k xs) ≡ (if k == j then false else contains j xs)
unfolding contains remove_key
contains-remove_key k j [] u = ground arith
contains-remove_key k j (x ∷ xs) u =
    ground (
      arith,
      key_beq_iff x k,
      key_beq_iff x j,
      key_beq_iff k j,
      contains-remove_key k j xs u.1,
      u.0,
    )

pub remove_key-Unique : (k : Key) (xs : List Key) → Unique xs → Unique (remove_key k xs)
unfolding contains remove_key
remove_key-Unique k [] u = tt
remove_key-Unique k (x ∷ xs) u =
    ground (arith, contains-remove_key k x xs u.1, remove_key-Unique k xs u.1)

pub back-some : (x : Key) (xs : List Key) → (k : Key) × (back (x ∷ xs) ≡ some k)
unfolding back
back-some x [] = (x, refl)
back-some x (y ∷ ys) = back-some y ys

-- The last key is in the list, and removing it removes just that.
pub contains-remove_back :
    (xs : List Key) (k j : Key)
    → Unique xs
    → back xs ≡ some k
    → (contains k xs ≡ true)
      × (contains j (remove_back xs) ≡ (if k == j then false else contains j xs))
unfolding contains remove_back back
contains-remove_back [] k j u e = cc
contains-remove_back (x ∷ []) k j u e =
    ground (arith, key_beq_iff k j, key_beq_iff x k, key_beq_iff x j)
contains-remove_back (x ∷ y ∷ ys) k j u e = ground (
  arith,
  key_beq_iff k j,
  key_beq_iff x k,
  key_beq_iff x j,
  contains-remove_back (y ∷ ys) k j u.1 e,
  u.0,
)

pub remove_back-Unique : (xs : List Key) → Unique xs → Unique (remove_back xs)
unfolding contains remove_back
remove_back-Unique [] u = tt
remove_back-Unique (x ∷ []) u = tt
remove_back-Unique (x ∷ y ∷ ys) u = (
  let (k, last) = back-some y ys in ground (arith, contains-remove_back (y ∷ ys) k x u.1 last, u.0),
  remove_back-Unique (y ∷ ys) u.1,
)

pub length-remove_back : (x : Key) (xs : List Key) → length (remove_back (x ∷ xs)) ≡ length xs
unfolding remove_back
length-remove_back x [] = refl
length-remove_back x (y ∷ ys) = omega (arith, length-remove_back y ys)
