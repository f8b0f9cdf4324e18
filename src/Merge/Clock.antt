-- ===== src/Merge/Clock.antt =====
-- merge/merge.go: VectorClock. A clock maps a region to a uint64 counter; a missing region is 0.
pub mod Order
use go_warp.Base.{
  ℕ, ◌+◌, ◌%◌, ◌^◌, ◌≡◌, ℤ, pos, negsuc, Bool, true, false, ◌&&◌, List, [], ◌∷◌, Key, key_eq,
  lookup, insert, at_or, has, ltb, if◌then◌else◌, not, Option, none, some,
}

abbrev pub VectorClock : Type 0
VectorClock = List (Key × ℕ)

-- `vc[region]`
abbrev pub counter : Key → VectorClock → ℕ
counter region vc = at_or 0 region vc

-- The loop of `Copy`, which fills the new map `n`.
copy_into : VectorClock → VectorClock → VectorClock
copy_into n [] = n
copy_into n ((k, v) ∷ vc) = copy_into (insert k v n) vc

pub copy : VectorClock → VectorClock
unfolding copy_into insert
copy vc = copy_into [] vc

pub increment : Key → VectorClock → VectorClock
unfolding insert lookup
increment region vc = insert region ((counter region vc + 1) % 2 ^ 64) vc

-- Ranges over `other` and keeps the larger counter in `vc`.
unfoldable pub merge : VectorClock → VectorClock → VectorClock
merge vc [] = vc
merge vc ((k, v) ∷ other) = merge (if ltb (counter k vc) v then insert k v vc else vc) other

-- The first loop of `Compare`: over the entries of `vc`, with the flags (greater, smaller).
scan_own : VectorClock → VectorClock → Bool → Bool → Bool × Bool
scan_own [] other greater smaller = (greater, smaller)
scan_own ((k, v) ∷ vc) other greater smaller =
    scan_own vc other (if ltb (counter k other) v then true else greater)
      (if ltb v (counter k other) then true else smaller)

-- The second loop: the entries of `other` that `vc` does not have.
scan_missing : VectorClock → VectorClock → Bool → Bool
scan_missing [] vc smaller = smaller
scan_missing ((k, v) ∷ other) vc smaller =
    scan_missing other vc (if not (has k vc) && ltb 0 v then true else smaller)

verdict : Bool → Bool → ℤ
verdict greater smaller =
    if greater && smaller
    then negsuc 1
    else if greater
    then pos 1
    else if smaller
    then negsuc 0
    else pos 0

-- 1: `vc` dominates, -1: `other` dominates, 0: equal, -2: concurrent.
unfoldable pub compare : VectorClock → VectorClock → ℤ
unfolding scan_own scan_missing verdict
compare vc other =
    let (greater, smaller) = scan_own vc other false false in
    verdict greater (scan_missing other vc smaller)
