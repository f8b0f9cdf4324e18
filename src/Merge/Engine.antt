-- ===== src/Merge/Engine.antt =====
-- merge/merge.go: Value, LastWriteWins and Engine. Data is generic; a custom merge function may
-- fail. A nil vector clock is `none`.
use go_warp.Base.{
  ℕ, ◌≡◌, ℤ, pos, negsuc, beq_ℤ, Time, after, Bool, true, false, List, [], ◌∷◌, Key, key_eq, lookup,
  insert, has, if◌then◌else◌, Option, none, some,
}
use go_warp.Errors.{Error, Result, ok, err}
use go_warp.Merge.Clock.{VectorClock, copy}
use go_warp.Merge.Clock as Clock
pub mod Laws

pub record Value (T : Type 0) : Type 0 where
  pub datum : T
  pub timestamp : Time
  pub vector : Option VectorClock
  pub region : Key

-- `merge.Value[T]{Data: d, Timestamp: t}`
abbrev pub stamped : {T : Type 0} → T → Time → Value T
stamped d t = record { datum = d; timestamp = t; vector = none; region = [] }

abbrev pub MergeFn : Type 0 → Type 0
MergeFn T = T → T → Result T

module _ {T : Type 0} where
  -- The physical timestamp decides.
  latest : Value T → Value T → Value T
  latest old new = if after new.timestamp old.timestamp then new else old

  by_clock : ℤ → Value T → Value T → Value T
  unfolding latest
  by_clock cmp old new =
      if beq_ℤ cmp (pos 1) then new else if beq_ℤ cmp (negsuc 0) then old else latest old new

  -- The clocks decide if both are there and one dominates, and the timestamps otherwise.
  choose : Option VectorClock → Option VectorClock → Value T → Value T → Value T
  unfolding by_clock
  choose (some ov) (some nv) old new = by_clock (Clock.compare nv ov) old new
  choose none _ old new = latest old new
  choose (some ov) none old new = latest old new

  -- LastWriteWins.Merge
  unfoldable pub last_write_wins : Value T → Value T → Value T
  unfolding choose
  last_write_wins old new = choose old.vector new.vector old new

pub record Engine (T : Type 0) : Type 0 where
  pub custom : List (Key × MergeFn T)

-- The clock of a custom merge: a copy of the old one, never nil, merged with the new.
merged_clock : Option VectorClock → Option VectorClock → VectorClock
merged_clock none none = []
merged_clock none (some nv) = Clock.merge [] nv
merged_clock (some ov) none = copy ov
merged_clock (some ov) (some nv) = Clock.merge (copy ov) nv

module _ {T : Type 0} where
  unfoldable pub new_engine : Engine T
  new_engine = record { custom = [] }

  unfoldable pub register : Key → MergeFn T → Engine T → Engine T
  register key fn e = record e { custom = insert key fn e.custom }

  unfoldable pub has_custom : Key → Engine T → Bool
  has_custom key e = has key e.custom

  custom_merge : MergeFn T → Value T → Value T → Result (Value T)
  unfolding merged_clock
  custom_merge fn old new = elim (fn old.datum new.datum) [
    | err e ↦ err e
    | ok v ↦ ok (record {
      datum = v;
      timestamp = new.timestamp;
      vector = some (merged_clock old.vector new.vector);
      region = new.region;
    })
  ]

  unfoldable pub merge : Key → Engine T → Value T → Value T → Result (Value T)
  unfolding custom_merge last_write_wins
  merge key e old new = elim (lookup key e.custom) [
    | some fn ↦ custom_merge fn old new
    | none ↦ ok (last_write_wins old new)
  ]
