-- ===== src/Merge/Versioned.antt =====
-- merge/versioned.go: VersionedValue keeps the newest `limit` values of a key, oldest first.
pub mod History
use go_warp.Base.{
  ℕ, zero, suc, ◌-◌, ◌≡◌, Time, after, Bool, true, false, not, ◌&&◌, List, [], ◌∷◌, ◌++◌, Option,
  none, some, length, drop, get_elem?, ltb, if◌then◌else◌,
}
use go_warp.Merge.Engine.{Value}

-- `limit` is an int; a negative one acts as 0, which means no bound.
pub record VersionedValue (T : Type 0) : Type 0 where
  pub versions : List (Value T)
  pub limit : ℕ

module _ {T : Type 0} where
  unfoldable pub new_versioned_value : Value T → ℕ → VersionedValue T
  new_versioned_value v limit = record { versions = v ∷ []; limit = limit }

  trim : ℕ → List (Value T) → List (Value T)
  trim limit vs = if ltb 0 limit && ltb limit (length vs) then drop (length vs - limit) vs else vs

  unfoldable pub add : Value T → VersionedValue T → VersionedValue T
  unfolding trim
  add val v = record v { versions = trim v.limit (v.versions ++ val ∷ []) }

  unfoldable pub latest : VersionedValue T → Option (Value T)
  latest v = get_elem? v.versions (length v.versions - 1)

  -- One round of `At`'s loop: the entry at the index, and what the lower indices give.
  at_step : Time → Option (Value T) → Option (Value T) → Option (Value T)
  at_step t none rest = none
  at_step t (some v) rest = if not (after v.timestamp t) then some v else rest

  -- The loop of `At`, from index `i - 1` down to 0.
  at_below : List (Value T) → Time → ℕ → Option (Value T)
  unfolding at_step
  at_below vs t zero = none
  at_below vs t (suc i) = at_step t (get_elem? vs i) (at_below vs t i)

  unfoldable pub at : Time → VersionedValue T → Option (Value T)
  unfolding at_below
  at t v = at_below v.versions t (length v.versions)
