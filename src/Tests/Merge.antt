-- ===== src/Tests/Merge.antt =====
-- Runs of merge/merge.go and merge/versioned.go.
use go_warp.Base.{
  ℕ, ◌≤◌, ◌<◌, ◌≡◌, refl, pos, negsuc, ◌↔◌, max, List, [], ◌∷◌, ◌++◌, Key, lookup, none, some,
  arith, Distinct, length, key_eq, key_beq, ◌+◌, ◌⊎◌,
}
use go_warp.Errors.{ok, err}
use go_warp.Merge.Clock.{VectorClock, counter, compare}
use go_warp.Merge.Clock as Clock
use go_warp.Merge.Clock.Order.{Dominates, Reads, compare-Reads, merge-least}
use go_warp.Merge.Engine.{Value, Engine, MergeFn, last_write_wins, merge, stamped}
use go_warp.Merge.Engine.Laws.{entries, last_write_wins_comm, merge-custom}
use go_warp.Merge.Versioned.{VersionedValue, add, at}
use go_warp.Merge.Versioned.History.{Bounded, Newest, add-window, at-Newest}

abbrev eu : Key
eu = 1 ∷ []

abbrev us : Key
us = 2 ∷ []

abbrev clock_a : VectorClock
clock_a = (eu, 2) ∷ []

abbrev clock_b : VectorClock
clock_b = (eu, 2) ∷ (us, 1) ∷ []

clock_a-Distinct : Distinct clock_a
unfolding lookup key_beq
clock_a-Distinct = ground arith

clock_b-Distinct : Distinct clock_b
unfolding lookup key_beq
clock_b-Distinct = ground arith

compare_runs : (compare clock_b clock_a ≡ pos 1) × (compare ((eu, 3) ∷ []) clock_b ≡ negsuc 1)
unfolding compare lookup key_beq
compare_runs = (refl, refl)

compare-Reads_example :
    Reads (compare clock_b clock_a) (Dominates clock_b clock_a) (Dominates clock_a clock_b)
compare-Reads_example = compare-Reads clock_b clock_a clock_b-Distinct clock_a-Distinct

merge-least_example :
    Dominates (Clock.merge clock_a clock_b) clock_a
    × Dominates (Clock.merge clock_a clock_b) clock_b
    × ((Dominates clock_b clock_a × Dominates clock_b clock_b)
        ↔ Dominates clock_b (Clock.merge clock_a clock_b))
merge-least_example = merge-least clock_a clock_b clock_b clock_b-Distinct

abbrev value_a : Value ℕ
value_a = record { datum = 10; timestamp = pos 9; vector = some clock_a; region = eu }

abbrev value_b : Value ℕ
value_b = record { datum = 20; timestamp = pos 4; vector = some clock_b; region = us }

last_write_wins_comm_example : last_write_wins value_a value_b ≡ last_write_wins value_b value_a
last_write_wins_comm_example =
    last_write_wins_comm value_a value_b clock_a-Distinct clock_b-Distinct (λ h. ground arith)

above : Dominates clock_b clock_a
unfolding lookup key_beq
above k = ground arith

not_below : ¬ Dominates clock_a clock_b
unfolding lookup key_beq
not_below h = let x : 1 ≤ 0 = h us in omega arith

abbrev sum : MergeFn ℕ
sum x y = ok (x + y)

abbrev engine : Engine ℕ
engine = record { custom = (eu, sum) ∷ [] }

merge-custom_example :
    ((d : ℕ)
      → sum 10 20 ≡ ok d
      → (v : Value ℕ) × (merge eu engine value_a value_b ≡ ok v)
        × (v.datum ≡ d)
        × (v.timestamp ≡ pos 4)
        × (v.region ≡ us)
        × ((k : Key) → counter k (entries v.vector) ≡ max (counter k clock_a) (counter k clock_b)))
    × ((x : _) → sum 10 20 ≡ err x → merge eu engine value_a value_b ≡ err x)
unfolding lookup key_beq
merge-custom_example =
    merge-custom eu engine sum value_a value_b refl clock_a-Distinct clock_b-Distinct

abbrev history : VersionedValue ℕ
history = record { versions = stamped 1 (pos 3) ∷ stamped 2 (pos 5) ∷ []; limit = 2 }

abbrev added : Value ℕ
added = stamped 3 (pos 8)

history_runs :
    ((add added history).versions ≡ stamped 2 (pos 5) ∷ added ∷ [])
    × (at (pos 6) history ≡ some (stamped 2 (pos 5)))
    × (at (pos 2) history ≡ none)
unfolding add at
history_runs = (refl, refl, refl)

add-window_example :
    (front : List (Value ℕ)) × (front ++ (add added history).versions
      ≡ history.versions ++ added ∷ [])
    × Bounded (add added history)
    × ((front ≡ []) ⊎ ((0 < 2) × (length (add added history).versions ≡ 2)))
add-window_example = add-window added history

at-Newest_example : Newest history.versions (pos 6) 2 (at (pos 6) history)
at-Newest_example = at-Newest (pos 6) history
