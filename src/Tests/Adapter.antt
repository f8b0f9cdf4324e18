-- ===== src/Tests/Adapter.antt =====
-- Runs of adapter/adapter.go.
use go_warp.Base.{
  ◌≡◌, refl, ℕ, [], ◌∷◌, Key, lookup, key_beq, insert, delete, key_eq, arith, Distinct, none,
  if◌then◌else◌,
}
use go_warp.Adapter.{InMemoryStore, Batch, new_batch, batch_set, batch_delete, commit}
use go_warp.Adapter.Commit.{over, commit-lookup}
use go_warp.Cache.InMemory.Order.{contains}

abbrev first : Key
first = 1 ∷ []

abbrev second : Key
second = 2 ∷ []

abbrev store : InMemoryStore ℕ
store = (first, 10) ∷ (second, 20) ∷ []

abbrev batch : Batch ℕ
batch = record { sets = (first, 11) ∷ []; deletes = first ∷ second ∷ [] }

batch-Distinct : Distinct batch.sets
unfolding lookup
batch-Distinct = ground arith

batch_runs :
    (batch_delete second (batch_delete first (batch_set first 11 new_batch)) ≡ batch)
    × (commit batch store ≡ (first, 11) ∷ [])
unfolding batch_delete batch_set new_batch commit key_beq insert delete
batch_runs = (refl, refl)

commit-lookup_example :
    lookup first (commit batch store)
    ≡ over
        (lookup first batch.sets)
        (if contains first batch.deletes then none else lookup first store)
commit-lookup_example = commit-lookup batch store first batch-Distinct
