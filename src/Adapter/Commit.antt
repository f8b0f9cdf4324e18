-- ===== src/Adapter/Commit.antt =====
-- adapter/adapter.go: what a batch leaves in the store.
use go_warp.Base.{
  ◌≡◌, refl, List, [], ◌∷◌, Key, key_eq, key_beq_iff, lookup, insert, delete, lookup-insert,
  lookup-delete, Distinct, if◌then◌else◌, Option, none, some, arith,
}
use go_warp.Cache.InMemory.Order.{contains}
use go_warp.Adapter.{InMemoryStore, Batch, delete_all, set_all, commit}

module _ {T : Type 0} where
  -- The entry of a batch's sets, if there is one, before the other value.
  abbrev pub over : Option T → Option T → Option T
  over none old = old
  over (some v) old = some v

  delete_all-lookup :
      (ks : List Key) (s : InMemoryStore T) (j : Key)
      → lookup j (delete_all ks s) ≡ (if contains j ks then none else lookup j s)
  unfolding delete_all contains
  delete_all-lookup [] s j = refl
  delete_all-lookup (k ∷ ks) s j =
      ground (arith, delete_all-lookup ks (delete k s) j, lookup-delete k j s)

  set_all-lookup :
      (sets : List (Key × T)) (s : InMemoryStore T) (j : Key)
      → Distinct sets
      → lookup j (set_all sets s) ≡ over (lookup j sets) (lookup j s)
  unfolding set_all lookup
  set_all-lookup [] s j d = refl
  set_all-lookup ((k, v) ∷ sets) s j d =
      ground (
        arith,
        set_all-lookup sets (insert k v s) j d.1,
        lookup-insert k j v s,
        key_beq_iff k j,
        d.0,
      )

  -- After a commit a key has the value that the batch set, whether or not the batch deletes it
  -- too; else nothing, if the batch deletes it; else what it had.
  pub commit-lookup :
      (b : Batch T) (s : InMemoryStore T) (j : Key)
      → Distinct b.sets
      → lookup j (commit b s)
        ≡ over (lookup j b.sets) (if contains j b.deletes then none else lookup j s)
  unfolding commit
  commit-lookup b s j d =
      ground
        (arith, set_all-lookup b.sets (delete_all b.deletes s) j d, delete_all-lookup b.deletes s j)
