-- ===== src/Adapter.antt =====
-- adapter/adapter.go: InMemoryStore and its batches. No operation fails.
pub mod Commit
use go_warp.Base.{List, [], ◌∷◌, ◌++◌, map, Key, key_eq, lookup, insert, delete, Option, none, some}
use go_warp.Errors.{Error, Got, hit, miss, Result, ok}
use go_warp.Core.Ports.{StoreOps}

abbrev pub InMemoryStore : Type 0 → Type 0
InMemoryStore T = List (Key × T)

-- The sets are a map; the deletes are in the order of the calls.
pub record Batch (T : Type 0) : Type 0 where
  pub sets : List (Key × T)
  pub deletes : List Key

module _ {T : Type 0} where
  found : Option T → Got T
  found none = miss
  found (some v) = hit v

  unfoldable pub get : Key → InMemoryStore T → Got T × InMemoryStore T
  unfolding found
  get key s = (found (lookup key s), s)

  unfoldable pub set : Key → T → InMemoryStore T → Option Error × InMemoryStore T
  set key v s = (none, insert key v s)

  unfoldable pub keys : InMemoryStore T → Result (List Key) × InMemoryStore T
  keys s = (ok (map (λ e. e.0) s), s)

  unfoldable pub store_ops : StoreOps (InMemoryStore T) T
  unfolding get set keys
  store_ops = record { get = get; set = set; keys = keys }

  unfoldable pub new_batch : Batch T
  new_batch = record { sets = []; deletes = [] }

  unfoldable pub batch_set : Key → T → Batch T → Batch T
  batch_set key v b = record b { sets = insert key v b.sets }

  unfoldable pub batch_delete : Key → Batch T → Batch T
  batch_delete key b = record b { deletes = b.deletes ++ key ∷ [] }

  delete_all : List Key → InMemoryStore T → InMemoryStore T
  delete_all [] s = s
  delete_all (k ∷ ks) s = delete_all ks (delete k s)

  set_all : List (Key × T) → InMemoryStore T → InMemoryStore T
  set_all [] s = s
  set_all ((k, v) ∷ sets) s = set_all sets (insert k v s)

  -- Commit: the deletes first, then the sets.
  unfoldable pub commit : Batch T → InMemoryStore T → InMemoryStore T
  unfolding delete_all set_all
  commit b s = set_all b.sets (delete_all b.deletes s)
