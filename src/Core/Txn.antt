-- ===== src/Core/Txn.antt =====
-- core/core.go: transactions, which queue the last operation of each key until their commit.
pub mod Queue
pub mod Commit
use go_warp.Base.{List, [], ◌∷◌, Key, key_eq, insert, delete}

-- The keys of `deletes` carry nothing.
pub record Txn (T : Type 0) : Type 0 where
  pub sets : List (Key × T)
  pub deletes : List (Key × Unit {0})
  pub cas : List (Key × T)

module _ {T : Type 0} where
  unfoldable pub new_txn : Txn T
  new_txn = record { sets = []; deletes = []; cas = [] }

  unfoldable pub txn_set : Key → T → Txn T → Txn T
  txn_set key value t = record {
    sets = insert key value t.sets;
    deletes = delete key t.deletes;
    cas = delete key t.cas;
  }

  unfoldable pub txn_delete : Key → Txn T → Txn T
  txn_delete key t = record {
    sets = delete key t.sets;
    deletes = insert key tt t.deletes;
    cas = delete key t.cas;
  }

  unfoldable pub compare_and_swap : Key → T → T → Txn T → Txn T
  compare_and_swap key old new t = record {
    sets = insert key new t.sets;
    deletes = delete key t.deletes;
    cas = insert key old t.cas;
  }
