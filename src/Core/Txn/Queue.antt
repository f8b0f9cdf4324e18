-- ===== src/Core/Txn/Queue.antt =====
-- core/core.go: what a transaction has queued.
use go_warp.Base.{
  ◌≡◌, true, false, Key, key_eq, lookup, has, Distinct, insert-Distinct, delete-Distinct,
  lookup-insert, lookup-delete, arith, ◌==◌, none, some, if◌then◌else◌,
}
use go_warp.Core.Txn.{Txn, txn_set, txn_delete, compare_and_swap}

module _ {T : Type 0} where
  -- No key is queued twice, a key is not both written and deleted, and a comparison has its write.
  pub record IsValid (t : Txn T) : Type 0 where
    pub sets_once : Distinct t.sets
    pub deletes_once : Distinct t.deletes
    pub cas_once : Distinct t.cas
    pub apart : (k : Key) → has k t.sets ≡ true → has k t.deletes ≡ false
    pub compared : (k : Key) → has k t.cas ≡ true → has k t.sets ≡ true

  -- The last operation on a key is the one that is queued: after Set or CompareAndSwap the key is
  -- to be written, not deleted, and compared with the old value or not at all, and after Delete it
  -- is to be deleted, not written and not compared. Every other key keeps its write, its deletion
  -- and its comparison. A valid queue stays valid.
  pub txn-IsValid :
      (key : Key) (old new : T) (t : Txn T)
      → IsValid t
      → (IsValid (txn_set key new t)
          × IsValid (txn_delete key t)
          × IsValid (compare_and_swap key old new t))
        × ((k : Key)
            → (lookup k (txn_set key new t).sets ≡ (if key == k then some new else lookup k t.sets))
              × (lookup k (txn_set key new t).cas ≡ (if key == k then none else lookup k t.cas))
              × (has k (txn_set key new t).deletes ≡ (if key == k then false else has k t.deletes))
              × (lookup k (compare_and_swap key old new t).sets
                  ≡ (if key == k then some new else lookup k t.sets))
              × (lookup k (compare_and_swap key old new t).cas
                  ≡ (if key == k then some old else lookup k t.cas))
              × (has k (compare_and_swap key old new t).deletes
                  ≡ (if key == k then false else has k t.deletes))
              × (has k (txn_delete key t).deletes ≡ (if key == k then true else has k t.deletes))
              × (lookup k (txn_delete key t).sets ≡ (if key == k then none else lookup k t.sets))
              × (lookup k (txn_delete key t).cas ≡ (if key == k then none else lookup k t.cas)))
  unfolding txn_set txn_delete compare_and_swap
  txn-IsValid key old new t v = (
    (
      record {
        sets_once = insert-Distinct key new t.sets v.sets_once;
        deletes_once = delete-Distinct key t.deletes v.deletes_once;
        cas_once = delete-Distinct key t.cas v.cas_once;
        apart = λ k.
            ground
              (arith, lookup-insert key k new t.sets, lookup-delete key k t.deletes, v.apart k);
        compared = λ k.
            ground (arith, lookup-insert key k new t.sets, lookup-delete key k t.cas, v.compared k);
      },
      record {
        sets_once = delete-Distinct key t.sets v.sets_once;
        deletes_once = insert-Distinct key tt t.deletes v.deletes_once;
        cas_once = delete-Distinct key t.cas v.cas_once;
        apart = λ k.
            ground (arith, lookup-insert key k tt t.deletes, lookup-delete key k t.sets, v.apart k);
        compared = λ k.
            ground (arith, lookup-delete key k t.sets, lookup-delete key k t.cas, v.compared k);
      },
      record {
        sets_once = insert-Distinct key new t.sets v.sets_once;
        deletes_once = delete-Distinct key t.deletes v.deletes_once;
        cas_once = insert-Distinct key old t.cas v.cas_once;
        apart = λ k.
            ground
              (arith, lookup-insert key k new t.sets, lookup-delete key k t.deletes, v.apart k);
        compared = λ k.
            ground
              (arith, lookup-insert key k new t.sets, lookup-insert key k old t.cas, v.compared k);
      },
    ),
    λ k. (
      lookup-insert key k new t.sets,
      lookup-delete key k t.cas,
      ground (arith, lookup-delete key k t.deletes),
      lookup-insert key k new t.sets,
      lookup-insert key k old t.cas,
      ground (arith, lookup-delete key k t.deletes),
      ground (arith, lookup-insert key k tt t.deletes),
      lookup-delete key k t.sets,
      lookup-delete key k t.cas,
    ),
  )
