-- ===== src/SyncBus/SafeMap.antt =====
-- The map that syncbus/syncbus.go takes from another package (safemap.ShardedMap), as operations on
-- states `M`. What the bus relies on is that a read answers the last write to the key.
use go_warp.Base.{◌≡◌, Key, key_eq, ◌==◌, if◌then◌else◌, Option, none, some}

pub record MapOps (M V : Type 0) : Type 0 where
  pub get : Key → M → Option V
  pub compute : Key → (Option V → V) → M → M
  pub delete : Key → M → M

pub record IsMap {M V : Type 0} (ops : MapOps M V) : Type 0 where
  pub get-compute :
      (k j : Key) (f : Option V → V) (m : M)
      → ops.get j (ops.compute k f m) ≡ (if k == j then some (f (ops.get k m)) else ops.get j m)
  pub get-delete :
      (k j : Key) (m : M) → ops.get j (ops.delete k m) ≡ (if k == j then none else ops.get j m)
