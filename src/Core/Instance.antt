-- ===== src/Core/Instance.antt =====
-- core/core.go over the in-memory cache of cache/cache.go and the in-memory store of
-- adapter/adapter.go: they meet the laws that core relies on.
use go_warp.Base.{none, pos, ◌≤ℤ◌, Time, key_eq, lookup-insert_self}
use go_warp.Cache.InMemory.{InMemory, Config, Ctx, in_memory_ops}
use go_warp.Cache.InMemory.Lawful
use go_warp.Cache.Ttl.{Floats, StrategyOps}
use go_warp.Merge.Engine.{Value}
use go_warp.Adapter
use go_warp.Adapter.{InMemoryStore, Batch, new_batch, batch_set, batch_delete}
use go_warp.Errors.{ok}
use go_warp.Core.Txn.Commit.{BatchOps}
use go_warp.Core.Ports.{Ports, BusOps}
use go_warp.Core.Set.Coherence.{Lawful}

-- The in-memory store is a Batcher.
unfoldable pub in_memory_batches : {T : Type 0} → BatchOps (InMemoryStore T) T (Batch T)
in_memory_batches = record {
  open_batch = λ s. (ok new_batch, s);
  batch_set = λ k v x. (none, batch_set k v x);
  batch_delete = λ k x. (none, batch_delete k x);
  commit_batch = λ x s. (none, Adapter.commit x s);
}

module _ {F T B Q : Type 0} (floats : Floats F) (bus : BusOps B) (strategies : StrategyOps Q)
    (cfg : Config (Value T)) (ctx : Ctx) (now : Time) where
  unfoldable pub in_memory_ports : Ports F T (InMemory (Value T)) (InMemoryStore T) B Q
  in_memory_ports = record {
    floats = floats;
    cache_ops = in_memory_ops cfg ctx now;
    store_ops = Adapter.store_ops;
    bus_ops = bus;
    strategy_ops = strategies;
  }

  -- The in-memory cache without maxima and the in-memory store meet the laws that core relies on.
  pub in_memory_ports-Lawful :
      cfg.max_entries ≤ℤ pos 0 → cfg.max_memory ≤ℤ pos 0 → Lawful in_memory_ports
  unfolding in_memory_ports in_memory_ops Adapter.store_ops
  in_memory_ports-Lawful entries memory = record {
    cache_get-set = λ k v d c h. Lawful.get-set cfg ctx now k v d c entries memory h;
    store_get-set = λ k d s h. rw (lookup-insert_self k d s);
  }
