-- ===== src/Tests/Lifecycle.antt =====
-- Runs of core/core.go outside the reads and writes of a caller.
use go_warp.Base.{◌≡◌, refl, ℕ, pos, [], ◌∷◌, key_eq, none, some}
use go_warp.Errors.{Error, hit, miss, failed, external}
use go_warp.Cache.InMemory.{InMemory}
use go_warp.Merge.Engine.{Value, stamped}
use go_warp.Adapter.{InMemoryStore}
use go_warp.Core.Registry.{strong_local}
use go_warp.Core.State.{Warp, World}
use go_warp.Base.{◌⊎◌}
use go_warp.Core.State.{effective_ttl}
use go_warp.Core.Create.{new_warp, with_metrics, with_tracing, with_publish_timeout}
use go_warp.Core.Background.{run_eager}
use go_warp.Core.Background.Effects.{run_eager_lem}
use go_warp.Tests.World.{key, ports, ports-Lawful, options, registration, cache, store, local, env}

abbrev overdue : World ports
overdue = record local { publish_errors = external 9 ∷ [] }

run_eager_lem_example :
    ((d : ℕ)
      → (ports.store_ops.get key store).0 ≡ hit d
      → (ports.cache_ops.set key
          (stamped d (pos 31))
          (effective_ttl ports (registration strong_local options) (pos 10))
          cache).0
        ≡ none
      → (ports.cache_ops.get key
          (run_eager ports env key (registration strong_local options) (pos 10) local).cache).0
        ≡ hit (stamped d (pos 31)))
    × ((x : Error)
        → ((ports.store_ops.get key store).0 ≡ failed x)
          ⊎ ((ports.store_ops.get key store).0 ≡ miss)
        → ((run_eager ports env key (registration strong_local options) (pos 10) local).cache
            ≡ cache)
          × ((run_eager ports env key (registration strong_local options) (pos 10) local).shards
              ≡ local.shards))
run_eager_lem_example =
    run_eager_lem ports ports-Lawful env key (registration strong_local options) (pos 10) local
      store refl refl

abbrev fresh : Warp ℕ ℕ (InMemory (Value ℕ)) (InMemoryStore ℕ) ℕ ℕ
fresh =
    with_publish_timeout (pos 5)
      (with_tracing (with_metrics (new_warp cache (some store) (some 0) 0 none)))
