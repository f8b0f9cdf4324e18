-- ===== src/Core/Ports.antt =====
-- What core/core.go works with and does not define: the cache, the store (adapter.Store), the
-- sync bus (syncbus.Bus), the TTL strategies and float64. The states are `C`, `S`, `B` and `Q`.
use go_warp.Base.{ℤ, ◌≡◌, Bool, Key, List, Option, Duration}
use go_warp.Errors.{Error, Got, Result}
use go_warp.Cache.Api.{CacheOps}
use go_warp.Cache.Ttl.{Floats, StrategyOps}
use go_warp.Merge.Engine.{Value}

-- adapter/adapter.go: Store.
pub record StoreOps (S T : Type 0) : Type 0 where
  pub get : Key → S → Got T × S
  pub set : Key → T → S → Option Error × S
  pub keys : S → Result (List Key) × S

-- Reads of the store change no value.
pub record IsStore {S T : Type 0} (ops : StoreOps S T) : Type 0 where
  pub get-get : (k j : Key) (s : S) → (ops.get j (ops.get k s).1).0 ≡ (ops.get j s).0
  pub get-keys : (j : Key) (s : S) → (ops.get j (ops.keys s).1).0 ≡ (ops.get j s).0

-- syncbus/syncbus.go: the calls of Bus that core makes. A publish runs under a context, whose
-- deadline is the first argument. `publish_and_await` is given the quorum.
pub record BusOps (B : Type 0) : Type 0 where
  pub is_healthy : B → Bool
  pub publish : Option Duration → Key → B → Option Error × B
  pub publish_and_await : Key → ℤ → B → Option Error × B

pub record Ports (F T C S B Q : Type 0) : Type 0 where
  pub floats : Floats F
  pub cache_ops : CacheOps C (Value T)
  pub store_ops : StoreOps S T
  pub bus_ops : BusOps B
  pub strategy_ops : StrategyOps Q
