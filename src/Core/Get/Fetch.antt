-- ===== src/Core/Get/Fetch.antt =====
-- core/core.go: a fetch from the store that no other call has started.
use go_warp.Base.{◌≡◌, refl, Key, none, some, arith, ◌⊎◌, inl, inr}
use go_warp.Errors.{Error, hit, miss, failed, ok, err, not_found}
use go_warp.Merge.Engine.{stamped}
use go_warp.Core.Ports.{Ports}
use go_warp.Core.State.{Warp}
use go_warp.Core.Get.{Env, fetch, shared, from_store}

module _ {F T C S B Q : Type 0} (p : Ports F T C S B Q) (env : Env T) (key : Key)
    (w : Warp F T C S B Q) (s : S) (alone : env.joined ≡ none) (there : w.store ≡ some s) where
  fetch-kept :
      ((fetch p env key w).1.cache ≡ w.cache)
      × ((fetch p env key w).1.shards ≡ w.shards)
      × ((fetch p env key w).1.strategies ≡ w.strategies)
  unfolding fetch shared
  fetch-kept = rw alone (refl, refl, refl)

  pub fetch-hit :
      (d : T)
      → (p.store_ops.get key s).0 ≡ hit d
      → ((fetch p env key w).0 ≡ ok (stamped d env.fetched_at))
        × ((fetch p env key w).1.cache ≡ w.cache)
        × ((fetch p env key w).1.strategies ≡ w.strategies)
  unfolding fetch shared from_store
  fetch-hit d found = (ground (arith, alone, there, found), fetch-kept.0, fetch-kept.2)

  pub fetch-lost :
      (x : Error)
      → ((p.store_ops.get key s).0 ≡ failed x) ⊎ ((p.store_ops.get key s).0 ≡ miss)
      → ((e : Error) × ((fetch p env key w).0 ≡ err e))
        × ((fetch p env key w).1.cache ≡ w.cache)
        × ((fetch p env key w).1.shards ≡ w.shards)
  unfolding fetch shared from_store
  fetch-lost x (inl fails) = ((x, ground (arith, alone, there)), fetch-kept.0, fetch-kept.1)
  fetch-lost x (inr gone) = ((not_found, ground (arith, alone, there)), fetch-kept.0, fetch-kept.1)
