-- ===== src/Tests/Warmup.antt =====
-- Runs of Warmup, of Get, of the validator's view and of the leases of core, over association lists.
use go_warp.Base.{
  ℕ, suc, time_add, ◌++◌, ◌⊎◌, ◌<ℤ◌, ◌≢◌, ◌≡◌, refl, ap, ◌∙◌, pos, Time, Duration, Bool, true,
  false, List, [], ◌∷◌, Key, key_beq, key_eq, ◌==◌, lookup, insert, delete, lookup-insert,
  lookup-delete, listed, if◌then◌else◌, none, some, Bool-cases, inl, inr, ◌+₆₄◌, wrap64, ◌+ℤ◌,
}
use go_warp.Errors.{hit, miss, ok, err, not_found}
use go_warp.Cache.Api.{IsCache}
use go_warp.Merge.Engine.{Value, new_engine, stamped}
use go_warp.Cache.Ttl.{no_options, with_fail_safe}
use go_warp.Adapter
use go_warp.Adapter.{InMemoryStore}
use go_warp.Core.Ports.{Ports, IsStore}
use go_warp.Core.Registry.{
  Registration, strong_local, no_shards, put_reg, get_reg, update_reg, shard_index, hash_string,
}
use go_warp.Core.State.{World, late_refresh}
use go_warp.Core.Get.{get, plain, is_stale, keep_fetched}
use go_warp.Core.Get.Refresh.{IsFresh, IsOld, Wants, Gives, get-Served}
use go_warp.Core.Warmup.{warmup}
use go_warp.Core.Warmup.Loading.{Loaded, value_at, warmup-Loaded}
use go_warp.Core.Warmup.Listing.{Sharded, put_reg-Sharded, no_shards-Sharded}
use go_warp.Core.Validation.{validator_cache, chosen, Written, validator_cache-IsCache}
use go_warp.Core.Lease.{LeaseBusOps, LeaseManager, attach, revoke, grant, new_lease_manager}
use go_warp.Core.Lease.Revocation.{Invalidates, keys_of, revoke-attach}
use go_warp.Tests.Caches.{assoc_cache, got}
use go_warp.Tests.World.{key, other, whole, deaf, no_strategies, registration, store, env, options}

program : Unit {0}
unfolding warmup validator_cache attach revoke grant new_lease_manager keep_fetched lookup insert
    delete key_beq put_reg get_reg update_reg shard_index hash_string Adapter.store_ops Adapter.get
    Adapter.keys no_options ◌+₆₄◌ wrap64 ◌+ℤ◌ no_shards new_engine
program = tt

assoc_cache-IsCache : {V : Type 0} → IsCache (assoc_cache {V = V})
assoc_cache-IsCache = record {
  get-get = λ k j c. refl;
  get-set = λ k j v ttl c.
      ap got (lookup-insert k j v c)
      ∙ elim (Bool-cases (k == j)) [ inl t ↦ rw t refl | inr f ↦ rw f refl ];
}

assoc_cache-Invalidates : {V : Type 0} → Invalidates (assoc_cache {V = V})
assoc_cache-Invalidates = record {
  get-invalidate = λ k j c.
      ap got (lookup-delete k j c)
      ∙ elim (Bool-cases (k == j)) [ inl t ↦ rw t refl | inr f ↦ rw f refl ];
}

abbrev ports : Ports ℕ ℕ (List (Key × Value ℕ)) (InMemoryStore ℕ) ℕ ℕ
ports = record {
  floats = whole;
  cache_ops = assoc_cache;
  store_ops = Adapter.store_ops;
  bus_ops = deaf;
  strategy_ops = no_strategies;
}

store_ops-IsStore : IsStore ports.store_ops
unfolding program
store_ops-IsStore = record { get-get = λ k j s. refl; get-keys = λ j s. refl }

-- One registered key, of which the store has 60; the other key of the store is not registered.
abbrev cold : World ports
cold = record {
  cache = [];
  store = some store;
  bus = none;
  strategies = 0;
  merges = new_engine;
  shards = put_reg key (registration strong_local (no_options whole)) no_shards;
  publish_errors = [];
  publish_timeout = pos 0;
  trace_enabled = false;
  latency_hist = none;
  hit_counter = none;
  miss_counter = none;
  eviction_counter = none;
  set_calls = 0;
  get_calls = 0;
  invalidate_calls = 0;
  spawned = [];
}

abbrev going : ℕ → Bool
going n = false

abbrev clock : ℕ → Time
clock i = pos 9

cold-Sharded : Sharded cold.shards
cold-Sharded =
    put_reg-Sharded key (registration strong_local (no_options whole)) no_shards
      (no_shards-Sharded ℕ)

abbrev as_listed : List Key → List Key
as_listed ks = ks

warmup-Loaded_example :
    (w' : World ports) × (warmup ports going clock as_listed cold ≡ some w')
    × ((j : Key)
        → Loaded ports assoc_cache-IsCache
            (value_at ports assoc_cache-IsCache store_ops-IsStore j cold store)
            (assoc_cache.get j cold.cache).0
            (assoc_cache.get j w'.cache).0)
warmup-Loaded_example =
    warmup-Loaded ports assoc_cache-IsCache store_ops-IsStore going clock as_listed cold store refl
      (λ n. refl) (λ k ks. refl) cold-Sharded

validator_cache-IsCache_example :
    IsCache (validator_cache ports (pos 3))
    × ((k : Key) (d : ℕ) (ttl : Duration) (w : World ports) (reg : Registration ℕ)
        → get_reg k w.shards ≡ some reg
        → let q = chosen ports reg.ttl_strategy reg.ttl k w.strategies in
          let r = (validator_cache ports (pos 3)).set k d ttl w in
          Written ports (pos 3) k d q.0 w r
          × (r.1.strategies ≡ q.1)
          × (get_reg k r.1.shards ≡ some (record reg { current_ttl = q.0; last_access = pos 3 })))
    × ((k : Key) (d : ℕ) (ttl : Duration) (w : World ports)
        → get_reg k w.shards ≡ none
        → let r = (validator_cache ports (pos 3)).set k d ttl w in
          Written ports (pos 3) k d (pos 0) w r
          × (r.1.strategies ≡ w.strategies)
          × (r.1.shards ≡ w.shards))
validator_cache-IsCache_example = validator_cache-IsCache ports assoc_cache-IsCache (pos 3)

abbrev silent : LeaseBusOps ℕ ℕ
silent = record {
  subscribe_lease = λ id b. (some b, suc b);
  unsubscribe_lease = λ id ch b. b;
  revoke_lease = λ id b. suc b;
}

abbrev leased : LeaseManager ℕ ℕ
leased = (grant silent (pos 10) (ok other) (new_lease_manager (some 0))).1

abbrev two_values : List (Key × ℕ)
two_values = (key, 1) ∷ (other, 2) ∷ []

revoke-attach_example :
    let attached = attach silent other key leased in
    let (m', c') = revoke silent assoc_cache true other attached two_values in
    ((j : Key)
      → (assoc_cache.get j c').0 ≡ (
          if (if key == j then true else listed j (keys_of (lookup other leased.leases)))
          then miss
          else (assoc_cache.get j two_values).0))
    × ((id : Key) → lookup id m'.leases ≡ (if other == id then none else lookup id attached.leases))
    × ((again : Bool) → revoke silent assoc_cache again other m' c' ≡ (m', c'))
revoke-attach_example =
    revoke-attach silent assoc_cache assoc_cache-Invalidates true other key leased two_values

-- The key of the lease goes, and the bus is told once.
revoked :
    let (m', c') =
      revoke silent assoc_cache true other (attach silent other key leased) two_values in
    (c' ≡ (other, 2) ∷ []) × (m'.bus ≡ some 2) × (m'.leases ≡ [])
unfolding program
revoked = (refl, refl, refl)

-- The key has a grace period, and is cached since time 5 for ten: an old value at time 30.
abbrev aged : World ports
aged = record cold {
  cache = (key, stamped 50 (pos 5)) ∷ [];
  shards = put_reg key (registration strong_local options) no_shards;
}

aged-registered : get_reg key aged.shards ≡ some (registration strong_local options)
unfolding program
aged-registered = refl

get-Served_example :
    let reg = registration strong_local options in
    let r = get ports env key aged in
    let g = (assoc_cache.get key aged.cache).0 in
    ((v : Value ℕ)
      → g ≡ hit v
      → IsFresh ports reg env.now v ⊎ (aged.store ≡ none)
      → (r.0 ≡ ok v.datum) × ((assoc_cache.get key r.1.cache).0 ≡ hit v))
    × ((s : InMemoryStore ℕ) (mv : Value ℕ)
        → aged.store ≡ some s
        → Wants ports reg env g
        → Gives ports env key s mv
        → (r.0 ≡ ok mv.datum) × ((assoc_cache.get key r.1.cache).0 ≡ hit mv))
    × ((s : InMemoryStore ℕ) (v : Value ℕ)
        → aged.store ≡ some s
        → g ≡ hit v
        → IsOld ports reg env.now v
        → pos 0 <ℤ reg.ttl_opts.soft_timeout
        → env.timed_out ≡ true
        → (r.0 ≡ ok v.datum)
          × (r.1.spawned ≡ aged.spawned ++ late_refresh key reg reg.current_ttl ∷ []))
    × (aged.store ≡ none → ((v : Value ℕ) → g ≢ hit v) → r.0 ≡ err not_found)
get-Served_example =
    get-Served ports assoc_cache-IsCache env (registration strong_local options) key aged
      aged-registered

-- The store's 60 is served instead of it, and kept.
aged_run :
    let r = get ports env key aged in
    (r.0 ≡ ok 60) × ((assoc_cache.get key r.1.cache).0 ≡ hit (stamped 60 (pos 31)))
unfolding program get plain is_stale with_fail_safe time_add
aged_run = (refl, refl)
