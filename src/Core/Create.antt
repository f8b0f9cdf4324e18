-- ===== src/Core/Create.antt =====
-- core/core.go: New, its options, and Merge. The resilient cache is a change of the ports. The
-- metrics start at zero.
use go_warp.Base.{
  ◌≡◌, refl, Duration, Time, pos, true, false, [], Key, key_eq, Option, none, some, lookup,
}
use go_warp.Errors.{err, unregistered}
use go_warp.Cache.Resilient.{resilient}
use go_warp.Merge.Engine.{Engine, MergeFn, new_engine}
use go_warp.Merge.Engine as Engine
use go_warp.Core.Ports.{Ports}
use go_warp.Core.Registry.{no_shards, get_reg}
use go_warp.Core.State.{Warp}
use go_warp.Core.Set.{set, invalidate}
use go_warp.Core.Get.{Env, get}

engine_or_new : {T : Type 0} → Option (Engine T) → Engine T
engine_or_new none = new_engine
engine_or_new (some m) = m

module _ {F T C S B Q : Type 0} where
  -- New without options; `strategies` are those of the program.
  unfoldable pub new_warp : C → Option S → Option B → Q → Option (Engine T) → Warp F T C S B Q
  unfolding engine_or_new
  new_warp c s b strategies m = record {
    cache = c;
    store = s;
    bus = b;
    strategies = strategies;
    merges = engine_or_new m;
    shards = no_shards;
    publish_errors = [];
    publish_timeout = pos 0;
    trace_enabled = false;
    latency_hist = none;
    hit_counter = none;
    miss_counter = none;
    eviction_counter = none;
    set_calls = 0;
    get_calls = 0;
    invalidate_calls = 0;
    spawned = [];
  }

  unfoldable pub with_metrics : Warp F T C S B Q → Warp F T C S B Q
  with_metrics w = record w {
    hit_counter = some 0;
    miss_counter = some 0;
    eviction_counter = some 0;
    latency_hist = some 0;
  }

  unfoldable pub with_publish_timeout : Duration → Warp F T C S B Q → Warp F T C S B Q
  with_publish_timeout d w = record w { publish_timeout = d }

  unfoldable pub with_tracing : Warp F T C S B Q → Warp F T C S B Q
  with_tracing w = record w { trace_enabled = true }

  unfoldable pub with_cache_resiliency : Ports F T C S B Q → Ports F T C S B Q
  with_cache_resiliency p = record p { cache_ops = resilient p.cache_ops }

  -- Merge
  unfoldable pub register_merge : Key → MergeFn T → Warp F T C S B Q → Warp F T C S B Q
  register_merge key fn w = record w { merges = Engine.register key fn w.merges }

  -- On a new Warp, whatever its options, Get, Set and Invalidate of every key fail with
  -- ErrUnregistered, and leave the cache and the store as they were given.
  pub new_warp_unregistered :
      (p : Ports F T C S B Q) (c : C) (s : Option S) (b : Option B) (q : Q) (m : Option (Engine T))
      (d : Duration) (env : Env T) (now : Time) (key : Key) (value : T)
      → let w = with_publish_timeout d (with_tracing (with_metrics (new_warp c s b q m))) in
        ((get p env key w).0 ≡ err unregistered)
        × ((set p now key value w).0 ≡ err unregistered)
        × ((invalidate p key w).0 ≡ err unregistered)
        × ((get p env key w).1.cache ≡ c)
        × ((set p now key value w).1.cache ≡ c)
        × ((invalidate p key w).1.cache ≡ c)
        × ((get p env key w).1.store ≡ s)
        × ((set p now key value w).1.store ≡ s)
        × ((invalidate p key w).1.store ≡ s)
  unfolding new_warp with_metrics with_publish_timeout with_tracing get set invalidate get_reg
      no_shards lookup
  new_warp_unregistered p c s b q m d env now key value =
      (refl, refl, refl, refl, refl, refl, refl, refl, refl)
