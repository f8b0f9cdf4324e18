-- ===== src/Core/GetOrSet.antt =====
-- core/core.go: GetOrSet. The loader's answer is an argument; `again` is the second reading of the
-- clock, by the Set that stores a loaded value.
pub mod Stores
use go_warp.Base.{
  ℕ, suc, ℤ, ◌≡◌, Duration, Time, pos, negsuc, ltb_ℤ, Bool, true, false, not, ◌&&◌, List, [], ◌∷◌,
  Key, Option, none, some, if◌then◌else◌, is_some,
}
use go_warp.Errors.{Error, Result, Got, ok, err, hit, miss, failed}
use go_warp.Cache.Ttl.{TtlOptions, no_options}
use go_warp.Merge.Engine.{Value, stamped}
use go_warp.Core.Ports.{Ports}
use go_warp.Core.Registry.{Registration, Mode, get_reg, put_reg, strong_local}
use go_warp.Core.State.{
  Warp, Act, World, ◌>>=◌, ◌>>◌, give, fail, modify, resume, increase, observed, registered,
  find_registration, record_access, next_ttl, ttl_of, after_ttl, cache_get, touch_reg, spawn, Task,
  late_refresh, count_hit, count_miss,
}
use go_warp.Core.Set.{set}
use go_warp.Core.Get.{Env, keep_fetched, is_stale, slide}

module _ {F T C S B Q : Type 0} (p : Ports F T C S B Q) where
  -- ModeStrongLocal and five minutes.
  default_registration : Registration F
  default_registration = record {
    ttl = pos 300000000000;
    ttl_strategy = none;
    ttl_opts = no_options p.floats;
    mode = strong_local;
    current_ttl = pos 300000000000;
    last_access = pos 0;
    quorum = pos 1;
  }

  or_default : Option (Registration F) → Registration F
  or_default none = default_registration
  or_default (some reg) = reg

  -- Registers the key with the defaults, if it is not registered.
  auto_register : Key → World p → World p
  unfolding or_default default_registration
  auto_register key w = record w {
    shards =
        if is_some (get_reg key w.shards)
        then w.shards
        else put_reg key default_registration w.shards;
  }

  from_loader : Time → Result T → Result (Value T)
  from_loader t (err e) = err e
  from_loader t (ok d) = ok (stamped d t)

  -- The fail-safe serves the stale value on any failure of the loader.
  after_load : Registration F → Key → Value T → Result (Value T) → Act (World p) T
  after_load reg key v (err e) w = (ok v.datum, count_hit p w)
  after_load reg key v (ok mv) w =
      (ok mv.datum, count_hit p (keep_fetched p reg key reg.current_ttl mv w))

  or_joined : Option (Result (Value T)) → Result (Value T) → Result (Value T)
  or_joined (some r) own = r
  or_joined none own = own

  reload_stale : Env T → Result T → Registration F → Key → Value T → Act (World p) T
  unfolding after_load from_loader or_joined
  reload_stale env loaded reg key v w =
      if ltb_ℤ (pos 0) reg.ttl_opts.soft_timeout && env.timed_out
      then (ok v.datum, count_hit p (spawn p (late_refresh key reg reg.current_ttl) w))
      else after_load reg key v (or_joined env.joined (from_loader env.fetched_at loaded)) w

  hit_or_reload : Env T → Result T → Registration F → Key → Value T → Act (World p) T
  unfolding reload_stale
  hit_or_reload env loaded reg key v w =
      if is_stale p reg env.now v
      then reload_stale env loaded reg key v w
      else (ok v.datum, count_hit p (slide p reg key env.now v w))

  -- A loaded value is stored by Set, whose error is logged only.
  keep_loaded : Time → Registration F → Key → Value T → Act (World p) (Value T)
  keep_loaded again reg key mv w =
      let ttl = ttl_of p reg key reg.ttl w.strategies in
      (
        ok mv,
        (set p again key mv.datum (touch_reg p key ttl mv.timestamp (after_ttl p reg key w))).1,
      )

  load_flight :
      Time → Env T → Result T → Registration F → Key → Got (Value T) → Act (World p) (Value T)
  unfolding keep_loaded
  load_flight again env loaded reg key (failed e) w = (err e, w)
  load_flight again env loaded reg key (hit v) w = (ok v, w)
  load_flight again env (err e) reg key miss w = (err e, w)
  load_flight again env (ok d) reg key miss w =
      keep_loaded again reg key (stamped d env.fetched_at) w

  -- The flight looks into the cache once more; another call's flight is joined instead.
  flight_or_join :
      Option (Result (Value T))
      → Time
      → Env T
      → Result T
      → Registration F
      → Key
      → Act (World p) (Value T)
  unfolding load_flight
  flight_or_join (some r) again env loaded reg key w = (r, w)
  flight_or_join none again env loaded reg key w =
      (cache_get p key >>= λ g. load_flight again env loaded reg key g) w

  get_or_load : Time → Env T → Result T → Registration F → Key → Got (Value T) → Act (World p) T
  unfolding hit_or_reload flight_or_join
  get_or_load again env loaded reg key (failed e) w = (err e, w)
  get_or_load again env loaded reg key (hit v) w = hit_or_reload env loaded reg key v w
  get_or_load again env loaded reg key miss w =
      (flight_or_join env.joined again env loaded reg key >>= λ mv w'. (ok mv.datum, w'))
        (count_miss p w)

  get_or_set_body : Time → Env T → Result T → Key → Act (World p) T
  unfolding auto_register get_or_load
  get_or_set_body again env loaded key w =
      let reg = or_default (get_reg key w.shards) in
      (do
        modify (record_access p reg key)
        got ← cache_get p key
        get_or_load again env loaded reg key got)
        (auto_register key w)

  -- GetOrSet
  pub get_or_set : Time → Env T → Result T → Key → Act (World p) T
  unfolding get_or_set_body
  get_or_set again env loaded key w =
      observed p (get_or_set_body again env loaded key)
        (record w { get_calls = if is_some w.hit_counter then suc w.get_calls else w.get_calls })
