-- ===== src/Core/Get.antt =====
-- core/core.go: Get. The environment of a call is what it cannot decide itself: the two
-- readings of the clock, the result of another call's fetch of the key when singleflight joins
-- it, and whether the soft timeout passes before the fetch is done.
pub mod Fetch
pub mod Refresh
pub mod FailSafe
use go_warp.Base.{
  ℕ, ◌+◌, ℤ, ◌≡◌, Duration, Time, pos, ltb_ℤ, beq_ℤ, after, time_add, time_sub, Bool, true, false,
  not, ◌&&◌, ◌||◌, List, [], ◌∷◌, Key, Option, none, some, if◌then◌else◌, is_some,
}
use go_warp.Errors.{Error, Result, Got, ok, err, hit, miss, failed, not_found, is_not_found}
use go_warp.Cache.Ttl.{TtlOptions, adjust}
use go_warp.Merge.Engine.{Value, stamped}
use go_warp.Core.Ports.{Ports}
use go_warp.Core.Registry.{Registration, get_reg}
use go_warp.Core.State.{
  Warp, Act, World, ◌>>=◌, ◌>>◌, give, fail, modify, resume, increase, observed, registered,
  find_registration, record_access, next_ttl, ttl_of, after_ttl, cache_get, cache_put, store_get,
  touch_reg, effective_ttl, spawn, Task, late_refresh, eager_refresh, count_hit, count_miss,
}

pub record Env (T : Type 0) : Type 0 where
  pub now : Time
  pub fetched_at : Time
  pub joined : Option (Result (Value T))
  pub timed_out : Bool

module _ {F T C S B Q : Type 0} (p : Ports F T C S B Q) where
  -- What the closure given to singleflight makes of the store's answer.
  from_store : Time → Got T → Result (Value T)
  from_store t (failed e) = err e
  from_store t miss = err not_found
  from_store t (hit d) = ok (stamped d t)

  shared : Option (Result (Value T)) → Time → Key → Act (World p) (Value T)
  unfolding from_store
  shared (some r) t key w = (r, w)
  shared none t key w = (store_get p key >>= λ g w'. (from_store t g, w')) w

  -- `w.group.Do(key, fetch)`: the shared result, or that of the own fetch.
  pub fetch : Env T → Key → Act (World p) (Value T)
  unfolding shared
  fetch env key = shared env.joined env.fetched_at key

  -- The fetched value goes to the cache, under the TTL of the strategy or `base`, and into the
  -- registration; the cache's error is dropped.
  unfoldable pub keep_fetched : Registration F → Key → Duration → Value T → World p → World p
  keep_fetched reg key base mv w =
      let ttl = ttl_of p reg key base w.strategies in
      cache_put p key mv (effective_ttl p reg ttl)
        (touch_reg p key ttl mv.timestamp (after_ttl p reg key w))

  -- No option needs more than the hit itself.
  unfoldable pub plain : Registration F → Bool
  plain reg =
      not reg.ttl_opts.sliding
      && p.floats.equals_zero reg.ttl_opts.eager_refresh_threshold
      && beq_ℤ reg.ttl_opts.fail_safe_grace_period (pos 0)
      && not (is_some reg.ttl_strategy)

  -- Past its logical TTL, where a grace period keeps it longer in the cache.
  unfoldable pub is_stale : Registration F → Time → Value T → Bool
  is_stale reg now v =
      ltb_ℤ (pos 0) reg.ttl_opts.fail_safe_grace_period
      && after now (time_add v.timestamp reg.current_ttl)

  -- After the refresh of a stale value: the fail-safe serves the stale one on a failure, but not
  -- on the store's "not found", beside which Go still returns the stale data.
  after_refresh : Registration F → Key → Value T → Result (Value T) → Act (World p) T
  unfolding keep_fetched
  after_refresh reg key v (ok mv) w =
      (ok mv.datum, count_hit p (keep_fetched reg key reg.current_ttl mv w))
  after_refresh reg key v (err e) w =
      if is_not_found e then (err not_found, w) else (ok v.datum, count_hit p w)

  refresh_stale : Env T → Registration F → Key → Value T → Act (World p) T
  unfolding fetch after_refresh
  refresh_stale env reg key v w =
      if ltb_ℤ (pos 0) reg.ttl_opts.soft_timeout && env.timed_out
      then (ok v.datum, count_hit p (spawn p (late_refresh key reg reg.current_ttl) w))
      else let (r, w') = fetch env key w in after_refresh reg key v r w'

  -- Sliding expiration and the frequency-based TTL, on a hit.
  slide_ttl : Registration F → Duration → Time → Duration
  slide_ttl reg base now =
      if ltb_ℤ (pos 0) reg.ttl_opts.freq_threshold || not (is_some reg.ttl_strategy)
      then adjust reg.ttl_opts base reg.last_access now
      else base

  slides : Registration F → Bool
  slides reg = reg.ttl_opts.sliding || ltb_ℤ (pos 0) reg.ttl_opts.freq_threshold

  pub slide : Registration F → Key → Time → Value T → World p → World p
  unfolding slide_ttl slides
  slide reg key now v w =
      let ttl = slide_ttl reg (ttl_of p reg key reg.current_ttl w.strategies) now in
      let kept =
        cache_put p key v (effective_ttl p reg ttl)
          (touch_reg p key ttl now (after_ttl p reg key w)) in
      if slides reg then kept else w

  -- The TTL of the registration, which `slide` may have changed.
  live_ttl : Key → Registration F → World p → Duration
  live_ttl key reg w = elim (get_reg key w.shards) [
    | none ↦ reg.current_ttl
    | some r ↦ r.current_ttl
  ]

  -- Starts a background refresh of a value that is close to its expiry.
  refresh_eagerly : Registration F → Key → Time → Value T → World p → World p
  unfolding live_ttl
  refresh_eagerly reg key now v w =
      let ttl = live_ttl key reg w in
      let remaining = time_sub (time_add v.timestamp ttl) now in
      if p.floats.positive reg.ttl_opts.eager_refresh_threshold
        && is_some w.store
        && ltb_ℤ (pos 0) ttl
        && p.floats.ratio_le remaining ttl reg.ttl_opts.eager_refresh_threshold
      then spawn p (eager_refresh key reg ttl) w
      else w

  serve_fresh : Registration F → Key → Time → Value T → Act (World p) T
  unfolding slide refresh_eagerly
  serve_fresh reg key now v w =
      (ok v.datum, count_hit p (refresh_eagerly reg key now v (slide reg key now v w)))

  -- The path of a hit on which some option, tracing or the latency metric is enabled.
  get_slow : Env T → Registration F → Key → Value T → Act (World p) T
  unfolding refresh_stale serve_fresh is_stale
  get_slow env reg key v w =
      let w' = record_access p reg key w in
      if is_stale reg env.now v && is_some w.store
      then refresh_stale env reg key v w'
      else serve_fresh reg key env.now v w'

  get_hit : Env T → Registration F → Key → Value T → Act (World p) T
  unfolding get_slow plain
  get_hit env reg key v w =
      if plain reg && not w.trace_enabled && not (is_some w.latency_hist)
      then (ok v.datum, count_hit p w)
      else get_slow env reg key v w

  load_missing : Env T → Registration F → Key → Act (World p) T
  unfolding fetch keep_fetched
  load_missing env reg key = do
    mv ← fetch env key
    λ w. (ok mv.datum, keep_fetched reg key reg.ttl mv w)

  -- A cache that fails is a miss.
  get_miss : Env T → Registration F → Key → Act (World p) T
  unfolding load_missing
  get_miss env reg key w =
      if is_some w.store
      then load_missing env reg key (count_miss p w)
      else (err not_found, count_miss p w)

  get_found : Env T → Key → Registration F → Got (Value T) → Act (World p) T
  unfolding get_hit get_miss
  get_found env key reg (hit v) = get_hit env reg key v
  get_found env key reg miss = get_miss env reg key
  get_found env key reg (failed e) = get_miss env reg key

  -- Get
  unfoldable pub get : Env T → Key → Act (World p) T
  unfolding get_found
  get env key =
      observed p do reg ← find_registration p key; got ← cache_get p key; get_found env key reg got
