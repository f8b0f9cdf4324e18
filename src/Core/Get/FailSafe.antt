-- ===== src/Core/Get/FailSafe.antt =====
-- core/core.go: Get on a key that the cache holds, while the store fails or is slow.
use go_warp.Base.{
  ◌≡◌, refl, sym, ◌∙◌, true, false, Key, none, some, arith, ◌⊎◌, inl, inr, is_some, ◌&&◌,
  Bool-cases,
}
use go_warp.Errors.{Error, hit, failed, ok, err, not_found, is_not_found}
use go_warp.Merge.Engine.{Value}
use go_warp.Core.Ports.{Ports}
use go_warp.Core.Registry.{Registration, get_reg}
use go_warp.Core.State.{World, cache_get, record_access}
use go_warp.Core.Get.{
  Env, get, get_found, get_hit, get_slow, serve_fresh, refresh_stale, after_refresh, fetch, shared,
  from_store, plain, is_stale,
}

module _ {F T C S B Q : Type 0} (p : Ports F T C S B Q) where
  module _ (env : Env T) (reg : Registration F) (key : Key) (v : Value T) (w : World p) where
    refresh_stale-error :
        (e : Error)
        → (refresh_stale p env reg key v w).0 ≡ err e
        → (e ≡ not_found)
          × ((x : Error) × ((fetch p env key w).0 ≡ err x) × (is_not_found x ≡ true))
    unfolding refresh_stale after_refresh
    refresh_stale-error e h = ground arith

    fetch-failed :
        (s : S) (x : Error)
        → env.joined ≡ none
        → w.store ≡ some s
        → (p.store_ops.get key s).0 ≡ failed x
        → ((fetch p env key w).0 ≡ err x)
          × ((fetch p env key w).1.cache ≡ w.cache)
          × ((fetch p env key w).1.shards ≡ w.shards)
    unfolding fetch shared from_store
    fetch-failed s x alone there fails = ground arith

    -- A fetch that fails, other than with "not found", leaves the stale value to serve.
    refresh_stale-failed :
        (x : Error)
        → (fetch p env key w).0 ≡ err x
        → is_not_found x ≡ false
        → ((refresh_stale p env reg key v w).0 ≡ ok v.datum)
          × (((refresh_stale p env reg key v w).1.cache ≡ w.cache)
              ⊎ ((refresh_stale p env reg key v w).1.cache ≡ (fetch p env key w).1.cache))
          × (((refresh_stale p env reg key v w).1.shards ≡ w.shards)
              ⊎ ((refresh_stale p env reg key v w).1.shards ≡ (fetch p env key w).1.shards))
    unfolding refresh_stale after_refresh
    refresh_stale-failed x h n = ground arith

    stale-plain : is_stale p reg env.now v ≡ true → plain p reg ≡ false
    unfolding is_stale plain
    stale-plain h = ground arith

    get_hit-stale :
        is_stale p reg env.now v ≡ true
        → is_some w.store ≡ true
        → get_hit p env reg key v w ≡ refresh_stale p env reg key v (record_access p reg key w)
    unfolding get_hit get_slow
    get_hit-stale stale there = ground (arith, stale-plain stale)

    get_hit-fresh :
        (is_stale p reg env.now v && is_some w.store) ≡ false
        → (get_hit p env reg key v w).0 ≡ ok v.datum
    unfolding get_hit get_slow serve_fresh
    get_hit-fresh h = ground arith

  module _ (env : Env T) (reg : Registration F) (key : Key) (v : Value T) (w : World p)
      (found : get_reg key w.shards ≡ some reg)
      (cached : (p.cache_ops.get key w.cache).0 ≡ hit v) where
    get-hit :
        ((get p env key w).0 ≡ (get_hit p env reg key v (cache_get p key w).1).0)
        × ((get p env key w).1.cache ≡ (get_hit p env reg key v (cache_get p key w).1).1.cache)
        × ((get p env key w).1.shards ≡ (get_hit p env reg key v (cache_get p key w).1).1.shards)
    unfolding get get_found
    get-hit = rw (found, cached) (refl, refl, refl)

    -- Fail-safe: a stale value that the cache still holds is served when the store fails, and
    -- neither the cache nor the registrations change but for the lookup.
    pub get-fail_safe :
        (s : S) (x : Error)
        → is_stale p reg env.now v ≡ true
        → env.joined ≡ none
        → w.store ≡ some s
        → (p.store_ops.get key s).0 ≡ failed x
        → is_not_found x ≡ false
        → ((get p env key w).0 ≡ ok v.datum)
          × ((get p env key w).1.cache ≡ (p.cache_ops.get key w.cache).1)
          × ((get p env key w).1.shards ≡ w.shards)
    get-fail_safe s x stale alone there fails other =
        let looked : World p = (cache_get p key w).1 in
        let seen : World p = record_access p reg key looked in
        let held : is_some looked.store ≡ true = ground arith in
        ground (
          arith,
          get-hit,
          get_hit-stale env reg key v looked stale held,
          fetch-failed env reg key v seen s x alone there fails,
          refresh_stale-failed env reg key v seen x,
        )

    -- On a hit, Get fails only with "not found", only for a stale value, and only if the fetch
    -- found nothing.
    pub get-hit_error :
        (e : Error)
        → (get p env key w).0 ≡ err e
        → (e ≡ not_found)
          × (is_stale p reg env.now v ≡ true)
          × ((x : Error) × (is_not_found x ≡ true)
              × ((fetch p env key (record_access p reg key (cache_get p key w).1)).0 ≡ err x))
    get-hit_error e h =
        let looked : World p = (cache_get p key w).1 in
        let seen : World p = record_access p reg key looked in
        let at_hit : (get_hit p env reg key v looked).0 ≡ err e = sym get-hit.0 ∙ h in
        elim (Bool-cases (is_stale p reg env.now v && is_some looked.store)) [
          | inr fresh ↦ absurd (ground (arith, get_hit-fresh env reg key v looked fresh))
          | inl stale ↦
              let old : is_stale p reg env.now v ≡ true = ground arith in
              let held : is_some looked.store ≡ true = ground arith in
              let refreshed = rw (get_hit-stale env reg key v looked old held) at at_hit in
              let (same, rest) = refresh_stale-error env reg key v seen e refreshed in
              (same, old, (rest.0, rest.2, rest.1))
        ]
