-- ===== src/Core/Get/Refresh.antt =====
-- core/core.go: which value Get serves, and that the cache serves it from then on.
use go_warp.Base.{
  pos, ◌≡◌, ◌≢◌, refl, ◌∙◌, ◌⊎◌, inl, inr, ◌≤ℤ◌, ◌<ℤ◌, ltb_ℤ, time_add, true, false, ◌&&◌, Time,
  Duration, Key, key_eq, beq_refl, [], ◌∷◌, ◌++◌, none, some, is_some, arith, Bool-cases,
}
use go_warp.Errors.{Got, hit, miss, failed, ok, err, not_found}
use go_warp.Cache.Api.{IsCache}
use go_warp.Merge.Engine.{Value, stamped}
use go_warp.Core.Ports.{Ports}
use go_warp.Core.Registry.{Registration, get_reg}
use go_warp.Core.State.{World, late_refresh, cache_get, record_access, count_miss}
use go_warp.Core.Get.{
  Env, get, get_found, get_hit, get_miss, get_slow, serve_fresh, refresh_eagerly, slide, slides,
  refresh_stale, after_refresh, fetch, shared, load_missing, from_store, plain, is_stale,
  keep_fetched,
}

module _ {F T C S B Q : Type 0} (p : Ports F T C S B Q) where
  -- Within its TTL, or with no grace period after it.
  abbrev pub IsFresh : Registration F → Time → Value T → Type 0
  IsFresh reg now v =
      (reg.ttl_opts.fail_safe_grace_period ≤ℤ pos 0) ⊎ (now ≤ℤ time_add v.timestamp reg.current_ttl)

  abbrev pub IsOld : Registration F → Time → Value T → Type 0
  IsOld reg now v =
      (pos 0 <ℤ reg.ttl_opts.fail_safe_grace_period) × (time_add v.timestamp reg.current_ttl <ℤ now)

  -- A fetch is to give `mv`: a concurrent call does, or the store has its data.
  abbrev pub Gives : Env T → Key → S → Value T → Type 0
  Gives env key s mv =
      (env.joined ≡ some (ok mv))
      ⊎ ((env.joined ≡ none)
          × ((d : T) × ((p.store_ops.get key s).0 ≡ hit d) × (mv ≡ stamped d env.fetched_at)))

  -- The cache has no value, or an old one for whose refresh the call waits.
  abbrev pub Wants : Registration F → Env T → Got (Value T) → Type 0
  Wants reg env miss = Unit {0}
  Wants reg env (failed e) = Unit {0}
  Wants reg env (hit v) =
      IsOld reg env.now v × ((reg.ttl_opts.soft_timeout ≤ℤ pos 0) ⊎ (env.timed_out ≡ false))

  module _ (env : Env T) (reg : Registration F) (key : Key) where
    fetch-Gives :
        (w : World p) (s : S) (mv : Value T)
        → w.store ≡ some s
        → Gives env key s mv
        → (fetch p env key w).0 ≡ ok mv
    unfolding fetch shared from_store
    fetch-Gives w s mv there gives = elim gives [
      | inl joined ↦ rw joined refl
      | inr (alone, (d, held, is)) ↦ rw (alone, there, held, is) refl
    ]

    get-found :
        (w : World p) (g : Got (Value T))
        → get_reg key w.shards ≡ some reg
        → (p.cache_ops.get key w.cache).0 ≡ g
        → ((get p env key w).0 ≡ (get_found p env key reg g (cache_get p key w).1).0)
          × ((get p env key w).1.cache ≡ (get_found p env key reg g (cache_get p key w).1).1.cache)
          × ((get p env key w).1.spawned
              ≡ (get_found p env key reg g (cache_get p key w).1).1.spawned)
    unfolding get
    get-found w g found is = rw (found, is) (refl, refl, refl)

    stale-IsOld : (v : Value T) → IsOld reg env.now v → is_stale p reg env.now v ≡ true
    unfolding is_stale
    stale-IsOld v old = ground (arith, old)

    stale-IsFresh : (v : Value T) → IsFresh reg env.now v → is_stale p reg env.now v ≡ false
    unfolding is_stale
    stale-IsFresh v fresh = elim fresh [
      | inl off ↦ ground (arith, off)
      | inr within ↦ ground (arith, within)
    ]

    get_hit-stale :
        (v : Value T) (w : World p) (s : S)
        → IsOld reg env.now v
        → w.store ≡ some s
        → get_hit p env reg key v w ≡ refresh_stale p env reg key v (record_access p reg key w)
    unfolding get_hit get_slow plain
    get_hit-stale v w s old there = ground (arith, stale-IsOld v old, old.0)

    get_found-none :
        (g : Got (Value T)) (w : World p)
        → w.store ≡ none
        → ((v : Value T) → g ≢ hit v)
        → (get_found p env key reg g w).0 ≡ err not_found
    unfolding get_found get_miss
    get_found-none miss w gone nothing = ground (arith, gone)
    get_found-none (failed e) w gone nothing = ground (arith, gone)
    get_found-none (hit v) w gone nothing = absurd (nothing v refl)

    module _ (law : IsCache p.cache_ops) where
      keep_fetched-hit :
          (base : Duration) (mv : Value T) (w : World p)
          → (p.cache_ops.get key (keep_fetched p reg key base mv w).cache).0 ≡ hit mv
      unfolding keep_fetched
      keep_fetched-hit base mv w = law.get-set key key mv _ w.cache ∙ rw (beq_refl key) refl

      load_missing-Gives :
          (w : World p) (mv : Value T)
          → (fetch p env key w).0 ≡ ok mv
          → ((load_missing p env reg key w).0 ≡ ok mv.datum)
            × ((p.cache_ops.get key (load_missing p env reg key w).1.cache).0 ≡ hit mv)
      unfolding load_missing
      load_missing-Gives w mv h = rw h (refl, keep_fetched-hit reg.ttl mv (fetch p env key w).1)

      refresh_stale-Gives :
          (v mv : Value T) (w : World p)
          → (fetch p env key w).0 ≡ ok mv
          → (ltb_ℤ (pos 0) reg.ttl_opts.soft_timeout && env.timed_out) ≡ false
          → ((refresh_stale p env reg key v w).0 ≡ ok mv.datum)
            × ((p.cache_ops.get key (refresh_stale p env reg key v w).1.cache).0 ≡ hit mv)
      unfolding refresh_stale after_refresh
      refresh_stale-Gives v mv w h waits =
          rw (waits, h) (refl, keep_fetched-hit reg.current_ttl mv (fetch p env key w).1)

      get_found-Gives :
          (g : Got (Value T)) (w : World p) (s : S) (mv : Value T)
          → w.store ≡ some s
          → Wants reg env g
          → Gives env key s mv
          → ((get_found p env key reg g w).0 ≡ ok mv.datum)
            × ((p.cache_ops.get key (get_found p env key reg g w).1.cache).0 ≡ hit mv)
      unfolding get_found get_miss
      get_found-Gives miss w s mv there wants gives =
          let held : is_some w.store ≡ true = ground (arith, there) in
          rw held
            (load_missing-Gives (count_miss p w) mv (fetch-Gives (count_miss p w) s mv there gives))
      get_found-Gives (failed e) w s mv there wants gives =
          let held : is_some w.store ≡ true = ground (arith, there) in
          rw held
            (load_missing-Gives (count_miss p w) mv (fetch-Gives (count_miss p w) s mv there gives))
      get_found-Gives (hit v) w s mv there (old, waits) gives =
          let seen : World p = record_access p reg key w in
          let on : (ltb_ℤ (pos 0) reg.ttl_opts.soft_timeout && env.timed_out) ≡ false = elim waits [
            | inl off ↦ ground (arith, off)
            | inr early ↦ ground (arith, early)
          ] in
          rw (get_hit-stale v w s old there)
            (refresh_stale-Gives v mv seen (fetch-Gives seen s mv there gives) on)

      slide-hit :
          (v : Value T) (w : World p)
          → (p.cache_ops.get key w.cache).0 ≡ hit v
          → (p.cache_ops.get key (slide p reg key env.now v w).cache).0 ≡ hit v
      unfolding slide
      slide-hit v w held = elim (Bool-cases (slides p reg)) [
        | inl on ↦ rw on (law.get-set key key v _ w.cache ∙ rw (beq_refl key) refl)
        | inr off ↦ rw off held
      ]

      refresh_eagerly-cache :
          (v : Value T) (w : World p) → (refresh_eagerly p reg key env.now v w).cache ≡ w.cache
      unfolding refresh_eagerly
      refresh_eagerly-cache v w = ground arith

      serve_fresh-hit :
          (v : Value T) (w : World p)
          → (p.cache_ops.get key w.cache).0 ≡ hit v
          → (p.cache_ops.get key (serve_fresh p reg key env.now v w).1.cache).0 ≡ hit v
      unfolding serve_fresh
      serve_fresh-hit v w held =
          rw (refresh_eagerly-cache v (slide p reg key env.now v w)) (slide-hit v w held)

      get_hit-fresh :
          (v : Value T) (w : World p)
          → (is_stale p reg env.now v && is_some w.store) ≡ false
          → (p.cache_ops.get key w.cache).0 ≡ hit v
          → ((get_hit p env reg key v w).0 ≡ ok v.datum)
            × ((p.cache_ops.get key (get_hit p env reg key v w).1.cache).0 ≡ hit v)
      unfolding get_hit get_slow serve_fresh
      get_hit-fresh v w fresh held =
          (ground arith, ground (arith, serve_fresh-hit v (record_access p reg key w) held))

  -- Get of a registered key, over a cache that keeps what it is given. A cached value within its
  -- TTL, or with no grace period after it or no store to refresh it from, is served. Where the cache
  -- has none, fails, or has an old one for whose refresh the call waits, the value that a concurrent
  -- call fetched or the store has is served, the latter with the time of the fetch. In both cases
  -- the cache then has the value that was served. Past the soft timeout an old value is served,
  -- and a refresh goes on in the background. Without a value and a store, nothing is found.
  pub get-Served :
      (law : IsCache p.cache_ops) (env : Env T) (reg : Registration F) (key : Key) (w : World p)
      → get_reg key w.shards ≡ some reg
      → let r = get p env key w in
        let g = (p.cache_ops.get key w.cache).0 in
        ((v : Value T)
          → g ≡ hit v
          → IsFresh reg env.now v ⊎ (w.store ≡ none)
          → (r.0 ≡ ok v.datum) × ((p.cache_ops.get key r.1.cache).0 ≡ hit v))
        × ((s : S) (mv : Value T)
            → w.store ≡ some s
            → Wants reg env g
            → Gives env key s mv
            → (r.0 ≡ ok mv.datum) × ((p.cache_ops.get key r.1.cache).0 ≡ hit mv))
        × ((s : S) (v : Value T)
            → w.store ≡ some s
            → g ≡ hit v
            → IsOld reg env.now v
            → pos 0 <ℤ reg.ttl_opts.soft_timeout
            → env.timed_out ≡ true
            → (r.0 ≡ ok v.datum)
              × (r.1.spawned ≡ w.spawned ++ late_refresh key reg reg.current_ttl ∷ []))
        × (w.store ≡ none → ((v : Value T) → g ≢ hit v) → r.0 ≡ err not_found)
  unfolding get_found refresh_stale
  get-Served law env reg key w found =
      let looked : World p = (cache_get p key w).1 in
      (
        λ v is fresh.
            let (answer, cached, _) = get-found env reg key w (hit v) found is in
            let fresh' : (is_stale p reg env.now v && is_some looked.store) ≡ false = elim fresh [
              | inl within ↦ ground (arith, stale-IsFresh env reg key v within)
              | inr gone ↦ rw gone (ground arith)
            ] in
            let (served, held) =
              get_hit-fresh env reg key law v looked fresh' (law.get-get key key w.cache ∙ is) in
            (answer ∙ served, rw cached held),
        λ s mv there wants gives.
            let (answer, cached, _) = get-found env reg key w _ found refl in
            let (served, held) = get_found-Gives env reg key law _ looked s mv there wants gives in
            (answer ∙ served, rw cached held),
        λ s v there is old soft late.
            let (answer, _, started) = get-found env reg key w (hit v) found is in
            let at_stale = get_hit-stale env reg key v looked s old there in
            (
              answer ∙ rw at_stale (ground (arith, soft, late)),
              started ∙ rw at_stale (ground (arith, soft, late)),
            ),
        λ gone nothing.
            (get-found env reg key w _ found refl).0
            ∙ get_found-none env reg key _ looked gone nothing,
      )
