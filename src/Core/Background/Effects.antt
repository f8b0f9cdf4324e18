-- ===== src/Core/Background/Effects.antt =====
-- core/core.go: what the goroutines leave behind.
use go_warp.Base.{
  ◌≤◌, ◌≡◌, refl, Duration, List, [], ◌∷◌, length, Key, Option, none, some, arith, ◌⊎◌, inl, inr,
  Option-cases,
}
use go_warp.Errors.{Error, hit, miss, failed}
use go_warp.Merge.Engine.{stamped}
use go_warp.Core.Ports.{Ports}
use go_warp.Core.Registry.{Registration}
use go_warp.Core.State.{World, ttl_of, effective_ttl}
use go_warp.Core.Set.Coherence.{Lawful}
use go_warp.Core.Get.{Env, keep_fetched}
use go_warp.Core.Get.Fetch.{fetch-hit, fetch-lost}
use go_warp.Core.Background.{run_publish, run_eager, keep_result, report, offer}

report-bound :
    (e : Option Error) (errors : List Error) → length errors ≤ 1 → length (report e errors) ≤ 1
unfolding report offer
report-bound none errors h = h
report-bound (some e) [] h = omega arith
report-bound (some e) (x ∷ xs) h = h

report-kept : (e : Option Error) (x : Error) (xs : List Error) → report e (x ∷ xs) ≡ x ∷ xs
unfolding report offer
report-kept none x xs = refl
report-kept (some e) x xs = refl

module _ {F T C S B Q : Type 0} (p : Ports F T C S B Q) where
  -- A publication in the background changes the bus and the error channel only. The channel stays
  -- within its one place, and an error that waits in it is not replaced.
  pub run_publish_lem :
      (key : Key) (w : World p)
      → length w.publish_errors ≤ 1
      → (length (run_publish p key w).publish_errors ≤ 1)
        × ((x : Error) (xs : List Error)
            → w.publish_errors ≡ x ∷ xs
            → (run_publish p key w).publish_errors ≡ x ∷ xs)
        × ((run_publish p key w).cache ≡ w.cache)
        × ((run_publish p key w).store ≡ w.store)
        × ((run_publish p key w).shards ≡ w.shards)
  unfolding run_publish
  run_publish_lem key w h = elim (Option-cases (w.bus)) [
    | inl gone ↦ rw gone (h, λ x xs e. e, refl, refl, refl)
    | inr (b, there) ↦
        rw there
          (report-bound _ w.publish_errors h, λ x xs e. rw e (report-kept _ x xs), refl, refl, refl)
  ]

  -- An eager refresh that no other call has started: what the store has is in the cache afterwards,
  -- stamped with the time of the fetch, if the cache accepts it; if the store fails or has lost the
  -- key, the cache and the registrations stay as they are.
  pub run_eager_lem :
      (l : Lawful p) (env : Env T) (key : Key) (reg : Registration F) (base : Duration)
      (w : World p) (s : S)
      → env.joined ≡ none
      → w.store ≡ some s
      → ((d : T)
          → (p.store_ops.get key s).0 ≡ hit d
          → (p.cache_ops.set key
              (stamped d env.fetched_at)
              (effective_ttl p reg (ttl_of p reg key base w.strategies))
              w.cache).0
            ≡ none
          → (p.cache_ops.get key (run_eager p env key reg base w).cache).0
            ≡ hit (stamped d env.fetched_at))
        × ((x : Error)
            → ((p.store_ops.get key s).0 ≡ failed x) ⊎ ((p.store_ops.get key s).0 ≡ miss)
            → ((run_eager p env key reg base w).cache ≡ w.cache)
              × ((run_eager p env key reg base w).shards ≡ w.shards))
  unfolding run_eager keep_result keep_fetched
  run_eager_lem l env key reg base w s alone there = (
    λ d found fits.
        let (got, same, q) = fetch-hit p env key w s alone there d found in
        rw got (
          rw (same, q)
            (l.cache_get-set key (stamped d env.fetched_at)
              (effective_ttl p reg (ttl_of p reg key base w.strategies)) w.cache fits)),
    λ x lost.
        let ((e, got), same, shards) = fetch-lost p env key w s alone there x lost in
        rw got (same, shards),
  )
