-- ===== src/Core/Background.antt =====
-- core/core.go: the goroutines that Set, Invalidate, Get and GetOrSet start, and the listener that
-- Register starts. `publish_errors` is the channel of capacity one: a full channel drops the error.
pub mod Effects
use go_warp.Base.{
  ℕ, ◌≡◌, Duration, Time, pos, ltb_ℤ, List, [], ◌∷◌, Key, Option, none, some, if◌then◌else◌,
}
use go_warp.Errors.{Error, Result, ok, err}
use go_warp.Merge.Engine.{Value}
use go_warp.Core.Ports.{Ports}
use go_warp.Core.Registry.{Registration}
use go_warp.Core.State.{Warp, World, cache_put, ttl_of, after_ttl, effective_ttl}
use go_warp.Core.Get.{Env, fetch, keep_fetched}

deadline : Duration → Option Duration
deadline timeout = if ltb_ℤ (pos 0) timeout then some timeout else none

-- `select { case w.publishErrCh <- err: default: }`
offer : Error → List Error → List Error
offer e [] = e ∷ []
offer e (x ∷ xs) = x ∷ xs

report : Option Error → List Error → List Error
unfolding offer
report none errors = errors
report (some e) errors = offer e errors

module _ {F T C S B Q : Type 0} (p : Ports F T C S B Q) where
  -- `publish_key`: the publication of a change, after it was made.
  unfoldable pub run_publish : Key → World p → World p
  unfolding report deadline
  run_publish key w = elim (w.bus) [
    | none ↦ w
    | some b ↦
        let (e, b') = p.bus_ops.publish (deadline w.publish_timeout) key b in
        record w { bus = some b'; publish_errors = report e w.publish_errors }
  ]

  -- `late_refresh`: the fetch that a soft timeout did not wait for arrives, with its result.
  unfoldable pub run_late : Key → Registration F → Duration → Result (Value T) → World p → World p
  run_late key reg base (err e) w = w
  run_late key reg base (ok mv) w =
      let ttl = ttl_of p reg key base w.strategies in
      cache_put p key mv (effective_ttl p reg ttl) (after_ttl p reg key w)

  keep_result : Key → Registration F → Duration → Result (Value T) → World p → World p
  keep_result key reg base (err e) w = w
  keep_result key reg base (ok mv) w = keep_fetched p reg key base mv w

  -- `eager_refresh`: fetches, and keeps what was fetched.
  unfoldable pub run_eager : Env T → Key → Registration F → Duration → World p → World p
  unfolding keep_result
  run_eager env key reg base w = let (r, w') = fetch p env key w in keep_result key reg base r w'

  -- An event that the listener of a key receives.
  unfoldable pub run_event : Key → World p → World p
  run_event key w = record w { cache = (p.cache_ops.invalidate key w.cache).1 }
