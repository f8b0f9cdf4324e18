-- ===== src/Core/Set.antt =====
-- core/core.go: Set and Invalidate. `now` is the call's one reading of the clock.
pub mod Order
pub mod Coherence
pub mod Success
use go_warp.Base.{
  ℕ, ◌+◌, ℤ, ◌≡◌, Duration, Time, pos, Bool, true, false, not, ◌&&◌, List, [], ◌∷◌, Key, Option,
  none, some, if◌then◌else◌, is_some, is_zero,
}
use go_warp.Errors.{Error, Result, Got, ok, err, hit, miss, failed, unregistered, bus_required}
use go_warp.Merge.Engine.{Value, Engine, stamped, merge, has_custom}
use go_warp.Core.Ports.{Ports}
use go_warp.Core.Registry.{
  Registration, Mode, strong_local, eventual_distributed, strong_distributed, quorum_size,
}
use go_warp.Core.State.{
  Warp, Act, World, ◌>>=◌, ◌>>◌, give, fail, modify, check, resume, increase, observed,
  find_registration, record_access, next_ttl, cache_get, cache_set, cache_invalidate, store_get,
  store_write, touch_reg, effective_ttl, spawn, Task, publish_key,
}

module _ {F T C S B Q : Type 0} (p : Ports F T C S B Q) where
  -- `go func() { w.bus.Publish(...) }()` after the local change, if there is a healthy bus.
  publish_in_background : Key → World p → World p
  publish_in_background key w = elim (w.bus) [
    | none ↦ w
    | some b ↦ if p.bus_ops.is_healthy b then spawn p (publish_key key) w else w
  ]

  -- `w.bus.PublishAndAwait(ctx, key, quorum)`
  publish_await : Key → ℤ → B → Act (World p) (Unit {0})
  publish_await key quorum b w =
      let (e, b') = p.bus_ops.publish_and_await key quorum b in check e (record w { bus = some b' })

  strong_delivery : Registration F → Key → Act (World p) (Unit {0}) → Act (World p) (Unit {0})
  unfolding publish_await
  strong_delivery reg key apply_local w = elim (w.bus) [
    | none ↦ (err bus_required, w)
    | some b ↦
        if p.bus_ops.is_healthy b
        then (publish_await key (quorum_size reg) b >> apply_local) w
        else apply_local w
  ]

  -- The switch on the mode that Set and Invalidate end in.
  deliver : Mode → Registration F → Key → Act (World p) (Unit {0}) → Act (World p) (Unit {0})
  unfolding strong_delivery publish_in_background
  deliver strong_local reg key apply_local = apply_local
  deliver eventual_distributed reg key apply_local =
      apply_local >> modify (publish_in_background key)
  deliver strong_distributed reg key apply_local = strong_delivery reg key apply_local

  stored_value : Got T → Act (World p) (Option (Value T))
  stored_value (failed e) w = (err e, w)
  stored_value (hit d) w = (ok (some (stamped d (pos 0))), w)
  stored_value miss w = (ok none, w)

  -- The cached value; on a miss, if the key has a merge function, the stored one.
  old_value : Key → Got (Value T) → Act (World p) (Option (Value T))
  unfolding stored_value
  old_value key (failed e) w = (err e, w)
  old_value key (hit v) w = (ok (some v), w)
  old_value key miss w =
      if is_some w.store && has_custom key w.merges
      then (store_get p key >>= λ g. stored_value g) w
      else (ok none, w)

  -- A merge that fails leaves the new value as it is.
  pub merged : Key → Engine T → Option (Value T) → Value T → Value T
  merged key merges none new = new
  merged key merges (some old) new = elim (merge key merges old new) [ ok v ↦ v | err e ↦ new ]

  -- `applyLocal` of Set
  apply_set : Key → Registration F → Value T → Duration → Time → Act (World p) (Unit {0})
  apply_set key reg v ttl now = do
    e ← cache_set p key v (effective_ttl p reg ttl)
    check e
    store_write p key v.datum
    modify (touch_reg p key ttl now)

  -- Set from the merge on: the TTL, and the delivery of the merged value.
  set_rest : Registration F → Time → Key → T → Option (Value T) → Act (World p) (Unit {0})
  unfolding deliver merged apply_set
  set_rest reg now key value old w =
      let new = merged key w.merges old (stamped value now) in
      (next_ttl p reg key reg.ttl >>= λ ttl.
      deliver reg.mode reg key (apply_set key reg new ttl now))
        w

  -- Set on a registered key.
  pub set_found : Time → Key → T → Registration F → Act (World p) (Unit {0})
  unfolding old_value set_rest
  set_found now key value reg = do
    modify (record_access p reg key)
    got ← cache_get p key
    old ← old_value key got
    set_rest reg now key value old

  abbrev count_set : World p → World p
  count_set w = record w {
    set_calls = if is_some w.hit_counter then w.set_calls + 1 else w.set_calls;
  }

  -- Set
  unfoldable pub set : Time → Key → T → Act (World p) (Unit {0})
  unfolding set_found
  set now key value w =
      observed p (find_registration p key >>= λ reg. set_found now key value reg) (count_set w)

  -- `applyLocal` of Invalidate
  apply_invalidate : Key → Act (World p) (Unit {0})
  apply_invalidate key = do
    e ← cache_invalidate p key
    check e
    modify (λ w. record w { eviction_counter = increase w.eviction_counter })

  abbrev count_invalidate : World p → World p
  count_invalidate w = record w {
    invalidate_calls = if is_some w.hit_counter then w.invalidate_calls + 1 else w.invalidate_calls;
  }

  -- Invalidate
  unfoldable pub invalidate : Key → Act (World p) (Unit {0})
  unfolding deliver apply_invalidate
  invalidate key w =
      observed p
        (find_registration p key >>= λ reg. deliver reg.mode reg key (apply_invalidate key))
        (count_invalidate w)

  -- InvalidateLocal
  pub invalidate_local : Key → Act (World p) (Unit {0})
  invalidate_local key = do e ← cache_invalidate p key; check e
