-- ===== src/Core/GetOrSet/Stores.antt =====
-- core/core.go: what GetOrSet leaves behind.
use go_warp.Base.{
  suc, ap, if◌then◌else◌, ◌≡◌, refl, sym, ◌∙◌, false, Time, Key, key_eq, beq_refl, none, some,
  is_some, arith, Option-cases, inl, inr,
}
use go_warp.Errors.{Error, Got, miss, Result, ok, err}
use go_warp.Merge.Engine.{Value, stamped, has_custom}
use go_warp.Core.Ports.{Ports}
use go_warp.Core.Registry.{Registration, get_reg, quorum_size}
use go_warp.Core.Registry.Shards.{get_reg-put_reg, get_reg-update_reg}
use go_warp.Core.State.{
  World, cache_get, record_access, count_miss, touch_reg, after_ttl, ttl_of, ◌>>=◌,
}
use go_warp.Core.Get.{Env}
use go_warp.Core.Set.Coherence.{Lawful, Holds, set-Holds}
use go_warp.Core.Set.Success.{Accepts, Reaches, set-Succeeds}
use go_warp.Core.GetOrSet.{
  get_or_set, get_or_set_body, auto_register, or_default, default_registration, get_or_load,
  flight_or_join, load_flight, keep_loaded,
}

module _ {F T C S B Q : Type 0} (p : Ports F T C S B Q) where
  -- A miss outside and inside the flight comes to `load_flight`.
  get_or_load-miss :
      (again : Time) (env : Env T) (loaded : Result T) (reg : Registration F) (key : Key)
      (w : World p)
      → env.joined ≡ none
      → (p.cache_ops.get key w.cache).0 ≡ miss
      → get_or_load p again env loaded reg key miss w
        ≡ (load_flight p again env loaded reg key miss >>= λ mv w'. (ok mv.datum, w'))
            (cache_get p key (count_miss p w)).1
  unfolding get_or_load flight_or_join
  get_or_load-miss again env loaded reg key w alone gone = rw (alone, flight_or_join) (rw gone)

  auto_register-get_reg :
      (key : Key) (w : World p)
      → get_reg key (auto_register p key w).shards ≡ some (or_default p (get_reg key w.shards))
  unfolding auto_register or_default
  auto_register-get_reg key w = elim (Option-cases (get_reg key w.shards)) [
    | inl gone ↦
        rw (gone, get_reg-put_reg key key (default_registration p) w.shards, beq_refl key) refl
    | inr (reg, there) ↦ rw (there, there) refl
  ]

  -- A key that is registered or takes the defaults, and a strong one reaches its quorum.
  or_default-Reaches :
      (key : Key) (w : World p)
      → ((reg : Registration F)
          → get_reg key w.shards ≡ some reg
          → Reaches p reg.mode (quorum_size reg) key w.bus)
      → let reg = or_default p (get_reg key w.shards) in
        Reaches p reg.mode (quorum_size reg) key w.bus
  unfolding or_default default_registration quorum_size
  or_default-Reaches key w reach = elim (Option-cases (get_reg key w.shards)) [
    | inl gone ↦ rw gone tt
    | inr (reg, there) ↦ rw there (reach reg there)
  ]

  -- Set stores a loaded value of a key that the cache misses.
  keep_loaded-Holds :
      (law : Lawful p) (again : Time) (reg : Registration F) (key : Key) (mv : Value T)
      (w : World p)
      → get_reg key w.shards ≡ some reg
      → (p.cache_ops.get key w.cache).0 ≡ miss
      → has_custom key w.merges ≡ false
      → Accepts p key
      → Reaches p reg.mode (quorum_size reg) key w.bus
      → Holds p law key (stamped mv.datum again) (keep_loaded p again reg key mv w).1
  unfolding keep_loaded quorum_size
  keep_loaded-Holds law again reg key mv w found gone plain takes reach =
      let ttl = ttl_of p reg key reg.ttl w.strategies in
      let touched : World p = touch_reg p key ttl mv.timestamp (after_ttl p reg key w) in
      let found' : get_reg key touched.shards
          ≡ some (record reg { current_ttl = ttl; last_access = mv.timestamp }) =
        rw (get_reg-update_reg key key _ w.shards, beq_refl key, found) refl in
      let fine =
        set-Succeeds p key takes again mv.datum _ touched found'
          (record {
            cache_get = λ e h. cc;
            store_get = λ custom s e there h. absurd (ground arith);
          })
          reach in
      set-Holds p law again key mv.datum touched fine plain (λ v h. absurd (cc))

  get_or_set-load :
      (again : Time) (env : Env T) (loaded : Result T) (key : Key) (w : World p)
      → env.joined ≡ none
      → (p.cache_ops.get key w.cache).0 ≡ miss
      → (p.cache_ops.get key (p.cache_ops.get key w.cache).1).0 ≡ miss
      → (reg : Registration F) × (w' : World p) × (w'.cache
          ≡ (p.cache_ops.get key (p.cache_ops.get key w.cache).1).1)
        × (w'.store ≡ w.store)
        × (w'.merges ≡ w.merges)
        × (w'.bus ≡ w.bus)
        × (get_reg key w'.shards ≡ some (or_default p (get_reg key w.shards)))
        × (reg ≡ or_default p (get_reg key w.shards))
        × (let r =
              (load_flight p again env loaded reg key miss >>= λ mv w''. (ok mv.datum, w'')) w' in
            ((get_or_set p again env loaded key w).0 ≡ r.0)
            × ((get_or_set p again env loaded key w).1.cache ≡ r.1.cache)
            × ((get_or_set p again env loaded key w).1.store ≡ r.1.store))
  unfolding get_or_set get_or_set_body auto_register
  get_or_set-load again env loaded key w alone gone still =
      let reg = or_default p (get_reg key w.shards) in
      let counted : World p = record w {
        get_calls = if is_some w.hit_counter then suc w.get_calls else w.get_calls;
      } in
      let seen : World p =
        (cache_get p key (record_access p reg key (auto_register p key counted))).1 in
      let at_miss =
        ap (λ (g : Got (Value T)). get_or_load p again env loaded reg key g seen) gone
        ∙ get_or_load-miss again env loaded reg key seen alone still in
      (
        reg,
        (cache_get p key (count_miss p seen)).1,
        refl,
        refl,
        refl,
        refl,
        auto_register-get_reg key counted,
        refl,
        (ap (λ r. r.0) at_miss, ap (λ r. r.1.cache) at_miss, ap (λ r. r.1.store) at_miss),
      )

  -- On a miss that is still one inside the flight, GetOrSet runs the loader, and returns the loaded
  -- value, also if it cannot be stored. If the key has no merge function, Set misses it, too, the
  -- cache and the store take every write of it, and the bus reaches the quorum of a strong key,
  -- then the cache and the store, if there is one, hold the loaded value afterwards, whether the
  -- key was registered or not. A failure of the loader is returned; the cache has then seen two
  -- lookups and the store nothing.
  pub get_or_set-miss :
      (law : Lawful p) (again : Time) (env : Env T) (key : Key) (w : World p)
      → env.joined ≡ none
      → (p.cache_ops.get key w.cache).0 ≡ miss
      → (p.cache_ops.get key (p.cache_ops.get key w.cache).1).0 ≡ miss
      → let c = (p.cache_ops.get key (p.cache_ops.get key w.cache).1).1 in
        ((d : T)
          → let r = get_or_set p again env (ok d) key w in
            (r.0 ≡ ok d)
            × ((p.cache_ops.get key c).0 ≡ miss
                → has_custom key w.merges ≡ false
                → Accepts p key
                → ((reg : Registration F)
                    → get_reg key w.shards ≡ some reg
                    → Reaches p reg.mode (quorum_size reg) key w.bus)
                → Holds p law key (stamped d again) r.1))
        × ((e : Error)
            → let r = get_or_set p again env (err e) key w in
              (r.0 ≡ err e) × (r.1.cache ≡ c) × (r.1.store ≡ w.store))
  unfolding load_flight
  get_or_set-miss law again env key w alone gone still = (
    λ d.
        let (reg, w', c, s, merges, bus, found, is, (answer, cached, stored)) =
          get_or_set-load again env (ok d) key w alone gone still in
        (
          answer,
          λ missed plain takes reach.
              let held =
                keep_loaded-Holds law again reg key (stamped d env.fetched_at) w' (rw is found)
                  (rw c missed) (rw merges plain) takes
                  (rw (is, bus) (or_default-Reaches key w reach)) in
              (rw cached (held.0), λ s' e. held.1 s' (sym stored ∙ e)),
        ),
    λ e.
        let (reg, w', c, s, _, _, _, _, (answer, cached, stored)) =
          get_or_set-load again env (err e) key w alone gone still in
        (answer, cached ∙ c, stored ∙ s),
  )
