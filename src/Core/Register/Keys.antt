-- ===== src/Core/Register/Keys.antt =====
-- core/core.go: which keys are registered.
use go_warp.Base.{
  pos, ◌≡◌, true, false, not, ◌&&◌, Duration, Key, key_eq, beq_refl, is_some, none, arith, ◌==◌,
}
use go_warp.Cache.Ttl.{TtlOptions}
use go_warp.Core.Ports.{Ports}
use go_warp.Core.Registry.{Registration, Mode, get_reg}
use go_warp.Core.Registry.Shards.{get_reg-put_reg, get_reg-drop_reg}
use go_warp.Core.State.{World}
use go_warp.Core.Register.{register, unregister, add_key}

module _ {F T C S B Q : Type 0} (p : Ports F T C S B Q) where
  -- Register succeeds exactly on a key that is not registered. Afterwards the key is registered,
  -- a registration that was there is kept as it was, and no other key's registration changes.
  pub register-get_reg :
      (key j : Key) (mode : Mode) (ttl : Duration) (opts : TtlOptions F) (w : World p)
      → ((register p key mode ttl opts w).0 ≡ not (is_some (get_reg key w.shards)))
        × (is_some (get_reg key (register p key mode ttl opts w).1.shards) ≡ true)
        × (((key == j) && not (is_some (get_reg key w.shards))) ≡ false
            → get_reg j (register p key mode ttl opts w).1.shards ≡ get_reg j w.shards)
  unfolding register add_key
  register-get_reg key j mode ttl opts w =
      let reg : Registration F = record {
        ttl = ttl;
        ttl_strategy = none;
        ttl_opts = opts;
        mode = mode;
        current_ttl = ttl;
        last_access = pos 0;
        quorum = pos 1;
      } in
      ground (
        arith,
        get_reg-put_reg key key reg w.shards,
        get_reg-put_reg key j reg w.shards,
        beq_refl key,
      )

  -- After Unregister the key can be registered again, and no other key is affected.
  pub unregister-register :
      (key j : Key) (mode : Mode) (ttl : Duration) (opts : TtlOptions F) (w : World p)
      → ((register p key mode ttl opts (unregister p key w)).0 ≡ true)
        × ((key == j) ≡ false → get_reg j (unregister p key w).shards ≡ get_reg j w.shards)
  unfolding register unregister
  unregister-register key j mode ttl opts w =
      ground
        (arith, get_reg-drop_reg key key w.shards, get_reg-drop_reg key j w.shards, beq_refl key)
