-- ===== src/Core/Register.antt =====
-- core/core.go: Register, RegisterDynamicTTL and Unregister. The options are applied before the
-- call, and arrive as the TTLOptions that they make.
pub mod Keys
use go_warp.Base.{
  ℕ, ℤ, pos, Duration, Time, Bool, true, false, ◌&&◌, ◌||◌, List, [], ◌∷◌, Key, Option, none, some,
  if◌then◌else◌, is_some,
}
use go_warp.Cache.Ttl.{TtlOptions}
use go_warp.Core.Ports.{Ports}
use go_warp.Core.Registry.{
  Registration, Mode, get_reg, put_reg, drop_reg, strong_local, eventual_distributed,
  strong_distributed,
}
use go_warp.Core.State.{Warp, World, spawn, Task, listen}

is_distributed : Mode → Bool
is_distributed strong_local = false
is_distributed eventual_distributed = true
is_distributed strong_distributed = true

module _ {F T C S B Q : Type 0} (p : Ports F T C S B Q) where
  -- A distributed key gets a goroutine that listens for invalidations, if there is a bus.
  add_key : Bool → Key → Registration F → World p → World p
  add_key listens key reg w = record w {
    shards = put_reg key reg w.shards;
    spawned = if listens then (spawn p (listen key) w).spawned else w.spawned;
  }

  -- Register
  pub register : Key → Mode → Duration → TtlOptions F → World p → Bool × World p
  unfolding add_key is_distributed
  register key mode ttl opts w =
      let reg : Registration F = record {
        ttl = ttl;
        ttl_strategy = none;
        ttl_opts = opts;
        mode = mode;
        current_ttl = ttl;
        last_access = pos 0;
        quorum = pos 1;
      } in
      if is_some (get_reg key w.shards)
      then (false, w)
      else (true, add_key (is_distributed mode && is_some w.bus) key reg w)

  -- RegisterDynamicTTL starts no listener.
  pub register_dynamic_ttl : Key → Mode → ℕ → TtlOptions F → World p → Bool × World p
  unfolding add_key
  register_dynamic_ttl key mode strategy opts w =
      let reg : Registration F = record {
        ttl = pos 0;
        ttl_strategy = some strategy;
        ttl_opts = opts;
        mode = mode;
        current_ttl = pos 0;
        last_access = pos 0;
        quorum = pos 1;
      } in
      if is_some (get_reg key w.shards) then (false, w) else (true, add_key false key reg w)

  -- Unregister
  pub unregister : Key → World p → World p
  unregister key w = record w { shards = drop_reg key w.shards }
