-- ===== src/Tests/Core.antt =====
-- Runs of the reads and writes of core/core.go, also over a store that fails.
use go_warp.Base.{
  none, Key, false, ◌≡◌, refl, ℕ, pos, true, false, [], key_eq, arith, Option, some, ◌+◌, ◌<ℤ◌,
}
use go_warp.Errors.{Error, hit, miss, failed, external, ok, err, not_found, is_not_found}
use go_warp.Cache.InMemory.{InMemory, in_memory_ops}
use go_warp.Cache.Ttl.{no_options}
use go_warp.Merge.Engine.{Value, has_custom, stamped}
use go_warp.Core.Ports.{Ports}
use go_warp.Core.Registry.{Registration, strong_local, strong_distributed, get_reg, quorum_size}
use go_warp.Core.State.{World, cache_get, record_access}
use go_warp.Core.Instance.{in_memory_ports, in_memory_ports-Lawful}
use go_warp.Core.Set.{set, invalidate, merged}
use go_warp.Core.Set.Order.{Untouched, Unwritten, invalidate-refused, set-refused}
use go_warp.Core.Set.Coherence.{Lawful, Holds, WasThere, set-Holds}
use go_warp.Core.Set.Success.{Accepts, Reads, Reaches, set-Holds-merged}
use go_warp.Core.Get.{get, is_stale, fetch}
use go_warp.Core.Get.FailSafe.{get-fail_safe, get-hit_error}
use go_warp.Core.GetOrSet.{get_or_set}
use go_warp.Core.GetOrSet.Stores.{get_or_set-miss}
use go_warp.Tests.World.{
  program, key, other, whole, deaf, no_strategies, cfg, live, ports, ports-Lawful, options,
  registration, cache, world_of, local, strong, env,
}

in_memory_ports-Lawful_example : Lawful ports
in_memory_ports-Lawful_example =
    in_memory_ports-Lawful whole deaf no_strategies cfg live (pos 30) (ground arith) (ground arith)

set-ok : (set ports (pos 30) key 90 local).0 ≡ ok tt
unfolding program
set-ok = refl

older : (v : Value ℕ) → (ports.cache_ops.get key local.cache).0 ≡ hit v → v.timestamp <ℤ pos 30
unfolding program
older v h = ground arith

plain_key : has_custom key local.merges ≡ false
unfolding program
plain_key = refl

set-Holds_example :
    Holds ports ports-Lawful key (stamped 90 (pos 30)) (set ports (pos 30) key 90 local).1
set-Holds_example = set-Holds ports ports-Lawful (pos 30) key 90 local set-ok plain_key older

set-Holds-merged_example :
    ((set ports (pos 30) key 90 local).0 ≡ ok tt
      → (old : Option (Value ℕ)) × WasThere ports ports-Lawful key local old
        × Holds ports ports-Lawful key
            (merged ports key local.merges old (stamped 90 (pos 30)))
            (set ports (pos 30) key 90 local).1)
    × ((reg : Registration ℕ)
        → get_reg key local.shards ≡ some reg
        → Reads ports key local
        → Reaches ports reg.mode (quorum_size reg) key local.bus
        → Accepts ports key
        → (set ports (pos 30) key 90 local).0 ≡ ok tt)
set-Holds-merged_example = set-Holds-merged ports ports-Lawful (pos 30) key 90 local

strong_found : get_reg key strong.shards ≡ some (registration strong_distributed (no_options whole))
unfolding program
strong_found = refl

set-refused_example : Unwritten ports key strong (set ports (pos 30) key 90 strong)
unfolding in_memory_ports
set-refused_example =
    set-refused ports (pos 30) key 90 strong (registration strong_distributed (no_options whole)) 0
      (external 7) strong_found refl refl refl refl

invalidate-refused_example :
    ((invalidate ports key strong).0 ≡ err (external 7))
    × Untouched ports strong (invalidate ports key strong).1
unfolding in_memory_ports
invalidate-refused_example =
    invalidate-refused ports key strong (registration strong_distributed (no_options whole)) 0
      (external 7) strong_found refl refl refl refl

local_found : get_reg key local.shards ≡ some (registration strong_local (no_options whole))
unfolding program
local_found = refl

-- A registration with a grace period: its value is stale at time 30.
abbrev stale : World ports
stale = world_of [] (registration strong_local options)

stale_found : get_reg key stale.shards ≡ some (registration strong_local options)
unfolding program
stale_found = refl

stale_cached : (ports.cache_ops.get key cache).0 ≡ hit (stamped 50 (pos 5))
unfolding program
stale_cached = refl

-- The store has lost the key.
get-lost : (get ports env key stale).0 ≡ err not_found
unfolding program
get-lost = refl

get-hit_error_example :
    (not_found ≡ not_found)
    × (is_stale ports (registration strong_local options) (pos 30) (stamped 50 (pos 5)) ≡ true)
    × ((x : Error) × (is_not_found x ≡ true)
        × ((fetch ports env key (
              record_access ports
                (registration strong_local options)
                key
                (cache_get ports key stale).1)).0
            ≡ err x))
get-hit_error_example =
    get-hit_error ports env (registration strong_local options) key (stamped 50 (pos 5)) stale
      stale_found stale_cached not_found get-lost

-- A store that is down.
abbrev down : Ports ℕ ℕ (InMemory (Value ℕ)) ℕ ℕ ℕ
down = record {
  floats = whole;
  cache_ops = in_memory_ops cfg live (pos 30);
  store_ops = record {
    get = λ k s. (failed (external 3), s + 1);
    set = λ k v s. (some (external 3), s + 1);
    keys = λ s. (err (external 3), s);
  };
  bus_ops = deaf;
  strategy_ops = no_strategies;
}

abbrev stranded : World down
stranded = world_of 0 (registration strong_local options)

is_stale-down :
    is_stale down (registration strong_local options) (pos 30) (stamped 50 (pos 5)) ≡ true
unfolding program
is_stale-down = refl

down_cached : (down.cache_ops.get key cache).0 ≡ hit (stamped 50 (pos 5))
unfolding program
down_cached = refl

get-fail_safe_example :
    ((get down env key stranded).0 ≡ ok 50)
    × ((get down env key stranded).1.cache ≡ (down.cache_ops.get key cache).1)
    × ((get down env key stranded).1.shards ≡ stranded.shards)
get-fail_safe_example =
    get-fail_safe down env (registration strong_local options) key (stamped 50 (pos 5)) stranded
      stale_found down_cached 0 (external 3) is_stale-down refl refl refl refl

missed : (ports.cache_ops.get other cache).0 ≡ miss
unfolding program
missed = refl

missed_again : (ports.cache_ops.get other (ports.cache_ops.get other cache).1).0 ≡ miss
unfolding program
missed_again = refl

get_or_set-miss_example :
    let c = (ports.cache_ops.get other (ports.cache_ops.get other cache).1).1 in
    ((d : ℕ)
      → let r = get_or_set ports (pos 33) env (ok d) other local in
        (r.0 ≡ ok d)
        × ((ports.cache_ops.get other c).0 ≡ miss
            → has_custom other local.merges ≡ false
            → Accepts ports other
            → ((reg : Registration ℕ)
                → get_reg other local.shards ≡ some reg
                → Reaches ports reg.mode (quorum_size reg) other local.bus)
            → Holds ports ports-Lawful other (stamped d (pos 33)) r.1))
    × ((e : Error)
        → let r = get_or_set ports (pos 33) env (err e) other local in
          (r.0 ≡ err e) × (r.1.cache ≡ c) × (r.1.store ≡ local.store))
get_or_set-miss_example =
    get_or_set-miss ports ports-Lawful (pos 33) env other local refl missed missed_again

-- The in-memory cache and store take every write.
takes : (k : Key) → Accepts ports k
unfolding program
takes k = record { cache_set = λ v d c. refl; store_set = λ d s. refl }

missed_last :
    let c = (ports.cache_ops.get other (ports.cache_ops.get other cache).1).1 in
    (ports.cache_ops.get other c).0 ≡ miss
unfolding program
missed_last = refl

other_plain : has_custom other local.merges ≡ false
unfolding program
other_plain = refl

other_unregistered : get_reg other local.shards ≡ none
unfolding program
other_unregistered = refl

-- A key that nothing is known of: GetOrSet stores what the loader gives.
loaded :
    Holds ports ports-Lawful other
      (stamped 80 (pos 33))
      (get_or_set ports (pos 33) env (ok 80) other local).1
loaded =
    ((get_or_set-miss ports ports-Lawful (pos 33) env other local refl missed missed_again).0 80).1
      missed_last other_plain (takes other)
      (λ reg h. absurd (ground (arith, h, other_unregistered)))

local-Reads : Reads ports key local
unfolding program
local-Reads = record {
  cache_get = λ e h. cc;
  store_get = λ custom s e there h. absurd (ground arith);
}

-- A Set that every condition of success holds of.
succeeds : (set ports (pos 30) key 90 local).0 ≡ ok tt
succeeds =
    (set-Holds-merged ports ports-Lawful (pos 30) key 90 local).1 _ local_found local-Reads tt
      (takes key)
