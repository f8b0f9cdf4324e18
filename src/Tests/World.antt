-- ===== src/Tests/World.antt =====
-- The worlds that the runs of core/core.go start in: the in-memory cache and store, with a bus that
-- reaches no quorum.
use go_warp.Base.{
  ℕ, pos, ltb, nat_beq, true, false, [], ◌∷◌, Key, lookup, key_beq, key_eq, arith, none, some, ◌+◌,
  insert, delete, ◌+₆₄◌, ◌-₆₄◌, wrap64, ◌+ℤ◌, ◌-ℤ◌, time_add, time_sub,
}
use go_warp.Errors.{external}
use go_warp.Cache.InMemory.{InMemory, Config, Ctx, in_memory_ops, back, remove_key, remove_back}
use go_warp.Cache.Ttl.{Floats, StrategyOps, TtlOptions, no_options, with_fail_safe}
use go_warp.Merge.Engine.{Value, new_engine, has_custom, last_write_wins, merge, stamped}
use go_warp.Adapter
use go_warp.Adapter.{InMemoryStore}
use go_warp.Core.Ports.{Ports, BusOps}
use go_warp.Core.Registry.{
  Registration, Mode, strong_local, strong_distributed, no_shards, put_reg, get_reg, update_reg,
  shard_index, hash_string, quorum_size,
}
use go_warp.Core.State.{Warp, World}
use go_warp.Core.Instance.{in_memory_ports, in_memory_ports-Lawful}
use go_warp.Core.Set.{set}
use go_warp.Core.Set.Coherence.{Lawful}
use go_warp.Core.Get.{Env, get, plain, is_stale}

unfoldable pub program : Unit {0}
unfolding set get plain is_stale in_memory_ports in_memory_ops Adapter.store_ops lookup key_beq
    insert delete back remove_key remove_back no_options with_fail_safe new_engine has_custom
    last_write_wins merge put_reg get_reg update_reg no_shards shard_index hash_string quorum_size
    ◌+₆₄◌ ◌-₆₄◌ wrap64 ◌+ℤ◌ ◌-ℤ◌ time_add time_sub
program = tt

abbrev pub key : Key
key = 1 ∷ []

abbrev pub other : Key
other = 2 ∷ []

abbrev pub whole : Floats ℕ
whole = record {
  zero_float = 0;
  positive = ltb 0;
  equals_zero = nat_beq 0;
  in_unit = λ x. true;
  ratio_le = λ a b x. false;
}

-- A healthy bus on which no quorum is reached.
abbrev pub deaf : BusOps ℕ
deaf = record {
  is_healthy = λ b. true;
  publish = λ d k b. (none, b);
  publish_and_await = λ k n b. (some (external 7), b + 1);
}

abbrev pub no_strategies : StrategyOps ℕ
no_strategies = record { note_access = λ n k q. q; ttl = λ n k q. (pos 0, q) }

abbrev pub cfg : Config (Value ℕ)
cfg = record { max_entries = pos 0; max_memory = pos 0; estimate_size = λ v. pos 8 }

abbrev pub live : Ctx
live = record { at_entry = none; locked = none }

abbrev pub ports : Ports ℕ ℕ (InMemory (Value ℕ)) (InMemoryStore ℕ) ℕ ℕ
ports = in_memory_ports whole deaf no_strategies cfg live (pos 30)

pub ports-Lawful : Lawful ports
ports-Lawful =
    in_memory_ports-Lawful whole deaf no_strategies cfg live (pos 30) (ground arith) (ground arith)

abbrev pub options : TtlOptions ℕ
options = with_fail_safe (pos 100) (no_options whole)

abbrev pub registration : Mode → TtlOptions ℕ → Registration ℕ
registration mode opts = record {
  ttl = pos 10;
  ttl_strategy = none;
  ttl_opts = opts;
  mode = mode;
  current_ttl = pos 10;
  last_access = pos 0;
  quorum = pos 1;
}

-- The key is cached since time 5, for ever.
abbrev pub cache : InMemory (Value ℕ)
cache = record {
  items = (key, record { value = stamped 50 (pos 5); size = pos 8; expires_at = pos 0 }) ∷ [];
  order = key ∷ [];
  current_memory = pos 8;
  hits = 0;
  misses = 0;
  evictions = 0;
}

abbrev pub world_of : {S : Type 0} → S → Registration ℕ → Warp ℕ ℕ (InMemory (Value ℕ)) S ℕ ℕ
world_of store reg = record {
  cache = cache;
  store = some store;
  bus = some 0;
  strategies = 0;
  merges = new_engine;
  shards = put_reg key reg no_shards;
  publish_errors = [];
  publish_timeout = pos 0;
  trace_enabled = false;
  latency_hist = none;
  hit_counter = some 0;
  miss_counter = some 0;
  eviction_counter = some 0;
  set_calls = 0;
  get_calls = 0;
  invalidate_calls = 0;
  spawned = [];
}

abbrev pub store : InMemoryStore ℕ
store = (key, 60) ∷ (other, 70) ∷ []

abbrev pub local : World ports
local = world_of store (registration strong_local (no_options whole))

abbrev pub strong : World ports
strong = world_of store (registration strong_distributed (no_options whole))

-- The call at time 30 runs its own fetch.
abbrev pub env : Env ℕ
env = record { now = pos 30; fetched_at = pos 31; joined = none; timed_out = false }
