-- ===== src/Core/Registry.antt =====
-- core/core.go: consistency modes, registrations, and the 512 shards that hold them.
pub mod Shards
use Prim.Native.Nat.{bit_xor}
use go_warp.Base.{
  ℕ, ◌+◌, ◌*◌, ◌%◌, ◌^◌, ℤ, ltb_ℤ, ◌≡◌, Duration, Time, pos, Bool, true, false, ◌||◌, List, [], ◌∷◌,
  Key, key_eq, lookup, insert, delete, has, nat_beq, if◌then◌else◌, Option, none, some,
}
use go_warp.Cache.Ttl.{TtlOptions}

pub data Mode : Type 0 where
  strong_local eventual_distributed strong_distributed : Mode

-- A pointer to a strategy is its number; `none` is nil.
pub record Registration (F : Type 0) : Type 0 where
  pub ttl : Duration
  pub ttl_strategy : Option ℕ
  pub ttl_opts : TtlOptions F
  pub mode : Mode
  pub current_ttl : Duration
  pub last_access : Time
  pub quorum : ℤ

-- hashString: FNV-1a on 32 bits.
hash_from : ℕ → Key → ℕ
hash_from hash [] = hash
hash_from hash (byte ∷ key) = hash_from ((bit_xor hash byte * 16777619) % 2 ^ 32) key

unfoldable pub hash_string : Key → ℕ
unfolding hash_from
hash_string key = hash_from 2166136261 key

abbrev pub reg_shard_count : ℕ
reg_shard_count = 512

unfoldable pub shard_index : Key → ℕ
shard_index key = hash_string key % reg_shard_count

-- The array of shards, by index.
abbrev pub Shards : Type 0 → Type 0
Shards F = ℕ → List (Key × Registration F)

module _ {F : Type 0} where
  abbrev pub put_shard : ℕ → List (Key × Registration F) → Shards F → Shards F
  put_shard i regs shards j = if nat_beq j i then regs else shards j

  unfoldable pub no_shards : Shards F
  no_shards i = []

  -- getReg
  unfoldable pub get_reg : Key → Shards F → Option (Registration F)
  get_reg key shards = lookup key (shards (shard_index key))

  unfoldable pub put_reg : Key → Registration F → Shards F → Shards F
  put_reg key reg shards =
      put_shard (shard_index key) (insert key reg (shards (shard_index key))) shards

  unfoldable pub drop_reg : Key → Shards F → Shards F
  drop_reg key shards = put_shard (shard_index key) (delete key (shards (shard_index key))) shards

  -- A write through a registration's pointer, under its lock.
  unfoldable pub update_reg : Key → (Registration F → Registration F) → Shards F → Shards F
  update_reg key f shards = elim (get_reg key shards) [
    | none ↦ shards
    | some reg ↦ put_reg key (f reg) shards
  ]

  -- quorumSize
  unfoldable pub quorum_size : Registration F → ℤ
  quorum_size reg = if ltb_ℤ reg.quorum (pos 1) then pos 1 else reg.quorum

  -- SetQuorum: a quorum below 1 is coerced to 1; false if the key is not registered.
  unfoldable pub set_quorum : Key → ℤ → Shards F → Bool × Shards F
  set_quorum key replicas shards = elim (get_reg key shards) [
    | none ↦ (false, shards)
    | some reg ↦
        let n = if ltb_ℤ replicas (pos 1) then pos 1 else replicas in
        (true, put_reg key (record reg { quorum = n }) shards)
  ]

  -- SetQuorumAware coerces `minZones` too, and then does not use it.
  unfoldable pub set_quorum_aware : Key → ℤ → ℤ → Shards F → Bool × Shards F
  set_quorum_aware key replicas min_zones shards = elim (get_reg key shards) [
    | none ↦ (false, shards)
    | some reg ↦
        let n = if ltb_ℤ replicas (pos 1) then pos 1 else replicas in
        (true, put_reg key (record reg { quorum = n }) shards)
  ]
