-- ===== src/Core/Registry/Shards.antt =====
-- core/core.go: the shards act as one map from keys to registrations.
use go_warp.Base.{
  ℕ, ◌<◌, ◌≡◌, ap, inl, inr, Key, key_eq, key_beq_iff, lookup, lookup-insert, lookup-delete,
  nat_beq, nat_beq_iff, if◌then◌else◌, none, some, arith, Bool-cases, Option-cases, ◌==◌,
}
use go_warp.Core.Registry.{
  Registration, Shards, shard_index, get_reg, put_reg, drop_reg, update_reg, reg_shard_count,
}

-- Every key has one of the 512 shards.
pub shard_index-lt : (key : Key) → shard_index key < reg_shard_count
unfolding shard_index
shard_index-lt key = omega arith

module _ {F : Type 0} where
  -- A registration put under a key is found there, and every other key keeps its own, also if the
  -- two share a shard.
  pub get_reg-put_reg :
      (k j : Key) (reg : Registration F) (shards : Shards F)
      → get_reg j (put_reg k reg shards) ≡ (if k == j then some reg else get_reg j shards)
  unfolding get_reg put_reg
  get_reg-put_reg k j reg shards = elim (Bool-cases (k == j)) [
    | inl t ↦ ground (
      arith,
      ap shard_index ((key_beq_iff k j).0 t),
      lookup-insert k j reg (shards (shard_index k)),
      ap (λ (i : ℕ). lookup j (shards i)) (ap shard_index ((key_beq_iff k j).0 t)),
    )
    | inr f ↦ elim (Bool-cases (nat_beq (shard_index j) (shard_index k))) [
      | inl same ↦ ground (
        arith,
        lookup-insert k j reg (shards (shard_index k)),
        ap (λ (i : ℕ). lookup j (shards i)) ((nat_beq_iff (shard_index j) (shard_index k)).0 same),
      )
      | inr other ↦ rw (other, f)
    ]
  ]

  pub get_reg-drop_reg :
      (k j : Key) (shards : Shards F)
      → get_reg j (drop_reg k shards) ≡ (if k == j then none else get_reg j shards)
  unfolding get_reg drop_reg
  get_reg-drop_reg k j shards = elim (Bool-cases (k == j)) [
    | inl t ↦
        ground (
          arith,
          ap shard_index ((key_beq_iff k j).0 t),
          lookup-delete k j (shards (shard_index k)),
        )
    | inr f ↦ elim (Bool-cases (nat_beq (shard_index j) (shard_index k))) [
      | inl same ↦ ground (
        arith,
        lookup-delete k j (shards (shard_index k)),
        ap (λ (i : ℕ). lookup j (shards i)) ((nat_beq_iff (shard_index j) (shard_index k)).0 same),
      )
      | inr other ↦ rw (other, f)
    ]
  ]

  pub get_reg-update_reg :
      (k j : Key) (f : Registration F → Registration F) (shards : Shards F)
      → get_reg j (update_reg k f shards) ≡ (
          if k == j
          then elim (get_reg k shards) [ none ↦ none | some reg ↦ some (f reg) ]
          else get_reg j shards)
  unfolding update_reg
  get_reg-update_reg k j f shards = elim (Option-cases (get_reg k shards)) [
    | inl gone ↦ ground (arith, key_beq_iff k j, ap (λ (i : Key). get_reg i shards))
    | inr (reg, found) ↦ ground (arith, get_reg-put_reg k j (f reg) shards)
  ]
