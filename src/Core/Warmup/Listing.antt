-- ===== src/Core/Warmup/Listing.antt =====
-- core/core.go: the keys that Warmup collects from the shards are the registered ones.
use go_warp.Base.{
  ℕ, zero, suc, ◌≡◌, refl, sym, ap, ◌∙◌, true, ◌&&◌, List, [], ◌∷◌, ◌++◌, Key, key_eq, lookup, has,
  listed, lookup-insert, ◌==◌, key_beq_iff, nat_beq, nat_beq_iff, ltb, if◌then◌else◌, is_some,
  arith, Bool-cases, inl, inr,
}
use go_warp.Core.Registry.{
  Registration, Shards, shard_index, get_reg, put_reg, no_shards, reg_shard_count,
}
use go_warp.Core.Registry.Shards.{shard_index-lt}
use go_warp.Core.Warmup.{shard_keys, keys_below, registered_keys}

listed-append :
    (j : Key) (xs ys : List Key) → listed j (xs ++ ys) ≡ (if listed j xs then true else listed j ys)
listed-append j [] ys = refl
listed-append j (x ∷ xs) ys = elim (Bool-cases (x == j)) [
  | inl t ↦ rw t refl
  | inr f ↦ rw f (listed-append j xs ys)
]

module _ {F : Type 0} where
  -- A shard holds only keys of its own.
  abbrev pub Sharded : Shards F → Type 0
  Sharded shards = (i : ℕ) (k : Key) → has k (shards i) ≡ true → shard_index k ≡ i

  pub put_reg-Sharded :
      (key : Key) (reg : Registration F) (shards : Shards F)
      → Sharded shards
      → Sharded (put_reg key reg shards)
  unfolding put_reg
  put_reg-Sharded key reg shards fine i k = elim (Bool-cases (nat_beq i (shard_index key))) [
    | inr other ↦ rw other (fine i k)
    | inl same ↦
        rw (same, lookup-insert key k reg (shards (shard_index key)))
          (elim (Bool-cases (key == k)) [
            | inl t ↦ λ h.
                ap shard_index (sym ((key_beq_iff key k).0 t))
                ∙ sym ((nat_beq_iff i (shard_index key)).0 same)
            | inr f ↦
                rw f
                  (λ h. fine (shard_index key) k h ∙ sym ((nat_beq_iff i (shard_index key)).0 same))
          ])
  ]

  listed-shard_keys :
      (j : Key) (regs : List (Key × Registration F)) → listed j (shard_keys regs) ≡ has j regs
  unfolding lookup
  listed-shard_keys j [] = refl
  listed-shard_keys j ((k, reg) ∷ regs) = elim (Bool-cases (k == j)) [
    | inl t ↦ rw t refl
    | inr f ↦ rw f (listed-shard_keys j regs)
  ]

  listed-keys_below :
      (j : Key) (shards : Shards F) (n : ℕ)
      → Sharded shards
      → listed j (keys_below n shards) ≡ (ltb (shard_index j) n && has j (shards (shard_index j)))
  unfolding keys_below
  listed-keys_below j shards zero fine = ground arith
  listed-keys_below j shards (suc n) fine =
      listed-append j (keys_below n shards) (shard_keys (shards n))
      ∙ rw (listed-keys_below j shards n fine, listed-shard_keys j (shards n))
          (elim (Bool-cases (nat_beq (shard_index j) n)) [
            | inl same ↦ rw ((nat_beq_iff (shard_index j) n).0 same) (ground arith)
            | inr other ↦ elim (Bool-cases (has j (shards n))) [
              | inl there ↦ absurd (ground (arith, fine n j there, other))
              | inr gone ↦ rw gone (ground (arith, other))
            ]
          ])

  -- The collected keys are those that have a registration.
  pub listed-registered_keys :
      (j : Key) (shards : Shards F)
      → Sharded shards
      → listed j (registered_keys shards) ≡ is_some (get_reg j shards)
  unfolding registered_keys get_reg
  listed-registered_keys j shards fine =
      let below : ltb (shard_index j) reg_shard_count ≡ true = ground (arith, shard_index-lt j) in
      listed-keys_below j shards reg_shard_count fine ∙ rw below refl

pub no_shards-Sharded : (F : Type 0) → Sharded (no_shards {F = F})
unfolding no_shards lookup
no_shards-Sharded F i k h = absurd (ground arith)
