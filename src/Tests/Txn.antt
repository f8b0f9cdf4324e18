-- ===== src/Tests/Txn.antt =====
-- Runs of the transactions of core/core.go over the in-memory cache and store.
use go_warp.Base.{
  ◌≡◌, ◌≢◌, ◌⊎◌, inl, inr, refl, ℕ, pos, nat_beq, true, false, [], ◌∷◌, Key, lookup, has, key_beq,
  key_eq, arith, none, some, if◌then◌else◌, ◌==◌, Bool-cases, key_beq_iff, beq_refl,
}
use go_warp.Errors.{hit, miss, ok, err, cas_mismatch}
use go_warp.Merge.Engine.{Value, stamped}
use go_warp.Core.Registry.{strong_local, strong_distributed, no_shards, get_reg}
use go_warp.Core.Registry.Shards.{get_reg-put_reg}
use go_warp.Core.Instance.{in_memory_ports, in_memory_batches}
use go_warp.Core.Set.{merged}
use go_warp.Core.Set.Coherence.{Holds}
use go_warp.Core.Txn.{Txn, new_txn, txn_set, txn_delete, compare_and_swap}
use go_warp.Core.Txn.Queue.{IsValid, txn-IsValid}
use go_warp.Core.Txn.Commit.{commit, open_with}
use go_warp.Core.Txn.Commit.Quorum.{Looked, IsStrong, Refuses, commit-refused}
use go_warp.Core.Txn.Commit.Swap.{commit-swap}
use go_warp.Tests.World.{
  program, key, other, whole, ports, ports-Lawful, registration, local, strong,
}
use go_warp.Cache.Ttl.{no_options}

-- A write of one key and the deletion of another.
abbrev queued : Txn ℕ
queued = record { sets = (key, 90) ∷ []; deletes = (other, tt) ∷ []; cas = [] }

queued-IsValid : IsValid queued
unfolding program
queued-IsValid = record {
  sets_once = ground arith;
  deletes_once = ground arith;
  cas_once = ground arith;
  apart = λ k h. ground (arith, key_beq_iff key k, key_beq_iff other k);
  compared = λ k h. absurd (ground arith);
}

txn-IsValid_example :
    (IsValid (txn_set other 91 queued)
      × IsValid (txn_delete other queued)
      × IsValid (compare_and_swap other 50 91 queued))
    × ((k : Key)
        → (lookup k (txn_set other 91 queued).sets
            ≡ (if other == k then some 91 else lookup k queued.sets))
          × (lookup k (txn_set other 91 queued).cas
              ≡ (if other == k then none else lookup k queued.cas))
          × (has k (txn_set other 91 queued).deletes
              ≡ (if other == k then false else has k queued.deletes))
          × (lookup k (compare_and_swap other 50 91 queued).sets
              ≡ (if other == k then some 91 else lookup k queued.sets))
          × (lookup k (compare_and_swap other 50 91 queued).cas
              ≡ (if other == k then some 50 else lookup k queued.cas))
          × (has k (compare_and_swap other 50 91 queued).deletes
              ≡ (if other == k then false else has k queued.deletes))
          × (has k (txn_delete other queued).deletes
              ≡ (if other == k then true else has k queued.deletes))
          × (lookup k (txn_delete other queued).sets
              ≡ (if other == k then none else lookup k queued.sets))
          × (lookup k (txn_delete other queued).cas
              ≡ (if other == k then none else lookup k queued.cas)))
txn-IsValid_example = txn-IsValid other 50 91 queued queued-IsValid

key_strong : (k : Key) → key ≡ k → IsStrong ports k strong
key_strong k e reg h = ground (
  arith,
  e,
  h,
  get_reg-put_reg key k (registration strong_distributed (no_options whole)) no_shards,
  beq_refl key,
)

abbrev one_write : Txn ℕ
one_write = record { sets = (key, 90) ∷ []; deletes = []; cas = [] }

has_one : (k : Key) → has k one_write.sets ≡ true → key ≡ k
unfolding lookup
has_one k h = elim (Bool-cases (key == k)) [
  | inl t ↦ (key_beq_iff key k).0 t
  | inr f ↦ absurd (ground arith)
]

has_none : (k : Key) → has k one_write.deletes ≡ true → IsStrong ports k strong
unfolding lookup
has_none k h = absurd (ground arith)

refuses : Refuses ports key
unfolding in_memory_ports
refuses n b h = cc

commit-refused_example :
    let out = commit ports (some in_memory_batches) nat_beq (λ k. pos 30) one_write strong in
    (out.0 ≢ ok tt)
    × (out.1.shards ≡ strong.shards)
    × Looked ports strong.cache out.1.cache
    × (out.1.store ≡ (open_with (some in_memory_batches) strong.store).1)
unfolding lookup key_beq
commit-refused_example =
    commit-refused ports (some in_memory_batches) nat_beq (λ k. pos 30) one_write key strong
      (λ k h. key_strong k (has_one k h)) has_none (inl refl) refuses

local_found : get_reg key local.shards ≡ some (registration strong_local (no_options whole))
unfolding program
local_found = refl

commit-swap_example :
    let out =
      commit {X = Unit {0}} ports none nat_beq
        (λ k. pos 30)
        (compare_and_swap key 50 90 new_txn)
        local in
    (((ports.cache_ops.get key local.cache).0 ≡ miss)
        ⊎ ((v : Value ℕ) × ((ports.cache_ops.get key local.cache).0 ≡ hit v)
            × (nat_beq v.datum 50 ≡ false))
      → (out.0 ≡ err cas_mismatch)
        × (out.1.cache ≡ (ports.cache_ops.get key local.cache).1)
        × (out.1.store ≡ local.store)
        × (out.1.shards ≡ local.shards))
    × (out.0 ≡ ok tt
        → (v : Value ℕ) × ((ports.cache_ops.get key local.cache).0 ≡ hit v)
          × (nat_beq v.datum 50 ≡ true)
          × Holds ports ports-Lawful key
              (merged ports key local.merges (some v) (stamped 90 (pos 30)))
              out.1)
commit-swap_example =
    commit-swap ports nat_beq (λ k. pos 30) ports-Lawful key 50 90 local
      (registration strong_local (no_options whole)) local_found refl

-- The comparison holds.
swapped_well :
    (commit {X = Unit {0}} ports none nat_beq
      (λ k. pos 30)
      (compare_and_swap key 50 90 new_txn)
      local).0
    ≡ ok tt
unfolding program commit compare_and_swap new_txn
swapped_well = refl
