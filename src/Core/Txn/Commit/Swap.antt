-- ===== src/Core/Txn/Commit/Swap.antt =====
-- core/core.go: a compare-and-swap of one local key, in a store without batches.
use go_warp.Base.{
  ◌+◌, ◌≡◌, refl, sym, ◌∙◌, ap, ◌⊎◌, inl, inr, Time, Bool, true, false, [], ◌∷◌, Key, key_eq,
  beq_refl, lookup, insert, delete, none, some, arith, Option-cases, Bool-cases,
}
use go_warp.Errors.{Error, Got, ok, err, hit, miss, failed, cas_mismatch}
use go_warp.Merge.Engine.{Value, stamped}
use go_warp.Core.Ports.{Ports}
use go_warp.Core.Registry.{Registration, get_reg, strong_local}
use go_warp.Core.State.{World, record_access, ttl_of, after_ttl, effective_ttl}
use go_warp.Core.Set.{merged}
use go_warp.Core.Set.Coherence.{Lawful, Holds}
use go_warp.Core.Txn.{Txn, new_txn, compare_and_swap}
use go_warp.Core.Txn.Commit.{
  Progress, Pending, begin, swapped, by_mode, deliver_set, set_one, set_new, set_registered,
  set_each, delete_each, publish_all, apply_all, apply_sets, apply_deletes, finish, apply_pending,
  write_through, commit_body, commit,
}

got_cases :
    {V : Type 0} (g : Got V) → (g ≡ miss) ⊎ ((e : Error) × (g ≡ failed e)) ⊎ ((v : V) × (g ≡ hit v))
got_cases miss = inl refl
got_cases (failed e) = inr (inl (e, refl))
got_cases (hit v) = inr (inr (v, refl))

module _ {F T C S B Q : Type 0} (p : Ports F T C S B Q) (same_data : T → T → Bool)
    (clock : Key → Time) where
  abbrev Run : Type 0
  Run = Progress F T C S B Q (Unit {0})

  apply_pending-ok :
      (c : Pending T) (r : Run)
      → (apply_pending p none same_data clock c r).0 ≡ ok tt
      → let s = p.cache_ops.set c.key c.new c.ttl r.world.cache in
        (s.0 ≡ none)
        × ((apply_pending p none same_data clock c r).1.world.cache ≡ s.1)
        × ((x : S)
            → (apply_pending p none same_data clock c r).1.world.store ≡ some x
            → (x0 : S) × (p.store_ops.set c.key c.new.datum x0 ≡ (none, x)))
  unfolding apply_pending write_through
  apply_pending-ok c r h = (
    ground arith,
    ground arith,
    λ x e. elim (Option-cases (r.world.store)) [
      | inl gone ↦ absurd (ground arith)
      | inr (x0, there) ↦ (x0, ground arith)
    ],
  )

  -- The commit's one round, for a registered local key.
  module _ (key : Key) (old new : T) (w : World p) (reg : Registration F) where
    abbrev swap : Txn T
    swap = record { sets = (key, new) ∷ []; deletes = []; cas = (key, old) ∷ [] }

    swap-mismatch :
        get_reg key w.shards ≡ some reg
        → ((p.cache_ops.get key w.cache).0 ≡ miss)
          ⊎ ((v : Value T) × ((p.cache_ops.get key w.cache).0 ≡ hit v)
              × (same_data v.datum old ≡ false))
        → let out = commit {X = Unit {0}} p none same_data clock swap w in
          (out.0 ≡ err cas_mismatch)
          × (out.1.cache ≡ (p.cache_ops.get key w.cache).1)
          × (out.1.store ≡ w.store)
          × (out.1.shards ≡ w.shards)
    unfolding commit commit_body begin publish_all set_each set_one set_registered swapped lookup
    swap-mismatch found (inl gone) = ground (arith, found, gone, beq_refl key)
    swap-mismatch found (inr (v, cached, differs)) =
        ground (arith, found, cached, differs, beq_refl key)

    swap-failed :
        (e : Error)
        → get_reg key w.shards ≡ some reg
        → (p.cache_ops.get key w.cache).0 ≡ failed e
        → (commit {X = Unit {0}} p none same_data clock swap w).0 ≡ err e
    unfolding commit commit_body begin publish_all set_each set_one set_registered swapped lookup
    swap-failed e found fails = ground (arith, found, fails)

    seen : World p
    seen =
        let r = record_access p reg key w in
        after_ttl p reg key
          (record r { cache = (p.cache_ops.get key w.cache).1; set_calls = r.set_calls + 1 })

    pending : Value T → Pending T
    pending v = record {
      key = key;
      new = merged p key w.merges (some v) (stamped new (clock key));
      ttl = effective_ttl p reg (ttl_of p reg key reg.ttl (record_access p reg key w).strategies);
      now = clock key;
    }

    running : Run
    running = record { world = seen; batch = none; strong_sets = []; strong_deletes = [] }

    -- Where the comparison holds, the commit comes to the local change.
    swap-match :
        (v : Value T)
        → get_reg key w.shards ≡ some reg
        → reg.mode ≡ strong_local
        → (p.cache_ops.get key w.cache).0 ≡ hit v
        → same_data v.datum old ≡ true
        → let out = commit {X = Unit {0}} p none same_data clock swap w in
          let done = apply_pending p none same_data clock (pending v) running in
          (out.0 ≡ done.0) × (out.1.cache ≡ done.1.world.cache) × (out.1.store ≡ done.1.world.store)
    unfolding commit commit_body begin publish_all set_each set_one set_registered swapped lookup
        set_new deliver_set by_mode delete_each apply_all apply_sets apply_deletes finish
        apply_pending write_through running pending seen
    swap-match v found local cached equal =
        ground (arith, found, local, cached, equal, beq_refl key)

  pending-Holds :
      (l : Lawful p) (c : Pending T) (r : Run) (out : World p)
      → (apply_pending p none same_data clock c r).0 ≡ ok tt
      → out.cache ≡ (apply_pending p none same_data clock c r).1.world.cache
      → out.store ≡ (apply_pending p none same_data clock c r).1.world.store
      → Holds p l c.key c.new out
  pending-Holds l c r out done cached stored =
      let (fine, after, wrote) = apply_pending-ok c r done in
      (
        rw (cached ∙ after) (l.cache_get-set c.key c.new c.ttl r.world.cache fine),
        λ s e.
            let (s0, put) = wrote s (sym stored ∙ e) in
            rw (ap (λ x. x.1) put) at (l.store_get-set c.key c.new.datum s0 (ap (λ x. x.0) put)),
      )

  -- A transaction that compares and swaps one local key, over a store without batches. If the cache
  -- has no value for the key, or one that differs from the expected one, the commit fails with
  -- ErrCASMismatch and writes nothing. If it succeeds, the cached value was the expected one, and
  -- the cache and the store hold its merge with the new one.
  pub commit-swap :
      (l : Lawful p) (key : Key) (old new : T) (w : World p) (reg : Registration F)
      → get_reg key w.shards ≡ some reg
      → reg.mode ≡ strong_local
      → let out =
          commit {X = Unit {0}} p none same_data clock (compare_and_swap key old new new_txn) w in
        (((p.cache_ops.get key w.cache).0 ≡ miss)
            ⊎ ((v : Value T) × ((p.cache_ops.get key w.cache).0 ≡ hit v)
                × (same_data v.datum old ≡ false))
          → (out.0 ≡ err cas_mismatch)
            × (out.1.cache ≡ (p.cache_ops.get key w.cache).1)
            × (out.1.store ≡ w.store)
            × (out.1.shards ≡ w.shards))
        × (out.0 ≡ ok tt
            → (v : Value T) × ((p.cache_ops.get key w.cache).0 ≡ hit v)
              × (same_data v.datum old ≡ true)
              × Holds p l key (merged p key w.merges (some v) (stamped new (clock key))) out.1)
  unfolding compare_and_swap new_txn insert delete pending running seen
  commit-swap l key old new w reg found local = (
    swap-mismatch key old new w reg found,
    λ done. elim (got_cases (p.cache_ops.get key w.cache).0) [
      | inl gone ↦ absurd (cc (done, (swap-mismatch key old new w reg found (inl gone)).0))
      | inr (inl (e, fails)) ↦ absurd (cc (done, swap-failed key old new w reg e found fails))
      | inr (inr (v, cached)) ↦ elim (Bool-cases (same_data v.datum old)) [
        | inr differs ↦
            absurd (cc (done, (swap-mismatch key old new w reg found (inr (v, cached, differs))).0))
        | inl equal ↦
            let (answer, c, s) = swap-match key old new w reg v found local cached equal in
            (
              v,
              cached,
              equal,
              pending-Holds l (pending key old new w reg v) (running key old new w reg)
                  (commit {X = Unit {0}} p none same_data clock (swap key old new w reg) w).1
                  (sym answer ∙ done) c s,
            )
      ]
    ],
  )
