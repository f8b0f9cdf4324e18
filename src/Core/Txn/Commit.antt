-- ===== src/Core/Txn/Commit.antt =====
-- core/core.go: Commit of a transaction. A Go map is ranged over in an order of its own: here that
-- of the association list. `clock` has the reading of the clock for each key, `same` is
-- reflect.DeepEqual, and `batching` the batches of a store that is a Batcher.
pub mod Quorum
pub mod Swap
use go_warp.Base.{
  ℕ, ◌+◌, ◌≡◌, Duration, Time, pos, Bool, true, false, not, ◌&&◌, List, [], ◌∷◌, ◌++◌, Key, key_eq,
  lookup, insert, delete, has, Option, none, some, if◌then◌else◌,
}
use go_warp.Errors.{
  Error, Result, Got, ok, err, hit, miss, failed, unregistered, bus_required, cas_mismatch,
}
use go_warp.Merge.Engine.{Value, stamped}
use go_warp.Core.Ports.{Ports}
use go_warp.Core.Registry.{
  Registration, Mode, strong_local, eventual_distributed, strong_distributed, quorum_size, get_reg,
}
use go_warp.Core.State.{
  Warp, Act, World, ◌>>=◌, ◌>>◌, give, fail, modify, check, resume, increase, observed, registered,
  find_registration, record_access, next_ttl, cache_get, cache_set, cache_invalidate, store_write,
  touch_reg, effective_ttl,
}
use go_warp.Core.Set.{merged}
use go_warp.Core.Txn.{Txn}

-- adapter/adapter.go: Batcher and Batch over a store `S`.
pub record BatchOps (S T X : Type 0) : Type 0 where
  pub open_batch : S → Result X × S
  pub batch_set : Key → T → X → Option Error × X
  pub batch_delete : Key → X → Option Error × X
  pub commit_batch : X → S → Option Error × S

-- A change that waits until every quorum is reached.
pub record Pending (T : Type 0) : Type 0 where
  pub key : Key
  pub new : Value T
  pub ttl : Duration
  pub now : Time

-- A commit under way: the object, the open batch, `strongSetOps` and `strongDeleteOps`.
pub record Progress (F T C S B Q X : Type 0) : Type 0 where
  pub world : Warp F T C S B Q
  pub batch : Option X
  pub strong_sets : List (Pending T)
  pub strong_deletes : List Key

module _ {S X : Type 0} where
  abbrev pub opened : Result X × S → Result (Option X) × Option S
  opened (ok x, s) = (ok (some x), some s)
  opened (err e, s) = (err e, some s)

  abbrev pub open_with :
      {T : Type 0} → Option (BatchOps S T X) → Option S → Result (Option X) × Option S
  open_with (some ops) (some s) = opened (ops.open_batch s)
  open_with (some ops) none = (ok none, none)
  open_with none s = (ok none, s)

module _ {F T C S B Q X : Type 0} (p : Ports F T C S B Q) (batching : Option (BatchOps S T X))
    (same : T → T → Bool) (clock : Key → Time) where
  abbrev pub Running : Type 0
  Running = Progress F T C S B Q X

  -- A step of the object inside a commit.
  abbrev pub on_world : {A : Type 0} → Act (World p) A → Act Running A
  on_world m r = let (a, w) = m r.world in (a, record r { world = w })

  -- The start: a batch, if the store is a Batcher.
  begin : World p → Result (Unit {0}) × Running
  begin w =
      let (o, s) = open_with batching w.store in
      (
        elim o [ ok x ↦ ok tt | err e ↦ err e ],
        record {
          world = record w { store = s };
          batch = elim o [ ok x ↦ x | err e ↦ none ];
          strong_sets = [];
          strong_deletes = [];
        },
      )

  abbrev with_batch : Option (BatchOps S T X) → Option X → Option (BatchOps S T X × X)
  with_batch (some ops) (some x) = some (ops, x)
  with_batch none x = none
  with_batch (some ops) none = none

  -- `batch.Set`, or the store's Set if there is no batch.
  write_through : Key → T → Act Running (Unit {0})
  write_through key d r = elim (with_batch batching r.batch) [
    | some (ops, x) ↦ let (e, x') = ops.batch_set key d x in check e (record r { batch = some x' })
    | none ↦ on_world (store_write p key d) r
  ]

  -- `applyLocal` of a set: the TTL that it is given is the effective one.
  apply_pending : Pending T → Act Running (Unit {0})
  unfolding write_through
  apply_pending c = do
    e ← on_world (cache_set p c.key c.new c.ttl)
    check e
    write_through c.key c.new.datum
    on_world (modify (touch_reg p c.key c.ttl c.now))

  -- `applyLocal` of a deletion: without a batch the store keeps the key.
  delete_through : Key → Act Running (Unit {0})
  delete_through key r = elim (with_batch batching r.batch) [
    | some (ops, x) ↦ let (e, x') = ops.batch_delete key x in check e (record r { batch = some x' })
    | none ↦ (ok tt, r)
  ]

  apply_delete : Key → Act Running (Unit {0})
  unfolding delete_through
  apply_delete key = do
    e ← on_world (cache_invalidate p key)
    check e
    on_world (modify (λ w. record w { eviction_counter = increase w.eviction_counter }))
    delete_through key

  -- The value to write, from the cached one: a failed comparison ends the commit.
  swapped : Txn T → Key → Value T → Got (Value T) → Act (World p) (Value T)
  swapped t key new (failed e) w = (err e, w)
  swapped t key new miss w = (if has key t.cas then err cas_mismatch else ok new, w)
  swapped t key new (hit old) w = (
    elim (lookup key t.cas) [
      | none ↦ ok (merged p key w.merges (some old) new)
      | some expected ↦
          if same old.datum expected
          then ok (merged p key w.merges (some old) new)
          else err cas_mismatch
    ],
    w,
  )

  -- `bus.Publish(ctx, key)`, if there is a bus.
  publish_now : Key → Act (World p) (Unit {0})
  publish_now key w = elim (w.bus) [
    | none ↦ (ok tt, w)
    | some b ↦ let (e, b') = p.bus_ops.publish none key b in check e (record w { bus = some b' })
  ]

  await_on : Option B → Registration F → Key → Act (World p) (Unit {0})
  await_on none reg key w = (err bus_required, w)
  await_on (some b) reg key w =
      let (e, b') = p.bus_ops.publish_and_await key (quorum_size reg) b in
      check e (record w { bus = some b' })

  -- `bus.PublishAndAwait(ctx, key, quorum)`, where a missing bus is an error.
  await_quorum : Registration F → Key → Act (World p) (Unit {0})
  unfolding await_on
  await_quorum reg key w = await_on w.bus reg key w

  -- The switch on the mode: `now_` runs at once, `later` queues.
  by_mode :
      Mode
      → Registration F
      → Key
      → Act Running (Unit {0})
      → (Running → Running)
      → Act Running (Unit {0})
  unfolding publish_now await_quorum
  by_mode strong_local reg key apply queue = apply
  by_mode eventual_distributed reg key apply queue = apply >> on_world (publish_now key)
  by_mode strong_distributed reg key apply queue = on_world (await_quorum reg key) >> modify queue

  deliver_set : Registration F → Key → Value T → Duration → Act Running (Unit {0})
  unfolding by_mode apply_pending
  deliver_set reg key new ttl =
      let c : Pending T = record {
        key = key;
        new = new;
        ttl = effective_ttl p reg ttl;
        now = clock key;
      } in
      by_mode reg.mode reg key (apply_pending c)
        (λ r. record r { strong_sets = r.strong_sets ++ c ∷ [] })

  abbrev count_txn_set : World p → World p
  count_txn_set w = record w { set_calls = w.set_calls + 1 }

  set_new : Registration F → Key → Value T → Act Running (Unit {0})
  unfolding deliver_set
  set_new reg key new = do ttl ← on_world (next_ttl p reg key reg.ttl); deliver_set reg key new ttl

  set_registered : Txn T → Key → T → Registration F → Act Running (Unit {0})
  unfolding swapped set_new
  set_registered t key value reg = do
    on_world (modify (record_access p reg key))
    on_world (modify (count_txn_set))
    got ← on_world (cache_get p key)
    new ← on_world (swapped t key (stamped value (clock key)) got)
    set_new reg key new

  -- One round of the loop over the sets.
  set_one : Txn T → Key → T → Act Running (Unit {0})
  unfolding set_registered
  set_one t key value = do reg ← on_world (find_registration p key); set_registered t key value reg

  set_each : Txn T → List (Key × T) → Act Running (Unit {0})
  unfolding set_one
  set_each t [] = give tt
  set_each t ((key, value) ∷ sets) = set_one t key value >> set_each t sets

  abbrev count_txn_delete : World p → World p
  count_txn_delete w = record w { invalidate_calls = w.invalidate_calls + 1 }

  delete_registered : Key → Registration F → Act Running (Unit {0})
  unfolding by_mode apply_delete
  delete_registered key reg =
      by_mode reg.mode reg key (apply_delete key)
        (λ r. record r { strong_deletes = r.strong_deletes ++ key ∷ [] })

  -- One round of the loop over the deletions.
  delete_one : Key → Act Running (Unit {0})
  unfolding delete_registered
  delete_one key = do
    on_world (modify (count_txn_delete))
    reg ← on_world (find_registration p key)
    delete_registered key reg

  delete_each : List (Key × Unit {0}) → Act Running (Unit {0})
  unfolding delete_one
  delete_each [] = give tt
  delete_each ((key, u) ∷ deletes) = delete_one key >> delete_each deletes

  apply_sets : List (Pending T) → Act Running (Unit {0})
  unfolding apply_pending
  apply_sets [] = give tt
  apply_sets (c ∷ cs) = apply_pending c >> apply_sets cs

  apply_deletes : List Key → Act Running (Unit {0})
  unfolding apply_delete
  apply_deletes [] = give tt
  apply_deletes (key ∷ keys) = apply_delete key >> apply_deletes keys

  -- `batch.Commit`, if there is a batch.
  finish : Act Running (Unit {0})
  finish r = elim (with_batch batching r.batch) [
    | none ↦ (ok tt, r)
    | some (ops, x) ↦ elim (r.world.store) [
      | none ↦ (ok tt, r)
      | some s ↦
          let (e, s') = ops.commit_batch x s in
          check e (record r { world = record r.world { store = some s' } })
    ]
  ]

  -- The publications and the changes of the keys that are not strong.
  publish_all : Txn T → Act Running (Unit {0})
  unfolding set_each delete_each
  publish_all t = set_each t t.sets >> delete_each t.deletes

  apply_all : Act Running (Unit {0})
  unfolding apply_sets apply_deletes finish
  apply_all r =
      (apply_sets r.strong_sets >> (λ r'. (apply_deletes r'.strong_deletes >> finish) r')) r

  commit_body : Txn T → Act (World p) (Unit {0})
  unfolding begin publish_all apply_all
  commit_body t w =
      let (o, r) = begin w in
      let (out, done) = resume o r (λ u. publish_all t >> apply_all) in (out, done.world)

  -- Commit
  unfoldable pub commit : Txn T → Act (World p) (Unit {0})
  unfolding commit_body
  commit t = observed p (commit_body t)
