-- ===== src/SyncBus/InMemory.antt =====
-- syncbus/syncbus.go: InMemoryBus. The channels are known by number; `subs` and `pending` are the
-- sharded maps. A call runs under the bus's lock once it is past the pending mark, so it is one
-- step. A context's state is given by the error at the entry, where it is done, and by `cut`: the
-- rounds of the loop over the channels at which the select takes ctx.Done().
pub mod Safety
pub mod Reach
pub mod Quorum
use go_warp.Base.{
  ℕ, zero, suc, ◌+◌, ◌%◌, ◌^◌, ℤ, pos, pos_part, leb_ℤ, Bool, true, false, List, [], ◌∷◌, ◌++◌, Key,
  Option, none, some, length, insert, nat_eq, ltb, if◌then◌else◌, is_some,
}
use go_warp.Errors.{Error}
use go_warp.SyncBus.SafeMap.{MapOps}
use go_warp.SyncBus.Channels.{
  Channel, open_with, Sent, sent, full, send_panic, send, close, remove_channel,
}

pub data BusError : Type 0 where
  quorum_not_satisfied : BusError
  context_error : Error → BusError

pub data Scope : Type 0 where
  scope_local scope_global : Scope

-- PublishOptions, after the options have been applied.
pub record PublishOptions : Type 0 where
  pub region : Key
  pub vector_clock : List (Key × ℕ)
  pub scope : Scope

pub record Event : Type 0 where
  pub key : Key
  pub region : Key
  pub vector_clock : List (Key × ℕ)
  pub scope : Scope

-- `next` is the number of the next channel. The counters are uint64.
pub record InMemoryBus (S P : Type 0) : Type 0 where
  pub subs : S
  pub pending : P
  pub chans : List (ℕ × Channel Event)
  pub next : ℕ
  pub published : ℕ
  pub delivered : ℕ

-- How the loop over the channels ends: with the number of sends, with ctx.Err(), or in a panic.
pub data Delivery : Type 0 where
  complete : ℕ → Delivery
  interrupted : Error → Delivery
  panicked : Delivery

-- The answer of a call.
pub data Answer : Type 0 where
  returned : Option BusError → Answer
  panic : Answer

abbrev pub add_one : ℕ → ℕ
add_one n = (n + 1) % 2 ^ 64

-- Event of the options. The scope is left at its zero value.
unfoldable pub event_of : Key → PublishOptions → Event
event_of key o = record {
  key = key;
  region = o.region;
  vector_clock = o.vector_clock;
  scope = scope_local;
}

-- A key that the map does not have has no channels.
abbrev pub or_empty : Option (List ℕ) → List ℕ
or_empty none = []
or_empty (some chs) = chs

abbrev pub to_answer : Delivery → Answer
to_answer (complete n) = returned none
to_answer (interrupted e) = returned (some (context_error e))
to_answer panicked = panic

-- `if replicas <= 0 { replicas = 1 }`
abbrev pub at_least_one : ℤ → ℕ
at_least_one replicas = if leb_ℤ replicas (pos 0) then 1 else pos_part replicas

abbrev pub remaining : ℕ → List ℕ → List ℕ
remaining ch chs = elim (remove_channel ch chs) [ none ↦ chs | some left ↦ left ]

close_found : ℕ → Option (List ℕ) → List (ℕ × Channel Event) → List (ℕ × Channel Event)
close_found ch none chans = chans
close_found ch (some left) chans = close ch chans

-- "lease:" + id
abbrev pub lease_key : Key → Key
lease_key id = 108 ∷ 101 ∷ 97 ∷ 115 ∷ 101 ∷ 58 ∷ id

abbrev pub no_publish_options : PublishOptions
no_publish_options = record { region = []; vector_clock = []; scope = scope_local }

-- The cases of the select: the context, the send, and the default.
abbrev pub next_round :
    {B : Type 0} → Option Error → Sent → Delivery × B → Delivery × B → B → Delivery × B
next_round (some e) s counted skipped b = (interrupted e, b)
next_round none sent counted skipped b = counted
next_round none full counted skipped b = skipped
next_round none send_panic counted skipped b = (panicked, b)

pub record BusMetrics : Type 0 where
  pub published : ℕ
  pub delivered : ℕ

module _ {S P : Type 0} (subs_ops : MapOps S (List ℕ)) (pending_ops : MapOps P Bool) where
  unfoldable pub new_in_memory_bus : S → P → InMemoryBus S P
  new_in_memory_bus subs pending = record {
    subs = subs;
    pending = pending;
    chans = [];
    next = 0;
    published = 0;
    delivered = 0;
  }

  abbrev pub channels_of : Key → InMemoryBus S P → List ℕ
  channels_of key b = or_empty (subs_ops.get key b.subs)

  abbrev pub count_delivered : InMemoryBus S P → InMemoryBus S P
  count_delivered b = record b { delivered = add_one b.delivered }

  -- One round of the loop, and the loop from round `i`, with `n` sends so far.
  pub deliver :
      (ℕ → Option Error) → ℕ → Event → List ℕ → ℕ → InMemoryBus S P → Delivery × InMemoryBus S P
  deliver cut i evt [] n b = (complete n, b)
  deliver cut i evt (ch ∷ chs) n b =
      let (s, chans) = send ch evt b.chans in
      let counted =
        deliver cut (suc i) evt chs (suc n) (count_delivered (record b { chans = chans })) in
      let skipped = deliver cut (suc i) evt chs n b in next_round (cut i) s counted skipped b

  -- Sets the pending mark, and removes it at the end of the call.
  abbrev pub mark : Key → InMemoryBus S P → InMemoryBus S P
  mark key b = record b { pending = pending_ops.compute key (λ v. true) b.pending }

  abbrev pub unmark : Key → Answer × InMemoryBus S P → Answer × InMemoryBus S P
  unmark key (a, b) = (a, record b { pending = pending_ops.delete key b.pending })

  -- A call behind the checks of the context and of the mark.
  abbrev pub unless_pending :
      Option Error
      → Key
      → (InMemoryBus S P → Answer × InMemoryBus S P)
      → InMemoryBus S P
      → Answer × InMemoryBus S P
  unless_pending (some e) key call b = (returned (some (context_error e)), b)
  unless_pending none key call b =
      if is_some (pending_ops.get key b.pending)
      then (returned none, mark key b)
      else unmark key (call (mark key b))

  publish_to : (ℕ → Option Error) → Event → List ℕ → InMemoryBus S P → Answer × InMemoryBus S P
  unfolding deliver
  publish_to cut evt [] b = (returned none, b)
  publish_to cut evt (ch ∷ chs) b =
      let (d, b') = deliver cut 0 evt (ch ∷ chs) 0 (record b { published = add_one b.published }) in
      (to_answer d, b')

  -- Publish
  unfoldable pub publish :
      Option Error
      → (ℕ → Option Error)
      → Key
      → PublishOptions
      → InMemoryBus S P
      → Answer × InMemoryBus S P
  unfolding publish_to event_of
  publish at_entry cut key o b =
      unless_pending at_entry key (λ c. publish_to cut (event_of key o) (channels_of key c) c) b

  -- The count of the sends against the quorum.
  pub await_outcome : ℕ → Delivery × InMemoryBus S P → Answer × InMemoryBus S P
  await_outcome replicas (complete n, b) =
      if ltb n replicas
      then (returned (some quorum_not_satisfied), b)
      else (returned none, record b { published = add_one b.published })
  await_outcome replicas (interrupted e, b) = (returned (some (context_error e)), b)
  await_outcome replicas (panicked, b) = (panic, b)

  await_from : (ℕ → Option Error) → ℕ → Event → List ℕ → InMemoryBus S P → Answer × InMemoryBus S P
  unfolding deliver await_outcome
  await_from cut replicas evt chs b =
      if ltb (length chs) replicas
      then (returned (some quorum_not_satisfied), b)
      else await_outcome replicas (deliver cut 0 evt chs 0 b)

  -- PublishAndAwait
  unfoldable pub publish_and_await :
      Option Error
      → (ℕ → Option Error)
      → Key
      → ℤ
      → PublishOptions
      → InMemoryBus S P
      → Answer × InMemoryBus S P
  unfolding await_from event_of
  publish_and_await at_entry cut key replicas o b =
      unless_pending at_entry key
        (λ c. await_from cut (at_least_one replicas) (event_of key o) (channels_of key c) c) b

  -- Subscribe: the number of the new channel. The goroutine that waits for the end of the context
  -- calls unsubscribe.
  unfoldable pub subscribe : Option Error → Key → InMemoryBus S P → Option ℕ × InMemoryBus S P
  subscribe (some e) key b = (none, b)
  subscribe none key b = (
    some b.next,
    record b {
      subs = subs_ops.compute key (λ chs. or_empty chs ++ b.next ∷ []) b.subs;
      chans = insert b.next (open_with none) b.chans;
      next = suc b.next;
    },
  )

  -- Unsubscribe
  unfoldable pub unsubscribe :
      Option Error → Key → ℕ → InMemoryBus S P → Option BusError × InMemoryBus S P
  unfolding close_found
  unsubscribe (some e) key ch b = (some (context_error e), b)
  unsubscribe none key ch b = (
    none,
    record b {
      subs = subs_ops.compute key (λ chs. remaining ch (or_empty chs)) b.subs;
      chans = close_found ch (remove_channel ch (channels_of key b)) b.chans;
    },
  )

  -- RevokeLease
  unfoldable pub revoke_lease :
      Option Error → (ℕ → Option Error) → Key → InMemoryBus S P → Answer × InMemoryBus S P
  unfolding publish
  revoke_lease at_entry cut id b = publish at_entry cut (lease_key id) no_publish_options b

  -- SubscribeLease
  unfoldable pub subscribe_lease : Option Error → Key → InMemoryBus S P → Option ℕ × InMemoryBus S P
  unfolding subscribe
  subscribe_lease at_entry id b = subscribe at_entry (lease_key id) b

  -- UnsubscribeLease
  unfoldable pub unsubscribe_lease :
      Option Error → Key → ℕ → InMemoryBus S P → Option BusError × InMemoryBus S P
  unfolding unsubscribe
  unsubscribe_lease at_entry id ch b = unsubscribe at_entry (lease_key id) ch b

  -- PublishAndAwaitTopology: a zone counts as a replica.
  pub publish_and_await_topology :
      Option Error
      → (ℕ → Option Error)
      → Key
      → ℤ
      → PublishOptions
      → InMemoryBus S P
      → Answer × InMemoryBus S P
  unfolding publish_and_await
  publish_and_await_topology at_entry cut key min_zones o b =
      publish_and_await at_entry cut key min_zones o b

  abbrev bus_metrics : InMemoryBus S P → BusMetrics
  bus_metrics b = record { published = b.published; delivered = b.delivered }
