-- ===== src/SyncBus/InMemory/Safety.antt =====
-- syncbus/syncbus.go: no publish of InMemoryBus sends to a channel that has been closed.
use go_warp.Base.{
  ℕ, suc, ◌+◌, ◌≤◌, ◌<◌, ◌≡◌, ◌≢◌, refl, inl, inr, ℤ, Bool, List, [], ◌∷◌, Key, Option, none, some,
  arith, Bool-cases, Option-cases, key_eq, nat_eq, nat_beq_iff, is_some, ltb, length,
}
use go_warp.Errors.{Error}
use go_warp.SyncBus.SafeMap.{MapOps}
use go_warp.SyncBus.Channels.{Channel, sent, full, send}
use go_warp.SyncBus.Channels.Laws.{has_room, IsOpen, send-IsOpen, send_open}
use go_warp.SyncBus.Channels.Counts.{count}
use go_warp.SyncBus.InMemory.{
  InMemoryBus, Event, PublishOptions, Delivery, complete, interrupted, panicked, Answer, panic,
  event_of, deliver, or_empty, publish, publish_to, publish_and_await, await_from, await_outcome,
  count_delivered, to_answer, add_one, unless_pending, mark, at_least_one,
}

to_answer_calm : (d : Delivery) → d ≢ panicked → to_answer d ≢ panic
to_answer_calm (complete n) calm e = cc
to_answer_calm (interrupted x) calm e = cc
to_answer_calm panicked calm e = calm refl

module _ {S P : Type 0} (subs_ops : MapOps S (List ℕ)) (pending_ops : MapOps P Bool) where
  -- What a loop over open channels leaves: no panic, the same subscribers, and no channel closed.
  record Harmless (b : InMemoryBus S P) (d : Delivery) (b' : InMemoryBus S P) : Type 0 where
    calm : d ≢ panicked
    subs : b'.subs ≡ b.subs
    next : b'.next ≡ b.next
    opened : (i : ℕ) → IsOpen i b.chans → IsOpen i b'.chans

  deliver-Harmless :
      (cut : ℕ → Option Error) (i : ℕ) (evt : Event) (chs : List ℕ) (n : ℕ) (b : InMemoryBus S P)
      → ((j : ℕ) → 1 ≤ count j chs → IsOpen j b.chans)
      → let (d, b') = deliver subs_ops pending_ops cut i evt chs n b in Harmless b d b'
  unfolding deliver
  deliver-Harmless cut i evt [] n b h = record {
    calm = λ e. cc;
    subs = refl;
    next = refl;
    opened = λ j v. v;
  }
  deliver-Harmless cut i evt (ch ∷ chs) n b h =
      let chans : List (ℕ × Channel Event) = (send ch evt b.chans).1 in
      let kept : (j : ℕ) → IsOpen j b.chans → IsOpen j chans = λ j. send-IsOpen ch j evt b.chans in
      let open_here : IsOpen ch b.chans = h ch (ground (arith, nat_beq_iff ch ch)) in
      let later : (j : ℕ) → 1 ≤ count j chs → IsOpen j chans = λ j c. kept j (h j (omega arith)) in
      elim (Option-cases (cut i)) [
        | inr (e, stop) ↦
            rw stop (record { calm = λ e. cc; subs = refl; next = refl; opened = λ j v. v })
        | inl go ↦ elim (Bool-cases (has_room ch b.chans)) [
          | inl room ↦
              let made : (send ch evt b.chans).0 ≡ sent =
                rw (send_open ch evt b.chans open_here, room) refl in
              let rest =
                deliver-Harmless cut (suc i) evt chs (suc n)
                  (count_delivered subs_ops pending_ops (record b { chans = chans })) later in
              rw (go, made)
                (record {
                  calm = rest.calm;
                  subs = rest.subs;
                  next = rest.next;
                  opened = λ j v. rest.opened j (kept j v);
                })
          | inr filled ↦
              let dropped : (send ch evt b.chans).0 ≡ full =
                rw (send_open ch evt b.chans open_here, filled) refl in
              rw (go, dropped) (deliver-Harmless cut (suc i) evt chs n b (λ j c. h j (omega arith)))
        ]
      ]

  -- How often a channel stands among the subscribers of a key.
  abbrev pub count_at : ℕ → Key → S → ℕ
  count_at i key subs = count i (or_empty (subs_ops.get key subs))

  -- A channel that is subscribed is open, under one key, once, and has a number that was given.
  pub record Valid (subs : S) (next : ℕ) (chans : List (ℕ × Channel Event)) : Type 0 where
    pub opened : (key : Key) (i : ℕ) → 1 ≤ count_at i key subs → IsOpen i chans
    pub once : (key : Key) (i : ℕ) → count_at i key subs ≤ 1
    pub apart :
        (key other : Key) (i : ℕ) → key ≢ other → count_at i key subs + count_at i other subs ≤ 1
    pub given : (key : Key) (i : ℕ) → 1 ≤ count_at i key subs → i < next

  abbrev pub IsValid : InMemoryBus S P → Type 0
  IsValid b = Valid b.subs b.next b.chans

  Harmless-Valid :
      {b b' : InMemoryBus S P} {d : Delivery} → Harmless b d b' → IsValid b → IsValid b'
  Harmless-Valid {b} {b'} s v = record {
    opened = λ key i c. s.opened i (v.opened key i (rw (← s.subs) c));
    once = λ key i. rw s.subs (v.once key i);
    apart = λ key other i ne. rw s.subs (v.apart key other i ne);
    given = λ key i c. rw s.next (v.given key i (rw (← s.subs) c));
  }

  -- A call that ends without a panic, in a valid state.
  abbrev pub Safe : Answer × InMemoryBus S P → Type 0
  Safe (a, b) = (a ≢ panic) × IsValid b

  publish_to-Safe :
      (cut : ℕ → Option Error) (evt : Event) (chs : List ℕ) (b : InMemoryBus S P)
      → IsValid b
      → ((j : ℕ) → 1 ≤ count j chs → IsOpen j b.chans)
      → Safe (publish_to subs_ops pending_ops cut evt chs b)
  unfolding publish_to
  publish_to-Safe cut evt [] b v h = (λ e. cc, v)
  publish_to-Safe cut evt (ch ∷ chs) b v h =
      let s =
        deliver-Harmless cut 0 evt (ch ∷ chs) 0 (record b { published = add_one b.published }) h in
      (to_answer_calm _ s.calm, Harmless-Valid s v)

  await_outcome-Safe :
      (replicas : ℕ) (d : Delivery) (b b' : InMemoryBus S P)
      → Harmless b d b'
      → IsValid b
      → Safe (await_outcome subs_ops pending_ops replicas (d, b'))
  unfolding await_outcome
  await_outcome-Safe replicas (interrupted e) b b' s v = (λ e. cc, Harmless-Valid s v)
  await_outcome-Safe replicas panicked b b' s v = absurd (s.calm refl)
  await_outcome-Safe replicas (complete n) b b' s v = elim (Bool-cases (ltb n replicas)) [
    | inl few ↦ rw few (λ e. cc, Harmless-Valid s v)
    | inr enough ↦ rw enough (λ e. cc, Harmless-Valid s v)
  ]

  await_from-Safe :
      (cut : ℕ → Option Error) (replicas : ℕ) (evt : Event) (chs : List ℕ) (b : InMemoryBus S P)
      → IsValid b
      → ((j : ℕ) → 1 ≤ count j chs → IsOpen j b.chans)
      → Safe (await_from subs_ops pending_ops cut replicas evt chs b)
  unfolding await_from
  await_from-Safe cut replicas evt chs b v h = elim (Bool-cases (ltb (length chs) replicas)) [
    | inl few ↦ rw few (λ e. cc, v)
    | inr enough ↦
        rw enough (await_outcome-Safe replicas _ b _ (deliver-Harmless cut 0 evt chs 0 b h) v)
  ]

  unless_pending-Safe :
      (at_entry : Option Error) (key : Key) (call : InMemoryBus S P → Answer × InMemoryBus S P)
      (b : InMemoryBus S P)
      → IsValid b
      → ((c : InMemoryBus S P) → IsValid c → Safe (call c))
      → Safe (unless_pending subs_ops pending_ops at_entry key call b)
  unless_pending-Safe (some e) key call b v h = (λ e. cc, v)
  unless_pending-Safe none key call b v h =
      elim (Bool-cases (is_some (pending_ops.get key b.pending))) [
        | inl there ↦ rw there (λ e. cc, v)
        | inr free ↦ rw free (h (mark subs_ops pending_ops key b) v)
      ]

  pub publish-Safe :
      (at_entry : Option Error) (cut : ℕ → Option Error) (key : Key) (o : PublishOptions)
      (b : InMemoryBus S P)
      → IsValid b
      → Safe (publish subs_ops pending_ops at_entry cut key o b)
  unfolding publish
  publish-Safe at_entry cut key o b v =
      unless_pending-Safe at_entry key _ b v
        λ c fine. publish_to-Safe cut (event_of key o) _ c fine (fine.opened key)

  pub publish_and_await-Safe :
      (at_entry : Option Error) (cut : ℕ → Option Error) (key : Key) (replicas : ℤ)
      (o : PublishOptions) (b : InMemoryBus S P)
      → IsValid b
      → Safe (publish_and_await subs_ops pending_ops at_entry cut key replicas o b)
  unfolding publish_and_await
  publish_and_await-Safe at_entry cut key replicas o b v =
      unless_pending-Safe at_entry key _ b v λ c fine.
        await_from-Safe cut (at_least_one replicas) (event_of key o) _ c fine (fine.opened key)
