-- ===== src/SyncBus/InMemory/Quorum.antt =====
-- syncbus/syncbus.go: what PublishAndAwait answers, and what it leaves in the channels.
use go_warp.Base.{
  ℕ, suc, ◌+◌, ◌≤◌, ◌<◌, ◌≡◌, refl, ap, ◌∙◌, ℤ, Bool, true, false, ◌&&◌, List, [], ◌∷◌, Key, Option,
  none, some, length, arith, Bool-cases, inl, inr, nat_eq, nat_beq_iff, lookup, ◌==◌, ltb, leb,
  if◌then◌else◌,
}
use go_warp.Errors.{Error}
use go_warp.SyncBus.SafeMap.{MapOps}
use go_warp.SyncBus.Channels.{Channel, open_with, sent, full, send}
use go_warp.SyncBus.Channels.Laws.{
  IsOpen, has_room, lookup-send, lookup-send_other, send-IsOpen, send_open,
}
use go_warp.SyncBus.Channels.Counts.{count}
use go_warp.SyncBus.InMemory.{
  InMemoryBus, Event, PublishOptions, Delivery, complete, Answer, returned, quorum_not_satisfied,
  event_of, channels_of, deliver, publish_and_await, await_from, await_outcome, at_least_one,
  count_delivered, mark,
}
use go_warp.SyncBus.InMemory.Safety.{IsValid}

-- How many of the channels have room.
abbrev pub rooms : List ℕ → List (ℕ × Channel Event) → ℕ
rooms [] chans = 0
rooms (ch ∷ chs) chans = (if has_room ch chans then 1 else 0) + rooms chs chans

rooms-le : (chs : List ℕ) (chans : List (ℕ × Channel Event)) → rooms chs chans ≤ length chs
rooms-le [] chans = omega arith
rooms-le (ch ∷ chs) chans = ground (arith, rooms-le chs chans)

-- A send to another channel leaves the room of these.
rooms-send :
    (ch : ℕ) (evt : Event) (chs : List ℕ) (chans : List (ℕ × Channel Event))
    → count ch chs ≡ 0
    → rooms chs (send ch evt chans).1 ≡ rooms chs chans
rooms-send ch evt [] chans h = refl
rooms-send ch evt (x ∷ chs) chans h =
    let other : (ch == x) ≡ false = ground (arith, nat_beq_iff x ch) in
    let later : rooms chs (send ch evt chans).1 ≡ rooms chs chans =
      rooms-send ch evt chs chans (omega (arith, h)) in
    rw (lookup-send_other ch x evt chans other, later) refl

-- Channel j afterwards, where it is listed n times.
abbrev pub at_count : Event → List (ℕ × Channel Event) → ℕ → ℕ → Option (Channel Event)
at_count evt before j n =
    if leb 1 n && has_room j before then some (open_with (some evt)) else lookup j before

-- A channel that is listed and had room holds the event, and the others are as they were.
abbrev pub Delivered : Event → List ℕ → List (ℕ × Channel Event) → List (ℕ × Channel Event) → Type 0
Delivered evt chs before after = (j : ℕ) → lookup j after ≡ at_count evt before j (count j chs)

count_other : (ch j : ℕ) (chs : List ℕ) → (ch == j) ≡ false → count j chs ≡ count j (ch ∷ chs)
count_other ch j chs f = rw f (omega arith)

Delivered-sent :
    (ch : ℕ) (evt : Event) (chs : List ℕ) (before after : List (ℕ × Channel Event))
    → count ch chs ≡ 0
    → has_room ch before ≡ true
    → Delivered evt chs (send ch evt before).1 after
    → Delivered evt (ch ∷ chs) before after
Delivered-sent ch evt chs before after alone room filled j = elim (Bool-cases (ch == j)) [
  | inl t ↦
      let same : ch ≡ j = (nat_beq_iff ch j).0 t in
      let left : count j chs ≡ 0 = rw (← same) alone in
      let there : has_room j before ≡ true = rw (← same) room in
      filled j ∙ rw (left, lookup-send ch j evt before, t, room, there) refl
  | inr f ↦
      filled j
      ∙ rw (lookup-send_other ch j evt before f)
          (ap (at_count evt before j) (count_other ch j chs f))
]

Delivered-dropped :
    (ch : ℕ) (evt : Event) (chs : List ℕ) (before after : List (ℕ × Channel Event))
    → has_room ch before ≡ false
    → Delivered evt chs before after
    → Delivered evt (ch ∷ chs) before after
Delivered-dropped ch evt chs before after taken filled j = elim (Bool-cases (ch == j)) [
  | inl t ↦
      let same : ch ≡ j = (nat_beq_iff ch j).0 t in
      let there : has_room j before ≡ false = rw (← same) taken in filled j ∙ ground (arith, there)
  | inr f ↦ filled j ∙ ap (at_count evt before j) (count_other ch j chs f)
]

module _ {S P : Type 0} (subs_ops : MapOps S (List ℕ)) (pending_ops : MapOps P Bool) where
  deliver-rooms :
      (cut : ℕ → Option Error) (i : ℕ) (evt : Event) (chs : List ℕ) (n : ℕ) (b : InMemoryBus S P)
      → ((k : ℕ) → cut k ≡ none)
      → ((j : ℕ) → 1 ≤ count j chs → IsOpen j b.chans)
      → ((j : ℕ) → count j chs ≤ 1)
      → let (d, b') = deliver subs_ops pending_ops cut i evt chs n b in
        (d ≡ complete (n + rooms chs b.chans))
        × Delivered evt chs b.chans b'.chans
        × (b'.published ≡ b.published)
  unfolding deliver
  deliver-rooms cut i evt [] n b free h once = (ap complete (omega arith), λ j. refl, refl)
  deliver-rooms cut i evt (ch ∷ chs) n b free h once =
      let chans : List (ℕ × Channel Event) = (send ch evt b.chans).1 in
      let alone : count ch chs ≡ 0 = ground (arith, once ch, nat_beq_iff ch ch) in
      let open_here : IsOpen ch b.chans = h ch (ground (arith, nat_beq_iff ch ch)) in
      let later : (j : ℕ) → 1 ≤ count j chs → IsOpen j chans =
        λ j c. send-IsOpen ch j evt b.chans (h j (omega arith)) in
      elim (Bool-cases (has_room ch b.chans)) [
        | inl room ↦
            let made : (send ch evt b.chans).0 ≡ sent =
              rw (send_open ch evt b.chans open_here, room) refl in
            let (d, filled, same) =
              deliver-rooms cut (suc i) evt chs (suc n)
                (count_delivered subs_ops pending_ops (record b { chans = chans })) free later
                (λ j. omega (arith, once j)) in
            rw (free i, made)
              (
                d ∙ ap complete (ground (arith, rooms-send ch evt chs b.chans alone)),
                Delivered-sent ch evt chs b.chans _ alone room filled,
                same,
              )
        | inr taken ↦
            let dropped : (send ch evt b.chans).0 ≡ full =
              rw (send_open ch evt b.chans open_here, taken) refl in
            let (d, filled, same) =
              deliver-rooms cut (suc i) evt chs n b free (λ j c. h j (omega arith))
                (λ j. omega (arith, once j)) in
            rw (free i, dropped)
              (
                d ∙ ap complete (ground arith),
                Delivered-dropped ch evt chs b.chans _ taken filled,
                same,
              )
      ]

  -- The answer of PublishAndAwait and the channels that it leaves.
  abbrev pub Awaited : ℕ → Event → List ℕ → InMemoryBus S P → Answer × InMemoryBus S P → Type 0
  Awaited need evt chs b r =
      (r.0 ≡ returned (if leb need (rooms chs b.chans) then none else some quorum_not_satisfied))
      × (length chs < need → r.1.chans ≡ b.chans)
      × (need ≤ length chs → Delivered evt chs b.chans r.1.chans)

  await_outcome_lem :
      (need n : ℕ) (d : Delivery) (b : InMemoryBus S P)
      → d ≡ complete n
      → ((await_outcome subs_ops pending_ops need (d, b)).0
          ≡ returned (if leb need n then none else some quorum_not_satisfied))
        × ((await_outcome subs_ops pending_ops need (d, b)).1.chans ≡ b.chans)
  unfolding await_outcome
  await_outcome_lem need n d b e = elim (Bool-cases (ltb n need)) [
    | inl few ↦ let other : leb need n ≡ false = ground arith in rw (e, few, other) (refl, refl)
    | inr enough ↦ let this : leb need n ≡ true = ground arith in rw (e, enough, this) (refl, refl)
  ]

  await_from-Awaited :
      (cut : ℕ → Option Error) (need : ℕ) (evt : Event) (chs : List ℕ) (b : InMemoryBus S P)
      → ((k : ℕ) → cut k ≡ none)
      → ((j : ℕ) → 1 ≤ count j chs → IsOpen j b.chans)
      → ((j : ℕ) → count j chs ≤ 1)
      → Awaited need evt chs b (await_from subs_ops pending_ops cut need evt chs b)
  unfolding await_from
  await_from-Awaited cut need evt chs b free h once = elim (Bool-cases (ltb (length chs) need)) [
    | inl few ↦
        let less : leb need (rooms chs b.chans) ≡ false = ground (arith, rooms-le chs b.chans) in
        rw (few, less) (refl, λ short. refl, λ long. absurd (ground arith))
    | inr enough ↦
        let (d, filled, same) = deliver-rooms cut 0 evt chs 0 b free h once in
        let (a, kept) =
          await_outcome_lem need (rooms chs b.chans) _ _ (d ∙ ap complete (omega arith)) in
        rw enough (a, λ short. absurd (ground arith), λ long j. rw kept (filled j))
  ]

  -- With a context that is not done and no publish of the key under way, PublishAndAwait succeeds
  -- exactly where max(1, replicas) of the key's subscribers have room in their channels, and
  -- answers ErrQuorumNotSatisfied elsewhere. Where the key has that many subscribers, each that
  -- had room holds the event afterwards and the other channels are as they were; where it has
  -- fewer, no channel has changed.
  pub publish_and_await-Awaited :
      (cut : ℕ → Option Error) (key : Key) (replicas : ℤ) (o : PublishOptions) (b : InMemoryBus S P)
      → IsValid subs_ops pending_ops b
      → ((k : ℕ) → cut k ≡ none)
      → pending_ops.get key b.pending ≡ none
      → Awaited
          (at_least_one replicas)
          (event_of key o)
          (channels_of subs_ops pending_ops key b)
          b
          (publish_and_await subs_ops pending_ops none cut key replicas o b)
  unfolding publish_and_await
  publish_and_await-Awaited cut key replicas o b v free quiet = rw quiet (
      await_from-Awaited cut (at_least_one replicas) (event_of key o)
        (channels_of subs_ops pending_ops key b) (mark subs_ops pending_ops key b) free
        (v.opened key) (v.once key))
