-- ===== src/SyncBus/InMemory/Reach.antt =====
-- syncbus/syncbus.go: the states that the calls of InMemoryBus lead to.
use go_warp.Base.{
  ℕ, suc, ◌+◌, ◌≡◌, ◌≢◌, refl, ℤ, Bool, List, [], ◌∷◌, ◌++◌, Key, Option, none, some, arith,
  Bool-cases, Option-cases, inl, inr, key_eq, key_beq_iff, nat_eq, nat_beq_iff, lookup, insert,
  lookup-insert, is_some, ◌==◌, if◌then◌else◌, true, ◌&&◌,
}
use go_warp.Errors.{Error}
use go_warp.SyncBus.SafeMap.{MapOps, IsMap}
use go_warp.SyncBus.Channels.{Channel, open_with, remove_channel}
use go_warp.SyncBus.Channels.Laws.{IsOpen, lookup-close}
use go_warp.SyncBus.Channels.Counts.{count, count-append, count-remove_channel}
use go_warp.SyncBus.InMemory.{
  InMemoryBus, Event, PublishOptions, panic, or_empty, publish, publish_and_await, subscribe,
  unsubscribe, remaining, close_found, new_in_memory_bus,
}
use go_warp.SyncBus.InMemory.Safety.{count_at, Valid, IsValid, publish-Safe, publish_and_await-Safe}

module _ {S P : Type 0} (subs_ops : MapOps S (List ℕ)) (pending_ops : MapOps P Bool)
    (law : IsMap subs_ops) where
  count-compute :
      (i : ℕ) (key j : Key) (f : Option (List ℕ) → List ℕ) (subs : S)
      → count_at subs_ops pending_ops i j (subs_ops.compute key f subs) ≡ (
          if key == j
          then count i (f (subs_ops.get key subs))
          else count_at subs_ops pending_ops i j subs)
  count-compute i key j f subs =
      rw (law.get-compute key j f subs)
        (elim (Bool-cases (key == j)) [ inl t ↦ rw t refl | inr f ↦ rw f refl ])

  abbrev here : Key → Key → ℕ → ℕ → ℕ
  here key j ch i = if (key == j) && (ch == i) then 1 else 0

  count-subscribe :
      (i n : ℕ) (key j : Key) (subs : S)
      → count_at subs_ops pending_ops i j
          (subs_ops.compute key (λ chs. or_empty chs ++ n ∷ []) subs)
        ≡ count_at subs_ops pending_ops i j subs + here key j n i
  count-subscribe i n key j subs = ground (
    arith,
    key_beq_iff key j,
    count-compute i key j (λ chs. or_empty chs ++ n ∷ []) subs,
    count-append i n (or_empty (subs_ops.get key subs)),
  )

  -- A new channel is open, alone, and new.
  subscribe-Valid :
      (key : Key) (subs : S) (next : ℕ) (chans : List (ℕ × Channel Event))
      → Valid subs_ops pending_ops subs next chans
      → Valid subs_ops pending_ops
          (subs_ops.compute key (λ chs. or_empty chs ++ next ∷ []) subs)
          (suc next)
          (insert next (open_with none) chans)
  subscribe-Valid key subs next chans v = record {
    opened = λ j i c.
        rw (lookup-insert next i (open_with none) chans) (elim (Bool-cases (next == i)) [
          | inl t ↦ rw t (none, refl)
          | inr f ↦ rw f (v.opened j i (ground (arith, count-subscribe i next key j subs)))
        ]);
    once = λ j i.
        ground
          (arith, count-subscribe i next key j subs, v.once j i, v.given j i, nat_beq_iff next i);
    apart = λ j k i ne. ground (
      arith,
      count-subscribe i next key j subs,
      count-subscribe i next key k subs,
      v.apart j k i ne,
      v.given j i,
      v.given k i,
      nat_beq_iff next i,
      key_beq_iff key j,
      key_beq_iff key k,
    );
    given =
        λ j i c. ground (arith, count-subscribe i next key j subs, v.given j i, nat_beq_iff next i);
  }

  count-unsubscribe :
      (i ch : ℕ) (key j : Key) (subs : S)
      → count_at subs_ops pending_ops i j subs
        ≡ count_at subs_ops pending_ops i j
            (subs_ops.compute key (λ chs. remaining ch (or_empty chs)) subs)
          + (if is_some (remove_channel ch (or_empty (subs_ops.get key subs)))
              then here key j ch i
              else 0)
  count-unsubscribe i ch key j subs =
      let chs = or_empty (subs_ops.get key subs) in
      let counted = count-compute i key j (λ c. remaining ch (or_empty c)) subs in
      elim (Option-cases (remove_channel ch chs)) [
        | inl none_there ↦ rw (counted, none_there) (ground (arith, key_beq_iff key j))
        | inr (left, there) ↦
            rw (counted, there)
              (ground (arith, key_beq_iff key j, count-remove_channel ch i chs left there))
      ]

  close_found-IsOpen :
      (ch i : ℕ) (o : Option (List ℕ)) (chans : List (ℕ × Channel Event))
      → (is_some o ≡ true → ch ≢ i)
      → IsOpen i chans
      → IsOpen i (close_found ch o chans)
  unfolding close_found
  close_found-IsOpen ch i none chans other v = v
  close_found-IsOpen ch i (some left) chans other v = rw (lookup-close ch i chans (other refl)) v

  -- The channel that is closed is no longer subscribed, under any key.
  unsubscribe-Valid :
      (key : Key) (ch : ℕ) (subs : S) (next : ℕ) (chans : List (ℕ × Channel Event))
      → Valid subs_ops pending_ops subs next chans
      → Valid subs_ops pending_ops
          (subs_ops.compute key (λ chs. remaining ch (or_empty chs)) subs)
          next
          (close_found ch (remove_channel ch (or_empty (subs_ops.get key subs))) chans)
  unsubscribe-Valid key ch subs next chans v = record {
    opened = λ j i c.
        close_found-IsOpen ch i _ chans
          (λ found same. ground (
            arith,
            count-unsubscribe i ch key j subs,
            count-unsubscribe i ch key key subs,
            v.once key i,
            v.apart key j i,
            key_beq_iff key j,
            key_beq_iff key key,
            nat_beq_iff ch i,
          ))
          (v.opened j i (ground (arith, count-unsubscribe i ch key j subs)));
    once = λ j i. ground (arith, count-unsubscribe i ch key j subs, v.once j i);
    apart = λ j k i ne. ground (
      arith,
      count-unsubscribe i ch key j subs,
      count-unsubscribe i ch key k subs,
      v.apart j k i ne,
    );
    given = λ j i c. ground (arith, count-unsubscribe i ch key j subs, v.given j i);
  }

  -- The calls, and a subscriber that takes what its channel holds.
  pub data Step : InMemoryBus S P → InMemoryBus S P → Type 0 where
    publishes :
        (e : Option Error) (cut : ℕ → Option Error) (key : Key) (o : PublishOptions)
        {b : InMemoryBus S P}
        → Step b (publish subs_ops pending_ops e cut key o b).1
    awaits :
        (e : Option Error) (cut : ℕ → Option Error) (key : Key) (n : ℤ) (o : PublishOptions)
        {b : InMemoryBus S P}
        → Step b (publish_and_await subs_ops pending_ops e cut key n o b).1
    subscribes :
        (e : Option Error) (key : Key) {b : InMemoryBus S P}
        → Step b (subscribe subs_ops pending_ops e key b).1
    unsubscribes :
        (e : Option Error) (key : Key) (ch : ℕ) {b : InMemoryBus S P}
        → Step b (unsubscribe subs_ops pending_ops e key ch b).1
    receives :
        (ch : ℕ) (e : Event) {b : InMemoryBus S P}
        → lookup ch b.chans ≡ some (open_with (some e))
        → Step b (record b { chans = insert ch (open_with none) b.chans })

  Step-IsValid :
      {b b' : InMemoryBus S P}
      → Step b b'
      → IsValid subs_ops pending_ops b
      → IsValid subs_ops pending_ops b'
  unfolding subscribe unsubscribe
  Step-IsValid (publishes e cut key o {b}) v = (publish-Safe subs_ops pending_ops e cut key o b v).1
  Step-IsValid (awaits e cut key n o {b}) v =
      (publish_and_await-Safe subs_ops pending_ops e cut key n o b v).1
  Step-IsValid (subscribes (some e) key) v = v
  Step-IsValid (subscribes none key {b}) v = subscribe-Valid key b.subs b.next b.chans v
  Step-IsValid (unsubscribes (some e) key ch) v = v
  Step-IsValid (unsubscribes none key ch {b}) v = unsubscribe-Valid key ch b.subs b.next b.chans v
  Step-IsValid (receives ch e {b} there) v = record {
    opened = λ key i c.
        rw (lookup-insert ch i (open_with none) b.chans) (elim (Bool-cases (ch == i)) [
          | inl t ↦ rw t (none, refl)
          | inr f ↦ rw f (v.opened key i c)
        ]);
    once = v.once;
    apart = v.apart;
    given = v.given;
  }

  -- From a bus without subscribers, by any calls in any order.
  pub data Reach : InMemoryBus S P → Type 0 where
    start :
        (subs : S) (pending : P)
        → ((key : Key) → subs_ops.get key subs ≡ none)
        → Reach (new_in_memory_bus subs_ops pending_ops subs pending)
    later : {b b' : InMemoryBus S P} → Reach b → Step b b' → Reach b'

  pub Reach-IsValid : {b : InMemoryBus S P} → Reach b → IsValid subs_ops pending_ops b
  unfolding new_in_memory_bus
  Reach-IsValid (start subs pending fresh) = record {
    opened = λ key i c. absurd (ground (arith, fresh key));
    once = λ key i. ground (arith, fresh key);
    apart = λ key other i ne. ground (arith, fresh key, fresh other);
    given = λ key i c. absurd (ground (arith, fresh key));
  }
  Reach-IsValid (later r s) = Step-IsValid s (Reach-IsValid r)

  -- On a bus that any calls led to, in any order, with any contexts and with subscribers that come,
  -- receive and go, neither Publish nor PublishAndAwait sends to a closed channel.
  pub publish_never_panics :
      {b : InMemoryBus S P}
      → Reach b
      → (e : Option Error) (cut : ℕ → Option Error) (key : Key) (n : ℤ) (o : PublishOptions)
      → ((publish subs_ops pending_ops e cut key o b).0 ≢ panic)
        × ((publish_and_await subs_ops pending_ops e cut key n o b).0 ≢ panic)
  publish_never_panics {b} r e cut key n o = (
    (publish-Safe subs_ops pending_ops e cut key o b (Reach-IsValid r)).0,
    (publish_and_await-Safe subs_ops pending_ops e cut key n o b (Reach-IsValid r)).0,
  )
