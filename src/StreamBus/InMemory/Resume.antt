-- ===== src/StreamBus/InMemory/Resume.antt =====
-- streambus/inmemory.go: a subscriber that comes back misses nothing.
use go_warp.Base.{
  ℕ, ◌+◌, ◌%◌, ◌^◌, ◌≤◌, ◌<◌, ◌≡◌, ◌≢◌, refl, sym, ◌∙◌, ap, subst, ℤ, pos, ltb_ℤ, pos_part, false,
  ◌||◌, List, [], ◌∷◌, Key, key_eq, lookup, lookup-insert_self, none, some, nat_beq, length, arith,
  Bool-cases, Option-cases, inl, inr,
}
use go_warp.StreamBus.Ring.{Frame}
use go_warp.StreamBus.Subscription.Preload.{preload-kept}
use go_warp.StreamBus.Queue.{new_frame_queue}
use go_warp.StreamBus.Queue.Fifo.{IsFifo, new_frame_queue-IsFifo}
use go_warp.StreamBus.Subscription.{Subscription, new_subscription}
use go_warp.StreamBus.Replay.{new_replay_buffer, after}
use go_warp.StreamBus.Replay.Recent.{add_all}
use go_warp.StreamBus.Replay.Since.{later, IsIncreasing, replay_lem}
use go_warp.StreamBus.Bus.{register}
use go_warp.StreamBus.InMemory.{
  InMemory, Request, id_eq, settled, sized_buffer, options_of, replay_of, replay_since, preloaded,
  finish_subscribe, subscribe_settled, subscribe,
}

preloaded-kept :
    (frames : List Frame) (s : Subscription)
    → IsFifo s.queue
    → s.queue.len ≡ 0
    → length frames ≤ s.queue.capacity
    → ((preloaded frames s).dropped ≡ s.dropped) × ((preloaded frames s).queue.len ≡ length frames)
unfolding preloaded
preloaded-kept [] s v none_there room = (refl, none_there)
preloaded-kept (frame ∷ frames) s v none_there room =
    preload-kept (frame ∷ frames) s v none_there room

-- The frames that a call replays, if it is not refused.
since_later :
    (c : ℕ) (history : List Frame) (q : Request) (capacity : ℤ) (frames : List Frame)
    → 0 < c
    → IsIncreasing 0 history
    → 0 < q.since
    → replay_of q capacity (some (add_all history (new_replay_buffer c))) ≡ some frames
    → (frames ≡ later q.since history) × (ltb_ℤ q.buffer (pos (length frames)) ≡ false)
unfolding replay_of replay_since
since_later c history q capacity frames places up since h =
    let r = add_all history (new_replay_buffer c) in
    let given : ((after q.since r).1 ≡ false)
        × ((after q.since r).0 ≡ frames)
        × (ltb_ℤ q.buffer (pos (length (after q.since r).0)) ≡ false) =
      ground (arith, h, since) in
    let nonzero : q.since ≢ 0 = λ e. omega (arith, e, since) in
    (
      sym given.1 ∙ (replay_lem c 0 q.since history places).1 up nonzero given.0,
      subst (λ (xs : List Frame). ltb_ℤ q.buffer (pos (length xs)) ≡ false) given.1 given.2,
    )

-- What a call without error came to.
subscribe-passed :
    (q : Request) (b : InMemory)
    → (subscribe none q b).0.0 ≡ none
    → let q' = settled (sized_buffer b.config q.buffer) q in
      let id = (b.sub_seq + 1) % 2 ^ 64 in
      (b.closed ≡ false)
      × (ltb_ℤ (sized_buffer b.config q.buffer) (pos 1) ≡ false)
      × (subscribe none q b
          ≡ finish_subscribe q' id
              (replay_of q' b.config.replay_capacity (lookup q'.topic b.replay))
              (record b { sub_seq = id }))
unfolding subscribe subscribe_settled
subscribe-passed q b done = elim (Bool-cases (nat_beq (length q.topic) 0)) [
  | inl empty ↦ absurd (ground (arith, done, empty))
  | inr topic ↦
      let buffer = sized_buffer b.config q.buffer in
      elim (Bool-cases (ltb_ℤ buffer (pos 1) || ltb_ℤ b.config.max_buffer buffer)) [
        | inl bad ↦ absurd (ground (arith, done, topic, bad))
        | inr good ↦ elim (Bool-cases b.closed) [
          | inl closed ↦ absurd (ground (arith, done, topic, good, closed))
          | inr opened ↦ (opened, ground (arith, good), simp (topic, good, opened) refl)
        ]
      ]
]

-- Subscribe to a topic whose journal has `c` places, with increasing numbers, from a sequence number
-- on: if it gives no error, the bus is open, the subscription is registered, it is given every
-- frame of the history with a later number, and drops none of them.
pub subscribe-resumes :
    (c : ℕ) (history : List Frame) (q : Request) (b : InMemory)
    → lookup q.topic b.replay ≡ some (add_all history (new_replay_buffer c))
    → 0 < c
    → IsIncreasing 0 history
    → q.prefix ≡ false
    → 0 < q.since
    → (subscribe none q b).0.0 ≡ none
    → let (answer, b') = subscribe none q b in
      let options = options_of (settled (sized_buffer b.config q.buffer) q) in
      (b.closed ≡ false)
      × (b'.routes ≡ register options answer.1 b.routes)
      × (lookup answer.1 b'.subs
          ≡ some (preloaded (later q.since history) (new_subscription answer.1 options)))
      × ((preloaded (later q.since history) (new_subscription answer.1 options)).dropped ≡ 0)
      × ((preloaded (later q.since history) (new_subscription answer.1 options)).queue.len
          ≡ length (later q.since history))
unfolding finish_subscribe new_subscription new_frame_queue
subscribe-resumes c history q b journal places up exact since done =
    let buffer = sized_buffer b.config q.buffer in
    let settled' = settled buffer q in
    let capacity = b.config.replay_capacity in
    let id = (b.sub_seq + 1) % 2 ^ 64 in
    let fresh = new_subscription id (options_of settled') in
    let b' = record b { sub_seq = id } in
    let (opened, positive, passed) = subscribe-passed q b done in
    let same_topic : settled'.topic ≡ q.topic = ground (arith, exact) in
    let same_since : settled'.since ≡ q.since = ground (arith, exact) in
    let same_buffer : settled'.buffer ≡ buffer = ground (arith, exact) in
    elim (Option-cases (replay_of settled' capacity (lookup settled'.topic b.replay))) [
      | inl refused ↦
          absurd (cc (done, passed, ap (λ o. (finish_subscribe settled' id o b').0.0) refused))
      | inr (frames, e) ↦
          let found : lookup settled'.topic b.replay
              ≡ some (add_all history (new_replay_buffer c)) =
            ap (λ (k : Key). lookup k b.replay) same_topic ∙ journal in
          let (all, fits) =
            since_later c history settled' capacity frames places up
              (omega (arith, since, same_since))
              (sym (ap (replay_of settled' capacity) found) ∙ e) in
          let every : frames ≡ later q.since history =
            all ∙ ap (λ (n : ℕ). later n history) same_since in
          let (dropped, len) =
            preloaded-kept frames fresh (new_frame_queue-IsFifo (pos_part settled'.buffer)).0 refl
              (ground (arith, fits, positive, same_buffer)) in
          let whole : subscribe none q b
              ≡ finish_subscribe settled' id (some (later q.since history)) b' =
            passed ∙ ap (λ o. finish_subscribe settled' id o b') (e ∙ ap some every) in
          rw whole (
            opened,
            refl,
            lookup-insert_self id (preloaded (later q.since history) fresh) b.subs,
            ap (λ xs. (preloaded xs fresh).dropped) (sym every) ∙ dropped,
            ap (λ xs. (preloaded xs fresh).queue.len) (sym every) ∙ len ∙ ap length every,
          )
    ]
