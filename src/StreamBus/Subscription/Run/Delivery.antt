-- ===== src/StreamBus/Subscription/Run/Delivery.antt =====
-- streambus/subscription.go: a frame that waits is delivered.
use go_warp.Base.{
  ℕ, suc, ◌-◌, ◌<◌, ◌≡◌, ◌⊎◌, inl, inr, refl, arith, true, false, some, Option-cases,
}
use go_warp.StreamBus.Ring.{Frame}
use go_warp.StreamBus.Queue.{pop}
use go_warp.StreamBus.Queue.Refine.{pop-none}
use go_warp.StreamBus.Subscription.{SubscribeOptions, signal_notify, signal_space}
use go_warp.StreamBus.Subscription.Run.{
  selecting, popping, popped, sending, System, start, take, take_frame, Progress, signals, wakes,
  takes, frees, Step, Star, rest, next,
}
use go_warp.StreamBus.Subscription.Run.Wakeup.{IsWoken, start-IsWoken}

-- Steps on the way of a frame bring the goroutine to offer it on its channel.
abbrev pub Offers : Frame → System → Type 0
Offers frame s = (t : System) × Star Progress s t × (t.runner ≡ sending frame)

after : {s t : System} {frame : Frame} → Progress s t → Offers frame t → Offers frame s
after step (u, steps, at) = (u, next step steps, at)

offer_popped : (s : System) (frame : Frame) → s.runner ≡ popped frame → Offers frame s
offer_popped s frame at =
    after (frees at) (record s { sub = signal_space s.sub; runner = sending frame }, rest, refl)

take-runner :
    (s : System) (frame : Frame) → (pop s.sub.queue).0 ≡ some frame → (take s).runner ≡ popped frame
unfolding take take_frame
take-runner s frame e = rw e refl

offer_popping :
    (s : System) (frame : Frame)
    → s.runner ≡ popping
    → (pop s.sub.queue).0 ≡ some frame
    → Offers frame s
offer_popping s frame at e = after (takes at) (offer_popped (take s) frame (take-runner s frame e))

offer_woken :
    (s : System) (frame : Frame)
    → s.runner ≡ selecting
    → s.sub.notify ≡ true
    → (pop s.sub.queue).0 ≡ some frame
    → Offers frame s
offer_woken s frame idle token e = after (wakes idle token) (
    offer_popping (record s { sub = record s.sub { notify = false }; runner = popping }) frame refl
      e)

offer_idle :
    (s : System) (frame : Frame)
    → IsWoken s
    → 0 < s.sub.queue.len
    → s.runner ≡ selecting
    → (pop s.sub.queue).0 ≡ some frame
    → Offers frame s
offer_idle s frame w full idle e = elim (w.woken full) [
  | inl busy ↦ absurd (busy idle)
  | inr (inl token) ↦ offer_woken s frame idle token e
  | inr (inr coming) ↦
      let n : s.signalling ≡ suc (s.signalling - 1) = omega (arith, coming) in
      after (signals n) (
        offer_woken (record s { sub = signal_notify s.sub; signalling = s.signalling - 1 }) frame
          idle refl e)
]

-- In every state that a subscription can come to with a frame in its queue, the goroutine that waits
-- or is about to pop can come, by its own steps and a signal that a publisher owes, to offer on its
-- channel the frame that pop gives now: no frame is left waiting without a wake-up.
pub reachable-Offers :
    (id : ℕ) (options : SubscribeOptions) (s : System)
    → Star Step (start id options) s
    → 0 < s.sub.queue.len
    → (s.runner ≡ selecting) ⊎ (s.runner ≡ popping)
    → (frame : Frame) × ((pop s.sub.queue).0 ≡ some frame) × Offers frame s
reachable-Offers id options s steps full at =
    let w = start-IsWoken id options s steps in
    elim (Option-cases (pop s.sub.queue).0) [
      | inl nothing ↦ absurd (omega (arith, full, pop-none s.sub.queue w.fifo nothing))
      | inr (frame, e) ↦ (
        frame,
        e,
        elim at [
          | inl idle ↦ offer_idle s frame w full idle e
          | inr ready ↦ offer_popping s frame ready e
        ],
      )
    ]
