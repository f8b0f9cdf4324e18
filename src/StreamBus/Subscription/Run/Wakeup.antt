-- ===== src/StreamBus/Subscription/Run/Wakeup.antt =====
-- streambus/subscription.go: no wake-up of the goroutine is lost.
use go_warp.Base.{
  ℕ, ◌<◌, ◌≡◌, ◌≢◌, ◌⊎◌, inl, inr, refl, sym, ◌∙◌, ap, List, [], ◌∷◌, arith, true, false, Option,
  none, some, subst, Bool-cases, ltb,
}
use native.Mathlib.Decide.{dec_lt}
use go_warp.StreamBus.Ring.{Frame}
use go_warp.StreamBus.Queue.Invariant.{pop-IsValid}
use go_warp.StreamBus.Queue.{FrameQueue, new_frame_queue, push, pop, pop_oldest, clear}
use go_warp.StreamBus.Queue.Fifo.{IsFifo, push-lanes, push-full, new_frame_queue-IsFifo}
use go_warp.StreamBus.Queue.Refine.{pop-lanes, pop-none, pop_oldest-lanes, clear-lanes}
use go_warp.StreamBus.Subscription.{
  OverflowPolicy, block, drop_newest, drop_oldest, latest_only, Subscription, SubscribeOptions,
  new_subscription, close, preload, preload_each, preload_one, overflow, enqueue_round, Round,
  subscription_done, pushed, discarded, waiting,
}
use go_warp.StreamBus.Subscription.Run.{
  selecting, System, start, after_round, publish, take, take_frame, Progress, Step, progresses,
  preloads, publishes, signals, retries, closes, wakes, takes, frees, sends, stops, abandons, Star,
  rest, next,
}

-- The goroutine is not idle, or will be woken.
abbrev Awake : System → Type 0
Awake s = (s.runner ≢ selecting) ⊎ (s.sub.notify ≡ true) ⊎ (0 < s.signalling)

pub record IsWoken (s : System) : Type 0 where
  pub fifo : IsFifo s.sub.queue
  pub woken : 0 < s.sub.queue.len → Awake s

push-IsFifo : (frame : Frame) (q : FrameQueue) → IsFifo q → IsFifo (push frame q).1
push-IsFifo frame q v = elim (dec_lt q.len q.capacity) [
  | yes room ↦ (push-lanes frame q v room).1
  | no full ↦ let same = push-full frame q (omega (arith, full, v.valid.bounded)) in rw same v
]

overflow_kept :
    (policy : OverflowPolicy) (frame : Frame) (s : Subscription)
    → IsFifo s.queue
    → let out = overflow policy frame s in
      IsFifo out.1.queue
      × ((out.0 ≡ pushed) ⊎ ((out.1.queue ≡ s.queue) × (out.1.notify ≡ s.notify)))
unfolding overflow
overflow_kept block frame s v = (v, inr (refl, refl))
overflow_kept drop_newest frame s v = (v, inr (refl, refl))
overflow_kept drop_oldest frame s v =
    (push-IsFifo frame (pop_oldest s.queue).1 (pop_oldest-lanes s.queue v).1, inl refl)
overflow_kept latest_only frame s v =
    (push-IsFifo frame (clear s.queue).1 (clear-lanes s.queue v).1, inl refl)

-- A round either pushes, or leaves the queue and the token as they are.
enqueue_round-kept :
    (frame : Frame) (s : Subscription)
    → IsFifo s.queue
    → let out = enqueue_round frame s in
      IsFifo out.1.queue
      × ((out.0 ≡ pushed) ⊎ ((out.1.queue ≡ s.queue) × (out.1.notify ≡ s.notify)))
unfolding enqueue_round
enqueue_round-kept frame s v = elim (Bool-cases s.closed) [
  | inl closed ↦ simp closed (v, inr (refl, refl))
  | inr opened ↦ elim (Bool-cases (push frame s.queue).0) [
    | inl room ↦ simp (opened, room) (push-IsFifo frame s.queue v, inl refl)
    | inr full ↦ simp (opened, full) (overflow_kept s.options.overflow frame s v)
  ]
]

-- A change that leaves the queue and the token as they are.
kept-IsWoken :
    (s' : Subscription) (s : System)
    → IsWoken s
    → s'.queue ≡ s.sub.queue
    → s'.notify ≡ s.sub.notify
    → IsWoken (record s { sub = s' })
kept-IsWoken s' s w queue notify =
    let same = ap (λ (q : FrameQueue). q.len) queue in
    record {
      fifo = subst IsFifo (sym queue) w.fifo;
      woken = λ full. elim (w.woken (omega (arith, same, full))) [
        | inl busy ↦ inl busy
        | inr (inl token) ↦ inr (inl (notify ∙ token))
        | inr (inr coming) ↦ inr (inr coming)
      ];
    }

kept_of :
    (round : Round) (s' s : Subscription)
    → round ≢ pushed
    → (round ≡ pushed) ⊎ ((s'.queue ≡ s.queue) × (s'.notify ≡ s.notify))
    → (s'.queue ≡ s.queue) × (s'.notify ≡ s.notify)
kept_of round s' s other (inl h) = absurd (other h)
kept_of round s' s other (inr same) = same

-- The system after a round, of which either the frame is to be signalled or nothing has changed.
after_round-IsWoken :
    (round : Round) (s' : Subscription) (s : System)
    → IsWoken s
    → IsFifo s'.queue
    → (round ≡ pushed) ⊎ ((s'.queue ≡ s.sub.queue) × (s'.notify ≡ s.sub.notify))
    → IsWoken (after_round (round, s') s)
unfolding after_round
after_round-IsWoken pushed s' s w v h = record { fifo = v; woken = λ full. inr (inr (omega arith)) }
after_round-IsWoken discarded s' s w v h =
    let (queue, notify) = kept_of discarded s' s.sub (λ e. cc e) h in
    kept-IsWoken s' s w queue notify
after_round-IsWoken waiting s' s w v h =
    let (queue, notify) = kept_of waiting s' s.sub (λ e. cc e) h in kept-IsWoken s' s w queue notify
after_round-IsWoken subscription_done s' s w v h =
    let (queue, notify) = kept_of subscription_done s' s.sub (λ e. cc e) h in
    kept-IsWoken s' s w queue notify

preload_one-IsFifo :
    (frame : Frame) (s : Subscription) → IsFifo s.queue → IsFifo (preload_one frame s).queue
unfolding preload_one
preload_one-IsFifo frame s v = elim (Bool-cases (push frame s.queue).0) [
  | inl room ↦ simp room (push-IsFifo frame s.queue v)
  | inr full ↦ simp full (push-IsFifo frame (pop_oldest s.queue).1 (pop_oldest-lanes s.queue v).1)
]

preload_each-IsFifo :
    (frames : List Frame) (s : Subscription) → IsFifo s.queue → IsFifo (preload_each frames s).queue
unfolding preload_each
preload_each-IsFifo [] s v = v
preload_each-IsFifo (frame ∷ frames) s v =
    preload_each-IsFifo frames (preload_one frame s) (preload_one-IsFifo frame s v)

preload-IsWoken :
    (frames : List Frame) (s : System)
    → IsWoken s
    → IsWoken (record s { sub = preload frames s.sub })
unfolding preload
preload-IsWoken frames s w =
    let v = preload_each-IsFifo frames s.sub w.fifo in
    elim (Bool-cases (ltb 0 (preload_each frames s.sub).queue.len)) [
      | inl some_there ↦ simp some_there (record { fifo = v; woken = λ full. inr (inl refl) })
      | inr nothing ↦
          simp nothing (record { fifo = v; woken = λ full. absurd (ground (arith, full, nothing)) })
    ]

take_frame-IsWoken :
    (frame : Option Frame) (s : System)
    → IsFifo s.sub.queue
    → (frame ≡ none → s.sub.queue.len ≡ 0)
    → IsWoken (take_frame frame s)
unfolding take_frame
take_frame-IsWoken none s v empty = record {
  fifo = v;
  woken = λ full. absurd (omega (arith, empty refl, full));
}
take_frame-IsWoken (some frame) s v empty = record { fifo = v; woken = λ full. inl (λ e. cc e) }

take-IsWoken : (s : System) → IsWoken s → IsWoken (take s)
unfolding take
take-IsWoken s w =
    let (frame, q) = pop s.sub.queue in
    take_frame-IsWoken frame (record s { sub = record s.sub { queue = q } })
      (pop-lanes s.sub.queue w.fifo).1
      (λ nothing.
        ap (λ (x : FrameQueue). x.len) ((pop-IsValid s.sub.queue w.fifo.valid).1 nothing)
        ∙ pop-none s.sub.queue w.fifo nothing)

Progress-IsWoken : (s t : System) → Progress s t → IsWoken s → IsWoken t
Progress-IsWoken s t (signals e) w = record { fifo = w.fifo; woken = λ full. inr (inl refl) }
Progress-IsWoken s t (wakes idle token) w = record {
  fifo = w.fifo;
  woken = λ full. inl (λ e. cc e);
}
Progress-IsWoken s t (takes at) w = take-IsWoken s w
Progress-IsWoken s t (frees at) w = record { fifo = w.fifo; woken = λ full. inl (λ e. cc e) }
Progress-IsWoken s t (sends at) w = record { fifo = w.fifo; woken = λ full. inl (λ e. cc e) }

Step-IsWoken : (s t : System) → Step s t → IsWoken s → IsWoken t
unfolding publish close
Step-IsWoken s t (progresses p) w = Progress-IsWoken s t p w
Step-IsWoken s t (preloads frames) w = preload-IsWoken frames s w
Step-IsWoken s t (publishes frame) w =
    let (v, kept) = enqueue_round-kept frame s.sub w.fifo in
    after_round-IsWoken (enqueue_round frame s.sub).0 (enqueue_round frame s.sub).1 s w v kept
Step-IsWoken s t (retries e) w = kept-IsWoken (record s.sub { space = false }) s w refl refl
Step-IsWoken s t closes w = kept-IsWoken (close s.sub) s w refl refl
Step-IsWoken s t (stops idle closed) w = record { fifo = w.fifo; woken = λ full. inl (λ e. cc e) }
Step-IsWoken s t (abandons at closed) w = record { fifo = w.fifo; woken = λ full. inl (λ e. cc e) }

Star-IsWoken : (s t : System) → Star Step s t → IsWoken s → IsWoken t
Star-IsWoken s t rest w = w
Star-IsWoken s t (next {t = u} step more) w = Star-IsWoken u t more (Step-IsWoken s u step w)

-- In every state that a subscription can come to, its queue is valid, and with a frame in the queue
-- the goroutine is not idle, or has a token to wake it, or a publisher is about to give it one.
pub start-IsWoken :
    (id : ℕ) (options : SubscribeOptions) (s : System) → Star Step (start id options) s → IsWoken s
unfolding start new_subscription new_frame_queue
start-IsWoken id options s steps = Star-IsWoken (start id options) s steps (record {
  fifo = (new_frame_queue-IsFifo options.buffer).0;
  woken = λ full. absurd (omega (arith, full));
})
