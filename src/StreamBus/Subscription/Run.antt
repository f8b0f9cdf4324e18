-- ===== src/StreamBus/Subscription/Run.antt =====
-- streambus/subscription.go: the goroutine `run`, and its steps among those of the publishers.
pub mod Wakeup
pub mod Delivery
use go_warp.Base.{ℕ, zero, suc, ◌+◌, ◌≡◌, Bool, true, false, List, [], ◌∷◌, Option, none, some}
use go_warp.StreamBus.Ring.{Frame}
use go_warp.StreamBus.Queue.{pop}
use go_warp.StreamBus.Subscription.{
  Subscription, SubscribeOptions, new_subscription, preload, close, signal_notify, signal_space,
  add_count, Round, subscription_done, pushed, discarded, waiting, enqueue_round,
}

-- Where the goroutine is: in the outer select, before a pop, before the signal for a frame that it
-- has popped, in the inner select, or at its end, with the frame that it leaves undelivered.
pub data Runner : Type 0 where
  selecting popping : Runner
  popped sending : Frame → Runner
  stopped : Option Frame → Runner

-- `signalling` publishers have pushed a frame and have not yet signalled it.
pub record System : Type 0 where
  pub sub : Subscription
  pub runner : Runner
  pub signalling : ℕ

unfoldable pub start : ℕ → SubscribeOptions → System
start id options = record { sub = new_subscription id options; runner = selecting; signalling = 0 }

-- A round of enqueue, after which a pushed frame is to be signalled.
after_round : Round × Subscription → System → System
after_round (pushed, s') s = record s { sub = s'; signalling = suc s.signalling }
after_round (discarded, s') s = record s { sub = s' }
after_round (waiting, s') s = record s { sub = s' }
after_round (subscription_done, s') s = record s { sub = s' }

unfoldable pub publish : Frame → System → System
unfolding after_round
publish frame s = after_round (enqueue_round frame s.sub) s

-- `frame, ok := s.queue.pop()`
pub take_frame : Option Frame → System → System
take_frame none s = record s { runner = selecting }
take_frame (some frame) s = record s { runner = popped frame }

unfoldable pub take : System → System
unfolding take_frame
take s =
    let (frame, q) = pop s.sub.queue in
    take_frame frame (record s { sub = record s.sub { queue = q } })

abbrev pub deliver : Subscription → Subscription
deliver s = record s { delivered = add_count s.delivered 1 }

-- A step on the way of a frame: the signal of a publisher that has pushed one, and the steps of the
-- goroutine up to the delivery.
pub data Progress (s : System) : System → Type 0 where
  signals :
      {n : ℕ}
      → s.signalling ≡ suc n
      → Progress s (record s { sub = signal_notify s.sub; signalling = n })
  wakes :
      s.runner ≡ selecting
      → s.sub.notify ≡ true
      → Progress s (record s { sub = record s.sub { notify = false }; runner = popping })
  takes : s.runner ≡ popping → Progress s (take s)
  frees :
      {frame : Frame}
      → s.runner ≡ popped frame
      → Progress s (record s { sub = signal_space s.sub; runner = sending frame })
  sends :
      {frame : Frame}
      → s.runner ≡ sending frame
      → Progress s (record s { sub = deliver s.sub; runner = popping })

-- A step of the system: one on the way of a frame, the preload of Subscribe, a round of a publisher,
-- the token that a waiting publisher takes, Close, or the end of the goroutine. Among the ready
-- cases of a select any may run.
pub data Step (s : System) : System → Type 0 where
  progresses : {t : System} → Progress s t → Step s t
  preloads : (frames : List Frame) → Step s (record s { sub = preload frames s.sub })
  publishes : (frame : Frame) → Step s (publish frame s)
  retries : s.sub.space ≡ true → Step s (record s { sub = record s.sub { space = false } })
  closes : Step s (record s { sub = close s.sub })
  stops : s.runner ≡ selecting → s.sub.done ≡ true → Step s (record s { runner = stopped none })
  abandons :
      {frame : Frame}
      → s.runner ≡ sending frame
      → s.sub.done ≡ true
      → Step s (record s { runner = stopped (some frame) })

-- The reflexive and transitive closure of a relation of steps.
pub data Star (R : System → System → Type 0) : System → System → Type 0 where
  rest : {s : System} → Star R s s
  next : {s t u : System} → R s t → Star R t u → Star R s u
