-- ===== src/StreamBus/Subscription.antt =====
-- streambus/subscription.go: a subscription. A channel of capacity one is the token that it may
-- hold; closing `done` and calling `unregister` is one step of Close.
pub mod Overflow
pub mod Preload
pub mod Run
use go_warp.Base.{
  ℕ, zero, suc, ◌+◌, ◌-◌, ◌%◌, ◌^◌, ◌≡◌, Bool, true, false, List, [], ◌∷◌, Key, Option, none, some,
  ltb, if◌then◌else◌,
}
use go_warp.StreamBus.Ring.{Frame}
use go_warp.StreamBus.Queue.{FrameQueue, new_frame_queue, push, pop, pop_oldest, clear}

pub data OverflowPolicy : Type 0 where
  block drop_newest drop_oldest latest_only : OverflowPolicy

-- The options that a subscription reads.
pub record SubscribeOptions : Type 0 where
  pub topic : Key
  pub prefix : Bool
  pub buffer : ℕ
  pub overflow : OverflowPolicy

-- `notify` and `space` hold a token or none. The counters are uint64.
pub record Subscription : Type 0 where
  pub id : ℕ
  pub options : SubscribeOptions
  pub queue : FrameQueue
  pub done : Bool
  pub notify : Bool
  pub space : Bool
  pub closed : Bool
  pub enqueued : ℕ
  pub delivered : ℕ
  pub dropped : ℕ

-- `counter.Add(n)`
abbrev pub add_count : ℕ → ℕ → ℕ
add_count counter n = (counter + n) % 2 ^ 64

unfoldable pub new_subscription : ℕ → SubscribeOptions → Subscription
new_subscription id options = record {
  id = id;
  options = options;
  queue = new_frame_queue options.buffer;
  done = false;
  notify = false;
  space = false;
  closed = false;
  enqueued = 0;
  delivered = 0;
  dropped = 0;
}

pub record SubscriptionStats : Type 0 where
  pub enqueued : ℕ
  pub delivered : ℕ
  pub dropped : ℕ
  pub queued : ℕ

unfoldable pub stats : Subscription → SubscriptionStats
stats s = record {
  enqueued = s.enqueued;
  delivered = s.delivered;
  dropped = s.dropped;
  queued = s.queue.len;
}

-- Close: every call after the first finds the work done.
unfoldable pub close : Subscription → Subscription
close s = record s { closed = true; done = true }

-- `s.signal(s.notify)`: a channel that has its token keeps it.
abbrev pub signal_notify : Subscription → Subscription
signal_notify s = record s { notify = true }

abbrev pub signal_space : Subscription → Subscription
signal_space s = record s { space = true }

-- `s.queue.push(frame)`, whatever it answers.
abbrev pub push_frame : Frame → Subscription → Subscription
push_frame frame s = record s { queue = (push frame s.queue).1 }

abbrev pub drop_first : Subscription → Subscription
drop_first s = record s { queue = (pop_oldest s.queue).1 }

abbrev pub count_enqueued : Subscription → Subscription
count_enqueued s = record s { enqueued = add_count s.enqueued 1 }

abbrev pub count_dropped : ℕ → Subscription → Subscription
count_dropped n s = record s { dropped = add_count s.dropped n }

-- One round of the loop of preload.
preload_one : Frame → Subscription → Subscription
preload_one frame s = count_enqueued (
    if (push frame s.queue).0
    then push_frame frame s
    else count_dropped 1 (push_frame frame (drop_first s)))

preload_each : List Frame → Subscription → Subscription
unfolding preload_one
preload_each [] s = s
preload_each (frame ∷ frames) s = preload_each frames (preload_one frame s)

unfoldable pub preload : List Frame → Subscription → Subscription
unfolding preload_each
preload frames s =
    let s' = preload_each frames s in if ltb 0 s'.queue.len then signal_notify s' else s'

-- How a round of enqueue ends: with ErrSubscriptionDone, with a frame that is to be signalled, with
-- nothing to signal, or waiting for a token.
pub data Round : Type 0 where
  subscription_done pushed discarded waiting : Round

-- The switch on the policy, for a full queue.
overflow : OverflowPolicy → Frame → Subscription → Round × Subscription
overflow drop_newest frame s = (discarded, count_dropped 1 s)
overflow drop_oldest frame s =
    (pushed, count_enqueued (count_dropped 1 (push_frame frame (drop_first s))))
overflow latest_only frame s =
    let (n, q) = clear s.queue in
    (pushed, count_enqueued (count_dropped n (push_frame frame (record s { queue = q }))))
overflow block frame s = (waiting, s)

-- A round of enqueue, up to the unlock.
unfoldable pub enqueue_round : Frame → Subscription → Round × Subscription
unfolding overflow
enqueue_round frame s =
    if s.closed
    then (subscription_done, s)
    else if (push frame s.queue).0
    then (pushed, count_enqueued (push_frame frame s))
    else overflow s.options.overflow frame s
