-- ===== src/Tests/Subscription.antt =====
-- Runs of streambus/subscription.go and of the replay buffer of streambus/inmemory.go.
use go_warp.Base.{ℕ, ◌<◌, ◌≡◌, ◌≢◌, inl, refl, true, false, some, List, [], ◌∷◌, arith}
use go_warp.StreamBus.Ring.{Frame, no_frame, ring_push, ring_pop, peek, new_ring_queue, item_at}
use go_warp.StreamBus.Queue.{FrameQueue, new_frame_queue, push, pop, pop_oldest, clear}
use go_warp.StreamBus.Queue.Invariant.{total}
use go_warp.StreamBus.Queue.Lanes.{lane_push, lane_pop, lane_pop_oldest}
use go_warp.StreamBus.Queue.Fifo.{IsFifo, lanes_of, push-lanes, new_frame_queue-IsFifo}
use go_warp.StreamBus.Queue.Refine.{queue_refines}
use go_warp.StreamBus.Subscription.{
  drop_oldest, Subscription, SubscribeOptions, new_subscription, enqueue_round, subscription_done,
  pushed, add_count,
}
use go_warp.StreamBus.Subscription.Overflow.{Overflows, Holds, enqueue_round_lem}
use go_warp.StreamBus.Subscription.Run.{System, start, publish, selecting, publishes, rest, next}
use go_warp.StreamBus.Subscription.Run.Delivery.{Offers, reachable-Offers}
use go_warp.StreamBus.Replay.{new_replay_buffer, add, last, after}
use go_warp.StreamBus.Replay.Recent.{add_all, recent}
use go_warp.StreamBus.Replay.Since.{later, IsIncreasing, replay_lem}

abbrev frame : ℕ → ℕ → Frame
frame n priority = record no_frame { sequence = n; priority = priority }

abbrev empty : FrameQueue
empty = new_frame_queue 2

-- A queue with a frame.
abbrev loaded : FrameQueue
loaded = (push (frame 1 0) empty).1

program : Unit {0}
unfolding new_frame_queue push pop pop_oldest clear ring_push ring_pop peek new_ring_queue item_at
    new_subscription enqueue_round start publish new_replay_buffer add last after add_all later
program = tt

room : empty.len < empty.capacity
unfolding program
room = omega arith

loaded-IsFifo : IsFifo loaded
loaded-IsFifo = (push-lanes (frame 1 0) empty (new_frame_queue-IsFifo 2).0 room).1

queue_refines_example :
    (((loaded.len < loaded.capacity)
        → ((push (frame 2 3) loaded).0 ≡ true)
          × IsFifo (push (frame 2 3) loaded).1
          × ((j : ℕ)
              → lanes_of (push (frame 2 3) loaded).1 j ≡ lane_push (frame 2 3) (lanes_of loaded) j))
      × (loaded.len ≡ loaded.capacity → push (frame 2 3) loaded ≡ (false, loaded)))
    × (((pop loaded).0 ≡ (lane_pop (lanes_of loaded)).0)
        × IsFifo (pop loaded).1
        × ((j : ℕ) → lanes_of (pop loaded).1 j ≡ (lane_pop (lanes_of loaded)).1 j))
    × (((pop_oldest loaded).0 ≡ (lane_pop_oldest (lanes_of loaded)).0)
        × IsFifo (pop_oldest loaded).1
        × ((j : ℕ) → lanes_of (pop_oldest loaded).1 j ≡ (lane_pop_oldest (lanes_of loaded)).1 j))
    × (((clear loaded).0 ≡ total loaded.queues)
        × IsFifo (clear loaded).1
        × ((j : ℕ) → lanes_of (clear loaded).1 j ≡ []))
queue_refines_example = queue_refines (frame 2 3) loaded loaded-IsFifo

abbrev options : SubscribeOptions
options = record { topic = 1 ∷ []; prefix = false; buffer = 2; overflow = drop_oldest }

-- A subscription with one frame in a buffer for two.
abbrev half_full : Subscription
half_full = record (new_subscription 1 options) { queue = loaded; enqueued = 1 }

some_room : 0 < half_full.queue.capacity
unfolding program
some_room = omega arith

enqueue_round_lem_example :
    let out = enqueue_round (frame 2 3) half_full in
    (half_full.closed ≡ true → out ≡ (subscription_done, half_full))
    × (half_full.closed ≡ false
        → half_full.queue.len < half_full.queue.capacity
        → (out.0 ≡ pushed)
          × Holds out (lane_push (frame 2 3) (lanes_of half_full.queue))
          × (out.1.dropped ≡ half_full.dropped)
          × (out.1.enqueued ≡ add_count half_full.enqueued 1))
    × (half_full.closed ≡ false
        → half_full.queue.len ≡ half_full.queue.capacity
        → Overflows half_full.options.overflow (frame 2 3) half_full out)
enqueue_round_lem_example = enqueue_round_lem (frame 2 3) half_full loaded-IsFifo some_room

-- A publisher has pushed a frame and has not signalled it.
abbrev owed : System
owed = publish (frame 1 0) (start 1 options)

waits : 0 < owed.sub.queue.len
unfolding program
waits = omega arith

idle : owed.runner ≡ selecting
unfolding program
idle = refl

reachable-Offers_example : (f : Frame) × ((pop owed.sub.queue).0 ≡ some f) × Offers f owed
reachable-Offers_example =
    reachable-Offers 1 options owed (next (publishes (frame 1 0)) rest) waits (inl idle)

-- Three publications, of which the buffer keeps two.
abbrev history : List Frame
history = frame 1 0 ∷ frame 2 0 ∷ frame 3 0 ∷ []

abbrev since : ℕ
since = 2

replay_lem_example :
    let r = add_all history (new_replay_buffer 2) in
    (last 1 r ≡ recent 1 (recent 2 history))
    × (IsIncreasing 0 history
        → since ≢ 0
        → (after since r).1 ≡ false
        → (after since r).0 ≡ later since history)
replay_lem_example = replay_lem 2 1 since history (omega arith)

replay_runs :
    ((after 2 (add_all history (new_replay_buffer 2))) ≡ (frame 3 0 ∷ [], false))
    × ((after 1 (add_all history (new_replay_buffer 2))).1 ≡ true)
unfolding program
replay_runs = (refl, refl)
