-- ===== src/StreamBus/Subscription/Overflow.antt =====
-- streambus/subscription.go: what a round of enqueue does to the frames that wait.
use go_warp.Base.{ℕ, ◌<◌, ◌≡◌, refl, ◌∙◌, ap, arith, true, false}
use go_warp.StreamBus.Ring.{Frame}
use go_warp.StreamBus.Queue.{FrameQueue, push, pop_oldest, clear}
use go_warp.StreamBus.Queue.Lanes.{Lanes, lane_push, lane_pop_oldest, no_lanes}
use go_warp.StreamBus.Queue.Invariant.{total}
use go_warp.StreamBus.Queue.Fifo.{IsFifo, lanes_of, push-lanes, push-full}
use go_warp.StreamBus.Queue.Refine.{pop_oldest-lanes, pop_oldest-len, clear-lanes, clear-len}
use go_warp.StreamBus.Subscription.{
  OverflowPolicy, block, drop_newest, drop_oldest, latest_only, Subscription, add_count,
  count_dropped, count_enqueued, push_frame, Round, subscription_done, pushed, discarded, waiting,
  overflow, enqueue_round,
}

-- The lists of the priorities, after a round.
abbrev pub Holds : Round × Subscription → Lanes → Type 0
Holds (round, s) lanes = IsFifo s.queue × ((j : ℕ) → lanes_of s.queue j ≡ lanes j)

-- What a full queue does with a frame, by the policy.
abbrev pub Overflows : OverflowPolicy → Frame → Subscription → Round × Subscription → Type 0
Overflows block frame s out = out ≡ (waiting, s)
Overflows drop_newest frame s out = out ≡ (discarded, count_dropped 1 s)
Overflows drop_oldest frame s out =
    (out.0 ≡ pushed)
    × Holds out (lane_push frame (lane_pop_oldest (lanes_of s.queue)).1)
    × (out.1.dropped ≡ add_count s.dropped 1)
    × (out.1.enqueued ≡ add_count s.enqueued 1)
Overflows latest_only frame s out =
    (out.0 ≡ pushed)
    × Holds out (lane_push frame no_lanes)
    × (out.1.dropped ≡ add_count s.dropped (total s.queue.queues))
    × (out.1.enqueued ≡ add_count s.enqueued 1)

-- A push on the queue of a round with the lists given.
pushed-Holds :
    (frame : Frame) (q : FrameQueue) (lanes : Lanes)
    → IsFifo q
    → q.len < q.capacity
    → ((j : ℕ) → lanes_of q j ≡ lanes j)
    → IsFifo (push frame q).1 × ((j : ℕ) → lanes_of (push frame q).1 j ≡ lane_push frame lanes j)
pushed-Holds frame q lanes v room e =
    let (taken, valid, capacity, held) = push-lanes frame q v room in
    let same : lanes_of q ≡ lanes = λ i j. e j i in
    (valid, λ j. held j ∙ ap (λ (l : Lanes). lane_push frame l j) same)

-- A frame that finds room.
enqueue_room :
    (frame : Frame) (s : Subscription)
    → IsFifo s.queue
    → s.closed ≡ false
    → s.queue.len < s.queue.capacity
    → let out = enqueue_round frame s in
      (out.0 ≡ pushed)
      × Holds out (lane_push frame (lanes_of s.queue))
      × (out.1.dropped ≡ s.dropped)
      × (out.1.enqueued ≡ add_count s.enqueued 1)
unfolding enqueue_round
enqueue_room frame s v opened room =
    let (taken, valid, capacity, held) = push-lanes frame s.queue v room in
    let same : enqueue_round frame s ≡ (pushed, count_enqueued (push_frame frame s)) =
      simp (opened, taken) refl in
    rw same (refl, pushed-Holds frame s.queue (lanes_of s.queue) v room (λ j. refl), refl, refl)

overflow-Overflows :
    (policy : OverflowPolicy) (frame : Frame) (s : Subscription)
    → IsFifo s.queue
    → 0 < s.queue.capacity
    → s.queue.len ≡ s.queue.capacity
    → Overflows policy frame s (overflow policy frame s)
unfolding overflow
overflow-Overflows block frame s v some_room full = refl
overflow-Overflows drop_newest frame s v some_room full = refl
overflow-Overflows drop_oldest frame s v some_room full =
    let (popped, valid, held) = pop_oldest-lanes s.queue v in
    let (less, capacity) = pop_oldest-len s.queue v (omega arith) in
    (
      refl,
      pushed-Holds frame (pop_oldest s.queue).1 (lane_pop_oldest (lanes_of s.queue)).1 valid
          (omega (arith, less, capacity)) held,
      refl,
      refl,
    )
overflow-Overflows latest_only frame s v some_room full =
    let (n, valid, held) = clear-lanes s.queue v in
    let (empty, capacity) = clear-len s.queue in
    (
      refl,
      pushed-Holds frame (clear s.queue).1 no_lanes valid (omega (arith, empty, capacity)) held,
      ap (add_count s.dropped) n,
      refl,
    )

-- A round of enqueue. A closed subscription is left alone. A frame that finds room is appended in
-- its priority. With the queue full, Block waits and changes nothing, DropNewest counts the frame
-- as dropped and changes nothing else, DropOldest appends it in the place of the oldest frame, and
-- LatestOnly leaves it as the only one and counts all the others as dropped.
pub enqueue_round_lem :
    (frame : Frame) (s : Subscription)
    → IsFifo s.queue
    → 0 < s.queue.capacity
    → let out = enqueue_round frame s in
      (s.closed ≡ true → out ≡ (subscription_done, s))
      × (s.closed ≡ false
          → s.queue.len < s.queue.capacity
          → (out.0 ≡ pushed)
            × Holds out (lane_push frame (lanes_of s.queue))
            × (out.1.dropped ≡ s.dropped)
            × (out.1.enqueued ≡ add_count s.enqueued 1))
      × (s.closed ≡ false
          → s.queue.len ≡ s.queue.capacity
          → Overflows s.options.overflow frame s out)
unfolding enqueue_round
enqueue_round_lem frame s v some_room = (
  λ closed. rw closed refl,
  enqueue_room frame s v,
  λ opened full.
      let same : enqueue_round frame s ≡ overflow s.options.overflow frame s =
        simp (opened, push-full frame s.queue full) refl in
      rw same (overflow-Overflows s.options.overflow frame s v some_room full),
)
