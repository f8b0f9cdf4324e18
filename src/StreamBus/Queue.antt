-- ===== src/StreamBus/Queue.antt =====
-- streambus/queue.go: frameQueue, one ring queue for each of the four priorities.
pub mod Invariant
pub mod Age
pub mod Lanes
pub mod Fifo
pub mod Refine
use go_warp.Base.{
  ℕ, zero, suc, ◌+◌, ◌-◌, ◌≡◌, Bool, true, false, List, [], ◌∷◌, Option, none, some, ltb, nat_beq,
  if◌then◌else◌,
}
use go_warp.StreamBus.Ring.{Frame, RingQueue, new_ring_queue, ring_push, ring_pop, peek, no_frame}

pub record FrameQueue : Type 0 where
  pub queues : ℕ → RingQueue
  pub capacity : ℕ
  pub len : ℕ

-- PriorityBulk to PriorityCritical are 0 to 3, and PriorityNormal is 1.
abbrev pub priority_count : ℕ
priority_count = 4

-- `q.queues[i] = ring`
abbrev pub put_queue : ℕ → RingQueue → (ℕ → RingQueue) → ℕ → RingQueue
put_queue i ring queues j = if nat_beq j i then ring else queues j

unfoldable pub new_frame_queue : ℕ → FrameQueue
new_frame_queue capacity = record {
  queues = λ i. new_ring_queue capacity;
  capacity = capacity;
  len = 0;
}

-- An unknown priority is a normal one.
pub queue_of : ℕ → ℕ
queue_of priority = if ltb 3 priority then 1 else priority

unfoldable pub push : Frame → FrameQueue → Bool × FrameQueue
unfolding queue_of
push frame q =
    let i = queue_of frame.priority in
    if nat_beq q.len q.capacity then (false, q) else (
      true,
      record q { queues = put_queue i (ring_push frame (q.queues i)) q.queues; len = suc q.len },
    )

-- The pop of one queue, if it has a frame, and otherwise what the other queues give.
popped :
    ℕ
    → Option Frame × RingQueue
    → FrameQueue
    → Option Frame × FrameQueue
    → Option Frame × FrameQueue
popped i (none, ring) q rest = rest
popped i (some frame, ring) q rest =
    (some frame, record q { queues = put_queue i ring q.queues; len = q.len - 1 })

-- From the priority below the bound down to 0.
pop_below : ℕ → FrameQueue → Option Frame × FrameQueue
unfolding popped
pop_below zero q = (none, q)
pop_below (suc i) q = popped i (ring_pop (q.queues i)) q (pop_below i q)

unfoldable pub pop : FrameQueue → Option Frame × FrameQueue
unfolding pop_below
pop q = pop_below priority_count q

-- `selected` and `oldest`; no selection is -1.
pub older : ℕ → Option Frame → Option (ℕ × Frame) → Option (ℕ × Frame)
older i none selected = selected
older i (some frame) none = some (i, frame)
older i (some frame) (some (j, oldest)) =
    if ltb frame.sequence oldest.sequence then some (i, frame) else some (j, oldest)

-- The loop over the priorities below the bound, lowest first.
pub select_below : ℕ → FrameQueue → Option (ℕ × Frame)
unfolding older
select_below zero q = none
select_below (suc i) q = older i (peek (q.queues i)) (select_below i q)

pop_selected : Option (ℕ × Frame) → FrameQueue → Option Frame × FrameQueue
pop_selected none q = (none, q)
pop_selected (some (i, oldest)) q =
    let (frame, ring) = ring_pop (q.queues i) in
    (frame, record q { queues = put_queue i ring q.queues; len = q.len - 1 })

unfoldable pub pop_oldest : FrameQueue → Option Frame × FrameQueue
unfolding select_below pop_selected
pop_oldest q = pop_selected (select_below priority_count q) q

-- `for q.queues[i].len > 0 { q.queues[i].pop() }`: each pop makes the queue shorter by one.
drain : ℕ → RingQueue → RingQueue
drain zero q = q
drain (suc fuel) q = drain fuel (ring_pop q).1

unfoldable pub clear : FrameQueue → ℕ × FrameQueue
unfolding drain
clear q = (q.len, record q { queues = λ i. drain (q.queues i).len (q.queues i); len = 0 })
