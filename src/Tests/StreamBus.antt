-- ===== src/Tests/StreamBus.antt =====
-- Runs of streambus/queue.go.
use go_warp.Base.{ℕ, ◌+◌, ◌≤◌, ◌<◌, ◌≡◌, refl, ◌↔◌, true, false, none, some, arith}
use go_warp.StreamBus.Ring.{Frame, no_frame, ring_push, ring_pop, peek, new_ring_queue}
use go_warp.StreamBus.Queue.{FrameQueue, new_frame_queue, push, pop, pop_oldest, clear}
use go_warp.StreamBus.Queue.Invariant.{IsValid, push-IsValid, pop-IsValid}
use go_warp.StreamBus.Queue.Age.{pop_oldest-Oldest}

abbrev bulk : Frame
bulk = record no_frame { sequence = 1; priority = 0 }

abbrev urgent : Frame
urgent = record no_frame { sequence = 2; priority = 3 }

-- A full queue of two frames.
abbrev full : FrameQueue
full = (push urgent (push bulk (new_frame_queue 2)).1).1

queue_runs :
    ((push bulk full).0 ≡ false)
    × ((pop full).0 ≡ some urgent)
    × ((pop_oldest full).0 ≡ some bulk)
    × ((clear full).0 ≡ 2)
unfolding push pop pop_oldest clear new_frame_queue ring_push ring_pop peek new_ring_queue
queue_runs = (refl, refl, refl, refl)

full-IsValid : IsValid full
unfolding push new_frame_queue ring_push new_ring_queue
full-IsValid = record { counted = refl; bounded = omega arith }

push-IsValid_example :
    IsValid (push bulk full).1
    × (((push bulk full).0 ≡ false) ↔ (full.len ≡ full.capacity))
    × ((push bulk full).0 ≡ false → (push bulk full).1 ≡ full)
    × ((push bulk full).0 ≡ true → (push bulk full).1.len ≡ full.len + 1)
push-IsValid_example = push-IsValid bulk full full-IsValid

pop-IsValid_example :
    IsValid (pop full).1
    × ((pop full).0 ≡ none → (pop full).1 ≡ full)
    × ((frame : Frame) → (pop full).0 ≡ some frame → (pop full).1.len + 1 ≡ full.len)
    × ((i : ℕ) (frame : Frame)
        → i < 4
        → peek (full.queues i) ≡ some frame
        → ((j : ℕ) → i < j → j < 4 → (full.queues j).len ≡ 0)
        → (pop full).0 ≡ some frame)
pop-IsValid_example = pop-IsValid full full-IsValid

pop_oldest-Oldest_example :
    (((pop_oldest full).0 ≡ none) → (j : ℕ) → j < 4 → peek (full.queues j) ≡ none)
    × ((frame : Frame)
        → (pop_oldest full).0 ≡ some frame
        → (i : ℕ) × (i < 4)
          × (peek (full.queues i) ≡ some frame)
          × ((j : ℕ) (other : Frame)
              → j < 4
              → peek (full.queues j) ≡ some other
              → frame.sequence ≤ other.sequence))
pop_oldest-Oldest_example = pop_oldest-Oldest full
