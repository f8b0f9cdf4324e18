-- ===== src/StreamBus/Queue/Lanes.antt =====
-- streambus/queue.go: what frameQueue promises, for a list of frames in each priority.
use go_warp.Base.{
  ℕ, zero, suc, List, [], ◌∷◌, ◌++◌, drop, Option, none, some, nat_beq, if◌then◌else◌,
}
use go_warp.StreamBus.Ring.{Frame}
use go_warp.StreamBus.Ring.Fifo.{first}
use go_warp.StreamBus.Queue.{queue_of, older, priority_count}

abbrev pub Lanes : Type 0
Lanes = ℕ → List Frame

-- The frame goes behind those of its priority.
unfoldable pub lane_push : Frame → Lanes → Lanes
lane_push frame lanes j =
    if nat_beq j (queue_of frame.priority)
    then lanes (queue_of frame.priority) ++ (frame ∷ [])
    else lanes j

unfoldable pub lane_drop : ℕ → Lanes → Lanes
lane_drop i lanes j = if nat_beq j i then drop 1 (lanes i) else lanes j

-- A frame that was found, and otherwise what the other lists give.
abbrev pub found_or : ℕ → Option Frame → Option (ℕ × Frame) → Option (ℕ × Frame)
found_or i none rest = rest
found_or i (some frame) rest = some (i, frame)

unfoldable pub first_below : ℕ → Lanes → Option (ℕ × Frame)
first_below zero lanes = none
first_below (suc i) lanes = found_or i (first (lanes i)) (first_below i lanes)

unfoldable pub oldest_below : ℕ → Lanes → Option (ℕ × Frame)
oldest_below zero lanes = none
oldest_below (suc i) lanes = older i (first (lanes i)) (oldest_below i lanes)

-- What taking the selected frame leaves.
abbrev pub taken : Option (ℕ × Frame) → Lanes → Option Frame × Lanes
taken none lanes = (none, lanes)
taken (some (i, frame)) lanes = (some frame, lane_drop i lanes)

-- The first frame of the highest priority that has one.
abbrev pub lane_pop : Lanes → Option Frame × Lanes
lane_pop lanes = taken (first_below priority_count lanes) lanes

-- The frame with the least sequence number among the first ones.
abbrev pub lane_pop_oldest : Lanes → Option Frame × Lanes
lane_pop_oldest lanes = taken (oldest_below priority_count lanes) lanes

abbrev pub no_lanes : Lanes
no_lanes i = []
