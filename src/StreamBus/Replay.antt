-- ===== src/StreamBus/Replay.antt =====
-- streambus/inmemory.go: replayBuffer, the last frames of a topic. A buffer of no places is never
-- made: the two reads divide by the number of places.
pub mod Recent
pub mod Since
use go_warp.Base.{
  ℕ, zero, suc, ◌+◌, ◌-◌, ◌%◌, ◌≡◌, Bool, true, false, not, ◌&&◌, List, [], ◌∷◌, length, set,
  replicate, ltb, nat_beq, if◌then◌else◌,
}
use go_warp.StreamBus.Ring.{Frame, no_frame, item_at}

pub record ReplayBuffer : Type 0 where
  pub frames : List Frame
  pub next : ℕ
  pub len : ℕ

unfoldable pub new_replay_buffer : ℕ → ReplayBuffer
new_replay_buffer capacity = record { frames = replicate capacity no_frame; next = 0; len = 0 }

unfoldable pub add : Frame → ReplayBuffer → ReplayBuffer
add frame r = if nat_beq (length r.frames) 0 then r else record {
  frames = set r.frames r.next frame;
  next = (r.next + 1) % length r.frames;
  len = if ltb r.len (length r.frames) then suc r.len else r.len;
}

-- The loop of `last`, with `n` rounds left.
last_loop : List Frame → ℕ → ℕ → ℕ → List Frame
last_loop frames start i zero = []
last_loop frames start i (suc n) =
    item_at frames ((start + i) % length frames) ∷ last_loop frames start (i + 1) n

abbrev least : ℕ → ℕ → ℕ
least count len = if ltb len count then len else count

-- `count` is at most the number of places here: no index is negative.
unfoldable pub last : ℕ → ReplayBuffer → List Frame
unfolding last_loop
last count r =
    let n = least count r.len in
    last_loop r.frames ((r.next + length r.frames - n) % length r.frames) 0 n

-- The loop of `after`.
after_loop : List Frame → ℕ → ℕ → ℕ → ℕ → List Frame
after_loop frames sequence start i zero = []
after_loop frames sequence start i (suc n) =
    let frame = item_at frames ((start + i) % length frames) in
    let rest = after_loop frames sequence start (i + 1) n in
    if ltb sequence frame.sequence then frame ∷ rest else rest

-- The frames after a sequence number, and whether some are known to be lost.
unfoldable pub after : ℕ → ReplayBuffer → List Frame × Bool
unfolding after_loop
after sequence r =
    let start = (r.next + length r.frames - r.len) % length r.frames in
    let oldest = item_at r.frames start in
    if nat_beq r.len 0
    then ([], false)
    else if nat_beq r.len (length r.frames)
        && (not (nat_beq sequence 0) && ltb sequence oldest.sequence)
    then ([], true)
    else (after_loop r.frames sequence start 0 r.len, false)
