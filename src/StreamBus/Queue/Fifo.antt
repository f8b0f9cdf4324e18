-- ===== src/StreamBus/Queue/Fifo.antt =====
-- streambus/queue.go: frameQueue holds four lists of frames; a push appends to one.
use go_warp.Base.{
  ℕ, suc, ◌<◌, ◌≡◌, refl, subst, List, [], ◌∷◌, ◌++◌, arith, Bool, true, false, Option, nat_beq,
  if◌then◌else◌,
}
use go_warp.StreamBus.Ring.{Frame, RingQueue, new_ring_queue, ring_push}
use go_warp.StreamBus.Ring.Fifo.{IsRing, contents, new_ring_queue-IsRing, ring_push-contents}
use go_warp.StreamBus.Queue.{FrameQueue, put_queue, queue_of, new_frame_queue, push}
use go_warp.StreamBus.Queue.Lanes.{Lanes, lane_push}
use go_warp.StreamBus.Queue.Invariant.{IsValid, push-IsValid, total-above, queue_of-lt}

-- A valid queue on four rings of its capacity.
pub record IsFifo (q : FrameQueue) : Type 0 where
  pub valid : IsValid q
  pub rings : (i : ℕ) → IsRing q.capacity (q.queues i)

abbrev pub lanes_of : FrameQueue → Lanes
lanes_of q i = contents (q.queues i)

-- The frame and the queue that an operation gives are those of the lists.
abbrev pub Gives : FrameQueue → Option Frame × FrameQueue → Option Frame × Lanes → Type 0
Gives q (frame, q') (frame', lanes) =
    (frame ≡ frame')
    × (q'.capacity ≡ q.capacity)
    × ((i : ℕ) → IsRing q.capacity (q'.queues i))
    × ((j : ℕ) → lanes_of q' j ≡ lanes j)

pub put_queue-IsRing :
    {c : ℕ} (i j : ℕ) (ring : RingQueue) (queues : ℕ → RingQueue)
    → IsRing c ring
    → ((k : ℕ) → IsRing c (queues k))
    → IsRing c (put_queue i ring queues j)
put_queue-IsRing {c} i j ring queues v rings =
    elim (nat_beq j i) as (λ b. IsRing c (if b then ring else queues j)) [
      | true ↦ v
      | false ↦ rings j
    ]

pub put_queue-contents :
    (i j : ℕ) (ring : RingQueue) (queues : ℕ → RingQueue) (frames : List Frame)
    → contents ring ≡ frames
    → contents (put_queue i ring queues j) ≡ (if nat_beq j i then frames else contents (queues j))
put_queue-contents i j ring queues frames e =
    elim (nat_beq j i)
      as (λ b.
        contents (if b then ring else queues j) ≡ (if b then frames else contents (queues j))) [
          | true ↦ e
          | false ↦ refl
        ]

abbrev after_push : Frame → FrameQueue → FrameQueue
after_push frame q =
    let i = queue_of frame.priority in
    record q { queues = put_queue i (ring_push frame (q.queues i)) q.queues; len = suc q.len }

pub push-full : (frame : Frame) (q : FrameQueue) → q.len ≡ q.capacity → push frame q ≡ (false, q)
unfolding push
push-full frame q e = let full : nat_beq q.len q.capacity ≡ true = ground (arith, e) in rw full refl

push_room :
    (frame : Frame) (q : FrameQueue)
    → q.len < q.capacity
    → push frame q ≡ (true, after_push frame q)
unfolding push
push_room frame q h =
    let room : nat_beq q.len q.capacity ≡ false = ground (arith, h) in rw room refl

-- A push that finds room.
pub push-lanes :
    (frame : Frame) (q : FrameQueue)
    → IsFifo q
    → q.len < q.capacity
    → ((push frame q).0 ≡ true)
      × IsFifo (push frame q).1
      × ((push frame q).1.capacity ≡ q.capacity)
      × ((j : ℕ) → lanes_of (push frame q).1 j ≡ lane_push frame (lanes_of q) j)
unfolding lane_push
push-lanes frame q v h =
    let i = queue_of frame.priority in
    let above = total-above i q.queues (queue_of-lt frame.priority) in
    let (ring, e) =
      ring_push-contents q.capacity frame (q.queues i) (v.rings i)
        (omega (arith, above, h, v.valid.counted)) in
    let kept : IsValid (after_push frame q) =
      subst (λ (x : Bool × FrameQueue). IsValid x.1) (push_room frame q h)
        (push-IsValid frame q v.valid).0 in
    rw (push_room frame q h) (
      refl,
      record {
        valid = kept;
        rings = λ j. put_queue-IsRing i j (ring_push frame (q.queues i)) q.queues ring v.rings;
      },
      refl,
      λ j.
          put_queue-contents i j (ring_push frame (q.queues i)) q.queues
            (contents (q.queues i) ++ (frame ∷ [])) e,
    )

pub new_frame_queue-IsFifo :
    (c : ℕ) → IsFifo (new_frame_queue c) × ((j : ℕ) → lanes_of (new_frame_queue c) j ≡ [])
unfolding new_frame_queue new_ring_queue
new_frame_queue-IsFifo c =
    let ring = new_ring_queue-IsRing c in
    (
      record { valid = record { counted = refl; bounded = omega arith }; rings = λ i. ring.0 },
      λ j. ring.1,
    )
