-- ===== src/StreamBus/Queue/Refine.antt =====
-- streambus/queue.go: frameQueue is four lists of frames.
use go_warp.Base.{
  ℕ, zero, suc, ◌-◌, ◌≤◌, ◌<◌, ◌≡◌, refl, sym, ◌∙◌, ap, subst, [], drop, arith, true, false, Option,
  none, some, if◌then◌else◌, inl, inr, Option-cases, ltb,
}
use go_warp.StreamBus.Ring.{Frame, RingQueue, ring_pop}
use go_warp.StreamBus.Ring.Fifo.{IsRing, contents, first, ring_pop-contents, peek-contents}
use go_warp.StreamBus.Queue.{
  FrameQueue, put_queue, priority_count, push, popped, pop_below, pop, older, select_below,
  pop_selected, pop_oldest, drain, clear,
}
use go_warp.StreamBus.Queue.Lanes.{
  Lanes, lane_push, lane_drop, found_or, first_below, oldest_below, taken, lane_pop,
  lane_pop_oldest,
}
use go_warp.StreamBus.Queue.Invariant.{IsValid, total, pop-IsValid, clear-IsValid, total-put_queue}
use native.Mathlib.Decide.{dec_lt}
use go_warp.StreamBus.Queue.Age.{pop_oldest-Oldest}
use go_warp.StreamBus.Ring.Counts.{peek-none, peek-ring_pop, ring_pop-len, ring_pop-some}
use go_warp.StreamBus.Ring.Window.{read}
use go_warp.StreamBus.Queue.Fifo.{
  IsFifo, lanes_of, Gives, put_queue-IsRing, put_queue-contents, push-lanes, push-full,
}

-- A queue without the first frame of one of its rings.
drop_ring :
    (i : ℕ) (frame : Frame) (ring : RingQueue) (q : FrameQueue)
    → ((j : ℕ) → IsRing q.capacity (q.queues j))
    → IsRing q.capacity ring
    → contents ring ≡ drop 1 (contents (q.queues i))
    → Gives q
        (some frame, record q { queues = put_queue i ring q.queues; len = q.len - 1 })
        (taken (some (i, frame)) (lanes_of q))
unfolding lane_drop
drop_ring i frame ring q rings v e = (
  refl,
  refl,
  λ j. put_queue-IsRing i j ring q.queues v rings,
  λ j. put_queue-contents i j ring q.queues (drop 1 (contents (q.queues i))) e,
)

popped-Gives :
    (i : ℕ) (o : Option Frame) (ring : RingQueue) (q : FrameQueue)
    (rest : Option Frame × FrameQueue) (selected : Option (ℕ × Frame))
    → ((j : ℕ) → IsRing q.capacity (q.queues j))
    → IsRing q.capacity ring
    → contents ring ≡ drop 1 (contents (q.queues i))
    → Gives q rest (taken selected (lanes_of q))
    → Gives q (popped i (o, ring) q rest) (taken (found_or i o selected) (lanes_of q))
unfolding popped
popped-Gives i none ring q rest selected rings v e g = g
popped-Gives i (some frame) ring q rest selected rings v e g = drop_ring i frame ring q rings v e

pop_below-Gives :
    (i : ℕ) (q : FrameQueue)
    → ((j : ℕ) → IsRing q.capacity (q.queues j))
    → Gives q (pop_below i q) (taken (first_below i (lanes_of q)) (lanes_of q))
unfolding pop_below first_below
pop_below-Gives zero q rings = (refl, refl, rings, λ j. refl)
pop_below-Gives (suc i) q rings =
    let (v, o, e) = ring_pop-contents q.capacity (q.queues i) (rings i) in
    subst
      (λ (x : Option Frame).
        Gives q (pop_below (suc i) q)
          (taken (found_or i x (first_below i (lanes_of q))) (lanes_of q)))
      o
      (popped-Gives i (ring_pop (q.queues i)).0 (ring_pop (q.queues i)).1 q (pop_below i q)
        (first_below i (lanes_of q)) rings v e (pop_below-Gives i q rings))

select_below-oldest :
    (i : ℕ) (q : FrameQueue)
    → ((j : ℕ) → IsRing q.capacity (q.queues j))
    → select_below i q ≡ oldest_below i (lanes_of q)
unfolding select_below oldest_below
select_below-oldest zero q rings = refl
select_below-oldest (suc i) q rings =
    cc (peek-contents q.capacity (q.queues i) (rings i), select_below-oldest i q rings)

-- The frame that was selected is the first one of its ring, below the bound.
abbrev IsFirst : ℕ → Lanes → Option (ℕ × Frame) → Type 0
IsFirst n lanes none = Unit {0}
IsFirst n lanes (some (i, frame)) = (i < n) × (first (lanes i) ≡ some frame)

older-IsFirst :
    (n : ℕ) (o : Option Frame) (selected : Option (ℕ × Frame)) (lanes : Lanes)
    → first (lanes n) ≡ o
    → IsFirst n lanes selected
    → IsFirst (suc n) lanes (older n o selected)
unfolding older
older-IsFirst n none none lanes e h = tt
older-IsFirst n none (some (i, oldest)) lanes e (low, h) = (omega arith, h)
older-IsFirst n (some frame) none lanes e h = (omega arith, e)
older-IsFirst n (some frame) (some (i, oldest)) lanes e (low, h) =
    elim (ltb frame.sequence oldest.sequence)
      as (λ b. IsFirst (suc n) lanes (if b then some (n, frame) else some (i, oldest))) [
        | true ↦ (omega arith, e)
        | false ↦ (omega arith, h)
      ]

oldest_below-IsFirst : (n : ℕ) (lanes : Lanes) → IsFirst n lanes (oldest_below n lanes)
unfolding oldest_below
oldest_below-IsFirst zero lanes = tt
oldest_below-IsFirst (suc n) lanes =
    older-IsFirst n (first (lanes n)) (oldest_below n lanes) lanes refl
      (oldest_below-IsFirst n lanes)

pop_selected-Gives :
    (selected : Option (ℕ × Frame)) (q : FrameQueue)
    → IsFifo q
    → IsFirst 4 (lanes_of q) selected
    → IsValid (pop_selected selected q).1
      × Gives q (pop_selected selected q) (taken selected (lanes_of q))
unfolding pop_selected
pop_selected-Gives none q v h = (v.valid, (refl, refl, v.rings, λ j. refl))
pop_selected-Gives (some (i, frame)) q v (low, h) =
    let (ring, o, e) = ring_pop-contents q.capacity (q.queues i) (v.rings i) in
    let (same, capacity, rings, lanes) =
      drop_ring i frame (ring_pop (q.queues i)).1 q v.rings ring e in
    let count = total-put_queue i (ring_pop (q.queues i)).1 q.queues low in
    let less = ring_pop-len (q.queues i) in
    let more = ring_pop-some (q.queues i) frame (o ∙ h) in
    (
      record {
        counted = omega (arith, count, less, more, v.valid.counted);
        bounded = omega (arith, v.valid.bounded);
      },
      (o ∙ h, capacity, rings, lanes),
    )

drain-contents :
    (c fuel : ℕ) (r : RingQueue)
    → IsRing c r
    → r.len ≤ fuel
    → IsRing c (drain fuel r) × (contents (drain fuel r) ≡ [])
unfolding drain read
drain-contents c zero r v h =
    let none_left : r.len ≡ 0 = omega arith in (v, ap (λ (n : ℕ). read r.items r.head n) none_left)
drain-contents c (suc fuel) r v h =
    drain-contents c fuel (ring_pop r).1 (ring_pop-contents c r v).0 (omega (arith, ring_pop-len r))

Gives-IsFifo :
    (q : FrameQueue) (out : Option Frame × FrameQueue) (abstract : Option Frame × Lanes)
    → IsValid out.1
    → Gives q out abstract
    → (out.0 ≡ abstract.0) × IsFifo out.1 × ((j : ℕ) → lanes_of out.1 j ≡ abstract.1 j)
Gives-IsFifo q (frame, q') (frame', lanes) valid (same, capacity, rings, held) = (
  same,
  record {
    valid = valid;
    rings = λ i. subst (λ c. IsRing c (q'.queues i)) (sym capacity) (rings i);
  },
  held,
)

pub pop-lanes :
    (q : FrameQueue)
    → IsFifo q
    → ((pop q).0 ≡ (lane_pop (lanes_of q)).0)
      × IsFifo (pop q).1
      × ((j : ℕ) → lanes_of (pop q).1 j ≡ (lane_pop (lanes_of q)).1 j)
unfolding pop
pop-lanes q v =
    Gives-IsFifo q (pop q) (lane_pop (lanes_of q)) (pop-IsValid q v.valid).0
      (pop_below-Gives priority_count q v.rings)

pub pop_oldest-lanes :
    (q : FrameQueue)
    → IsFifo q
    → ((pop_oldest q).0 ≡ (lane_pop_oldest (lanes_of q)).0)
      × IsFifo (pop_oldest q).1
      × ((j : ℕ) → lanes_of (pop_oldest q).1 j ≡ (lane_pop_oldest (lanes_of q)).1 j)
unfolding pop_oldest
pop_oldest-lanes q v =
    let same = select_below-oldest priority_count q v.rings in
    let selected = oldest_below-IsFirst priority_count (lanes_of q) in
    let (valid, gives) =
      pop_selected-Gives (oldest_below priority_count (lanes_of q)) q v selected in
    rw same (
      Gives-IsFifo q (pop_selected (oldest_below priority_count (lanes_of q)) q)
        (lane_pop_oldest (lanes_of q)) valid gives)

pub clear-lanes :
    (q : FrameQueue)
    → IsFifo q
    → ((clear q).0 ≡ total q.queues) × IsFifo (clear q).1 × ((j : ℕ) → lanes_of (clear q).1 j ≡ [])
unfolding clear
clear-lanes q v =
    let emptied = λ (i : ℕ).
      drain-contents q.capacity (q.queues i).len (q.queues i) (v.rings i) (omega arith) in
    let (n, empty, valid, lens) = clear-IsValid q v.valid in
    (n, record { valid = valid; rings = λ i. (emptied i).0 }, λ j. (emptied j).1)

-- PopOldest takes a frame from a queue that has one.
pub pop_oldest-len :
    (q : FrameQueue)
    → IsFifo q
    → 0 < q.len
    → ((pop_oldest q).1.len ≡ q.len - 1) × ((pop_oldest q).1.capacity ≡ q.capacity)
unfolding pop_oldest pop_selected
pop_oldest-len q v h = elim (Option-cases (select_below priority_count q)) [
  | inl nothing ↦
      let empty = λ (j : ℕ) (low : j < 4).
        peek-none (q.queues j) ((pop_oldest-Oldest q).0 (rw nothing refl) j low) in
      absurd (
        omega (
          arith,
          h,
          v.valid.counted,
          empty 0 (omega arith),
          empty 1 (omega arith),
          empty 2 (omega arith),
          empty 3 (omega arith),
        ))
  | inr ((i, frame), e) ↦ rw e (refl, refl)
]

pub clear-len : (q : FrameQueue) → ((clear q).1.len ≡ 0) × ((clear q).1.capacity ≡ q.capacity)
unfolding clear
clear-len q = (refl, refl)

popped-none :
    (i : ℕ) (o : Option Frame) (ring : RingQueue) (q : FrameQueue)
    (rest : Option Frame × FrameQueue)
    → (popped i (o, ring) q rest).0 ≡ none
    → (o ≡ none) × (rest.0 ≡ none)
unfolding popped
popped-none i none ring q rest h = (refl, h)
popped-none i (some frame) ring q rest h = absurd (cc h)

pop_below-none :
    (n : ℕ) (q : FrameQueue) → (pop_below n q).0 ≡ none → (j : ℕ) → j < n → (q.queues j).len ≡ 0
unfolding pop_below
pop_below-none zero q h j low = absurd (omega arith)
pop_below-none (suc n) q h j low =
    let (mine, others) =
      popped-none n (ring_pop (q.queues n)).0 (ring_pop (q.queues n)).1 q (pop_below n q) h in
    elim (dec_lt j n) [
      | yes below ↦ pop_below-none n q others j below
      | no last ↦
          let same : j ≡ n = omega arith in
          ap (λ (k : ℕ). (q.queues k).len) same
          ∙ peek-none (q.queues n) (peek-ring_pop (q.queues n) ∙ mine)
    ]

-- Pop finds nothing only in an empty queue.
pub pop-none : (q : FrameQueue) → IsFifo q → (pop q).0 ≡ none → q.len ≡ 0
unfolding pop
pop-none q v h =
    let empty = pop_below-none 4 q h in
    omega (
      arith,
      v.valid.counted,
      empty 0 (omega arith),
      empty 1 (omega arith),
      empty 2 (omega arith),
      empty 3 (omega arith),
    )

-- What frameQueue promises over four lists of frames, one for each priority. A push that finds room
-- appends the frame to the list of its priority, and one that finds none changes nothing; pop
-- takes the first frame of the highest priority that has one, popOldest that with the least
-- sequence number among the first ones, and clear empties all. Each keeps the rings valid.
pub queue_refines :
    (frame : Frame) (q : FrameQueue)
    → IsFifo q
    → ((q.len < q.capacity
          → ((push frame q).0 ≡ true)
            × IsFifo (push frame q).1
            × ((j : ℕ) → lanes_of (push frame q).1 j ≡ lane_push frame (lanes_of q) j))
        × (q.len ≡ q.capacity → push frame q ≡ (false, q)))
      × (((pop q).0 ≡ (lane_pop (lanes_of q)).0)
          × IsFifo (pop q).1
          × ((j : ℕ) → lanes_of (pop q).1 j ≡ (lane_pop (lanes_of q)).1 j))
      × (((pop_oldest q).0 ≡ (lane_pop_oldest (lanes_of q)).0)
          × IsFifo (pop_oldest q).1
          × ((j : ℕ) → lanes_of (pop_oldest q).1 j ≡ (lane_pop_oldest (lanes_of q)).1 j))
      × (((clear q).0 ≡ total q.queues)
          × IsFifo (clear q).1
          × ((j : ℕ) → lanes_of (clear q).1 j ≡ []))
queue_refines frame q v =
    let pushed = push-lanes frame q v in
    (
      (
        λ room. let (taken, valid, capacity, lanes) = pushed room in (taken, valid, lanes),
        push-full frame q,
      ),
      pop-lanes q v,
      pop_oldest-lanes q v,
      clear-lanes q v,
    )
