-- ===== src/StreamBus/Queue/Invariant.antt =====
-- streambus/queue.go: what frameQueue counts, and which frame it gives.
use go_warp.Base.{
  ℕ, zero, suc, ◌+◌, ◌-◌, ◌≤◌, ◌<◌, ◌≡◌, refl, sym, ◌∙◌, ap, ◌↔◌, true, false, Option, none, some,
  nat_beq, arith, inl, inr, Bool-cases,
}
use go_warp.StreamBus.Ring.{Frame, RingQueue, ring_push, ring_pop, peek}
use go_warp.StreamBus.Ring.Counts.{
  ring_pop-len, ring_pop-some, ring_pop-none, peek-ring_pop, ring_push-len,
}
use native.Mathlib.Decide.{dec_lt}
use go_warp.StreamBus.Queue.{
  FrameQueue, put_queue, queue_of, push, popped, pop_below, pop, drain, clear,
}

-- The frames of the four queues.
abbrev pub total : (ℕ → RingQueue) → ℕ
total queues = (queues 0).len + (queues 1).len + (queues 2).len + (queues 3).len

-- The count is that of the four queues, and within the capacity.
pub record IsValid (q : FrameQueue) : Type 0 where
  pub counted : q.len ≡ total q.queues
  pub bounded : q.len ≤ q.capacity

pub total-put_queue :
    (i : ℕ) (ring : RingQueue) (queues : ℕ → RingQueue)
    → i < 4
    → total (put_queue i ring queues) + (queues i).len ≡ total queues + ring.len
total-put_queue zero ring queues h = omega arith
total-put_queue (suc zero) ring queues h = omega arith
total-put_queue (suc (suc zero)) ring queues h = omega arith
total-put_queue (suc (suc (suc zero))) ring queues h = omega arith
total-put_queue (suc (suc (suc (suc i)))) ring queues h = absurd (omega arith)

pub total-above : (i : ℕ) (queues : ℕ → RingQueue) → i < 4 → (queues i).len ≤ total queues
total-above zero queues h = omega arith
total-above (suc zero) queues h = omega arith
total-above (suc (suc zero)) queues h = omega arith
total-above (suc (suc (suc zero))) queues h = omega arith
total-above (suc (suc (suc (suc i)))) queues h = absurd (omega arith)

pub queue_of-lt : (priority : ℕ) → queue_of priority < 4
unfolding queue_of
queue_of-lt priority = ground arith

-- Push refuses a frame exactly when the queue is at its capacity, and then changes nothing; a frame
-- that it takes is counted, and the queue stays valid.
pub push-IsValid :
    (frame : Frame) (q : FrameQueue)
    → IsValid q
    → IsValid (push frame q).1
      × (((push frame q).0 ≡ false) ↔ (q.len ≡ q.capacity))
      × ((push frame q).0 ≡ false → (push frame q).1 ≡ q)
      × ((push frame q).0 ≡ true → (push frame q).1.len ≡ q.len + 1)
unfolding push
push-IsValid frame q v =
    let i = queue_of frame.priority in
    let n =
      total-put_queue i (ring_push frame (q.queues i)) q.queues (queue_of-lt frame.priority) in
    elim (Bool-cases (nat_beq q.len q.capacity)) [
      | inl full ↦ rw full (v, (λ h. ground arith, λ h. refl), λ h. refl, λ h. absurd (cc))
      | inr room ↦ rw room (
        record {
          counted = omega (arith, n, ring_push-len frame (q.queues i), v.counted);
          bounded = ground (arith, v.bounded);
        },
        (λ h. absurd (cc), λ h. absurd (ground arith)),
        λ h. absurd (cc),
        λ h. omega arith,
      )
    ]

-- The frame of a queue and what stays is a valid step.
abbrev Popped : FrameQueue → Option Frame × FrameQueue → Type 0
Popped q r =
    IsValid r.1
    × (r.0 ≡ none → r.1 ≡ q)
    × ((frame : Frame) → r.0 ≡ some frame → r.1.len + 1 ≡ q.len)

popped-Popped :
    (i : ℕ) (o : Option Frame) (ring : RingQueue) (q : FrameQueue)
    (rest : Option Frame × FrameQueue)
    → i < 4
    → IsValid q
    → ring_pop (q.queues i) ≡ (o, ring)
    → Popped q rest
    → Popped q (popped i (o, ring) q rest)
unfolding popped
popped-Popped i none ring q rest h v e r = r
popped-Popped i (some frame) ring q rest h v e r =
    let got = ap (λ r. r.0) e in
    let left = ap (λ r. r.1) e in
    let full = ring_pop-some (q.queues i) frame got in
    let n = total-put_queue i ring q.queues h in
    let l : ring.len ≡ (q.queues i).len - 1 =
      ap (λ (x : RingQueue). x.len) (sym left) ∙ ring_pop-len (q.queues i) in
    let at_least : (q.queues i).len ≤ total q.queues = total-above i q.queues h in
    (
      record { counted = omega (arith, n, l, full, v.counted); bounded = omega (arith, v.bounded) },
      λ x. cc,
      λ f x. omega (arith, v.counted, full, at_least),
    )

pop_below-Popped : (n : ℕ) (q : FrameQueue) → n ≤ 4 → IsValid q → Popped q (pop_below n q)
unfolding pop_below
pop_below-Popped zero q h v = (v, λ e. refl, λ f e. absurd (cc))
pop_below-Popped (suc n) q h v =
    popped-Popped n (ring_pop (q.queues n)).0 (ring_pop (q.queues n)).1 q (pop_below n q)
      (omega arith) v refl (pop_below-Popped n q (omega arith) v)

popped-first :
    (i : ℕ) (o : Option Frame) (ring : RingQueue) (q : FrameQueue)
    (rest : Option Frame × FrameQueue) (frame : Frame)
    → o ≡ some frame
    → (popped i (o, ring) q rest).0 ≡ some frame
unfolding popped
popped-first i none ring q rest frame h = absurd (cc)
popped-first i (some f) ring q rest frame h = h

popped-rest :
    (i : ℕ) (o : Option Frame) (ring : RingQueue) (q : FrameQueue)
    (rest : Option Frame × FrameQueue)
    → o ≡ none
    → popped i (o, ring) q rest ≡ rest
unfolding popped
popped-rest i none ring q rest h = refl
popped-rest i (some f) ring q rest h = absurd (cc)

pop_below-highest :
    (n i : ℕ) (q : FrameQueue) (frame : Frame)
    → i < n
    → peek (q.queues i) ≡ some frame
    → ((j : ℕ) → i < j → j < n → (q.queues j).len ≡ 0)
    → (pop_below n q).0 ≡ some frame
unfolding pop_below
pop_below-highest zero i q frame h shown above = absurd (omega arith)
pop_below-highest (suc n) i q frame h shown above = elim (dec_lt i n) [
  | yes low ↦
      rw
        (popped-rest n (ring_pop (q.queues n)).0 (ring_pop (q.queues n)).1 q (pop_below n q)
          (ring_pop-none (q.queues n) (above n low (omega arith))))
        (pop_below-highest n i q frame low shown (λ j up lt. above j up (omega arith)))
  | no top ↦
      let same : i ≡ n = omega arith in
      popped-first n (ring_pop (q.queues n)).0 (ring_pop (q.queues n)).1 q (pop_below n q) frame
        (sym (peek-ring_pop (q.queues n)) ∙ ap (λ (k : ℕ). peek (q.queues k)) (sym same) ∙ shown)
]

-- Pop keeps the queue valid: it takes one frame off, or changes nothing and gives none. The frame
-- is the next one of the highest priority that has any.
pub pop-IsValid :
    (q : FrameQueue)
    → IsValid q
    → IsValid (pop q).1
      × ((pop q).0 ≡ none → (pop q).1 ≡ q)
      × ((frame : Frame) → (pop q).0 ≡ some frame → (pop q).1.len + 1 ≡ q.len)
      × ((i : ℕ) (frame : Frame)
          → i < 4
          → peek (q.queues i) ≡ some frame
          → ((j : ℕ) → i < j → j < 4 → (q.queues j).len ≡ 0)
          → (pop q).0 ≡ some frame)
unfolding pop
pop-IsValid q v =
    let (kept, nothing, one) = pop_below-Popped 4 q (omega arith) v in
    (kept, nothing, one, λ i frame h shown above. pop_below-highest 4 i q frame h shown above)

drain-len : (fuel : ℕ) (r : RingQueue) → r.len ≤ fuel → (drain fuel r).len ≡ 0
unfolding drain
drain-len zero r h = omega arith
drain-len (suc fuel) r h = drain-len fuel (ring_pop r).1 (omega (arith, ring_pop-len r))

-- Clear answers how many frames it dropped, and leaves each of the four queues empty.
pub clear-IsValid :
    (q : FrameQueue)
    → IsValid q
    → ((clear q).0 ≡ total q.queues)
      × ((clear q).1.len ≡ 0)
      × IsValid (clear q).1
      × ((i : ℕ) → ((clear q).1.queues i).len ≡ 0)
unfolding clear
clear-IsValid q v =
    let empty = λ (i : ℕ). drain-len (q.queues i).len (q.queues i) (omega arith) in
    (
      v.counted,
      refl,
      record { counted = omega (arith, empty 0, empty 1, empty 2, empty 3); bounded = omega arith },
      empty,
    )
