-- ===== src/StreamBus/Queue/Age.antt =====
-- streambus/queue.go: which frame popOldest gives.
use go_warp.Base.{
  ℕ, zero, suc, ◌≤◌, ◌<◌, ◌≡◌, refl, ap, Option, none, some, ltb, arith, inl, inr, Bool-cases,
}
use go_warp.StreamBus.Ring.{Frame, peek}
use go_warp.StreamBus.Ring.Counts.{peek-ring_pop}
use native.Mathlib.Decide.{dec_lt}
use go_warp.StreamBus.Queue.{FrameQueue, older, select_below, pop_selected, pop_oldest}

-- The selection among the queues below `n`: none if they are empty, else a first frame that no
-- other first frame is older than.
abbrev pub Oldest : FrameQueue → ℕ → Option (ℕ × Frame) → Type 0
Oldest q n none = (j : ℕ) → j < n → peek (q.queues j) ≡ none
Oldest q n (some (i, oldest)) =
    (i < n)
    × (peek (q.queues i) ≡ some oldest)
    × ((j : ℕ) (frame : Frame)
        → j < n
        → peek (q.queues j) ≡ some frame
        → oldest.sequence ≤ frame.sequence)

older-Oldest :
    (q : FrameQueue) (n : ℕ) (o : Option Frame) (selected : Option (ℕ × Frame))
    → peek (q.queues n) ≡ o
    → Oldest q n selected
    → Oldest q (suc n) (older n o selected)
unfolding older
older-Oldest q n none none e h = λ j lt. elim (dec_lt j n) [
  | yes low ↦ h j low
  | no top ↦ let same : j ≡ n = omega arith in rw same e
]
older-Oldest q n none (some (i, oldest)) e (lt, shown, least) = (
  omega arith,
  shown,
  λ j frame lt' there. elim (dec_lt j n) [
    | yes low ↦ least j frame low there
    | no top ↦
        let same : j ≡ n = omega arith in absurd (cc (ap (λ (k : ℕ). peek (q.queues k)) same))
  ],
)
older-Oldest q n (some f) none e h = (
  omega arith,
  e,
  λ j frame lt there. elim (dec_lt j n) [
    | yes low ↦ absurd (cc (h j low))
    | no top ↦
        let same : j ≡ n = omega arith in
        let eq : f ≡ frame = cc (ap (λ (k : ℕ). peek (q.queues k)) same) in rw eq (omega arith)
  ],
)
older-Oldest q n (some f) (some (i, oldest)) e (lt, shown, least) =
    let here : (j : ℕ) (frame : Frame)
        → ¬ j < n
        → j < suc n
        → peek (q.queues j) ≡ some frame
        → f.sequence ≡ frame.sequence =
      λ j frame top lt' there.
        let same : j ≡ n = omega arith in
        let eq : f ≡ frame = cc (ap (λ (k : ℕ). peek (q.queues k)) same) in
        ap (λ (x : Frame). x.sequence) eq in
    elim (Bool-cases (ltb f.sequence oldest.sequence)) [
      | inl newer ↦ rw newer (
        omega arith,
        e,
        λ j frame lt' there. elim (dec_lt j n) [
          | yes low ↦ ground (arith, least j frame low there)
          | no top ↦ omega (arith, here j frame top lt' there)
        ],
      )
      | inr kept ↦ rw kept (
        omega arith,
        shown,
        λ j frame lt' there. elim (dec_lt j n) [
          | yes low ↦ least j frame low there
          | no top ↦ ground (arith, here j frame top lt' there)
        ],
      )
    ]

select_below-Oldest : (n : ℕ) (q : FrameQueue) → Oldest q n (select_below n q)
unfolding select_below
select_below-Oldest zero q = λ j lt. absurd (omega arith)
select_below-Oldest (suc n) q =
    older-Oldest q n (peek (q.queues n)) (select_below n q) refl (select_below-Oldest n q)

pop_selected-first :
    (q : FrameQueue) (o : Option (ℕ × Frame))
    → Oldest q 4 o
    → (((pop_selected o q).0 ≡ none) → (j : ℕ) → j < 4 → peek (q.queues j) ≡ none)
      × ((frame : Frame)
          → (pop_selected o q).0 ≡ some frame
          → (i : ℕ) × (i < 4)
            × (peek (q.queues i) ≡ some frame)
            × ((j : ℕ) (other : Frame)
                → j < 4
                → peek (q.queues j) ≡ some other
                → frame.sequence ≤ other.sequence))
unfolding pop_selected
pop_selected-first q none h = (λ e. h, λ frame e. absurd (cc))
pop_selected-first q (some (i, oldest)) (lt, shown, least) =
    let shows = peek-ring_pop (q.queues i) in
    (
      λ e. absurd (cc),
      λ frame e.
          let same : oldest ≡ frame = cc in
          (
            i,
            lt,
            cc,
            λ j other lt' there.
                let s = ap (λ (x : Frame). x.sequence) same in
                omega (arith, least j other lt' there),
          ),
    )

-- PopOldest gives none only if every queue is empty, and otherwise the first frame of a queue: no
-- frame at the front of a queue has a smaller sequence number.
pub pop_oldest-Oldest :
    (q : FrameQueue)
    → (((pop_oldest q).0 ≡ none) → (j : ℕ) → j < 4 → peek (q.queues j) ≡ none)
      × ((frame : Frame)
          → (pop_oldest q).0 ≡ some frame
          → (i : ℕ) × (i < 4)
            × (peek (q.queues i) ≡ some frame)
            × ((j : ℕ) (other : Frame)
                → j < 4
                → peek (q.queues j) ≡ some other
                → frame.sequence ≤ other.sequence))
unfolding pop_oldest
pop_oldest-Oldest q = pop_selected-first q (select_below 4 q) (select_below-Oldest 4 q)
