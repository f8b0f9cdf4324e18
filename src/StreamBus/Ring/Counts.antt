-- ===== src/StreamBus/Ring/Counts.antt =====
-- streambus/queue.go: what ringQueue counts.
use go_warp.Base.{ℕ, zero, suc, ◌-◌, ◌<◌, ◌≡◌, refl, none, some, arith}
use native.Mathlib.Decide.{dec_lt}
use go_warp.StreamBus.Ring.{Frame, RingQueue, ring_push, ring_pop, pop_len, peek, peek_len}

pop_len-len : (n : ℕ) (r : RingQueue) → r.len ≡ n → (pop_len n r).1.len ≡ n - 1
unfolding pop_len
pop_len-len zero r h = h
pop_len-len (suc n) r h = omega arith

pub ring_pop-len : (r : RingQueue) → (ring_pop r).1.len ≡ r.len - 1
unfolding ring_pop
ring_pop-len r = pop_len-len r.len r refl

pub ring_push-len : (frame : Frame) (r : RingQueue) → (ring_push frame r).len ≡ suc r.len
unfolding ring_push
ring_push-len frame r = refl

pop_len-none : (n : ℕ) (r : RingQueue) → n ≡ 0 → (pop_len n r).0 ≡ none
unfolding pop_len
pop_len-none zero r h = refl
pop_len-none (suc n) r h = absurd (omega arith)

pub ring_pop-none : (r : RingQueue) → r.len ≡ 0 → (ring_pop r).0 ≡ none
unfolding ring_pop
ring_pop-none r h = pop_len-none r.len r h

pub ring_pop-some : (r : RingQueue) (frame : Frame) → (ring_pop r).0 ≡ some frame → 0 < r.len
ring_pop-some r frame h = elim (dec_lt 0 r.len) [
  | yes full ↦ full
  | no empty ↦ absurd (cc (h, ring_pop-none r (omega arith)))
]

peek-pop_len : (n : ℕ) (r : RingQueue) → peek_len n r ≡ (pop_len n r).0
unfolding peek_len pop_len
peek-pop_len zero r = refl
peek-pop_len (suc n) r = refl

-- Peek shows what Pop gives.
pub peek-ring_pop : (r : RingQueue) → peek r ≡ (ring_pop r).0
unfolding peek ring_pop
peek-ring_pop r = peek-pop_len r.len r

peek_len-none : (n : ℕ) (r : RingQueue) → peek_len n r ≡ none → n ≡ 0
unfolding peek_len
peek_len-none zero r e = refl
peek_len-none (suc n) r e = absurd (cc e)

pub peek-none : (r : RingQueue) → peek r ≡ none → r.len ≡ 0
unfolding peek
peek-none r e = peek_len-none r.len r e
