-- ===== src/StreamBus/Ring/Fifo.antt =====
-- streambus/queue.go: ringQueue is a first-in first-out list.
use native.Mathlib.Nat.{mod-lt, mod-eq_of_lt, mod-mod}
use go_warp.Base.{
  ℕ, zero, suc, ◌+◌, ◌%◌, ◌≤◌, ◌<◌, ◌≡◌, refl, sym, ◌∙◌, ap, List, [], ◌∷◌, ◌++◌, length, set, drop,
  arith, Option, none, some, replicate,
}
use go_warp.StreamBus.Ring.{
  Frame, no_frame, RingQueue, new_ring_queue, ring_push, ring_pop, pop_len, peek, item_at,
}
use go_warp.StreamBus.Ring.Window.{read, length-set, read-mod, read-set, read-set_behind}
use go_warp.StreamBus.Ring.Counts.{peek-ring_pop}

-- The frames in a ring, oldest first.
abbrev pub contents : RingQueue → List Frame
contents r = read r.items r.head r.len

-- A ring of `c` places.
pub record IsRing (c : ℕ) (r : RingQueue) : Type 0 where
  pub sized : length r.items ≡ c
  pub inside : 0 < c → r.head < c
  pub bounded : r.len ≤ c

abbrev pub first : List Frame → Option Frame
first [] = none
first (frame ∷ frames) = some frame

pub length-replicate : (c : ℕ) (frame : Frame) → length (replicate c frame) ≡ c
length-replicate zero frame = refl
length-replicate (suc c) frame = ap suc (length-replicate c frame)

pub new_ring_queue-IsRing :
    (c : ℕ) → IsRing c (new_ring_queue c) × (contents (new_ring_queue c) ≡ [])
unfolding new_ring_queue read
new_ring_queue-IsRing c =
    (record { sized = length-replicate c no_frame; inside = λ h. h; bounded = omega arith }, refl)

-- A push appends, where there is room.
pub ring_push-contents :
    (c : ℕ) (frame : Frame) (r : RingQueue)
    → IsRing c r
    → r.len < c
    → IsRing c (ring_push frame r) × (contents (ring_push frame r) ≡ contents r ++ (frame ∷ []))
unfolding ring_push
ring_push-contents c frame r v room = (
  record {
    sized = length-set r.items ((r.head + r.len) % length r.items) frame ∙ v.sized;
    inside = v.inside;
    bounded = omega arith;
  },
  read-set r.items r.head r.len ((r.head + r.len) % length r.items) frame (omega (arith, v.sized))
      refl,
)

pop_len-contents :
    (c n : ℕ) (r : RingQueue)
    → IsRing c r
    → r.len ≡ n
    → let (frame, r') = pop_len n r in
      IsRing c r'
      × (frame ≡ first (read r.items r.head n))
      × (contents r' ≡ drop 1 (read r.items r.head n))
unfolding pop_len read
pop_len-contents c zero r v e = (v, refl, ap (λ (n : ℕ). read r.items r.head n) e)
pop_len-contents c (suc n) r v e =
    let size = length-set r.items r.head no_frame in
    let some_there : 0 < c = omega (arith, e, v.bounded) in
    let here : r.head % length r.items ≡ r.head =
      mod-eq_of_lt (omega (arith, v.inside some_there, v.sized)) in
    let behind = read-set_behind r.items r.head n no_frame (omega (arith, e, v.bounded, v.sized)) in
    let turned : ((r.head + 1) % length r.items) % length (set r.items r.head no_frame)
        ≡ (r.head + 1) % length (set r.items r.head no_frame) =
      rw size (mod-mod (r.head + 1) (length r.items)) in
    (
      record {
        sized = size ∙ v.sized;
        inside = λ h.
            omega
              (arith, v.sized, mod-lt (r.head + 1) {m = length r.items} (omega (arith, v.sized)));
        bounded = omega (arith, e, v.bounded);
      },
      ap (λ (i : ℕ). some (item_at r.items i)) (sym here),
      read-mod (set r.items r.head no_frame) ((r.head + 1) % length r.items) (r.head + 1) n turned
          ∙ (ap (λ (i : ℕ). read (set r.items i no_frame) (r.head + 1) n) (sym here) ∙ behind),
    )

-- A pop gives and removes the oldest frame.
pub ring_pop-contents :
    (c : ℕ) (r : RingQueue)
    → IsRing c r
    → let (frame, r') = ring_pop r in
      IsRing c r' × (frame ≡ first (contents r)) × (contents r' ≡ drop 1 (contents r))
unfolding ring_pop
ring_pop-contents c r v = pop_len-contents c r.len r v refl

pub peek-contents : (c : ℕ) (r : RingQueue) → IsRing c r → peek r ≡ first (contents r)
peek-contents c r v = peek-ring_pop r ∙ (ring_pop-contents c r v).1
