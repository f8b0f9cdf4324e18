-- ===== src/StreamBus/Replay/Since.antt =====
-- streambus/inmemory.go: what a replay buffer gives to a subscriber that comes back.
use native.Mathlib.Nat.{mod-mod, add-zero}
use native.Mathlib.Decide.{dec_lt}
use go_warp.Base.{
  ℕ, zero, suc, ◌+◌, ◌-◌, ◌%◌, ◌≤◌, ◌<◌, ◌≡◌, ◌≢◌, refl, sym, ◌∙◌, ap, subst, List, [], ◌∷◌, length,
  drop, arith, Bool, false, Option, none, some, if◌then◌else◌, ltb, nat_beq, Bool-cases, inl, inr,
}
use go_warp.StreamBus.Ring.{Frame, item_at}
use go_warp.StreamBus.Ring.Fifo.{first}
use go_warp.StreamBus.Ring.Window.{read, length-read, read-mod, drop-read}
use go_warp.StreamBus.Replay.{
  ReplayBuffer, new_replay_buffer, last, last_loop, least, after, after_loop,
}
use go_warp.StreamBus.Replay.Recent.{
  contents, IsBuffer, recent, Remembers-len, add_all, new_replay_buffer-Remembers,
}

-- The frames after a sequence number.
unfoldable pub later : ℕ → List Frame → List Frame
later sequence [] = []
later sequence (frame ∷ frames) =
    let rest = later sequence frames in if ltb sequence frame.sequence then frame ∷ rest else rest

-- Sequence numbers above a bound, each greater than the one before.
abbrev pub IsIncreasing : ℕ → List Frame → Type 0
IsIncreasing n [] = Unit {0}
IsIncreasing n (frame ∷ frames) = (n < frame.sequence) × IsIncreasing frame.sequence frames

last_loop-read :
    (frames : List Frame) (start i n : ℕ) → last_loop frames start i n ≡ read frames (start + i) n
unfolding last_loop read
last_loop-read frames start i zero = refl
last_loop-read frames start i (suc n) =
    ap (◌∷◌ (item_at frames ((start + i) % length frames)))
      (last_loop-read frames start (i + 1) n ∙ ap (λ (k : ℕ). read frames k n) (omega arith))

after_loop-later :
    (frames : List Frame) (sequence start i n : ℕ)
    → after_loop frames sequence start i n ≡ later sequence (read frames (start + i) n)
unfolding after_loop read later
after_loop-later frames sequence start i zero = refl
after_loop-later frames sequence start i (suc n) =
    let rest =
      after_loop-later frames sequence start (i + 1) n
      ∙ ap (λ (k : ℕ). later sequence (read frames k n)) (omega arith) in
    ap
      (λ (xs : List Frame).
        if ltb sequence (item_at frames ((start + i) % length frames)).sequence
        then item_at frames ((start + i) % length frames) ∷ xs
        else xs)
      rest

-- Reading from a start that is reduced.
read_start :
    (frames : List Frame) (i n : ℕ) → read frames (i % length frames + 0) n ≡ read frames i n
read_start frames i n =
    ap (λ (k : ℕ). read frames k n) (add-zero (i % length frames))
    ∙ read-mod frames (i % length frames) i n (mod-mod i (length frames))

last-recent : (count : ℕ) (r : ReplayBuffer) → IsBuffer r → last count r ≡ recent count (contents r)
unfolding last
last-recent count r v =
    let m = least count r.len in
    let c = length r.frames in
    let small : m ≤ r.len = ground arith in
    let back : length (contents r) - count ≡ r.len - m =
      ground (arith, length-read r.frames (r.next + c - r.len) r.len) in
    last_loop-read r.frames ((r.next + c - m) % c) 0 m
    ∙ read_start r.frames (r.next + c - m) m
    ∙ ap (λ (k : ℕ). read r.frames k m) (omega (arith, small, v.bounded, v.inside))
    ∙ sym (drop-read r.frames (r.next + c - r.len) (r.len - m) m r.len (omega (arith, small)))
    ∙ ap (λ (k : ℕ). drop k (contents r)) (sym back)

sequence_of : Option Frame → ℕ
sequence_of none = 0
sequence_of (some frame) = frame.sequence

-- With increasing numbers, the frames before one that is not later are not later either.
drop-above :
    (n k : ℕ) (frames : List Frame) (frame : Frame)
    → IsIncreasing n frames
    → first (drop k frames) ≡ some frame
    → n < frame.sequence
unfolding sequence_of
drop-above n zero [] frame up e = absurd (cc e)
drop-above n zero (x ∷ frames) frame up e =
    omega (arith, ap (λ (o : Option Frame). sequence_of o) e, up.0)
drop-above n (suc k) [] frame up e = absurd (cc e)
drop-above n (suc k) (x ∷ frames) frame up e =
    omega (arith, up.0, drop-above x.sequence k frames frame up.1 e)

later-drop :
    (sequence n k : ℕ) (frames : List Frame) (frame : Frame)
    → IsIncreasing n frames
    → first (drop k frames) ≡ some frame
    → frame.sequence ≤ sequence
    → later sequence (drop k frames) ≡ later sequence frames
unfolding later
later-drop sequence n zero frames frame up e h = refl
later-drop sequence n (suc k) [] frame up e h = refl
later-drop sequence n (suc k) (x ∷ frames) frame up e h =
    let old : ltb sequence x.sequence ≡ false =
      ground (arith, h, drop-above x.sequence k frames frame up.1 e) in
    rw old (later-drop sequence x.sequence k frames frame up.1 e h)

-- After, when it reports no loss.
after-later :
    (sequence : ℕ) (r : ReplayBuffer)
    → (after sequence r).1 ≡ false
    → (after sequence r).0 ≡ later sequence (contents r)
unfolding after later read
after-later sequence r h =
    let c = length r.frames in
    let start = r.next + c - r.len in
    elim (Bool-cases (nat_beq r.len 0)) [
      | inl nothing ↦
          let gone : after sequence r ≡ ([], false) = simp nothing refl in
          let zero_len : r.len ≡ 0 = ground (arith, nothing) in
          ap (λ (x : List Frame × Bool). x.0) gone
          ∙ sym (ap (λ (n : ℕ). later sequence (read r.frames start n)) zero_len)
      | inr some_there ↦
          let got : (after sequence r).0 ≡ after_loop r.frames sequence (start % c) 0 r.len =
            ground (arith, some_there, h) in
          got
          ∙ after_loop-later r.frames sequence (start % c) 0 r.len
          ∙ ap (later sequence) (read_start r.frames start r.len)
    ]

after-oldest :
    (sequence : ℕ) (r : ReplayBuffer)
    → IsBuffer r
    → sequence ≢ 0
    → r.len ≡ length r.frames
    → (after sequence r).1 ≡ false
    → (frame : Frame) × (first (contents r) ≡ some frame) × (frame.sequence ≤ sequence)
unfolding after read
after-oldest sequence r v some_since full h =
    let c = length r.frames in
    let start = r.next + c - r.len in
    let more : r.len ≡ suc (r.len - 1) = omega (arith, full, v.inside) in
    (
      item_at r.frames (start % c),
      ap (λ (n : ℕ). first (read r.frames start n)) more,
      ground (arith, h, full, v.inside, some_since),
    )

-- A buffer of `c` places after a history of publications. Last gives the last frames of those that
-- the buffer has, which are the last `c` of the history. If the numbers increase, After with a
-- number that is not 0 and no report of a loss gives every frame of the history with a later one.
pub replay_lem :
    (c count sequence : ℕ) (history : List Frame)
    → 0 < c
    → let r = add_all history (new_replay_buffer c) in
      (last count r ≡ recent count (recent c history))
      × (IsIncreasing 0 history
          → sequence ≢ 0
          → (after sequence r).1 ≡ false
          → (after sequence r).0 ≡ later sequence history)
replay_lem c count sequence history places =
    let r = add_all history (new_replay_buffer c) in
    let (m, size) = new_replay_buffer-Remembers c history places in
    let held : contents r ≡ recent c history = m.same ∙ ap (λ (n : ℕ). recent n history) size in
    (
      last-recent count r m.buffer ∙ ap (recent count) held,
      λ up some_since kept. after-later sequence r kept ∙ elim (dec_lt (length history) c) [
        | yes small ↦
            let all : length history - c ≡ 0 = omega (arith, small) in
            ap (later sequence) (held ∙ ap (λ (n : ℕ). drop n history) all)
        | no large ↦
            let full : r.len ≡ length r.frames =
              omega (arith, Remembers-len history r m, size, large) in
            let (oldest, e, low) = after-oldest sequence r m.buffer some_since full kept in
            ap (later sequence) held
            ∙ later-drop sequence 0 (length history - c) history oldest up
                (subst (λ (xs : List Frame). first xs ≡ some oldest) held e) low
      ],
    )
