-- ===== src/StreamBus/Replay/Recent.antt =====
-- streambus/inmemory.go: a replay buffer holds the last frames that were added.
use native.Mathlib.Nat.{mod-lt, mod-eq_of_lt, mod-mod, add-mod_right, mod_self}
use mathlib.Core.List.{append_assoc, append-nil}
use native.Mathlib.Decide.{dec_lt}
use go_warp.Base.{
  ℕ, zero, suc, ◌+◌, ◌-◌, ◌%◌, ◌≤◌, ◌<◌, ◌≡◌, refl, sym, ◌∙◌, ap, subst, List, [], ◌∷◌, ◌++◌,
  length, set, drop, arith, true, false, ltb, nat_beq, length-append, length-drop, Bool-cases, inl,
  inr,
}
use go_warp.StreamBus.Ring.{Frame, no_frame}
use go_warp.StreamBus.Ring.Fifo.{length-replicate}
use go_warp.StreamBus.Ring.Window.{read, length-set, length-read, read-mod, read-set, drop-read}
use go_warp.StreamBus.Replay.{ReplayBuffer, new_replay_buffer, add}

-- The frames of the buffer, oldest first.
abbrev pub contents : ReplayBuffer → List Frame
contents r = read r.frames (r.next + length r.frames - r.len) r.len

-- A buffer with a place, whose indices are in it.
pub record IsBuffer (r : ReplayBuffer) : Type 0 where
  pub inside : r.next < length r.frames
  pub bounded : r.len ≤ length r.frames

-- The last `n` frames of a list.
abbrev pub recent : ℕ → List Frame → List Frame
recent n frames = drop (length frames - n) frames

-- Going back `n + 1` from the next index is going back `n` from this one.
step_back :
    (c next n : ℕ) → next < c → n < c → ((next + 1) % c + c - suc n) % c ≡ (next + c - n) % c
step_back c next n inside room = elim (dec_lt (next + 1) c) [
  | yes below ↦ ap (λ (k : ℕ). k % c) (omega (arith, mod-eq_of_lt below))
  | no over ↦
      let wrapped : next + 1 ≡ c = omega (arith, inside, over) in
      let from_start : (next + 1) % c ≡ 0 = ap (λ (k : ℕ). k % c) wrapped ∙ mod_self c in
      let left : (next + 1) % c + c - suc n ≡ c - suc n = omega (arith, from_start) in
      let right : next + c - n ≡ (c - suc n) + c = omega (arith, wrapped, room) in
      ap (λ (k : ℕ). k % c) left
      ∙ sym (add-mod_right (c - suc n) c)
      ∙ ap (λ (k : ℕ). k % c) (sym right)
]

-- Going back all the way round is staying.
whole_turn : (c next : ℕ) → next < c → (next + c) % c ≡ next
whole_turn c next inside = add-mod_right next c ∙ mod-eq_of_lt inside

add-IsBuffer : (frame : Frame) (r : ReplayBuffer) → IsBuffer r → IsBuffer (add frame r)
unfolding add
add-IsBuffer frame r v =
    let size = length-set r.frames r.next frame in
    let place : nat_beq (length r.frames) 0 ≡ false = ground (arith, v.inside) in
    simp place (record {
      inside =
          omega (arith, size, mod-lt (r.next + 1) {m = length r.frames} (omega (arith, v.inside)));
      bounded = ground (arith, size, v.bounded);
    })

-- A buffer that is not full gets a frame more.
add_room :
    (frame : Frame) (r : ReplayBuffer)
    → IsBuffer r
    → r.len < length r.frames
    → contents (add frame r) ≡ contents r ++ (frame ∷ [])
unfolding add
add_room frame r v room =
    let c = length r.frames in
    let frames' = set r.frames r.next frame in
    let size : length frames' ≡ c = length-set r.frames r.next frame in
    let place : nat_beq c 0 ≡ false = ground (arith, v.inside) in
    let less : ltb r.len c ≡ true = ground (arith, room) in
    let turned : ((r.next + 1) % c + c - suc r.len) % length frames'
        ≡ (r.next + c - r.len) % length frames' =
      subst (λ (n : ℕ). ((r.next + 1) % c + c - suc r.len) % n ≡ (r.next + c - r.len) % n)
        (sym size) (step_back c r.next r.len v.inside room) in
    let at : r.next ≡ (r.next + c - r.len + r.len) % c =
      sym (whole_turn c r.next v.inside) ∙ ap (λ (k : ℕ). k % c) (omega (arith, v.bounded)) in
    simp (place, less, size)
      (read-mod frames' ((r.next + 1) % c + c - suc r.len) (r.next + c - r.len) (suc r.len) turned
        ∙ read-set r.frames (r.next + c - r.len) r.len r.next frame room at)

-- A full one loses its oldest.
add_full :
    (frame : Frame) (r : ReplayBuffer)
    → IsBuffer r
    → r.len ≡ length r.frames
    → contents (add frame r) ≡ drop 1 (contents r) ++ (frame ∷ [])
unfolding add
add_full frame r v full =
    let c = length r.frames in
    let m = c - 1 in
    let frames' = set r.frames r.next frame in
    let size : length frames' ≡ c = length-set r.frames r.next frame in
    let place : nat_beq c 0 ≡ false = ground (arith, v.inside) in
    let less : ltb r.len c ≡ false = ground (arith, full) in
    let some_there : r.len ≡ suc m = omega (arith, full, v.inside) in
    let turned : ((r.next + 1) % c + c - r.len) % length frames' ≡ (r.next + 1) % length frames' =
      subst (λ (n : ℕ). ((r.next + 1) % c + c - r.len) % n ≡ (r.next + 1) % n) (sym size)
        (ap (λ (k : ℕ). k % c) (omega (arith, full)) ∙ mod-mod (r.next + 1) c) in
    let at : r.next ≡ (r.next + 1 + m) % c =
      sym (whole_turn c r.next v.inside) ∙ ap (λ (k : ℕ). k % c) (omega (arith, v.inside)) in
    let before : drop 1 (contents r) ≡ read r.frames (r.next + 1) m =
      drop-read r.frames (r.next + c - r.len) 1 m r.len (omega (arith, some_there))
      ∙ ap (λ (k : ℕ). read r.frames k m) (omega (arith, full)) in
    simp (place, less, size)
      (read-mod frames' ((r.next + 1) % c + c - r.len) (r.next + 1) r.len turned
        ∙ ap (read frames' (r.next + 1)) some_there
        ∙ read-set r.frames (r.next + 1) m r.next frame (omega (arith, v.inside)) at
        ∙ ap (λ (xs : List Frame). xs ++ (frame ∷ [])) (sym before))

drop-append_le : (k : ℕ) (xs ys : List Frame) → k ≤ length xs → drop k (xs ++ ys) ≡ drop k xs ++ ys
drop-append_le zero xs ys h = refl
drop-append_le (suc k) [] ys h = absurd (omega arith)
drop-append_le (suc k) (x ∷ xs) ys h = drop-append_le k xs ys (omega arith)

drop-suc : (k : ℕ) (xs : List Frame) → drop 1 (drop k xs) ≡ drop (suc k) xs
drop-suc zero [] = refl
drop-suc zero (x ∷ xs) = refl
drop-suc (suc k) [] = refl
drop-suc (suc k) (x ∷ xs) = drop-suc k xs

-- The buffer has the last frames of a history, as many as it has places.
pub record Remembers (history : List Frame) (r : ReplayBuffer) : Type 0 where
  pub buffer : IsBuffer r
  pub same : contents r ≡ recent (length r.frames) history

pub Remembers-len :
    (history : List Frame) (r : ReplayBuffer)
    → Remembers history r
    → r.len ≡ length history - (length history - length r.frames)
Remembers-len history r m =
    sym (length-read r.frames (r.next + length r.frames - r.len) r.len)
    ∙ ap length m.same
    ∙ length-drop (length history - length r.frames) history

length-add : (frame : Frame) (r : ReplayBuffer) → length (add frame r).frames ≡ length r.frames
unfolding add
length-add frame r = elim (Bool-cases (nat_beq (length r.frames) 0)) [
  | inl nothing ↦ simp nothing refl
  | inr place ↦ simp place (length-set r.frames r.next frame)
]

add-Remembers :
    (frame : Frame) (history : List Frame) (r : ReplayBuffer)
    → Remembers history r
    → Remembers (history ++ (frame ∷ [])) (add frame r)
add-Remembers frame history r m =
    let c = length r.frames in
    let h = length history in
    let n = Remembers-len history r m in
    let more = length-append history (frame ∷ []) in
    let size = length-add frame r in
    record {
      buffer = add-IsBuffer frame r m.buffer;
      same =
          subst (λ (k : ℕ). contents (add frame r) ≡ recent k (history ++ (frame ∷ []))) (sym size)
            (elim (dec_lt r.len c) [
              | yes room ↦
                  let before : h - c ≡ 0 = omega (arith, n, room) in
                  let after : length (history ++ (frame ∷ [])) - c ≡ 0 =
                    omega (arith, n, room, more) in
                  add_room frame r m.buffer room
                  ∙ ap (λ (xs : List Frame). xs ++ (frame ∷ []))
                      (m.same ∙ ap (λ (k : ℕ). drop k history) before)
                  ∙ ap (λ (k : ℕ). drop k (history ++ (frame ∷ []))) (sym after)
              | no over ↦
                  let full : r.len ≡ c = omega (arith, over, m.buffer.bounded) in
                  let next : length (history ++ (frame ∷ [])) - c ≡ suc (h - c) =
                    omega (arith, n, full, more, m.buffer.inside) in
                  add_full frame r m.buffer full
                  ∙ ap (λ (xs : List Frame). drop 1 xs ++ (frame ∷ [])) m.same
                  ∙ ap (λ (xs : List Frame). xs ++ (frame ∷ [])) (drop-suc (h - c) history)
                  ∙ sym (
                      drop-append_le (suc (h - c)) history (frame ∷ [])
                        (omega (arith, n, full, m.buffer.inside)))
                  ∙ ap (λ (k : ℕ). drop k (history ++ (frame ∷ []))) (sym next)
            ]);
    }

-- The frames of a topic, in the order of their publication.
unfoldable pub add_all : List Frame → ReplayBuffer → ReplayBuffer
add_all [] r = r
add_all (frame ∷ frames) r = add_all frames (add frame r)

add_all-Remembers :
    (frames history : List Frame) (r : ReplayBuffer)
    → Remembers history r
    → Remembers (history ++ frames) (add_all frames r)
unfolding add_all
add_all-Remembers [] history r m =
    subst (λ (h : List Frame). Remembers h r) (sym (append-nil history)) m
add_all-Remembers (frame ∷ frames) history r m =
    subst (λ (h : List Frame). Remembers h (add_all frames (add frame r)))
      (append_assoc history (frame ∷ []) frames)
      (add_all-Remembers frames (history ++ (frame ∷ [])) (add frame r)
        (add-Remembers frame history r m))

length-add_all :
    (frames : List Frame) (r : ReplayBuffer) → length (add_all frames r).frames ≡ length r.frames
unfolding add_all
length-add_all [] r = refl
length-add_all (frame ∷ frames) r = length-add_all frames (add frame r) ∙ length-add frame r

abbrev no_frames : List Frame
no_frames = []

drop_empty : (k : ℕ) → drop k no_frames ≡ no_frames
drop_empty zero = refl
drop_empty (suc k) = refl

pub new_replay_buffer-Remembers :
    (c : ℕ) (history : List Frame)
    → 0 < c
    → Remembers history (add_all history (new_replay_buffer c))
      × (length (add_all history (new_replay_buffer c)).frames ≡ c)
unfolding new_replay_buffer read
new_replay_buffer-Remembers c history places =
    let size = length-replicate c no_frame in
    let r = new_replay_buffer c in
    (
      add_all-Remembers history [] r (record {
        buffer = record { inside = omega (arith, size, places); bounded = omega arith };
        same = sym (drop_empty (0 - length r.frames));
      }),
      length-add_all history r ∙ size,
    )
