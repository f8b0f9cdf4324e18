-- ===== src/SyncBus/Channels/Laws.antt =====
-- What a send and a close change.
use go_warp.Base.{
  ℕ, ◌≡◌, ◌≢◌, refl, inl, inr, Bool, true, false, List, ◌&&◌, Option, none, some, arith, Bool-cases,
  nat_eq, nat_beq_iff, lookup, lookup-insert, ◌==◌, if◌then◌else◌,
}
use go_warp.SyncBus.Channels.{
  Channel, open_with, closed_with, sent, full, send, send_to, close, close_at,
}

module _ {E : Type 0} where
  abbrev pub IsOpen : ℕ → List (ℕ × Channel E) → Type 0
  IsOpen i chans = (o : Option E) × (lookup i chans ≡ some (open_with o))

  abbrev room_in : Option (Channel E) → Bool
  room_in (some (open_with none)) = true
  room_in (some (open_with (some e))) = false
  room_in (some (closed_with o)) = false
  room_in none = false

  -- The channel is open and its buffer is empty.
  abbrev pub has_room : ℕ → List (ℕ × Channel E) → Bool
  has_room ch chans = room_in (lookup ch chans)

  send_to-lookup :
      (ch i : ℕ) (e : E) (c : Option (Channel E)) (chans : List (ℕ × Channel E))
      → lookup i (send_to ch e c chans).1
        ≡ (if room_in c && (ch == i) then some (open_with (some e)) else lookup i chans)
  unfolding send_to
  send_to-lookup ch i e none chans = refl
  send_to-lookup ch i e (some (open_with (some x))) chans = refl
  send_to-lookup ch i e (some (closed_with b)) chans = refl
  send_to-lookup ch i e (some (open_with none)) chans = lookup-insert ch i _ chans

  pub lookup-send :
      (ch i : ℕ) (e : E) (chans : List (ℕ × Channel E))
      → lookup i (send ch e chans).1
        ≡ (if has_room ch chans && (ch == i) then some (open_with (some e)) else lookup i chans)
  unfolding send
  lookup-send ch i e chans = send_to-lookup ch i e (lookup ch chans) chans

  pub lookup-send_other :
      (ch i : ℕ) (e : E) (chans : List (ℕ × Channel E))
      → (ch == i) ≡ false
      → lookup i (send ch e chans).1 ≡ lookup i chans
  lookup-send_other ch i e chans other = elim (Bool-cases (has_room ch chans)) [
    | inl t ↦ rw (lookup-send ch i e chans, t, other) refl
    | inr f ↦ rw (lookup-send ch i e chans, f) refl
  ]

  pub send-IsOpen :
      (ch i : ℕ) (e : E) (chans : List (ℕ × Channel E))
      → IsOpen i chans
      → IsOpen i (send ch e chans).1
  send-IsOpen ch i e chans (o, v) =
      rw (lookup-send ch i e chans) (elim (Bool-cases (has_room ch chans && (ch == i))) [
        | inl t ↦ rw t (some e, refl)
        | inr f ↦ rw f (o, v)
      ])

  -- A send to an open channel is no panic, and is made where there is room.
  pub send_open :
      (ch : ℕ) (e : E) (chans : List (ℕ × Channel E))
      → IsOpen ch chans
      → (send ch e chans).0 ≡ (if has_room ch chans then sent else full)
  unfolding send send_to
  send_open ch e chans (none, v) = rw v refl
  send_open ch e chans (some x, v) = rw v refl

  close_at-lookup :
      (ch i : ℕ) (c : Option (Channel E)) (chans : List (ℕ × Channel E))
      → ch ≢ i
      → lookup i (close_at ch c chans) ≡ lookup i chans
  unfolding close_at
  close_at-lookup ch i none chans h = refl
  close_at-lookup ch i (some (closed_with b)) chans h = refl
  close_at-lookup ch i (some (open_with b)) chans h =
      ground (arith, nat_beq_iff ch i, lookup-insert ch i (closed_with b) chans)

  pub lookup-close :
      (ch i : ℕ) (chans : List (ℕ × Channel E))
      → ch ≢ i
      → lookup i (close ch chans) ≡ lookup i chans
  unfolding close
  lookup-close ch i chans h = close_at-lookup ch i (lookup ch chans) chans h
