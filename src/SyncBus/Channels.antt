-- ===== src/SyncBus/Channels.antt =====
-- Channels of capacity one, known by number, and the lists of channels of syncbus/syncbus.go and
-- watchbus/inmemory_watchbus.go.
pub mod Counts
pub mod Laws
use go_warp.Base.{
  ℕ, zero, suc, ◌+◌, Bool, true, false, List, [], ◌∷◌, lookup, insert, nat_eq, nat_beq, ◌==◌,
  if◌then◌else◌, Option, none, some,
}

-- A channel with its buffer, before and after its close.
pub data Channel (E : Type 0) : Type 0 where
  open_with : Option E → Channel E
  closed_with : Option E → Channel E

-- How a send ends in a select with a default; a send to a closed channel is a panic.
pub data Sent : Type 0 where
  sent full send_panic : Sent

module _ {E : Type 0} where
  send_to : ℕ → E → Option (Channel E) → List (ℕ × Channel E) → Sent × List (ℕ × Channel E)
  send_to ch e none chans = (full, chans)
  send_to ch e (some (open_with none)) chans = (sent, insert ch (open_with (some e)) chans)
  send_to ch e (some (open_with (some x))) chans = (full, chans)
  send_to ch e (some (closed_with b)) chans = (send_panic, chans)

  -- `select { case ch <- e: ... default: }`
  unfoldable pub send : ℕ → E → List (ℕ × Channel E) → Sent × List (ℕ × Channel E)
  unfolding send_to
  send ch e chans = send_to ch e (lookup ch chans) chans

  close_at : ℕ → Option (Channel E) → List (ℕ × Channel E) → List (ℕ × Channel E)
  close_at ch (some (open_with b)) chans = insert ch (closed_with b) chans
  close_at ch _ chans = chans

  -- `close(c)`, of an open channel.
  unfoldable pub close : ℕ → List (ℕ × Channel E) → List (ℕ × Channel E)
  unfolding close_at
  close ch chans = close_at ch (lookup ch chans) chans

-- `subs[i] = subs[len(subs)-1]; subs = subs[:len(subs)-1]`, from index i on.
abbrev pub last_of : ℕ → List ℕ → ℕ
last_of x [] = x
last_of x (y ∷ ys) = last_of y ys

abbrev pub without_last : ℕ → List ℕ → List ℕ
without_last x [] = []
without_last x (y ∷ ys) = x ∷ without_last y ys

abbrev pub fill_gap : List ℕ → List ℕ
fill_gap [] = []
fill_gap (x ∷ xs) = last_of x xs ∷ without_last x xs

-- The loop that removes a channel: none where it is not found.
unfoldable pub remove_channel : ℕ → List ℕ → Option (List ℕ)
remove_channel ch [] = none
remove_channel ch (x ∷ xs) =
    let rest = remove_channel ch xs in
    if x == ch then some (fill_gap xs) else elim rest [ none ↦ none | some ys ↦ some (x ∷ ys) ]
