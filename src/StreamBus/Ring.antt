-- ===== src/StreamBus/Ring.antt =====
-- streambus/queue.go: ringQueue, a queue in a slice of fixed length, and the Frame of
-- streambus/types.go. A push is made only where there is room.
pub mod Counts
pub mod Fifo
pub mod Window
use go_warp.Base.{
  ℕ, zero, suc, ◌+◌, ◌-◌, ◌%◌, ◌≡◌, Time, Bool, true, false, List, [], ◌∷◌, Key, Option, none, some,
  length, get_elem?, set, replicate, if◌then◌else◌, pos,
}

pub data Reliability : Type 0 where
  reliable unreliable : Reliability

-- `priority` is a uint8, of which four values have a name.
pub record Frame : Type 0 where
  pub sequence : ℕ
  pub timestamp : Time
  pub topic : Key
  pub payload : List ℕ
  pub reliability : Reliability
  pub priority : ℕ

-- `Frame{}`
abbrev pub no_frame : Frame
no_frame = record {
  sequence = 0;
  timestamp = pos 0;
  topic = [];
  payload = [];
  reliability = reliable;
  priority = 0;
}

pub record RingQueue : Type 0 where
  pub items : List Frame
  pub head : ℕ
  pub len : ℕ

unfoldable pub new_ring_queue : ℕ → RingQueue
new_ring_queue capacity = record { items = replicate capacity no_frame; head = 0; len = 0 }

unfoldable pub ring_push : Frame → RingQueue → RingQueue
ring_push frame q = record q {
  items = set q.items ((q.head + q.len) % length q.items) frame;
  len = suc q.len;
}

-- The frame at the head: an index that the slice has, where the queue is not empty.
unfoldable pub item_at : List Frame → ℕ → Frame
item_at items i = elim (get_elem? items i) [ none ↦ no_frame | some frame ↦ frame ]

peek_len : ℕ → RingQueue → Option Frame
unfolding item_at
peek_len zero q = none
peek_len (suc n) q = some (item_at q.items q.head)

unfoldable pub peek : RingQueue → Option Frame
unfolding peek_len
peek q = peek_len q.len q

pop_len : ℕ → RingQueue → Option Frame × RingQueue
unfolding item_at
pop_len zero q = (none, q)
pop_len (suc n) q = (
  some (item_at q.items q.head),
  record { items = set q.items q.head no_frame; head = (q.head + 1) % length q.items; len = n },
)

unfoldable pub ring_pop : RingQueue → Option Frame × RingQueue
unfolding pop_len
ring_pop q = pop_len q.len q
