-- ===== src/Lock/Memory.antt =====
-- lock/memory.go: InMemory, the lock table of one node. The announcements of a lock and of a release
-- that it publishes are kept in the order of the calls; what the bus delivers of them, and of those
-- of other nodes, are events. A timer that fires calls Release.
pub mod Exclusion
use go_warp.Base.{
  ℕ, zero, suc, ◌+◌, ◌-◌, pos, ltb_ℤ, Duration, Bool, true, false, List, [], ◌∷◌, ◌++◌, Key, key_eq,
  lookup, insert, delete, has, at_or, ltb, listed, Option, none, some, if◌then◌else◌,
}
use go_warp.Errors.{Error, Result, ok, err}

pub data Topic : Type 0 where
  lock_topic unlock_topic : Topic

-- `locks` says of a held key whether a timer runs. `pending` of the source is two maps here, one
-- for each topic; a missing key counts 0.
pub record Locker : Type 0 where
  pub locks : List (Key × Bool)
  pub subs : List Key
  pub pending_locks : List (Key × ℕ)
  pub pending_unlocks : List (Key × ℕ)
  pub sent : List (Topic × Key)

unfoldable pub new_locker : Locker
new_locker = record { locks = []; subs = []; pending_locks = []; pending_unlocks = []; sent = [] }

abbrev pub count_of : Key → List (Key × ℕ) → ℕ
count_of key m = at_or 0 key m

-- `l.pending[...]++` for a new lock, which is announced.
abbrev hold : Bool → Key → Locker → Locker
hold timed key l = record l {
  locks = insert key timed l.locks;
  pending_locks = insert key (suc (count_of key l.pending_locks)) l.pending_locks;
  sent = l.sent ++ (lock_topic, key) ∷ [];
}

-- ensureSubscriptions, where the bus answers an error or none.
ensure_subscriptions : Option Error → Key → Locker → Option Error × Locker
ensure_subscriptions answer key l =
    if listed key l.subs
    then (none, l)
    else (answer, elim answer [ none ↦ record l { subs = key ∷ l.subs } | some e ↦ l ])

try_subscribed : Option Error × Locker → Key → Duration → Result Bool × Locker
try_subscribed (some e, l) key ttl = (err e, l)
try_subscribed (none, l) key ttl =
    if has key l.locks then (ok false, l) else (ok true, hold (ltb_ℤ (pos 0) ttl) key l)

-- TryLock
unfoldable pub try_lock : Option Error → Key → Duration → Locker → Result Bool × Locker
unfolding ensure_subscriptions try_subscribed
try_lock answer key ttl l = try_subscribed (ensure_subscriptions answer key l) key ttl

-- Release
unfoldable pub release : Key → Locker → Locker
release key l =
    if has key l.locks
    then record l {
      locks = delete key l.locks;
      pending_unlocks = insert key (suc (count_of key l.pending_unlocks)) l.pending_unlocks;
      sent = l.sent ++ (unlock_topic, key) ∷ [];
    }
    else l

-- An event on the topic "lock:" + key.
unfoldable pub hear_lock : Key → Locker → Locker
hear_lock key l =
    if ltb 0 (count_of key l.pending_locks)
    then record l { pending_locks = insert key (count_of key l.pending_locks - 1) l.pending_locks }
    else if has key l.locks
    then l
    else record l { locks = insert key false l.locks }

-- An event on the topic "unlock:" + key.
unfoldable pub hear_unlock : Key → Locker → Locker
hear_unlock key l =
    if ltb 0 (count_of key l.pending_unlocks)
    then record l {
      pending_unlocks = insert key (count_of key l.pending_unlocks - 1) l.pending_unlocks;
    }
    else record l { locks = delete key l.locks }

pub data Event : Type 0 where
  tries : Option Error → Key → Duration → Event
  releases hears_lock hears_unlock : Key → Event

unfoldable pub step : Event → Locker → Locker
unfolding try_lock release hear_lock hear_unlock
step (tries answer key ttl) l = (try_lock answer key ttl l).1
step (releases key) l = release key l
step (hears_lock key) l = hear_lock key l
step (hears_unlock key) l = hear_unlock key l

unfoldable pub run : List Event → Locker → Locker
unfolding step
run [] l = l
run (e ∷ es) l = run es (step e l)
