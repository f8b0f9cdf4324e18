-- ===== src/Lock/Memory/Exclusion.antt =====
-- lock/memory.go: a key that is held is not locked again before it is freed.
use go_warp.Base.{
  ◌≡◌, ◌≢◌, refl, ap, beq_refl, Bool, true, false, List, [], ◌∷◌, Key, key_eq, ◌==◌, insert, delete,
  has, lookup-insert, lookup-delete, Duration, Option, none, some, arith, Bool-cases, inl, inr, All,
}
use go_warp.Errors.{Error, Result, ok, err}
use go_warp.Lock.Memory.{
  Locker, ensure_subscriptions, try_subscribed, try_lock, release, hear_lock, hear_unlock, Event,
  tries, releases, hears_lock, hears_unlock, step, run,
}

-- An event that may free the key: its release, also by a timer, or an unlock of another node.
abbrev pub frees : Key → Event → Bool
frees k (releases key) = key == k
frees k (hears_unlock key) = key == k
frees k (tries answer key ttl) = false
frees k (hears_lock key) = false

has-insert :
    {V : Type 0} (k j : Key) (v : V) (m : List (Key × V))
    → has j m ≡ true
    → has j (insert k v m) ≡ true
has-insert k j v m h =
    rw (lookup-insert k j v m) (elim (Bool-cases (k == j)) [ inl t ↦ rw t refl | inr f ↦ rw f h ])

has-delete :
    {V : Type 0} (k j : Key) (m : List (Key × V))
    → (k == j) ≡ false
    → has j m ≡ true
    → has j (delete k m) ≡ true
has-delete k j m other h = rw (lookup-delete k j m, other) h

ensure-locks :
    (answer : Option Error) (key : Key) (l : Locker)
    → (ensure_subscriptions answer key l).1.locks ≡ l.locks
unfolding ensure_subscriptions
ensure-locks none key l = ground arith
ensure-locks (some e) key l = ground arith

try_subscribed-keeps :
    (r : Option Error × Locker) (key k : Key) (ttl : Duration)
    → has k r.1.locks ≡ true
    → has k (try_subscribed r key ttl).1.locks ≡ true
unfolding try_subscribed
try_subscribed-keeps (some e, l) key k ttl h = h
try_subscribed-keeps (none, l) key k ttl h = elim (Bool-cases (has key l.locks)) [
  | inl t ↦ rw t h
  | inr f ↦ rw f (has-insert key k _ l.locks h)
]

step-keeps :
    (e : Event) (k : Key) (l : Locker)
    → frees k e ≡ false
    → has k l.locks ≡ true
    → has k (step e l).locks ≡ true
unfolding step try_lock release hear_lock hear_unlock
step-keeps (tries answer key ttl) k l other h =
    try_subscribed-keeps (ensure_subscriptions answer key l) key k ttl
      (rw (ensure-locks answer key l) h)
step-keeps (releases key) k l other h = ground (arith, has-delete key k l.locks other h)
step-keeps (hears_lock key) k l other h = ground (arith, has-insert key k false l.locks h)
step-keeps (hears_unlock key) k l other h = ground (arith, has-delete key k l.locks other h)

run-keeps :
    (es : List Event) (k : Key) (l : Locker)
    → All (λ e. frees k e ≡ false) es
    → has k l.locks ≡ true
    → has k (run es l).locks ≡ true
unfolding run
run-keeps [] k l other h = h
run-keeps (e ∷ es) k l other h = run-keeps es k (step e l) other.1 (step-keeps e k l other.0 h)

differ : false ≢ true
differ e = ground arith

abbrev is_ok_true : Result Bool → Bool
is_ok_true (ok b) = b
is_ok_true (err e) = false

has-insert_self : {V : Type 0} (k : Key) (v : V) (m : List (Key × V)) → has k (insert k v m) ≡ true
has-insert_self k v m = rw (lookup-insert k k v m, beq_refl k) refl

try_subscribed-holds :
    (r : Option Error × Locker) (key : Key) (ttl : Duration)
    → (try_subscribed r key ttl).0 ≡ ok true
    → has key (try_subscribed r key ttl).1.locks ≡ true
unfolding try_subscribed
try_subscribed-holds (some e, l) key ttl won = absurd (differ (ap is_ok_true won))
try_subscribed-holds (none, l) key ttl won = elim (Bool-cases (has key l.locks)) [
  | inl t ↦ rw t t
  | inr f ↦ rw f (has-insert_self key _ l.locks)
]

try_subscribed-refuses :
    (r : Option Error × Locker) (key : Key) (ttl : Duration)
    → has key r.1.locks ≡ true
    → (try_subscribed r key ttl).0 ≢ ok true
unfolding try_subscribed
try_subscribed-refuses (some e, l) key ttl held won = differ (ap is_ok_true won)
try_subscribed-refuses (none, l) key ttl held won = differ (ap is_ok_true (rw held at won))

-- After a TryLock that succeeds, no TryLock of the key on this node succeeds before an event that
-- may free the key: through any calls for other keys, attempts on this one and lock events.
pub try_lock-excludes :
    (answer again : Option Error) (key : Key) (ttl ttl' : Duration) (l : Locker) (es : List Event)
    → (try_lock answer key ttl l).0 ≡ ok true
    → All (λ e. frees key e ≡ false) es
    → (try_lock again key ttl' (run es (try_lock answer key ttl l).1)).0 ≢ ok true
unfolding try_lock
try_lock-excludes answer again key ttl ttl' l es won others =
    let first = try_subscribed (ensure_subscriptions answer key l) key ttl in
    let held = try_subscribed-holds (ensure_subscriptions answer key l) key ttl won in
    let kept = run-keeps es key first.1 others held in
    try_subscribed-refuses (ensure_subscriptions again key (run es first.1)) key ttl'
      (rw (ensure-locks again key (run es first.1)) kept)
