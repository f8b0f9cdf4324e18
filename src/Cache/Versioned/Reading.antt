-- ===== src/Cache/Versioned/Reading.antt =====
-- cache/versioned/versioned.go: what is read after a write, over a base cache that keeps what it
-- was given.
use go_warp.Base.{
  ℕ, ◌≡◌, ◌≢◌, refl, ◌∙◌, ap, ℤ, pos, ltb_ℤ, ◌&&◌, Duration, Time, true, false, List, [], ◌∷◌, Key,
  key_eq, has, Option, none, some, arith, Bool-cases, Option-cases, inl, inr, length,
}
use go_warp.Errors.{Error, Got, hit, miss, failed}
use go_warp.Cache.Api.{CacheOps}
use go_warp.Cache.InMemory.{back}
use go_warp.Cache.InMemory.Order.{contains, Unique, contains-remove_back, back-some}
use go_warp.Merge.Engine.{Value}
use go_warp.Merge.Versioned.{VersionedValue, new_versioned_value, add, latest, at}
use go_warp.Merge.Versioned.History.{latest-add}
use go_warp.Cache.Versioned.{
  Versioned, get_latest, get_from, get, get_version, get_at_from, get_at, evict_last, over_limit,
  push_front, enter, track, set_written, write_history, set_from, set,
}
use go_warp.Cache.Versioned.Recency.{IsValid}

-- What the wrapper relies on: a write that succeeds is read back, and an invalidation leaves the
-- other keys.
pub record KeepsWrites {C V : Type 0} (ops : CacheOps C V) : Type 0 where
  pub get-set :
      (k : Key) (v : V) (ttl : Duration) (c : C)
      → (ops.set k v ttl c).0 ≡ none
      → (ops.get k (ops.set k v ttl c).1).0 ≡ hit v
  pub get-invalidate :
      (k j : Key) (c : C) → k ≢ j → (ops.get j (ops.invalidate k c).1).0 ≡ (ops.get j c).0

-- The history that Set stores: a new one, or the old one with the value added.
abbrev pub extended : {T : Type 0} → Value T → ℕ → Got (VersionedValue T) → VersionedValue T
extended val limit (hit vv) = add val vv
extended val limit miss = new_versioned_value val limit
extended val limit (failed e) = new_versioned_value val limit

latest-extended :
    {T : Type 0} (val : Value T) (limit : ℕ) (r : Got (VersionedValue T))
    → latest (extended val limit r) ≡ some val
unfolding latest new_versioned_value
latest-extended val limit (hit vv) = latest-add val vv
latest-extended val limit miss = refl
latest-extended val limit (failed e) = refl

abbrev pub as_got : {T : Type 0} → Option (Value T) → Got (Value T)
as_got none = miss
as_got (some v) = hit v

back_older :
    (key k : Key) (order : List Key) (max : ℤ)
    → contains key order ≡ false
    → Unique order
    → (ltb_ℤ (pos 0) max && ltb_ℤ max (pos (length (key ∷ order)))) ≡ true
    → back (key ∷ order) ≡ some k
    → k ≢ key
unfolding back
back_older key k [] max fresh unique over last same = ground arith
back_older key k (x ∷ xs) max fresh unique over last same = ground (
  arith,
  (contains-remove_back (x ∷ xs) k k unique last).0,
  ap (λ (j : Key). contains j (x ∷ xs)) same,
)

some_ne : {e : Error} → ◌≢◌ {A = Option Error} (some e) none
some_ne h = cc

-- The key just entered is not the one that is evicted.
module _ {C T : Type 0} (ops : CacheOps C (VersionedValue T)) (law : KeepsWrites ops) where
  enter-get :
      (key : Key) (c : Versioned C)
      → has key c.entries ≡ false
      → IsValid c
      → (ops.get key (enter ops key c).base).0 ≡ (ops.get key c.base).0
  unfolding enter evict_last push_front over_limit
  enter-get key c fresh v = elim (Bool-cases (over_limit (push_front key c))) [
    | inr fits ↦ rw fits refl
    | inl over ↦
        let (k, last) = back-some key c.order in
        let older : k ≢ key =
          back_older key k c.order c.max_entries (ground (arith, v.same key, fresh)) v.unique over
            last in
        rw (over, last) (law.get-invalidate k key c.base older)
  ]

  track-get :
      (key : Key) (c : Versioned C)
      → IsValid c
      → (ops.get key (track ops key c).base).0 ≡ (ops.get key c.base).0
  unfolding track
  track-get key c v = elim (Bool-cases (has key c.entries)) [
    | inl t ↦ rw t refl
    | inr f ↦ rw f (enter-get key c f v)
  ]

  write_history-get :
      (key : Key) (vv : VersionedValue T) (ttl : Duration) (c : Versioned C)
      → IsValid c
      → (write_history ops key vv ttl c).0 ≡ none
      → (ops.get key (write_history ops key vv ttl c).1.base).0 ≡ hit vv
  unfolding write_history set_written
  write_history-get key vv ttl c v h = elim (Option-cases (ops.set key vv ttl c.base).0) [
    | inr (e, failing) ↦ absurd (some_ne (rw failing at h))
    | inl fine ↦ rw fine (track-get key _ v ∙ law.get-set key vv ttl c.base fine)
  ]

  get_hit :
      (key : Key) (vv : VersionedValue T) (c : Versioned C)
      → (ops.get key c.base).0 ≡ hit vv
      → (get ops key c).0 ≡ as_got (latest vv)
  unfolding get get_from get_latest
  get_hit key vv c h = elim (Option-cases (latest vv)) [
    | inl nothing ↦ rw (h, nothing) refl
    | inr (x, last) ↦ rw (h, last) refl
  ]

  get_at_hit :
      (key : Key) (t : Time) (vv : VersionedValue T) (c : Versioned C)
      → (ops.get key c.base).0 ≡ hit vv
      → (get_at ops key t c).0 ≡ as_got (at t vv)
  unfolding get_at get_at_from get_version
  get_at_hit key t vv c h = elim (Option-cases (at t vv)) [
    | inl nothing ↦ rw (h, nothing) refl
    | inr (x, there) ↦ rw (h, there) refl
  ]

  set_from-get :
      (key : Key) (val : Value T) (ttl : Duration) (r : Got (VersionedValue T)) (c : Versioned C)
      → IsValid c
      → (set_from ops key val ttl r c).0 ≡ none
      → (ops.get key (set_from ops key val ttl r c).1.base).0 ≡ hit (extended val c.limit r)
  unfolding set_from
  set_from-get key val ttl (failed e) c v h = absurd (some_ne h)
  set_from-get key val ttl miss c v h =
      write_history-get key (new_versioned_value val c.limit) ttl c v h
  set_from-get key val ttl (hit vv) c v h = write_history-get key (add val vv) ttl c v h

  -- After a Set that succeeds, Get answers the value, and GetAt answers what the history held of
  -- the instant with the value added to it: the key just written is never the one that is evicted.
  -- The base cache reads back what was written and keeps the other keys when one is invalidated.
  pub get_at-set :
      (key : Key) (val : Value T) (ttl : Duration) (c : Versioned C)
      → IsValid c
      → (set ops key val ttl c).0 ≡ none
      → let c' = (set ops key val ttl c).1 in
        ((get ops key c').0 ≡ hit val)
        × ((t : Time)
            → (get_at ops key t c').0 ≡ as_got (at t (extended val c.limit (ops.get key c.base).0)))
  unfolding set
  get_at-set key val ttl c v h =
      let r = (ops.get key c.base).0 in
      let stored = set_from-get key val ttl r _ v h in
      (
        get_hit key (extended val c.limit r) _ stored ∙ ap as_got (latest-extended val c.limit r),
        λ t. get_at_hit key t (extended val c.limit r) _ stored,
      )
