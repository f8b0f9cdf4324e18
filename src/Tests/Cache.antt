-- ===== src/Tests/Cache.antt =====
-- Runs of cache/cache.go, cache/ttl.go and cache/resilient.go.
use go_warp.Base.{
  ◌≡◌, refl, ◌≢◌, ℕ, inr, pos, false, [], ◌∷◌, Key, lookup, key_beq, key_eq, arith, none, some,
  ◌≤ℤ◌, ◌<ℤ◌, ◌+ℤ◌, ◌-ℤ◌, ◌-₆₄◌, ◌+₆₄◌, wrap64, insert, time_sub,
}
use go_warp.Errors.{Error, hit, miss, failed, external}
use go_warp.Cache.InMemory.{InMemory, Item, Config, Ctx, get, set, back, remove_key, remove_back}
use go_warp.Cache.InMemory.Order.{contains}
use go_warp.Cache.InMemory.Laws.{IsValid, get-IsValid}
use go_warp.Cache.InMemory.Bounds.{WithinEntries, WithinMemory, set-Within}
use go_warp.Cache.InMemory.Lawful.{get-set}
use go_warp.Cache.Api.{CacheOps}
use go_warp.Cache.Resilient.{resilient, resilient_lem}
use go_warp.Cache.Ttl.{TtlOptions, adjust}
use go_warp.Cache.Ttl.Bounds.{Tuned, adjust_bounds}

abbrev pub first : Key
first = 1 ∷ []

abbrev pub second : Key
second = 2 ∷ []

abbrev pub third : Key
third = 3 ∷ []

abbrev pub item : ℕ → ℕ → Item ℕ
item v expires = record { value = v; size = pos 8; expires_at = pos expires }

-- At most two entries and 100 bytes.
abbrev cfg : Config ℕ
cfg = record { max_entries = pos 2; max_memory = pos 100; estimate_size = λ v. pos 8 }

abbrev unbounded : Config ℕ
unbounded = record cfg { max_entries = pos 0; max_memory = pos 0 }

abbrev live : Ctx
live = record { at_entry = none; locked = none }

abbrev pub full : InMemory ℕ
full = record {
  items = (first, item 10 50) ∷ (second, item 20 0) ∷ [];
  order = second ∷ first ∷ [];
  current_memory = pos 16;
  hits = 0;
  misses = 0;
  evictions = 0;
}

-- The new key evicts the least recently used one; an expired item is a miss.
cache_runs :
    ((set cfg live (pos 7) third 30 (pos 0) full).1.order ≡ third ∷ second ∷ [])
    × ((get live (pos 7) first full).0 ≡ hit 10)
    × ((get live (pos 51) first full).0 ≡ miss)
unfolding set get lookup key_beq insert back remove_key remove_back ◌-₆₄◌ wrap64 ◌-ℤ◌ ◌+₆₄◌ ◌+ℤ◌
cache_runs = (refl, refl, refl)

pub full-IsValid : IsValid full
unfolding contains lookup key_beq
full-IsValid = record { distinct = ground arith; unique = ground arith; same = λ k. ground arith }

get-IsValid_example : IsValid (get live (pos 51) first full).1
get-IsValid_example = get-IsValid live (pos 51) first full full-IsValid

set-Within_example :
    (IsValid (set cfg live (pos 7) third 30 (pos 0) full).1
      × WithinEntries cfg (set cfg live (pos 7) third 30 (pos 0) full).1)
    × ((set cfg live (pos 7) third 30 (pos 0) full).0 ≡ none
        → WithinMemory cfg (set cfg live (pos 7) third 30 (pos 0) full).1)
set-Within_example =
    set-Within cfg live (pos 7) third 30 (pos 0) full full-IsValid (inr (ground arith))

get-set_example :
    (get live (pos 7) third (set unbounded live (pos 7) third 30 (pos 5) full).1).0 ≡ hit 30
unfolding set
get-set_example =
    get-set unbounded live (pos 7) third 30 (pos 5) full (ground arith) (ground arith) refl

abbrev broken : CacheOps ℕ ℕ
broken = record {
  get = λ k c. (failed (external 1), c);
  set = λ k v d c. (some (external 2), c);
  invalidate = λ k c. (none, 0);
}

resilient_lem_example :
    (((e : Error) → ((resilient broken).get first 5).0 ≢ failed e)
      × (((resilient broken).get first 5).1 ≡ 5)
      × ((x : ℕ) → (((resilient broken).get first 5).0 ≡ hit x) → ((broken.get first 5).0 ≡ hit x))
      × ((x : ℕ) → ((broken.get first 5).0 ≡ hit x) → (((resilient broken).get first 5).0 ≡ hit x)))
    × ((((resilient broken).set first 30 (pos 5) 5).0 ≡ none)
        × (((resilient broken).set first 30 (pos 5) 5).1 ≡ 5))
    × ((((resilient broken).invalidate first 5).0 ≡ none)
        × (((resilient broken).invalidate first 5).1 ≡ 0))
resilient_lem_example = resilient_lem broken first 30 (pos 5) 5

abbrev options : TtlOptions ℕ
options = record {
  sliding = false;
  freq_threshold = pos 10;
  increment = pos 5;
  decrement = pos 5;
  min_ttl = pos 1;
  max_ttl = pos 20;
  fail_safe_grace_period = pos 0;
  soft_timeout = pos 0;
  eager_refresh_threshold = 0;
}

options-Tuned : Tuned options (pos 18) (pos 100) (pos 103)
unfolding ◌+ℤ◌ ◌-ℤ◌
options-Tuned = record {
  enabled = ground arith;
  grows = ground arith;
  shrinks = ground arith;
  capped = ground arith;
  ordered = ground arith;
  above = ground arith;
  below = ground arith;
  raised = ground arith;
  lowered = ground arith;
}

adjust_bounds_example :
    (pos 1 ≤ℤ adjust options (pos 18) (pos 100) (pos 103))
    × (adjust options (pos 18) (pos 100) (pos 103) ≤ℤ pos 20)
    × (time_sub (pos 103) (pos 100) ≤ℤ pos 10
        → pos 18 ≤ℤ adjust options (pos 18) (pos 100) (pos 103))
    × (pos 10 <ℤ time_sub (pos 103) (pos 100)
        → adjust options (pos 18) (pos 100) (pos 103) ≤ℤ pos 18)
    × (time_sub (pos 103) (pos 100) ≡ pos 10
        → pos 0 <ℤ options.increment
        → pos 18 <ℤ pos 20
        → pos 18 <ℤ adjust options (pos 18) (pos 100) (pos 103))
adjust_bounds_example = adjust_bounds options (pos 18) (pos 100) (pos 103) options-Tuned
