-- ===== src/Errors.antt =====
-- The error values of core/core.go and core/lease.go, with every error of a collaborator
-- (cache, store, bus, loader, merge function) as `external`, and results that may fail.
use go_warp.Base.{ℕ, Bool, true, false}

pub data Error : Type 0 where
  not_found unregistered cas_mismatch bus_required invalid_lease_ttl : Error
  context_done : ℕ → Error
  external : ℕ → Error

pub data Result {ℓ} (A : Type ℓ) : Type ℓ where
  ok : A → Result A
  err : Error → Result A

-- `errors.Is(err, ErrNotFound)`
abbrev pub is_not_found : Error → Bool
is_not_found not_found = true
is_not_found _ = false

-- What a `(value, ok, err)` lookup returns: found, absent or failed.
pub data Got {ℓ} (A : Type ℓ) : Type ℓ where
  hit : A → Got A
  miss : Got A
  failed : Error → Got A
