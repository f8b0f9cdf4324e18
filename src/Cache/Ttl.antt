-- ===== src/Cache/Ttl.antt =====
-- cache/ttl.go: TTL strategies and options. float64 is a type `F` with the tests that the program
-- makes on it.
pub mod Bounds
use go_warp.Base.{
  ℕ, ℤ, pos, ltb_ℤ, leb_ℤ, Duration, Time, ◌+₆₄◌, ◌-₆₄◌, time_sub, Bool, true, false, ◌&&◌, Key,
  if◌then◌else◌,
}

-- float64: `x > 0`, `x == 0`, `0 <= x && x <= 1`, and `float64(a) / float64(b) <= x`.
pub record Floats (F : Type 0) : Type 0 where
  pub zero_float : F
  pub positive : F → Bool
  pub equals_zero : F → Bool
  pub in_unit : F → Bool
  pub ratio_le : Duration → Duration → F → Bool

-- The TTLStrategy interface over a state `Q` that holds every strategy, each named by a number.
pub record StrategyOps (Q : Type 0) : Type 0 where
  pub note_access : ℕ → Key → Q → Q
  pub ttl : ℕ → Key → Q → Duration × Q

pub record TtlOptions (F : Type 0) : Type 0 where
  pub sliding : Bool
  pub freq_threshold : Duration
  pub increment : Duration
  pub decrement : Duration
  pub min_ttl : Duration
  pub max_ttl : Duration
  pub fail_safe_grace_period : Duration
  pub soft_timeout : Duration
  pub eager_refresh_threshold : F

module _ {F : Type 0} where
  unfoldable pub no_options : Floats F → TtlOptions F
  no_options f = record {
    sliding = false;
    freq_threshold = pos 0;
    increment = pos 0;
    decrement = pos 0;
    min_ttl = pos 0;
    max_ttl = pos 0;
    fail_safe_grace_period = pos 0;
    soft_timeout = pos 0;
    eager_refresh_threshold = f.zero_float;
  }

  unfoldable pub with_sliding : TtlOptions F → TtlOptions F
  with_sliding o = record o { sliding = true }

  unfoldable pub with_fail_safe : Duration → TtlOptions F → TtlOptions F
  with_fail_safe grace o = record o { fail_safe_grace_period = grace }

  unfoldable pub with_soft_timeout : Duration → TtlOptions F → TtlOptions F
  with_soft_timeout d o = record o { soft_timeout = d }

  unfoldable pub with_eager_refresh : Floats F → F → TtlOptions F → TtlOptions F
  with_eager_refresh f threshold o =
      if f.in_unit threshold then record o { eager_refresh_threshold = threshold } else o

  unfoldable pub with_dynamic_ttl :
      Duration → Duration → Duration → Duration → Duration → TtlOptions F → TtlOptions F
  with_dynamic_ttl freq inc dec low high o = record o {
    freq_threshold = freq;
    increment = inc;
    decrement = dec;
    min_ttl = low;
    max_ttl = high;
  }

  unfoldable pub raise_ttl : TtlOptions F → Duration → Duration
  raise_ttl o cur =
      let raised = cur +₆₄ o.increment in
      if ltb_ℤ (pos 0) o.max_ttl && ltb_ℤ o.max_ttl raised then o.max_ttl else raised

  unfoldable pub lower_ttl : TtlOptions F → Duration → Duration
  lower_ttl o cur =
      let lowered = cur -₆₄ o.decrement in if ltb_ℤ lowered o.min_ttl then o.min_ttl else lowered

  -- TTLOptions.Adjust
  unfoldable pub adjust : TtlOptions F → Duration → Time → Time → Duration
  adjust o cur last now =
      if leb_ℤ o.freq_threshold (pos 0)
      then cur
      else if leb_ℤ (time_sub now last) o.freq_threshold
      then raise_ttl o cur
      else lower_ttl o cur
