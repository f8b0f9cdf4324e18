-- ===== src/Cache/Ttl/Bounds.antt =====
-- cache/ttl.go: the TTL that Adjust returns stays within the configured bounds.
use go_warp.Base.{
  ◌≡◌, pos, ◌≤ℤ◌, ◌<ℤ◌, Int64, Duration, Time, ◌+ℤ◌, ◌-ℤ◌, time_sub, arith, +ℤ_parts, -ℤ_parts,
  +₆₄_exact, -₆₄_exact,
}
use go_warp.Cache.Ttl.{TtlOptions, adjust, raise_ttl, lower_ttl}

module _ {F : Type 0} (o : TtlOptions F) (cur : Duration) (last now : Time) where
  -- What is asked of the options: an enabled threshold, steps that are not negative, ordered
  -- bounds, a TTL within them, and no step that leaves int64.
  pub record Tuned : Type 0 where
    pub enabled : pos 0 <ℤ o.freq_threshold
    pub grows : pos 0 ≤ℤ o.increment
    pub shrinks : pos 0 ≤ℤ o.decrement
    pub capped : pos 0 <ℤ o.max_ttl
    pub ordered : o.min_ttl ≤ℤ o.max_ttl
    pub above : o.min_ttl ≤ℤ cur
    pub below : cur ≤ℤ o.max_ttl
    pub raised : Int64 (cur +ℤ o.increment)
    pub lowered : Int64 (cur -ℤ o.decrement)

  module _ (t : Tuned) where
    raise_bounds :
        (o.min_ttl ≤ℤ raise_ttl o cur) × (raise_ttl o cur ≤ℤ o.max_ttl) × (cur ≤ℤ raise_ttl o cur)
    unfolding raise_ttl
    raise_bounds =
        rw (+₆₄_exact cur o.increment t.raised) (ground (arith, +ℤ_parts cur o.increment))

    raise_more : pos 0 <ℤ o.increment → cur <ℤ o.max_ttl → cur <ℤ raise_ttl o cur
    unfolding raise_ttl
    raise_more up room =
        rw (+₆₄_exact cur o.increment t.raised) (ground (arith, +ℤ_parts cur o.increment))

    lower_bounds :
        (o.min_ttl ≤ℤ lower_ttl o cur) × (lower_ttl o cur ≤ℤ o.max_ttl) × (lower_ttl o cur ≤ℤ cur)
    unfolding lower_ttl
    lower_bounds =
        rw (-₆₄_exact cur o.decrement t.lowered) (ground (arith, -ℤ_parts cur o.decrement))

  -- A TTL within the bounds stays there. An access that comes earlier than the threshold after the
  -- last, or exactly then, does not shorten it, and a later one does not lengthen it. The comment of
  -- TTLOptions counts an access at exactly the threshold among the later ones, which the code does
  -- not: where the step is not 0 and the maximum leaves room, such an access lengthens the TTL.
  pub adjust_bounds :
      Tuned
      → (o.min_ttl ≤ℤ adjust o cur last now)
        × (adjust o cur last now ≤ℤ o.max_ttl)
        × (time_sub now last ≤ℤ o.freq_threshold → cur ≤ℤ adjust o cur last now)
        × (o.freq_threshold <ℤ time_sub now last → adjust o cur last now ≤ℤ cur)
        × (time_sub now last ≡ o.freq_threshold
            → pos 0 <ℤ o.increment
            → cur <ℤ o.max_ttl
            → cur <ℤ adjust o cur last now)
  unfolding adjust
  adjust_bounds t = (
    ground (arith, raise_bounds t, lower_bounds t),
    ground (arith, raise_bounds t, lower_bounds t),
    ground (arith, raise_bounds t, lower_bounds t),
    ground (arith, raise_bounds t, lower_bounds t),
    λ e up room. ground (arith, raise_more t up room),
  )
