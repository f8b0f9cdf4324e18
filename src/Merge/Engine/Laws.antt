-- ===== src/Merge/Engine/Laws.antt =====
-- merge/merge.go: what a merge chooses.
use go_warp.Base.{
  Time, ◌<ℤ◌, ◌≡◌, refl, ◌≢◌, ◌↔◌, ℤ, pos, negsuc, false, Key, key_eq, Option, none, some, arith,
  Distinct, max, lookup, [],
}
use go_warp.Errors.{ok, err}
use go_warp.Merge.Clock.{VectorClock, counter, copy, compare}
use go_warp.Merge.Clock.Order.{Dominates, compare-Reads, counter-merge, counter-copy}
use go_warp.Merge.Engine.{
  Value, Engine, MergeFn, last_write_wins, latest, by_clock, choose, merge, custom_merge,
  merged_clock, has_custom, stamped,
}

-- The counters of a clock that may be nil.
abbrev pub entries : Option VectorClock → VectorClock
entries none = []
entries (some vc) = vc

compare-flip :
    (a b : VectorClock)
    → Distinct a
    → Distinct b
    → ((compare a b ≡ pos 1) ↔ (compare b a ≡ negsuc 0))
      × ((compare a b ≡ negsuc 0) ↔ (compare b a ≡ pos 1))
compare-flip a b da db =
    let ab = compare-Reads a b da db in
    let ba = compare-Reads b a db da in
    (
      (λ e. ba.1.1 (ab.0.0 e), λ e. ab.0.1 (ba.1.0 e)),
      (λ e. ba.0.1 (ab.1.0 e), λ e. ab.1.1 (ba.0.0 e)),
    )

module _ {T : Type 0} where
  by_clock-flip :
      (c d : ℤ) (a b : Value T)
      → a.timestamp ≢ b.timestamp
      → ((c ≡ pos 1) ↔ (d ≡ negsuc 0)) × ((c ≡ negsuc 0) ↔ (d ≡ pos 1))
      → by_clock c a b ≡ by_clock d b a
  unfolding by_clock latest
  by_clock-flip c d a b h k = ground arith

  choose-flip :
      (x y : Option VectorClock) (a b : Value T)
      → Distinct (entries x)
      → Distinct (entries y)
      → a.timestamp ≢ b.timestamp
      → choose x y a b ≡ choose y x b a
  unfolding choose latest
  choose-flip (some x) (some y) a b dx dy h =
      let flip = compare-flip y x dy dx in by_clock-flip (compare y x) (compare x y) a b h flip
  choose-flip none none a b dx dy h = ground arith
  choose-flip none (some y) a b dx dy h = ground arith
  choose-flip (some x) none a b dx dy h = ground arith

  -- Two values merge to the same one in either order, when their timestamps differ.
  pub last_write_wins_comm :
      (a b : Value T)
      → Distinct (entries a.vector)
      → Distinct (entries b.vector)
      → a.timestamp ≢ b.timestamp
      → last_write_wins a b ≡ last_write_wins b a
  unfolding last_write_wins
  last_write_wins_comm a b da db h = choose-flip a.vector b.vector a b da db h

  by_clock_new : (a b : Value T) (c : ℤ) → c ≡ pos 1 → by_clock c a b ≡ b
  unfolding by_clock
  by_clock_new a b c h = rw h

  by_clock_old : (a b : Value T) (c : ℤ) → c ≡ negsuc 0 → by_clock c a b ≡ a
  unfolding by_clock
  by_clock_old a b c h = rw h

  -- A value whose clock strictly dominates wins, on either side, whatever the timestamps say.
  pub last_write_wins_causal :
      (a b : Value T) {x y : VectorClock}
      → a.vector ≡ some x
      → b.vector ≡ some y
      → Distinct x
      → Distinct y
      → Dominates y x
      → ¬ Dominates x y
      → (last_write_wins a b ≡ b) × (last_write_wins b a ≡ b)
  unfolding last_write_wins choose
  last_write_wins_causal a b {x} {y} ea eb dx dy above below =
      let up = (compare-Reads y x dy dx).0.1 (above, below) in
      let down = (compare-Reads x y dx dy).1.1 (above, below) in
      (
        ground (arith, by_clock_new a b (compare y x) up),
        ground (arith, by_clock_old b a (compare x y) down),
      )

merged_clock-max :
    (x y : Option VectorClock) (k : Key)
    → Distinct (entries x)
    → Distinct (entries y)
    → counter k (merged_clock x y) ≡ max (counter k (entries x)) (counter k (entries y))
unfolding merged_clock lookup
merged_clock-max none none k dx dy = omega arith
merged_clock-max none (some y) k dx dy = omega (arith, counter-merge [] y k dy)
merged_clock-max (some x) none k dx dy = omega (arith, counter-copy x k dx)
merged_clock-max (some x) (some y) k dx dy =
    omega (arith, counter-merge (copy x) y k dy, counter-copy x k dx)

-- With a registered function, the engine returns the function's data and error, the new value's
-- timestamp and region, and the join of the two clocks.
pub merge-custom :
    {T : Type 0} (key : Key) (e : Engine T) (fn : MergeFn T) (old new : Value T)
    → lookup key e.custom ≡ some fn
    → Distinct (entries old.vector)
    → Distinct (entries new.vector)
    → ((d : T)
        → fn old.datum new.datum ≡ ok d
        → (v : Value T) × (merge key e old new ≡ ok v)
          × (v.datum ≡ d)
          × (v.timestamp ≡ new.timestamp)
          × (v.region ≡ new.region)
          × ((k : Key)
              → counter k (entries v.vector)
                ≡ max (counter k (entries old.vector)) (counter k (entries new.vector))))
      × ((x : _) → fn old.datum new.datum ≡ err x → merge key e old new ≡ err x)
unfolding merge custom_merge
merge-custom key e fn old new h dx dy = (
  λ d f. (
    record {
      datum = d;
      timestamp = new.timestamp;
      vector = some (merged_clock old.vector new.vector);
      region = new.region;
    },
    ground arith,
    refl,
    refl,
    refl,
    λ k. merged_clock-max old.vector new.vector k dx dy,
  ),
  λ x f. ground arith,
)

-- A new value with no clock wins over an older one, where the key has no merge function.
pub merge-newer :
    {T : Type 0} (key : Key) (e : Engine T) (old : Value T) (d : T) (now : Time)
    → has_custom key e ≡ false
    → old.timestamp <ℤ now
    → merge key e old (stamped d now) ≡ ok (stamped d now)
unfolding merge last_write_wins choose latest has_custom
merge-newer key e old d now plain older = ground arith
