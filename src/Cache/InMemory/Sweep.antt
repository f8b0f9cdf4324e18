-- ===== src/Cache/InMemory/Sweep.antt =====
-- cache/cache.go: one tick of the sweeper, and the metrics. `range` of the map gives the entries in
-- an order that Go leaves open, so the keys of each pass are a parameter, like its reading of
-- the clock.
pub mod Ends
use go_warp.Base.{
  ℕ, zero, suc, ◌+◌, Time, List, [], ◌∷◌, Key, key_eq, lookup, length, ltb, nat_beq, if◌then◌else◌,
  Option, none, some,
}
use go_warp.Cache.InMemory.{Item, InMemory, is_expired, drop_item}

-- sampleSize, and sampleSize * evictionRatio.
abbrev pub sample_size : ℕ
sample_size = 20

abbrev pub repeat_from : ℕ
repeat_from = 5

-- What Metrics reports.
pub record Stats : Type 0 where
  pub hits : ℕ
  pub misses : ℕ
  pub size : ℕ

module _ {V : Type 0} where
  -- One entry of the sample: 1 and the cache without it, where it is expired.
  pub sweep_entry : Time → Key → Option (Item V) → InMemory V → ℕ × InMemory V
  unfolding is_expired drop_item
  sweep_entry now k none c = (0, c)
  sweep_entry now k (some it) c = if is_expired now it then (1, drop_item k it c) else (0, c)

  abbrev count_more : ℕ → ℕ × InMemory V → ℕ × InMemory V
  count_more n (m, c) = (n + m, c)

  -- At most `left` more entries are checked.
  pub sweep_sample : ℕ → Time → List Key → InMemory V → ℕ × InMemory V
  unfolding sweep_entry
  sweep_sample left now [] c = (0, c)
  sweep_sample zero now (k ∷ ks) c = (0, c)
  sweep_sample (suc left) now (k ∷ ks) c =
      let (n, c') = sweep_entry now k (lookup k c.items) c in
      count_more n (sweep_sample left now ks c')

  module _ (clock : ℕ → Time) (range : ℕ → InMemory V → List Key) where
    -- The passes from number `i` on; `none` is out of fuel, and no behaviour of the code.
    pub sweep_passes : ℕ → ℕ → InMemory V → Option (InMemory V)
    unfolding sweep_sample
    sweep_passes zero i c = none
    sweep_passes (suc fuel) i c =
        let (expired, c') = sweep_sample sample_size (clock i) (range i c) c in
        let rest = sweep_passes fuel (suc i) c' in
        if nat_beq (length c.items) 0
        then some c
        else if ltb expired repeat_from
        then some c'
        else rest

    -- Each pass that is repeated removes an entry at least.
    unfoldable pub sweep : InMemory V → Option (InMemory V)
    unfolding sweep_passes
    sweep c = sweep_passes (suc (length c.items)) 0 c

  unfoldable pub metrics : InMemory V → Stats
  metrics c = record { hits = c.hits; misses = c.misses; size = length c.items }
