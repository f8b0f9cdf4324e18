-- ===== src/Tests/SlidingWindow.antt =====
-- Runs of cache/adaptive/sliding_window.go.
use go_warp.Base.{
  ◌≡◌, refl, pos, some, none, [], ◌∷◌, Key, key_eq, key_beq, has, lookup, insert, delete, ◌-₆₄◌,
  wrap64, time_add, ◌+ℤ◌, ◌-ℤ◌, ◌≤ℤ◌, ◌<ℤ◌, ◌++◌, length, true, false, arith,
}
use go_warp.Cache.SlidingWindow.{SlidingWindow, note_access, after_cutoff, times_of, ttl}
use go_warp.Cache.SlidingWindow.Gauge.{IsCounted, later_than, ttl-IsCounted}

abbrev key : Key
key = 1 ∷ []

abbrev idle : SlidingWindow
idle = record {
  window = pos 10;
  threshold = pos 2;
  cold_ttl = pos 100;
  hot_ttl = pos 500;
  hits = [];
  last_ttl = [];
  hot_keys = [];
  adjust_counter = none;
  hot_gauge = some 0;
}

-- Two accesses in the window.
abbrev busy : SlidingWindow
busy = note_access (pos 21) key (note_access (pos 20) key idle)

busy-IsCounted : IsCounted busy
unfolding note_access
busy-IsCounted = record { once = tt; counted = λ n e. ground (arith, e) }

ttl-IsCounted_example :
    let recent = later_than (pos 25 -ℤ busy.window) (times_of (lookup key busy.hits)) in
    let (answer, s') = ttl (pos 25) key busy in
    (busy.threshold ≤ℤ pos (length recent) → (answer ≡ busy.hot_ttl) × (has key s'.hot_keys ≡ true))
    × (pos (length recent) <ℤ busy.threshold
        → (answer ≡ busy.cold_ttl) × (has key s'.hot_keys ≡ false))
    × (lookup key s'.hits ≡ some recent)
    × IsCounted s'
    × (lookup key (note_access (pos 25) key busy).hits ≡ some (recent ++ pos 25 ∷ []))
unfolding note_access
ttl-IsCounted_example =
    ttl-IsCounted (pos 25) key busy busy-IsCounted (omega arith) (omega arith, omega arith)

ttl_run : ((ttl (pos 25) key busy).0 ≡ pos 500) × ((ttl (pos 31) key busy).0 ≡ pos 100)
unfolding note_access ttl after_cutoff lookup insert delete key_beq ◌-₆₄◌ wrap64 time_add ◌+ℤ◌ ◌-ℤ◌
ttl_run = (refl, refl)
