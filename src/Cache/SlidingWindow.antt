-- ===== src/Cache/SlidingWindow.antt =====
-- cache/adaptive/sliding_window.go: a TTL strategy that gives keys with many accesses in a window of
-- time another TTL. Of `hotKeys` only the keys with true are stored; logs are left out. The gauge goes
-- down only for a key that it has counted.
pub mod Gauge
use go_warp.Base.{
  ℕ, suc, ◌+◌, ◌-◌, ◌≡◌, refl, ap, ℤ, pos, ltb_ℤ, leb_ℤ, beq_ℤ, ◌-₆₄◌, Time, Duration, time_add,
  after, Bool, true, false, not, ◌&&◌, List, [], ◌∷◌, ◌++◌, Key, key_eq, lookup, insert, delete,
  has, Option, none, some, if◌then◌else◌, length, arith, Bool-cases, inl, inr, Distinct,
  insert-Distinct, delete-Distinct, length-insert, length-delete, is_some, lookup-delete_self, sym,
  ◌∙◌, lookup-insert_self,
}

pub record SlidingWindow : Type 0 where
  pub window : Duration
  pub threshold : ℤ
  pub cold_ttl : Duration
  pub hot_ttl : Duration
  pub hits : List (Key × List Time)
  pub last_ttl : List (Key × Duration)
  pub hot_keys : List (Key × Unit {0})
  pub adjust_counter : Option ℕ
  pub hot_gauge : Option ℕ

-- The timestamps after the cutoff.
unfoldable pub after_cutoff : Time → List Time → List Time
after_cutoff cutoff [] = []
after_cutoff cutoff (t ∷ ts) =
    let rest = after_cutoff cutoff ts in if after t cutoff then t ∷ rest else rest

-- `s.hits[key]`
abbrev pub times_of : Option (List Time) → List Time
times_of none = []
times_of (some ts) = ts

-- A metric that may be disabled.
abbrev count_up : Option ℕ → Option ℕ
count_up none = none
count_up (some n) = some (n + 1)

abbrev count_down : Option ℕ → Option ℕ
count_down none = none
count_down (some n) = some (n - 1)

abbrev pub cutoff : Time → SlidingWindow → Time
cutoff now s = time_add now (pos 0 -₆₄ s.window)

-- Record
unfoldable pub note_access : Time → Key → SlidingWindow → SlidingWindow
unfolding after_cutoff
note_access now key s = record s {
  hits = insert key (after_cutoff (cutoff now s) (times_of (lookup key s.hits) ++ now ∷ [])) s.hits;
}

-- `last, ok := s.lastTTL[key]; !ok || last != ttl`
abbrev is_new_ttl : Option Duration → Duration → Bool
is_new_ttl none ttl = true
is_new_ttl (some last) ttl = not (beq_ℤ last ttl)

note_ttl : Key → Duration → SlidingWindow → SlidingWindow
note_ttl key ttl s =
    if is_new_ttl (lookup key s.last_ttl) ttl
    then record s {
      adjust_counter = count_up s.adjust_counter;
      last_ttl = insert key ttl s.last_ttl;
    }
    else s

mark : Key → Bool → SlidingWindow → SlidingWindow
mark key hot s =
    if hot && not (has key s.hot_keys)
    then record s { hot_gauge = count_up s.hot_gauge; hot_keys = insert key tt s.hot_keys }
    else if not hot && has key s.hot_keys
    then record s { hot_gauge = count_down s.hot_gauge; hot_keys = delete key s.hot_keys }
    else s

abbrev pub recent_hits : Time → Key → SlidingWindow → List Time
recent_hits now key s = after_cutoff (cutoff now s) (times_of (lookup key s.hits))

abbrev pub is_hot : Time → Key → SlidingWindow → Bool
is_hot now key s = leb_ℤ s.threshold (pos (length (recent_hits now key s)))

-- TTL
unfoldable pub ttl : Time → Key → SlidingWindow → Duration × SlidingWindow
unfolding note_ttl mark
ttl now key s =
    let hot = is_hot now key s in
    let answer = if hot then s.hot_ttl else s.cold_ttl in
    (
      answer,
      mark key hot
          (note_ttl key answer (record s { hits = insert key (recent_hits now key s) s.hits })),
    )
