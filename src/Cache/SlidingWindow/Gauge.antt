-- ===== src/Cache/SlidingWindow/Gauge.antt =====
-- cache/adaptive/sliding_window.go: what TTL answers, and what the gauge counts.
use go_warp.Base.{
  ℕ, ◌+◌, ◌-◌, ◌≡◌, refl, ap, Time, Duration, Bool, true, false, List, [], ◌∷◌, ◌++◌, Key, key_eq,
  lookup, insert, delete, has, Option, none, some, if◌then◌else◌, length, arith, Bool-cases, inl,
  inr, Distinct, insert-Distinct, delete-Distinct, length-insert, length-delete, is_some,
  lookup-delete_self, sym, ◌∙◌, lookup-insert_self, filter_by, ltb_ℤ, pos, ◌-ℤ◌, ◌≤ℤ◌, ◌<ℤ◌, Int64,
  int_laws, time_add, -₆₄_exact, -ℤ_parts,
}
use go_warp.Cache.SlidingWindow.{
  SlidingWindow, count_up, count_down, is_new_ttl, note_ttl, mark, recent_hits, is_hot, ttl,
  after_cutoff, cutoff, times_of, note_access,
}

-- The gauge counts the hot keys.
pub record IsCounted (s : SlidingWindow) : Type 0 where
  pub once : Distinct s.hot_keys
  pub counted : (n : ℕ) → s.hot_gauge ≡ some n → n ≡ length s.hot_keys

count_up_counted :
    (o : Option ℕ) (m n : ℕ) → ((k : ℕ) → o ≡ some k → k ≡ m) → count_up o ≡ some n → n ≡ m + 1
count_up_counted none m n h e = absurd (cc e)
count_up_counted (some k) m n h e = ground (arith, e, h k refl)

count_down_counted :
    (o : Option ℕ) (m n : ℕ) → ((k : ℕ) → o ≡ some k → k ≡ m) → count_down o ≡ some n → n ≡ m - 1
count_down_counted none m n h e = absurd (cc e)
count_down_counted (some k) m n h e = ground (arith, e, h k refl)

mark-IsCounted :
    (key : Key) (hot : Bool) (s : SlidingWindow)
    → IsCounted s
    → IsCounted (mark key hot s) × (has key (mark key hot s).hot_keys ≡ hot)
unfolding mark
mark-IsCounted key true s v = elim (Bool-cases (has key s.hot_keys)) [
  | inl there ↦ simp there (v, refl)
  | inr gone ↦
      let more : length (insert key tt s.hot_keys) ≡ length s.hot_keys + 1 =
        ground (arith, gone, length-insert key tt s.hot_keys) in
      simp gone (
        record {
          once = insert-Distinct key tt s.hot_keys v.once;
          counted =
              λ n e. count_up_counted s.hot_gauge (length s.hot_keys) n v.counted e ∙ sym more;
        },
        ap is_some (lookup-insert_self key tt s.hot_keys),
      )
]
mark-IsCounted key false s v = elim (Bool-cases (has key s.hot_keys)) [
  | inl there ↦
      let less : length s.hot_keys - 1 ≡ length (delete key s.hot_keys) =
        ground (arith, there, length-delete key s.hot_keys v.once) in
      simp there (
        record {
          once = delete-Distinct key s.hot_keys v.once;
          counted = λ n e. count_down_counted s.hot_gauge (length s.hot_keys) n v.counted e ∙ less;
        },
        ap is_some (lookup-delete_self key s.hot_keys),
      )
  | inr gone ↦ simp gone (v, refl)
]

note_ttl-IsCounted :
    (key : Key) (answer : Duration) (s : SlidingWindow)
    → IsCounted s
    → IsCounted (note_ttl key answer s)
unfolding note_ttl
note_ttl-IsCounted key answer s v = elim (Bool-cases (is_new_ttl (lookup key s.last_ttl) answer)) [
  | inl fresh ↦ simp fresh (record { once = v.once; counted = v.counted })
  | inr old ↦ simp old v
]

-- The accesses that are later than a time, in their order.
abbrev pub later_than : Time → List Time → List Time
later_than start ts = filter_by (ltb_ℤ start) ts

after_cutoff-later_than :
    (start : Time) (ts : List Time) → after_cutoff start ts ≡ later_than start ts
unfolding after_cutoff
after_cutoff-later_than start [] = refl
after_cutoff-later_than start (t ∷ ts) = ground (arith, after_cutoff-later_than start ts)

later_than-append :
    (start : Time) (ts us : List Time)
    → later_than start (ts ++ us) ≡ later_than start ts ++ later_than start us
later_than-append start [] us = refl
later_than-append start (t ∷ ts) us = elim (Bool-cases (ltb_ℤ start t)) [
  | inl late ↦ rw late (ap (λ rest. t ∷ rest) (later_than-append start ts us))
  | inr early ↦ rw early (later_than-append start ts us)
]

negated : (d : Duration) → pos 0 <ℤ d → Int64 d → Int64 (pos 0 -ℤ d)
negated d positive fits = ground (arith, positive, fits, -ℤ_parts (pos 0) d)

earlier : (now : Time) (d : Duration) → pos 0 <ℤ d → ltb_ℤ (now -ℤ d) now ≡ true
earlier now d positive = ground (arith, positive, -ℤ_parts now d)

note_ttl-hits :
    (key : Key) (answer : Duration) (s : SlidingWindow) → (note_ttl key answer s).hits ≡ s.hits
unfolding note_ttl
note_ttl-hits key answer s = ground arith

mark-hits : (key : Key) (hot : Bool) (s : SlidingWindow) → (mark key hot s).hits ≡ s.hits
unfolding mark
mark-hits key hot s = ground arith

-- The start of the window, where its length is an int64 other than the least.
cutoff-exact :
    (now : Time) (s : SlidingWindow) → Int64 (pos 0 -ℤ s.window) → cutoff now s ≡ now -ℤ s.window
unfolding time_add
cutoff-exact now s fits = rw (-₆₄_exact (pos 0) s.window fits) (grind int_laws)

-- An access to a key is recorded behind those that are still in the window, which starts `window`
-- before it. TTL then counts the recorded accesses that are later than the start of its own window:
-- it answers the hot TTL if they are as many as the threshold says, and the cold one otherwise, and
-- keeps these accesses only. The key is marked as hot exactly in the first case, and the gauge
-- counts the keys that are. The window's length is positive.
pub ttl-IsCounted :
    (now : Time) (key : Key) (s : SlidingWindow)
    → IsCounted s
    → pos 0 <ℤ s.window
    → Int64 s.window
    → let recent = later_than (now -ℤ s.window) (times_of (lookup key s.hits)) in
      let (answer, s') = ttl now key s in
      (s.threshold ≤ℤ pos (length recent) → (answer ≡ s.hot_ttl) × (has key s'.hot_keys ≡ true))
      × (pos (length recent) <ℤ s.threshold → (answer ≡ s.cold_ttl) × (has key s'.hot_keys ≡ false))
      × (lookup key s'.hits ≡ some recent)
      × IsCounted s'
      × (lookup key (note_access now key s).hits ≡ some (recent ++ now ∷ []))
unfolding ttl note_access
ttl-IsCounted now key s v positive fits =
    let hot = is_hot now key s in
    let answer = if hot then s.hot_ttl else s.cold_ttl in
    let s0 = record s { hits = insert key (recent_hits now key s) s.hits } in
    let (counted, marked) =
      mark-IsCounted key hot (note_ttl key answer s0)
        (note_ttl-IsCounted key answer s0 (record { once = v.once; counted = v.counted })) in
    let recent = later_than (now -ℤ s.window) (times_of (lookup key s.hits)) in
    let same : recent_hits now key s ≡ recent =
      rw (cutoff-exact now s (negated s.window positive fits))
        (after_cutoff-later_than (now -ℤ s.window) (times_of (lookup key s.hits))) in
    (
      λ many.
          let at : is_hot now key s ≡ true = rw same (ground (arith, many)) in
          (rw at refl, marked ∙ at),
      λ few.
          let at : is_hot now key s ≡ false = rw same (ground (arith, few)) in
          (rw at refl, marked ∙ at),
      rw (mark-hits key hot (note_ttl key answer s0), note_ttl-hits key answer s0)
          (lookup-insert_self key (recent_hits now key s) s.hits ∙ ap some same),
      counted,
      rw (lookup-insert_self key _ s.hits, cutoff-exact now s (negated s.window positive fits))
          (ap some (
            after_cutoff-later_than (now -ℤ s.window) (times_of (lookup key s.hits) ++ now ∷ [])
            ∙ later_than-append (now -ℤ s.window) (times_of (lookup key s.hits)) (now ∷ [])
            ∙ rw (earlier now s.window positive) refl)),
    )
