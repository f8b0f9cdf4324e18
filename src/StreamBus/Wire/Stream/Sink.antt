-- ===== src/StreamBus/Wire/Stream/Sink.antt =====
-- streambus/wire.go: writeAll ends, and what it wrote arrives in order.
use mathlib.Core.List.{append_assoc, append-nil}
use go_warp.Base.{
  ℕ, zero, suc, ◌+◌, ◌≤◌, ◌<◌, ◌≡◌, refl, sym, ap, ◌∙◌, pos, pos_part, leb_ℤ, false, Bool-cases,
  Option-cases, inl, inr, List, [], ◌∷◌, ◌++◌, Option, none, some, length, length-drop, drop, arith,
}
use go_warp.Mesh.Buffer.{take}
use go_warp.StreamBus.Wire.{WireError, write_error, short_write}
use go_warp.StreamBus.Wire.Stream.{Writer, wrote, write_loop, write_all}

-- The contract of io.Writer: Write takes the first n bytes, with 0 ≤ n ≤ len(p), error or not.
-- `sink` is what the writer has taken so far.
pub record IsWriter {W : Type 0} (w : Writer W) (sink : W → List ℕ) : Type 0 where
  pub count : List ℕ → W → ℕ
  pub count_is : (content : List ℕ) (s : W) → (w.write content s).0 ≡ pos (count content s)
  pub count_small : (content : List ℕ) (s : W) → count content s ≤ length content
  pub sink_is :
      (content : List ℕ) (s : W)
      → sink (w.write content s).2 ≡ sink s ++ take (count content s) content

take_all : (xs : List ℕ) → take (length xs) xs ≡ xs
take_all [] = refl
take_all (x ∷ xs) = ap (◌∷◌ x) (take_all xs)

pub take_whole : (k : ℕ) (xs : List ℕ) → k ≡ length xs → take k xs ≡ xs
take_whole k xs e = ap (λ (n : ℕ). take n xs) e ∙ take_all xs

take-drop : (i j m : ℕ) (xs : List ℕ) → i + j ≡ m → take i xs ++ take j (drop i xs) ≡ take m xs
take-drop zero j m xs e = ap (λ (k : ℕ). take k xs) (omega (arith, e))
take-drop (suc i) zero zero [] e = refl
take-drop (suc i) zero (suc m) [] e = refl
take-drop (suc i) (suc j) zero [] e = refl
take-drop (suc i) (suc j) (suc m) [] e = refl
take-drop (suc i) j zero (x ∷ xs) e = absurd (omega (arith, e))
take-drop (suc i) j (suc m) (x ∷ xs) e = ap (◌∷◌ x) (take-drop i j m xs (omega (arith, e)))

module _ {W : Type 0} (w : Writer W) (sink : W → List ℕ) (law : IsWriter w sink) where
  -- What the loop leaves: a prefix of the bytes in the sink, all of them where there is no error.
  abbrev pub Delivered : List ℕ → W → Option WireError → W → Type 0
  Delivered content s e s' =
      (k : ℕ) × (k ≤ length content)
      × (sink s' ≡ sink s ++ take k content)
      × (e ≡ none → k ≡ length content)

  write_loop_step :
      (fuel b : ℕ) (bs : List ℕ) (s : W) (n : ℕ)
      → (w.write (b ∷ bs) s).1 ≡ none
      → leb_ℤ (w.write (b ∷ bs) s).0 (pos 0) ≡ false
      → pos_part (w.write (b ∷ bs) s).0 ≡ n
      → write_loop w (suc fuel) (b ∷ bs) s
        ≡ write_loop w fuel (drop n (b ∷ bs)) (w.write (b ∷ bs) s).2
  unfolding write_loop
  write_loop_step fuel b bs s n fine more taken = rw (fine, more, taken) refl

  write_loop-Delivered :
      (fuel : ℕ) (content : List ℕ) (s : W)
      → length content ≤ fuel
      → (e : Option WireError) × (s' : W) × (write_loop w fuel content s ≡ wrote e s')
        × Delivered content s e s'
  unfolding write_loop
  write_loop-Delivered fuel [] s h =
      (none, s, refl, (0, omega arith, sym (append-nil (sink s)), λ _. refl))
  write_loop-Delivered zero (b ∷ bs) s h = absurd (omega arith)
  write_loop-Delivered (suc fuel) (b ∷ bs) s h =
      let content : List ℕ = b ∷ bs in
      let n : ℕ = law.count content s in
      let s' : W = (w.write content s).2 in
      elim (Option-cases (w.write content s).1) [
        | inr (x, failing) ↦ (
          some (write_error x),
          s',
          rw failing refl,
          (n, law.count_small content s, law.sink_is content s, λ h. absurd (cc)),
        )
        | inl fine ↦ elim (Bool-cases (leb_ℤ (w.write content s).0 (pos 0))) [
          | inl stuck ↦ (
            some short_write,
            s',
            rw (fine, stuck) refl,
            (n, law.count_small content s, law.sink_is content s, λ h. absurd (cc)),
          )
          | inr more ↦
              let taken : pos_part (w.write content s).0 ≡ n =
                ap pos_part (law.count_is content s) in
              let some_taken : 0 < n = ground (arith, law.count_is content s) in
              let (e, after, ran, (k, small, arrived, full)) =
                write_loop-Delivered fuel (drop n content) s'
                  (omega (arith, length-drop n content)) in
              (
                e,
                after,
                write_loop_step fuel b bs s n fine more taken ∙ ran,
                (
                  n + k,
                  omega (arith, length-drop n content, law.count_small content s),
                  arrived
                      ∙ ap (λ (t : List ℕ). t ++ take k (drop n content)) (law.sink_is content s)
                      ∙ append_assoc (sink s) (take n content) (take k (drop n content))
                      ∙ ap (λ (t : List ℕ). sink s ++ t) (take-drop n k (n + k) content refl),
                  λ none_given.
                      omega
                        (arith, full none_given, length-drop n content, law.count_small content s),
                ),
              )
        ]
      ]

  -- The loop of writeAll ends for every writer and every content. The writer has then taken a
  -- prefix of the content behind what it had, and all of it where writeAll returns no error.
  pub write_all-ends :
      (content : List ℕ) (s : W)
      → (e : Option WireError) × (s' : W) × (write_all w content s ≡ wrote e s')
        × Delivered content s e s'
  unfolding write_all
  write_all-ends content s = write_loop-Delivered (length content) content s (omega arith)
