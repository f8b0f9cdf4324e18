-- ===== src/Tests/Validator.antt =====
-- Runs of validator/validator.go, over an association list and the in-memory store.
use go_warp.Base.{
  ℕ, ◌+◌, ◌%◌, ◌^◌, ◌≡◌, refl, ap, ◌∙◌, Bool, true, false, ◌&&◌, List, [], ◌∷◌, Key, key_beq,
  key_eq, lookup, insert, listed, lookup-insert, if◌then◌else◌, some, Bool-cases, inl, inr, ◌==◌,
}
use go_warp.Errors.{Result, ok}
use go_warp.Cache.Api.{IsCache}
use go_warp.Core.Ports.{IsStore}
use go_warp.Adapter.{get, set, keys, store_ops}
use go_warp.Validator.{Validator, mode_auto_heal, scan}
use go_warp.Validator.Healing.{mismatch, mismatches_in, scan_lem}
use go_warp.Tests.Cache.{first, second}
use go_warp.Tests.Caches.{assoc_cache, got}

program : Unit {0}
unfolding scan get set keys store_ops lookup insert key_beq
program = tt

assoc_cache-IsCache : IsCache (assoc_cache {V = ℕ})
assoc_cache-IsCache = record {
  get-get = λ k j c. refl;
  get-set = λ k j v ttl c.
      ap got (lookup-insert k j v c)
      ∙ elim (Bool-cases (k == j)) [ inl t ↦ rw t refl | inr f ↦ rw f refl ];
}

store_ops-IsStore : IsStore (store_ops {T = ℕ})
unfolding program
store_ops-IsStore = record { get-get = λ k j s. refl; get-keys = λ j s. refl }

abbrev digest : ℕ → Result Key
digest x = ok (x ∷ [])

abbrev going : ℕ → Bool
going i = false

abbrev stale : Validator (List (Key × ℕ)) (List (Key × ℕ))
stale = record {
  cache = (first, 1) ∷ (second, 5) ∷ [];
  store = some ((first, 2) ∷ (second, 5) ∷ []);
  mode = mode_auto_heal;
  mismatches = 0;
}

abbrev stored : List (Key × ℕ)
stored = (first, 2) ∷ (second, 5) ∷ []

scan_lem_example :
    let v' = scan assoc_cache store_ops digest going stale in
    let bad = λ (j : Key).
      mismatch assoc_cache store_ops digest assoc_cache-IsCache store_ops-IsStore j stale.cache
        stored in
    (v'.mismatches
      ≡ (0
          + mismatches_in assoc_cache store_ops digest assoc_cache-IsCache store_ops-IsStore
              (first ∷ second ∷ [])
              stale.cache
              stored)
        % 2 ^ 64)
    × ((j : Key)
        → (assoc_cache.get j v'.cache).0 ≡ (
            if bad j && (true && listed j (first ∷ second ∷ []))
            then (store_ops.get j stored).0
            else (assoc_cache.get j stale.cache).0))
unfolding program
scan_lem_example =
    scan_lem assoc_cache store_ops digest assoc_cache-IsCache store_ops-IsStore going stale stored
      (first ∷ second ∷ []) refl refl (λ i. refl) (refl, (refl, tt))

healed : (scan assoc_cache store_ops digest going stale).cache ≡ (first, 2) ∷ (second, 5) ∷ []
unfolding program
healed = refl
