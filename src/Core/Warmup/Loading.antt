-- ===== src/Core/Warmup/Loading.antt =====
-- core/core.go: what Warmup leaves in the cache.
use go_warp.Base.{
  sym, ℕ, suc, ◌≡◌, refl, ap, ◌∙◌, Time, Duration, Bool, true, false, List, [], ◌∷◌, Key, key_eq,
  key_beq_iff, ◌==◌, if◌then◌else◌, Option, none, some, arith, Bool-cases, Option-cases, inl, inr,
  is_some, beq_refl, listed,
}
use go_warp.Errors.{Got, hit, miss, failed}
use go_warp.Cache.Api.{IsCache}
use go_warp.Merge.Engine.{Value, stamped}
use go_warp.Core.Ports.{Ports, IsStore}
use go_warp.Core.Registry.{Registration, get_reg}
use go_warp.Core.Registry.Shards.{get_reg-update_reg}
use go_warp.Core.State.{World}
use go_warp.Core.Get.{keep_fetched}
use go_warp.Core.Warmup.{add_result, fetch_all, load_all, warm_store, registered_keys, warmup}
use go_warp.Core.Warmup.Listing.{Sharded, listed-registered_keys}

abbrev pub or_else : {T : Type 0} → Option T → Option T → Option T
or_else (some x) d = some x
or_else none d = d

or_else-none : {T : Type 0} (c : Bool) (o : Option T) → o ≡ or_else o (if c then none else none)
or_else-none c (some x) = refl
or_else-none true none = refl
or_else-none false none = refl

pick :
    {T : Type 0} (c l : Bool) (o : Option T)
    → or_else (if l then o else none) (if c then o else none)
      ≡ (if (if c then true else l) then o else none)
pick true true none = refl
pick true true (some x) = refl
pick false true none = refl
pick false true (some x) = refl
pick true false o = refl
pick false false o = refl

module _ {F T C S B Q : Type 0} (p : Ports F T C S B Q) (law : IsCache p.cache_ops) where
  keep_fetched-cache :
      (k j : Key) (reg : Registration F) (base : Duration) (mv : Value T) (w : World p)
      → (p.cache_ops.get j (keep_fetched p reg k base mv w).cache).0
        ≡ (if k == j then hit mv else (p.cache_ops.get j w.cache).0)
  unfolding keep_fetched
  keep_fetched-cache k j reg base mv w = law.get-set k j mv _ w.cache

  -- A registration stays one.
  keep_fetched-registered :
      (k j : Key) (reg : Registration F) (base : Duration) (mv : Value T) (w : World p)
      → is_some (get_reg j w.shards) ≡ true
      → is_some (get_reg j (keep_fetched p reg k base mv w).shards) ≡ true
  unfolding keep_fetched
  keep_fetched-registered k j reg base mv w h =
      rw (get_reg-update_reg k j _ w.shards) (elim (Bool-cases (k == j)) [
        | inr f ↦ rw f h
        | inl t ↦ elim (Option-cases (get_reg k w.shards)) [
          | inl nothing ↦ absurd (
              ground
                (arith, h, nothing, ap (λ (x : Key). get_reg x w.shards) ((key_beq_iff k j).0 t)))
          | inr (r, there) ↦ rw (t, there) refl
        ]
      ])

  -- A value that was loaded, with some timestamp, or what was there.
  abbrev pub Loaded : Option T → Got (Value T) → Got (Value T) → Type 0
  Loaded none before after = after ≡ before
  Loaded (some v) before after = (t : Time) × (after ≡ hit (stamped v t))

  -- The last result of a key.
  abbrev pub result_of : Key → List (Key × T) → Option T
  result_of j [] = none
  result_of j ((k, v) ∷ rest) = or_else (result_of j rest) (if k == j then some v else none)

  abbrev Registered : List (Key × T) → World p → Type 0
  Registered results w =
      (j : Key) → is_some (result_of j results) ≡ true → is_some (get_reg j w.shards) ≡ true

  first_result :
      (k : Key) (v : T) (rest : List (Key × T)) → is_some (result_of k ((k, v) ∷ rest)) ≡ true
  first_result k v rest = elim (Option-cases (result_of k rest)) [
    | inl nothing ↦ rw (nothing, beq_refl k) refl
    | inr (x, there) ↦ rw there refl
  ]

  later_result :
      (j k : Key) (v : T) (rest : List (Key × T))
      → is_some (result_of j rest) ≡ true
      → is_some (result_of j ((k, v) ∷ rest)) ≡ true
  later_result j k v rest h = elim (Option-cases (result_of j rest)) [
    | inl nothing ↦ absurd (ground (arith, h, nothing))
    | inr (x, there) ↦ rw there refl
  ]

  Loaded-cons :
      (j k : Key) (v : T) (t : Time) (rest : List (Key × T)) (before between after : Got (Value T))
      → between ≡ (if k == j then hit (stamped v t) else before)
      → Loaded (result_of j rest) between after
      → Loaded (result_of j ((k, v) ∷ rest)) before after
  Loaded-cons j k v t rest before between after e loaded = elim (Option-cases (result_of j rest)) [
    | inr (x, there) ↦ rw there (rw there at loaded)
    | inl nothing ↦
        let same : after ≡ between = rw nothing at loaded in
        elim (Bool-cases (k == j)) [
          | inl h ↦ rw (nothing, h) (t, same ∙ rw h at e)
          | inr h ↦ rw (nothing, h) (same ∙ rw h at e)
        ]
  ]

  load_all-Loaded :
      (done : ℕ → Bool) (clock : ℕ → Time) (i : ℕ) (results : List (Key × T)) (w : World p)
      → ((n : ℕ) → done n ≡ false)
      → Registered results w
      → (w' : World p) × (load_all p done clock i results w ≡ some w')
        × ((j : Key)
            → Loaded
                (result_of j results)
                (p.cache_ops.get j w.cache).0
                (p.cache_ops.get j w'.cache).0)
  unfolding load_all
  load_all-Loaded done clock i [] w going regs = (w, refl, λ j. refl)
  load_all-Loaded done clock i ((k, v) ∷ rest) w going regs =
      elim (Option-cases (get_reg k w.shards)) [
        | inl nothing ↦ absurd (ground (arith, regs k (first_result k v rest), nothing))
        | inr (reg, there) ↦
            let w' = keep_fetched p reg k reg.ttl (stamped v (clock i)) w in
            let (w'', ran, loaded) = load_all-Loaded done clock (suc i) rest w' going (λ j h.
              keep_fetched-registered k j reg reg.ttl _ w (regs j (later_result j k v rest h))) in
            (
              w'',
              rw (going i, there) ran,
              λ j.
                  Loaded-cons j k v (clock i) rest _ _ _
                    (keep_fetched-cache k j reg reg.ttl (stamped v (clock i)) w) (loaded j),
            )
      ]

  abbrev pub value_of : Got T → Option T
  value_of (hit v) = some v
  value_of miss = none
  value_of (failed e) = none

  module _ (reads : IsStore p.store_ops) where
    -- What is stored under a key that is listed.
    abbrev pub stored_at : Key → List Key → S → Option T
    stored_at j keys s = if listed j keys then value_of (p.store_ops.get j s).0 else none

    stored-listed :
        (j : Key) (keys : List Key) (s : S)
        → is_some (stored_at j keys s) ≡ true
        → listed j keys ≡ true
    stored-listed j keys s h = elim (Bool-cases (listed j keys)) [
      | inl t ↦ t
      | inr f ↦ absurd (ground (arith, h, f))
    ]

    result_of-add_result :
        (j key : Key) (r : Got T) (rest : List (Key × T))
        → result_of j (add_result p key r rest)
          ≡ or_else (result_of j rest) (if key == j then value_of r else none)
    result_of-add_result j key (hit v) rest = refl
    result_of-add_result j key miss rest = or_else-none (key == j) (result_of j rest)
    result_of-add_result j key (failed e) rest = or_else-none (key == j) (result_of j rest)

    result_of-fetch_all :
        (j : Key) (keys : List Key) (s : S)
        → result_of j (fetch_all p keys s).0 ≡ stored_at j keys s
    unfolding fetch_all
    result_of-fetch_all j [] s = refl
    result_of-fetch_all j (key ∷ keys) s =
        let s' = (p.store_ops.get key s).1 in
        let rest : result_of j (fetch_all p keys s').0 ≡ stored_at j keys s =
          rw (reads.get-get key j s) at (result_of-fetch_all j keys s') in
        result_of-add_result j key (p.store_ops.get key s).0 (fetch_all p keys s').0
        ∙ rw rest (elim (Bool-cases (key == j)) [
          | inl t ↦
              rw (t, (key_beq_iff key j).0 t)
                (pick true (listed j keys) (value_of (p.store_ops.get j s).0))
          | inr f ↦ rw f (pick false (listed j keys) (value_of (p.store_ops.get j s).0))
        ])

    -- The value that the store has for a registered key.
    abbrev pub value_at : Key → World p → S → Option T
    value_at j w s = if is_some (get_reg j w.shards) then value_of (p.store_ops.get j s).0 else none

    -- Warmup, where its context is not done before the last result, ends without a panic, in
    -- whatever order the registered keys are read. Each registered key that the store has then reads
    -- from the cache as the store's value, with some timestamp, and every other key reads as it did.
    -- Each shard holds only keys of its own.
    pub warmup-Loaded :
        (done : ℕ → Bool) (clock : ℕ → Time) (order : List Key → List Key) (w : World p) (s : S)
        → w.store ≡ some s
        → ((n : ℕ) → done n ≡ false)
        → ((k : Key) (ks : List Key) → listed k (order ks) ≡ listed k ks)
        → Sharded w.shards
        → (w' : World p) × (warmup p done clock order w ≡ some w')
          × ((j : Key)
              → Loaded
                  (value_at j w s)
                  (p.cache_ops.get j w.cache).0
                  (p.cache_ops.get j w'.cache).0)
    unfolding warmup warm_store
    warmup-Loaded done clock order w s held going same fine =
        let keys = order (registered_keys w.shards) in
        let all =
          λ (j : Key). same j (registered_keys w.shards) ∙ listed-registered_keys j w.shards fine in
        let found = λ (j : Key). result_of-fetch_all j keys s in
        let s' = (fetch_all p keys s).1 in
        let (w', ran, loaded) =
          load_all-Loaded done clock 0 (fetch_all p keys s).0 (record w { store = some s' }) going
            (λ j h. sym (all j) ∙ stored-listed j keys s (rw (found j) at h)) in
        (w', rw held ran, λ j. rw (all j) at (rw (found j) at (loaded j)))
