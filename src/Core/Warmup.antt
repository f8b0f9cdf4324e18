-- ===== src/Core/Warmup.antt =====
-- core/core.go: Warmup and GetAt. The goroutines of Warmup read the store in an order that is a
-- parameter, as are the readings of the clock and the rounds of its loop at which the group's
-- context is done. `none` is the panic on a key that is no longer registered.
pub mod Listing
pub mod Loading
use go_warp.Base.{
  ℕ, zero, suc, Time, Bool, List, [], ◌∷◌, ◌++◌, Key, Option, none, some, if◌then◌else◌,
}
use go_warp.Errors.{Error, Result, Got, ok, err, hit, miss, failed, not_found}
use go_warp.Merge.Engine.{Value, stamped}
use go_warp.Core.Ports.{Ports}
use go_warp.Core.Registry.{Registration, Shards, get_reg, reg_shard_count}
use go_warp.Core.State.{
  Warp, Act, World, ◌>>=◌, ◌>>◌, modify, observed, find_registration, record_access, count_hit,
  count_miss,
}
use go_warp.Core.Get.{keep_fetched}

module _ {F : Type 0} where
  abbrev pub shard_keys : List (Key × Registration F) → List Key
  shard_keys [] = []
  shard_keys ((key, reg) ∷ regs) = key ∷ shard_keys regs

  -- The keys of the shards before shard `n`.
  pub keys_below : ℕ → Shards F → List Key
  keys_below zero shards = []
  keys_below (suc n) shards = keys_below n shards ++ shard_keys (shards n)

  unfoldable pub registered_keys : Shards F → List Key
  unfolding keys_below
  registered_keys shards = keys_below reg_shard_count shards

module _ {F T C S B Q : Type 0} (p : Ports F T C S B Q) where
  abbrev pub add_result : Key → Got T → List (Key × T) → List (Key × T)
  add_result key (hit v) rest = (key, v) ∷ rest
  add_result key miss rest = rest
  add_result key (failed e) rest = rest

  -- What the goroutines send, each after its read of the store.
  pub fetch_all : List Key → S → List (Key × T) × S
  fetch_all [] s = ([], s)
  fetch_all (key ∷ keys) s =
      let (r, s') = p.store_ops.get key s in
      let (rest, s'') = fetch_all keys s' in (add_result key r rest, s'')

  -- The loop over the results, from round `i`.
  pub load_all : (ℕ → Bool) → (ℕ → Time) → ℕ → List (Key × T) → World p → Option (World p)
  load_all done clock i [] w = some w
  load_all done clock i ((key, v) ∷ rest) w =
      let keep = λ (reg : Registration F). keep_fetched p reg key reg.ttl (stamped v (clock i)) w in
      let more = λ (reg : Registration F). load_all done clock (suc i) rest (keep reg) in
      if done i then some w else elim (get_reg key w.shards) [ none ↦ none | some reg ↦ more reg ]

  warm_store : (ℕ → Bool) → (ℕ → Time) → List Key → Option S → World p → Option (World p)
  unfolding fetch_all load_all
  warm_store done clock keys none w = some w
  warm_store done clock keys (some s) w =
      let (results, s') = fetch_all keys s in
      load_all done clock 0 results (record w { store = some s' })

  -- Warmup. `order` is the order in which the goroutines read the store.
  unfoldable pub warmup :
      (ℕ → Bool) → (ℕ → Time) → (List Key → List Key) → World p → Option (World p)
  unfolding warm_store
  warmup done clock order w = warm_store done clock (order (registered_keys w.shards)) w.store w

  get_at_found : Got (Value T) → Act (World p) T
  get_at_found (failed e) w = (err e, w)
  get_at_found (hit v) w = (ok v.datum, count_hit p w)
  get_at_found miss w = (err not_found, count_miss p w)

  -- The cache's own GetAt, where it is a versioned cache.
  get_at_cache : Option (Key → Time → C → Got (Value T) × C) → Key → Time → Act (World p) T
  unfolding get_at_found
  get_at_cache none key t w = (err not_found, w)
  get_at_cache (some look) key t w =
      let (r, c) = look key t w.cache in get_at_found r (record w { cache = c })

  -- GetAt
  unfoldable pub get_at : Option (Key → Time → C → Got (Value T) × C) → Key → Time → Act (World p) T
  unfolding get_at_cache
  get_at look key t = observed p (do
    modify (λ w. record w { get_calls = suc w.get_calls })
    reg ← find_registration p key
    modify (record_access p reg key)
    get_at_cache look key t)
