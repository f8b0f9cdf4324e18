-- ===== src/Core/State.antt =====
-- core/core.go: the Warp object, the goroutines that it starts, and the steps that its handlers
-- share. A handler is a function from the object to a result and the object afterwards.
use go_warp.Base.{
  ℕ, ◌+◌, ◌≡◌, refl, Duration, Time, ◌+₆₄◌, Bool, List, [], ◌∷◌, ◌++◌, Key, Option, none, some,
}
use go_warp.Errors.{Error, Result, Got, ok, err, miss, unregistered}
use go_warp.Merge.Engine.{Value, Engine}
use go_warp.Core.Ports.{Ports}
use go_warp.Core.Registry.{Registration, Shards, get_reg, update_reg}

-- A goroutine that a handler starts, with what it captures.
pub data Task (F : Type 0) : Type 0 where
  publish_key : Key → Task F
  listen : Key → Task F
  late_refresh : Key → Registration F → Duration → Task F
  eager_refresh : Key → Registration F → Duration → Task F

-- `store`, `bus` and the counters are nil when `none`; `spawned` is oldest first.
pub record Warp (F T C S B Q : Type 0) : Type 0 where
  pub cache : C
  pub store : Option S
  pub bus : Option B
  pub strategies : Q
  pub merges : Engine T
  pub shards : Shards F
  pub publish_errors : List Error
  pub publish_timeout : Duration
  pub trace_enabled : Bool
  pub latency_hist : Option ℕ
  pub hit_counter : Option ℕ
  pub miss_counter : Option ℕ
  pub eviction_counter : Option ℕ
  pub set_calls : ℕ
  pub get_calls : ℕ
  pub invalidate_calls : ℕ
  pub spawned : List (Task F)

-- A handler that may return early with an error.
abbrev pub Act : Type 0 → Type 0 → Type 0
Act W A = W → Result A × W

abbrev pub resume : {W A B : Type 0} → Result A → W → (A → Act W B) → Result B × W
resume (ok a) w f = f a w
resume (err e) w f = (err e, w)

infixl 5 ◌>>=◌ ◌>>◌
abbrev pub ◌>>=◌ : {W A B : Type 0} → Act W A → (A → Act W B) → Act W B
◌>>=◌ m f w = resume (m w).0 (m w).1 f

abbrev pub ◌>>◌ : {W B : Type 0} → Act W (Unit {0}) → Act W B → Act W B
m >> k = m >>= λ _. k

-- To prove something of a handler's outcome, prove it of the error and of each continuation.
pub resume-elim {ℓ} :
    {W A B : Type 0} (R : Result B × W → Type ℓ) (r : Result A) (w : W) (f : A → Act W B)
    → ((a : A) → r ≡ ok a → R (f a w))
    → ((e : Error) → r ≡ err e → R (err e, w))
    → R (resume r w f)
resume-elim R (ok a) w f good bad = good a refl
resume-elim R (err e) w f good bad = bad e refl

abbrev pub give : {W A : Type 0} → A → Act W A
give a w = (ok a, w)

abbrev pub fail : {W A : Type 0} → Error → Act W A
fail e w = (err e, w)

abbrev pub modify : {W : Type 0} → (W → W) → Act W (Unit {0})
modify f w = (ok tt, f w)

abbrev pub outcome : Option Error → Result (Unit {0})
outcome none = ok tt
outcome (some e) = err e

-- `if err != nil { return err }`
abbrev pub check : {W : Type 0} → Option Error → Act W (Unit {0})
check e w = (outcome e, w)

abbrev pub increase : Option ℕ → Option ℕ
increase none = none
increase (some n) = some (n + 1)

abbrev pub registered : {A : Type 0} → Option A → Result A
registered none = err unregistered
registered (some reg) = ok reg

module _ {F T C S B Q : Type 0} (p : Ports F T C S B Q) where
  abbrev pub World : Type 0
  World = Warp F T C S B Q

  -- The deferred latency observation.
  abbrev pub observed : {A : Type 0} → Act World A → Act World A
  observed m w = let (r, w') = m w in (r, record w' { latency_hist = increase w'.latency_hist })

  abbrev pub find_registration : Key → Act World (Registration F)
  find_registration key w = (registered (get_reg key w.shards), w)

  -- `if reg.ttlStrategy != nil { reg.ttlStrategy.Record(key) }`
  abbrev pub record_access : Registration F → Key → World → World
  record_access reg key w = record w {
    strategies = elim (reg.ttl_strategy) [
      | none ↦ w.strategies
      | some n ↦ p.strategy_ops.note_access n key w.strategies
    ];
  }

  abbrev pub ttl_of : Registration F → Key → Duration → Q → Duration
  ttl_of reg key base q = elim (reg.ttl_strategy) [
    | none ↦ base
    | some n ↦ (p.strategy_ops.ttl n key q).0
  ]

  abbrev pub after_ttl : Registration F → Key → World → World
  after_ttl reg key w = record w {
    strategies = elim (reg.ttl_strategy) [
      | none ↦ w.strategies
      | some n ↦ (p.strategy_ops.ttl n key w.strategies).1
    ];
  }

  -- `ttl := base; if reg.ttlStrategy != nil { ttl = reg.ttlStrategy.TTL(key) }`
  abbrev pub next_ttl : Registration F → Key → Duration → Act World Duration
  next_ttl reg key base w = (ok (ttl_of reg key base w.strategies), after_ttl reg key w)

  abbrev pub cache_get : Key → Act World (Got (Value T))
  cache_get key w = let (g, c) = p.cache_ops.get key w.cache in (ok g, record w { cache = c })

  abbrev pub cache_set : Key → Value T → Duration → Act World (Option Error)
  cache_set key v d w =
      let (e, c) = p.cache_ops.set key v d w.cache in (ok e, record w { cache = c })

  abbrev pub cache_invalidate : Key → Act World (Option Error)
  cache_invalidate key w =
      let (e, c) = p.cache_ops.invalidate key w.cache in (ok e, record w { cache = c })

  -- `_ = w.cache.Set(...)`
  abbrev pub cache_put : Key → Value T → Duration → World → World
  cache_put key v d w = record w { cache = (p.cache_ops.set key v d w.cache).1 }

  -- A store lookup where there is a store; without one nothing is found.
  abbrev pub store_get : Key → Act World (Got T)
  store_get key w = (
    ok (elim (w.store) [ none ↦ miss | some s ↦ (p.store_ops.get key s).0 ]),
    record w { store = elim (w.store) [ none ↦ none | some s ↦ some ((p.store_ops.get key s).1) ] },
  )

  -- `if w.store != nil { if err := w.store.Set(...); err != nil { return err } }`
  abbrev pub store_write : Key → T → Act World (Unit {0})
  store_write key d w =
      check (elim (w.store) [ none ↦ none | some s ↦ (p.store_ops.set key d s).0 ])
        (record w {
          store = elim (w.store) [ none ↦ none | some s ↦ some ((p.store_ops.set key d s).1) ];
        })

  -- `reg.currentTTL = ttl; reg.lastAccess = t`, under the registration's lock.
  abbrev pub touch_reg : Key → Duration → Time → World → World
  touch_reg key ttl t w = record w {
    shards = update_reg key (λ reg. record reg { current_ttl = ttl; last_access = t }) w.shards;
  }

  abbrev pub effective_ttl : Registration F → Duration → Duration
  effective_ttl reg ttl = ttl +₆₄ reg.ttl_opts.fail_safe_grace_period

  abbrev pub spawn : Task F → World → World
  spawn task w = record w { spawned = w.spawned ++ task ∷ [] }

  abbrev pub count_hit : World → World
  count_hit w = record w { hit_counter = increase w.hit_counter }

  abbrev pub count_miss : World → World
  count_miss w = record w { miss_counter = increase w.miss_counter }
