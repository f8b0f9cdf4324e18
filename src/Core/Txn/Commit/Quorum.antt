-- ===== src/Core/Txn/Commit/Quorum.antt =====
-- core/core.go: a commit of strong keys applies nothing before every quorum is reached.
use go_warp.Base.{
  ◌+◌, ℤ, ◌≡◌, refl, sym, ◌∙◌, ap, ◌≢◌, ◌⊎◌, inl, inr, Time, Bool, true, List, [], ◌∷◌, Key, key_eq,
  key_beq_iff, ◌==◌, has, lookup, Option, none, some, arith, Bool-cases, beq_refl,
}
use go_warp.Errors.{Error, Result, Got, ok, hit, miss, failed}
use go_warp.Merge.Engine.{Value, stamped}
use go_warp.Core.Ports.{Ports}
use go_warp.Core.Registry.{Registration, get_reg, quorum_size, Mode, strong_distributed}
use go_warp.Core.State.{
  Warp, World, Act, resume-elim, outcome, resume, registered, record_access, after_ttl, ◌>>◌,
}
use go_warp.Core.Txn.{Txn}
use go_warp.Core.Txn.Commit.{
  BatchOps, Progress, open_with, begin, swapped, await_on, await_quorum, on_world, by_mode,
  deliver_set, set_one, set_new, set_registered, set_each, delete_one, delete_registered,
  delete_each, publish_all, apply_all, commit_body, commit,
}

module _ {F T C S B Q : Type 0} (p : Ports F T C S B Q) where
  -- What lookups alone make of a cache.
  pub data Looked (c : C) : C → Type 0 where
    same : Looked c c
    look : {c' : C} (key : Key) → Looked c c' → Looked c (p.cache_ops.get key c').1

  look_all : {c c' c'' : C} → Looked c c' → Looked c' c'' → Looked c c''
  look_all a same = a
  look_all a (look key b) = look key (look_all a b)

  -- A registered key is strong.
  abbrev pub IsStrong : Key → Warp F T C S B Q → Type 0
  IsStrong key w =
      (reg : Registration F) → get_reg key w.shards ≡ some reg → reg.mode ≡ strong_distributed

  -- The bus reaches no quorum for the key.
  abbrev pub Refuses : Key → Type 0
  Refuses key = (n : ℤ) (b : B) → (p.bus_ops.publish_and_await key n b).0 ≢ none

  module _ {X : Type 0} (batching : Option (BatchOps S T X)) (same_data : T → T → Bool)
      (clock : Key → Time) where
    abbrev Run : Type 0
    Run = Progress F T C S B Q X

    record Quiet (r r' : Run) : Type 0 where
      store : r'.world.store ≡ r.world.store
      shards : r'.world.shards ≡ r.world.shards
      batch : r'.batch ≡ r.batch
      cache : Looked r.world.cache r'.world.cache

    Quiet-refl : (r : Run) → Quiet r r
    Quiet-refl r = record { store = refl; shards = refl; batch = refl; cache = same }

    Quiet-trans : (a b c : Run) → Quiet a b → Quiet b c → Quiet a c
    Quiet-trans a b c x y = record {
      store = y.store ∙ x.store;
      shards = y.shards ∙ x.shards;
      batch = y.batch ∙ x.batch;
      cache = look_all x.cache y.cache;
    }

    -- A step that is quiet, and fails if the bus refuses the key.
    abbrev Held : Key → Run → Result (Unit {0}) × Run → Type 0
    Held key r out = Quiet r out.1 × (Refuses key → out.0 ≢ ok tt)

    outcome-refused : (e : Option Error) → e ≢ none → outcome e ≢ ok tt
    outcome-refused none h x = h refl
    outcome-refused (some e) h x = cc

    await_on-Held :
        (o : Option B) (reg : Registration F) (key : Key) (r : Run)
        → Held key r
            (on_world p batching same_data clock (await_on p batching same_data clock o reg key) r)
    unfolding await_on
    await_on-Held none reg key r =
        (record { store = refl; shards = refl; batch = refl; cache = same }, λ h e. cc)
    await_on-Held (some b) reg key r = (
      record { store = refl; shards = refl; batch = refl; cache = same },
      λ h. outcome-refused _ (h (quorum_size reg) b),
    )

    -- A held step followed by a quiet one is held.
    then-Held :
        (key : Key) (r : Run) (m : Result (Unit {0}) × Run) (k : Act Run (Unit {0}))
        → Held key r m
        → ((x : Run) → Quiet x (k x).1)
        → Held key r (resume m.0 m.1 (λ u. k))
    then-Held key r m k h quiet =
        resume-elim (λ out. Quiet r out.1 × (Refuses key → out.0 ≢ ok tt)) m.0 m.1 (λ u. k)
          (λ u e. (Quiet-trans r m.1 (k m.1).1 h.0 (quiet m.1), λ no. absurd (h.1 no e)))
          (λ e x. (h.0, λ no y. cc))

    by_mode-Held :
        (mode : Mode) (reg : Registration F) (key : Key) (apply : Act Run (Unit {0}))
        (queue : Run → Run) (r : Run)
        → mode ≡ strong_distributed
        → ((x : Run) → Quiet x (queue x))
        → Held key r (by_mode p batching same_data clock mode reg key apply queue r)
    unfolding by_mode await_quorum
    by_mode-Held mode reg key apply queue r strong quiet =
        rw strong
          (then-Held key r _ (λ x. (ok tt, queue x)) (await_on-Held r.world.bus reg key r) quiet)

    set_new-Held :
        (reg : Registration F) (key : Key) (new : Value T) (r : Run)
        → reg.mode ≡ strong_distributed
        → Held key r (set_new p batching same_data clock reg key new r)
    unfolding set_new deliver_set
    set_new-Held reg key new r strong =
        let moved : Run = record r { world = after_ttl p reg key r.world } in
        let (quiet, refused) =
          by_mode-Held reg.mode reg key _ _ moved strong
            (λ x. record { store = refl; shards = refl; batch = refl; cache = same }) in
        (
          record {
            store = quiet.store;
            shards = quiet.shards;
            batch = quiet.batch;
            cache = quiet.cache;
          },
          refused,
        )

    swapped-world :
        (t : Txn T) (key : Key) (new : Value T) (g : Got (Value T)) (w : World p)
        → (swapped p batching same_data clock t key new g w).1 ≡ w
    unfolding swapped
    swapped-world t key new (failed e) w = refl
    swapped-world t key new miss w = refl
    swapped-world t key new (hit v) w = refl

    set_registered-Held :
        (t : Txn T) (key : Key) (value : T) (reg : Registration F) (r : Run)
        → reg.mode ≡ strong_distributed
        → Held key r (set_registered p batching same_data clock t key value reg r)
    unfolding set_registered
    set_registered-Held t key value reg r strong =
        let w = record_access p reg key r.world in
        let g = p.cache_ops.get key r.world.cache in
        let seen : Run = record r {
          world = record w { cache = g.1; set_calls = w.set_calls + 1 };
        } in
        let s =
          swapped p batching same_data clock t key (stamped value (clock key)) g.0 seen.world in
        let still = swapped-world t key (stamped value (clock key)) g.0 seen.world in
        let left : Run = record seen { world = s.1 } in
        let quiet : Quiet r left = record {
          store = ap (λ (x : World p). x.store) still;
          shards = ap (λ (x : World p). x.shards) still;
          batch = refl;
          cache = rw still (look key same);
        } in
        resume-elim (λ out. Quiet r out.1 × (Refuses key → out.0 ≢ ok tt)) s.0 left
          (λ new. set_new p batching same_data clock reg key new)
          (λ new e.
            let (q, refused) = set_new-Held reg key new left strong in
            (Quiet-trans r left _ quiet q, refused))
          (λ e x. (quiet, λ no y. cc))

    found_registered : {A : Type 0} (o : Option A) (a : A) → registered o ≡ ok a → o ≡ some a
    found_registered none a e = absurd (cc)
    found_registered (some x) a e = cc

    set_one-Held :
        (t : Txn T) (key : Key) (value : T) (r : Run)
        → IsStrong key r.world
        → Held key r (set_one p batching same_data clock t key value r)
    unfolding set_one
    set_one-Held t key value r strong =
        resume-elim (λ out. Quiet r out.1 × (Refuses key → out.0 ≢ ok tt))
          (registered (get_reg key r.world.shards)) r
          (λ reg. set_registered p batching same_data clock t key value reg)
          (λ reg e. set_registered-Held t key value reg r (strong reg (found_registered _ reg e)))
          (λ e x. (Quiet-refl r, λ no y. cc))

    delete_one-Held :
        (key : Key) (r : Run)
        → IsStrong key r.world
        → Held key r (delete_one p batching same_data clock key r)
    unfolding delete_one delete_registered
    delete_one-Held key r strong =
        let counted : Run = record r {
          world = record r.world { invalidate_calls = r.world.invalidate_calls + 1 };
        } in
        let counts : Quiet r counted = record {
          store = refl;
          shards = refl;
          batch = refl;
          cache = same;
        } in
        resume-elim (λ out. Quiet r out.1 × (Refuses key → out.0 ≢ ok tt))
          (registered (get_reg key r.world.shards)) counted
          (λ reg. delete_registered p batching same_data clock key reg)
          (λ reg e.
            let (q, refused) =
              by_mode-Held reg.mode reg key _ _ counted (strong reg (found_registered _ reg e))
                (λ x. record { store = refl; shards = refl; batch = refl; cache = same }) in
            (Quiet-trans r counted _ counts q, refused))
          (λ e x. (counts, λ no y. cc))

    abbrev AllStrong {ℓ} : {A : Type ℓ} → List (Key × A) → Run → Type 0
    AllStrong entries r = (k : Key) → has k entries ≡ true → IsStrong k r.world

    AllStrong-Quiet {ℓ} :
        {A : Type ℓ} (entries : List (Key × A)) (r r' : Run)
        → Quiet r r'
        → AllStrong entries r
        → AllStrong entries r'
    AllStrong-Quiet entries r r' q h k there reg e =
        h k there reg (ap (get_reg k) (sym q.shards) ∙ e)

    has-there {ℓ} :
        {A : Type ℓ} (key k : Key) (a : A) (entries : List (Key × A))
        → has k entries ≡ true
        → has k ((key, a) ∷ entries) ≡ true
    unfolding lookup
    has-there key k a entries h = ground arith

    has-here {ℓ} :
        {A : Type ℓ} (key : Key) (a : A) (entries : List (Key × A))
        → has key ((key, a) ∷ entries) ≡ true
    unfolding lookup
    has-here key a entries = ground (arith, beq_refl key)

    -- All steps of a loop over entries are held.
    abbrev HeldAll {ℓ} : {A : Type ℓ} → List (Key × A) → Run → Result (Unit {0}) × Run → Type 0
    HeldAll entries r out =
        Quiet r out.1 × ((k : Key) → has k entries ≡ true → Refuses k → out.0 ≢ ok tt)

    HeldAll-cons {ℓ} :
        {A : Type ℓ} (key : Key) (a : A) (entries : List (Key × A)) (r : Run)
        (m : Result (Unit {0}) × Run) (rest : Act Run (Unit {0}))
        → Held key r m
        → HeldAll entries m.1 (rest m.1)
        → HeldAll ((key, a) ∷ entries) r (resume m.0 m.1 (λ u. rest))
    unfolding lookup
    HeldAll-cons key a entries r m rest h k =
        resume-elim (HeldAll ((key, a) ∷ entries) r) m.0 m.1 (λ u. rest)
          (λ u e. (
            Quiet-trans r m.1 (rest m.1).1 h.0 k.0,
            λ j there no. elim (Bool-cases (key == j)) [
              | inl t ↦ absurd (h.1 (rw ((key_beq_iff key j).0 t) no) e)
              | inr f ↦ k.1 j (ground arith) no
            ],
          ))
          (λ e x. (h.0, λ j there no y. cc))

    set_each-Held :
        (t : Txn T) (sets : List (Key × T)) (r : Run)
        → AllStrong sets r
        → HeldAll sets r (set_each p batching same_data clock t sets r)
    unfolding set_each lookup
    set_each-Held t [] r strong = (Quiet-refl r, λ k there no. absurd (cc))
    set_each-Held t ((key, value) ∷ sets) r strong =
        let h = set_one-Held t key value r (strong key (has-here key value sets)) in
        let later =
          AllStrong-Quiet sets r _ h.0 (λ k there. strong k (has-there key k value sets there)) in
        HeldAll-cons key value sets r _ (set_each p batching same_data clock t sets) h
          (set_each-Held t sets _ later)

    delete_each-Held :
        (deletes : List (Key × Unit {0})) (r : Run)
        → AllStrong deletes r
        → HeldAll deletes r (delete_each p batching same_data clock deletes r)
    unfolding delete_each lookup
    delete_each-Held [] r strong = (Quiet-refl r, λ k there no. absurd (cc))
    delete_each-Held ((key, u) ∷ deletes) r strong =
        let h = delete_one-Held key r (strong key (has-here key u deletes)) in
        let later =
          AllStrong-Quiet deletes r _ h.0 (λ k there. strong k (has-there key k u deletes there)) in
        HeldAll-cons key u deletes r _ (delete_each p batching same_data clock deletes) h
          (delete_each-Held deletes _ later)

    publish_all-Held :
        (t : Txn T) (key : Key) (r : Run)
        → AllStrong t.sets r
        → AllStrong t.deletes r
        → (has key t.sets ≡ true) ⊎ (has key t.deletes ≡ true)
        → Held key r (publish_all p batching same_data clock t r)
    unfolding publish_all
    publish_all-Held t key r sets deletes queued =
        let first = set_each-Held t t.sets r sets in
        let m = set_each p batching same_data clock t t.sets r in
        let second =
          delete_each-Held t.deletes m.1 (AllStrong-Quiet t.deletes r m.1 first.0 deletes) in
        resume-elim (λ out. Quiet r out.1 × (Refuses key → out.0 ≢ ok tt)) m.0 m.1
          (λ u. delete_each p batching same_data clock t.deletes)
          (λ u e. (
            Quiet-trans r m.1 _ first.0 second.0,
            λ no. elim queued [
              | inl set ↦ absurd (first.1 key set no e)
              | inr deleted ↦ second.1 key deleted no
            ],
          ))
          (λ e x. (first.0, λ no y. cc))

    -- A commit in which every key is strong, and for one of whose keys the bus reaches no quorum,
    -- fails with nothing applied: the registrations are as before, the cache has seen lookups only,
    -- and the store, which may have opened a batch, has been sent none of it.
    pub commit-refused :
        (t : Txn T) (key : Key) (w : World p)
        → ((k : Key) → has k t.sets ≡ true → IsStrong k w)
        → ((k : Key) → has k t.deletes ≡ true → IsStrong k w)
        → (has key t.sets ≡ true) ⊎ (has key t.deletes ≡ true)
        → Refuses key
        → let out = commit p batching same_data clock t w in
          (out.0 ≢ ok tt)
          × (out.1.shards ≡ w.shards)
          × Looked w.cache out.1.cache
          × (out.1.store ≡ (open_with batching w.store).1)
    unfolding commit commit_body begin
    commit-refused t key w sets deletes queued refuses =
        let start = begin p batching same_data clock w in
        let held = publish_all-Held t key start.1 sets deletes queued in
        let m = publish_all p batching same_data clock t start.1 in
        let (quiet, fails) : Quiet start.1 _ × (_ ≢ ok tt) =
          resume-elim (λ (out : Result (Unit {0}) × Run). Quiet start.1 out.1 × (out.0 ≢ ok tt))
            start.0 start.1
            (λ u. publish_all p batching same_data clock t >> apply_all p batching same_data clock)
            (λ u e.
              resume-elim (λ (out : Result (Unit {0}) × Run). Quiet start.1 out.1 × (out.0 ≢ ok tt))
                m.0 m.1 (λ u. apply_all p batching same_data clock)
                (λ u x. absurd (held.1 refuses x)) (λ x y. (held.0, λ z. cc)))
            (λ e x. (Quiet-refl start.1, λ z. cc)) in
        (fails, quiet.shards, quiet.cache, quiet.store)
