-- ===== src/Core/Lease/Revocation.antt =====
-- core/lease.go: a revocation invalidates the keys of its lease, once.
use go_warp.Base.{
  ◌≡◌, refl, ◌∙◌, Bool, true, List, [], ◌∷◌, Key, key_eq, key_beq_iff, ◌==◌, lookup,
  lookup-insert_self, lookup-delete, lookup-delete_self, listed, Option, none, some, arith,
  Bool-cases, inl, inr, if◌then◌else◌,
}
use go_warp.Errors.{miss}
use go_warp.Cache.Api.{CacheOps}
use go_warp.Core.Lease.{
  LeaseBusOps, Lease, LeaseManager, add_key, enter_lease, attach, attach_to, invalidate_each,
  revoke, revoke_found,
}

-- An invalidated key is missing, and the others read as before.
pub record Invalidates {C V : Type 0} (ops : CacheOps C V) : Type 0 where
  pub get-invalidate :
      (k j : Key) (c : C)
      → (ops.get j (ops.invalidate k c).1).0 ≡ (if k == j then miss else (ops.get j c).0)

-- The keys of a lease.
abbrev pub keys_of : {Ch : Type 0} → Option (Lease Ch) → List Key
keys_of none = []
keys_of (some l) = l.keys

listed-add_key :
    (j key : Key) (keys : List Key)
    → listed j (add_key key keys) ≡ (if key == j then true else listed j keys)
listed-add_key j key keys = elim (Bool-cases (listed key keys)) [
  | inr f ↦ rw f refl
  | inl t ↦ elim (Bool-cases (key == j)) [
    | inr other ↦ rw (t, other) refl
    | inl same ↦ rw (t, same) (rw ((key_beq_iff key j).0 same) at t)
  ]
]

module _ {B Ch C V : Type 0} (bus_ops : LeaseBusOps B Ch) (cache_ops : CacheOps C V) where
  invalidate_each-get :
      (law : Invalidates cache_ops) (j : Key) (ks : List Key) (c : C)
      → (cache_ops.get j (invalidate_each bus_ops cache_ops ks c)).0
        ≡ (if listed j ks then miss else (cache_ops.get j c).0)
  unfolding invalidate_each
  invalidate_each-get law j [] c = refl
  invalidate_each-get law j (k ∷ ks) c =
      invalidate_each-get law j ks (cache_ops.invalidate k c).1
      ∙ rw (law.get-invalidate k j c)
          (elim (Bool-cases (k == j)) [ inl t ↦ rw t (ground arith) | inr f ↦ rw f refl ])

  attach_to-keys :
      (o : Option (Lease Ch)) (id key j : Key) (m : LeaseManager B Ch)
      → listed j (keys_of (lookup id (attach_to bus_ops o id key m).leases))
        ≡ (if key == j then true else listed j (keys_of o))
  unfolding attach_to enter_lease
  attach_to-keys none id key j m = rw (lookup-insert_self id _ m.leases) refl
  attach_to-keys (some l) id key j m =
      rw (lookup-insert_self id _ m.leases) (listed-add_key j key l.keys)

  revoke_found-Revoked :
      (law : Invalidates cache_ops) (o : Option (Lease Ch)) (publish : Bool) (id : Key)
      (m : LeaseManager B Ch) (c : C)
      → lookup id m.leases ≡ o
      → let (m', c') = revoke_found bus_ops cache_ops o publish id m c in
        ((j : Key)
          → (cache_ops.get j c').0 ≡ (if listed j (keys_of o) then miss else (cache_ops.get j c).0))
        × ((other : Key)
            → lookup other m'.leases ≡ (if id == other then none else lookup other m.leases))
        × ((again : Bool) → revoke bus_ops cache_ops again id m' c' ≡ (m', c'))
  unfolding revoke revoke_found
  revoke_found-Revoked law none publish id m c e = (
    λ j. refl,
    λ other. elim (Bool-cases (id == other)) [
      | inl t ↦ rw t (rw ((key_beq_iff id other).0 t) at e)
      | inr f ↦ rw f refl
    ],
    λ again. rw e refl,
  )
  revoke_found-Revoked law (some l) publish id m c e = (
    λ j. invalidate_each-get law j l.keys c,
    λ other. lookup-delete id other m.leases,
    λ again. rw (lookup-delete_self id m.leases) refl,
  )

  -- A key that is attached to a lease, known or not, joins its keys. A revocation of the lease then
  -- makes exactly these keys missing from the cache, removes this lease alone, and a second one, by
  -- a call, a timer or an event of the bus, changes nothing more.
  pub revoke-attach :
      (law : Invalidates cache_ops) (publish : Bool) (id key : Key) (m : LeaseManager B Ch) (c : C)
      → let attached = attach bus_ops id key m in
        let (m', c') = revoke bus_ops cache_ops publish id attached c in
        ((j : Key)
          → (cache_ops.get j c').0 ≡ (
              if (if key == j then true else listed j (keys_of (lookup id m.leases)))
              then miss
              else (cache_ops.get j c).0))
        × ((other : Key)
            → lookup other m'.leases ≡ (if id == other then none else lookup other attached.leases))
        × ((again : Bool) → revoke bus_ops cache_ops again id m' c' ≡ (m', c'))
  unfolding attach revoke
  revoke-attach law publish id key m c =
      let attached = attach_to bus_ops (lookup id m.leases) id key m in
      let (missing, gone, once) =
        revoke_found-Revoked law (lookup id attached.leases) publish id attached c refl in
      (λ j. rw (attach_to-keys (lookup id m.leases) id key j m) at (missing j), gone, once)
