-- ===== src/Core/Lease.antt =====
-- core/lease.go: LeaseManager. The bus's lease calls and the generator of ids are parameters. The
-- timers and the goroutines of a lease call revoke, and are steps of their own; closing `stop` ends
-- them with the lease.
pub mod Revocation
use go_warp.Base.{
  ℤ, pos, leb_ℤ, Duration, Bool, true, false, List, [], ◌∷◌, Key, key_eq, lookup, insert, delete,
  listed, Option, none, some, if◌then◌else◌,
}
use go_warp.Errors.{Error, Result, ok, err, invalid_lease_ttl}
use go_warp.Cache.Api.{CacheOps}

-- SubscribeLease, UnsubscribeLease and RevokeLease, with channels by number.
pub record LeaseBusOps (B Ch : Type 0) : Type 0 where
  pub subscribe_lease : Key → B → Option Ch × B
  pub unsubscribe_lease : Key → Ch → B → B
  pub revoke_lease : Key → B → B

-- `keys` is a set. A placeholder has no timers.
pub record Lease (Ch : Type 0) : Type 0 where
  pub keys : List Key
  pub timed : Bool
  pub sub : Option Ch

pub record LeaseManager (B Ch : Type 0) : Type 0 where
  pub bus : Option B
  pub leases : List (Key × Lease Ch)

abbrev pub add_key : Key → List Key → List Key
add_key key keys = if listed key keys then keys else key ∷ keys

unfoldable pub new_lease_manager : {B Ch : Type 0} → Option B → LeaseManager B Ch
new_lease_manager bus = record { bus = bus; leases = [] }

module _ {B Ch : Type 0} (bus_ops : LeaseBusOps B Ch) where
  abbrev pub subscribed : Key → Option B → Option Ch × Option B
  subscribed id none = (none, none)
  subscribed id (some b) = let (ch, b') = bus_ops.subscribe_lease id b in (ch, some b')

  -- A new lease under an id, subscribed to its revocation where there is a bus.
  enter_lease : Bool → Key → List Key → LeaseManager B Ch → LeaseManager B Ch
  enter_lease timed id keys m =
      let (ch, bus) = subscribed id m.bus in
      record {
        bus = bus;
        leases = insert id (record { keys = keys; timed = timed; sub = ch }) m.leases;
      }

  grant_id : Result Key → LeaseManager B Ch → Result Key × LeaseManager B Ch
  unfolding enter_lease
  grant_id (err e) m = (err e, m)
  grant_id (ok id) m = (ok id, enter_lease true id [] m)

  -- Grant, with what the generator of ids answers.
  unfoldable pub grant : Duration → Result Key → LeaseManager B Ch → Result Key × LeaseManager B Ch
  unfolding grant_id
  grant ttl id m = if leb_ℤ ttl (pos 0) then (err invalid_lease_ttl, m) else grant_id id m

  attach_to : Option (Lease Ch) → Key → Key → LeaseManager B Ch → LeaseManager B Ch
  unfolding enter_lease
  attach_to none id key m = enter_lease false id (key ∷ []) m
  attach_to (some l) id key m = record m {
    leases = insert id (record l { keys = add_key key l.keys }) m.leases;
  }

  -- Attach
  unfoldable pub attach : Key → Key → LeaseManager B Ch → LeaseManager B Ch
  unfolding attach_to
  attach id key m = attach_to (lookup id m.leases) id key m

  abbrev left_bus : Key → Option Ch → Option B → Option B
  left_bus id (some ch) (some b) = some (bus_ops.unsubscribe_lease id ch b)
  left_bus id ch bus = bus

  abbrev told_bus : Bool → Key → Option B → Option B
  told_bus true id (some b) = some (bus_ops.revoke_lease id b)
  told_bus publish id bus = bus

  module _ {C V : Type 0} (cache_ops : CacheOps C V) where
    pub invalidate_each : List Key → C → C
    invalidate_each [] c = c
    invalidate_each (k ∷ ks) c = invalidate_each ks (cache_ops.invalidate k c).1

    revoke_found : Option (Lease Ch) → Bool → Key → LeaseManager B Ch → C → LeaseManager B Ch × C
    unfolding invalidate_each
    revoke_found none publish id m c = (m, c)
    revoke_found (some l) publish id m c = (
      record { bus = told_bus publish id (left_bus id l.sub m.bus); leases = delete id m.leases },
      invalidate_each l.keys c,
    )

    -- revoke
    unfoldable pub revoke : Bool → Key → LeaseManager B Ch → C → LeaseManager B Ch × C
    unfolding revoke_found
    revoke publish id m c = revoke_found (lookup id m.leases) publish id m c
