-- ===== src/Cache/InMemory/Lawful.antt =====
-- cache/cache.go: InMemoryCache without maxima, as the cache that core relies on.
use go_warp.Base.{
  ◌≡◌, refl, ℤ, pos, ◌≤ℤ◌, Duration, Time, time_add, +ℤ_parts, false, Key, lookup,
  lookup-insert_self, Option, none, some, arith, key_eq,
}
use go_warp.Errors.{Error, hit}
use go_warp.Cache.InMemory.{
  Item, Config, InMemory, Ctx, is_expired, get_item, get_live, get_entered, get, over_entries,
  enforce_entries, enforce_memory, expiry, write_item, set, checked,
}

-- An item just written is not expired.
expiry-live :
    {V : Type 0} (now : Time) (ttl : Duration) (x : V) (n : ℤ)
    → is_expired now (record { value = x; size = n; expires_at = expiry now ttl }) ≡ false
unfolding is_expired expiry time_add
expiry-live now ttl x n = ground (arith, +ℤ_parts now ttl)

module _ {V : Type 0} (cfg : Config V) (ctx : Ctx) (now : Time) where
  get_item-live :
      (key : Key) (it : Item V) (c : InMemory V)
      → ctx.locked ≡ none
      → is_expired now it ≡ false
      → (get_item ctx now key (some it) c).0 ≡ hit it.value
  unfolding get_item get_live
  get_item-live key it c open_ctx live = rw (live, open_ctx, get_live)

  get-checked :
      (entry locked : Option Error) (key : Key) (it : Item V) (before written : InMemory V)
      → ctx.locked ≡ locked
      → lookup key written.items ≡ some it
      → is_expired now it ≡ false
      → (checked entry locked before written).0 ≡ none
      → (get_entered entry ctx now key (checked entry locked before written).1).0 ≡ hit it.value
  unfolding checked get_entered
  get-checked (some e) locked key it before written l found live h = absurd (cc)
  get-checked none (some e) key it before written l found live h = absurd (cc)
  get-checked none none key it before written l found live h =
      rw found (get_item-live key it written l live)

  unbounded :
      (c : InMemory V)
      → cfg.max_entries ≤ℤ pos 0
      → cfg.max_memory ≤ℤ pos 0
      → enforce_memory cfg (enforce_entries cfg c) ≡ c
  unfolding enforce_memory enforce_entries over_entries
  unbounded c entries memory = ground arith

  -- Without maxima, what Set put in is what Get finds at the same time.
  pub get-set :
      (key : Key) (x : V) (ttl : Duration) (c : InMemory V)
      → cfg.max_entries ≤ℤ pos 0
      → cfg.max_memory ≤ℤ pos 0
      → (set cfg ctx now key x ttl c).0 ≡ none
      → (get ctx now key (set cfg ctx now key x ttl c).1).0 ≡ hit x
  unfolding get set write_item
  get-set key x ttl c entries memory h =
      let it : Item V = record {
        value = x;
        size = cfg.estimate_size x;
        expires_at = expiry now ttl;
      } in
      get-checked ctx.at_entry ctx.locked key it c _ refl
        (rw (unbounded (write_item cfg now key x ttl c) entries memory)
          (lookup-insert_self key it c.items))
        (expiry-live now ttl x (cfg.estimate_size x)) h
