-- ===== src/StreamBus/InMemory/Close.antt =====
-- streambus/inmemory.go: Close of InMemory and of its subscriptions.
use go_warp.Base.{ℕ, true, List, [], ◌∷◌, Key, key_eq, lookup, insert, none, some, if◌then◌else◌}
use go_warp.StreamBus.Subscription.{close}
use go_warp.StreamBus.Bus.{remove, collect, add_ids}
use go_warp.StreamBus.InMemory.{InMemory, id_eq, no_routes}

exact_ids : List (Key × List ℕ) → List ℕ → List ℕ
exact_ids [] unique = unique
exact_ids ((topic, ids) ∷ exact) unique = exact_ids exact (add_ids ids unique)

-- The subscription closes, and its unregister removes it.
unfoldable pub close_sub : ℕ → InMemory → InMemory
close_sub id b = elim (lookup id b.subs) [
  | none ↦ b
  | some s ↦
      if s.closed
      then b
      else record b { subs = insert id (close s) b.subs; routes = remove s.options id b.routes }
]

close_each : List ℕ → InMemory → InMemory
unfolding close_sub
close_each [] b = b
close_each (id ∷ ids) b = close_each ids (close_sub id b)

-- Close
unfoldable pub close_bus : InMemory → InMemory
unfolding exact_ids close_each
close_bus b =
    if b.closed
    then b
    else close_each (collect b.routes.prefix (exact_ids b.routes.exact []))
        (record b { closed = true; routes = no_routes })
