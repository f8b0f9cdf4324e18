-- ===== src/StreamBus/Bus/Routing.antt =====
-- streambus/inmemory.go: the routes are a set of registrations, and Publish reaches those that match.
use go_warp.Base.{
  ℕ, ◌≡◌, refl, ◌∙◌, ap, Bool, true, false, not, ◌&&◌, ◌||◌, List, [], ◌∷◌, Key, key_eq, ◌==◌,
  key_beq, key_beq_iff, lookup, insert, lookup-insert, lookup-delete, Option, none, some,
  if◌then◌else◌, nat_beq, arith, Bool-cases, inl, inr,
}
use go_warp.StreamBus.Subscription.{SubscribeOptions}
use go_warp.StreamBus.Bus.{
  Routes, has_id, add_id, delete_id, ids_of, exact_of, targets, register, remove, keep_exact,
  add_ids,
}
use go_warp.StreamBus.Bus.Trie.{
  stands, any_prefix, walk-any_prefix, stands-insert_prefix, stands-remove_prefix, has_id-add_id,
  has_id-delete_id, has_id-add_ids,
}

-- Whether an id is registered for a topic, for itself or as a prefix.
abbrev pub is_registered : ℕ → Bool → Key → Routes → Bool
is_registered j true topic r = stands j topic r.prefix
is_registered j false topic r = has_id j (exact_of topic r)

-- Whether a registration is the one of the options.
abbrev pub is_of : SubscribeOptions → ℕ → ℕ → Bool → Key → Bool
is_of options id j kind topic =
    nat_beq id j && ((if options.prefix then kind else not kind) && key_beq options.topic topic)

ids_of_if :
    (b : Bool) (x y : Option (List ℕ))
    → ids_of (if b then x else y) ≡ (if b then ids_of x else ids_of y)
ids_of_if true x y = refl
ids_of_if false x y = refl

exact_of-insert :
    (q topic : Key) (ids : List ℕ) (r : Routes)
    → exact_of q (record r { exact = insert topic ids r.exact })
      ≡ (if topic == q then ids else exact_of q r)
unfolding exact_of
exact_of-insert q topic ids r =
    ap ids_of (lookup-insert topic q ids r.exact)
    ∙ ids_of_if (topic == q) (some ids) (lookup q r.exact)

exact_of-keep_exact :
    (q topic : Key) (ids : List ℕ) (r : Routes)
    → exact_of q (record r { exact = keep_exact topic ids r.exact })
      ≡ (if topic == q then ids else exact_of q r)
unfolding exact_of
exact_of-keep_exact q topic [] r =
    ap ids_of (lookup-delete topic q r.exact) ∙ ids_of_if (topic == q) none (lookup q r.exact)
exact_of-keep_exact q topic (id ∷ ids) r = exact_of-insert q topic (id ∷ ids) r

has_id_if :
    (j : ℕ) (b : Bool) (x y : List ℕ)
    → has_id j (if b then x else y) ≡ (if b then has_id j x else has_id j y)
has_id_if j true x y = refl
has_id_if j false x y = refl

same_ids :
    (q topic : Key) (j : ℕ) (r : Routes)
    → key_beq topic q ≡ true
    → has_id j (exact_of topic r) ≡ has_id j (exact_of q r)
same_ids q topic j r e = ap (λ (k : Key). has_id j (exact_of k r)) ((key_beq_iff topic q).0 e)

targets-registered :
    (j : ℕ) (topic : Key) (r : Routes)
    → has_id j (targets topic r)
      ≡ (is_registered j false topic r || any_prefix topic (λ q. is_registered j true q r))
unfolding targets
targets-registered j topic r = ground (
  arith,
  walk-any_prefix j topic r.prefix (add_ids (exact_of topic r) []),
  has_id-add_ids j (exact_of topic r) [],
)

register-is_registered :
    (options : SubscribeOptions) (id j : ℕ) (kind : Bool) (q : Key) (r : Routes)
    → is_registered j kind q (register options id r)
      ≡ (is_registered j kind q r || is_of options id j kind q)
unfolding register
register-is_registered options id j true q r = elim (Bool-cases options.prefix) [
  | inl whole ↦ ground (arith, whole, stands-insert_prefix j id q options.topic r.prefix)
  | inr exact ↦ ground (arith, exact)
]
register-is_registered options id j false q r = elim (Bool-cases options.prefix) [
  | inl whole ↦ ground (arith, whole)
  | inr exact ↦
      let ids = add_id id (exact_of options.topic r) in
      let at =
        ap (has_id j) (exact_of-insert q options.topic ids r)
        ∙ has_id_if j (options.topic == q) ids (exact_of q r) in
      elim (Bool-cases (key_beq options.topic q)) [
        | inl same ↦ ground (
          arith,
          exact,
          at,
          same,
          has_id-add_id j id (exact_of options.topic r),
          same_ids q options.topic j r same,
        )
        | inr other ↦ ground (arith, exact, at, other)
      ]
]

remove-is_registered :
    (options : SubscribeOptions) (id j : ℕ) (kind : Bool) (q : Key) (r : Routes)
    → is_registered j kind q (remove options id r)
      ≡ (is_registered j kind q r && not (is_of options id j kind q))
unfolding remove
remove-is_registered options id j true q r = elim (Bool-cases options.prefix) [
  | inl whole ↦ ground (arith, whole, stands-remove_prefix j id q options.topic r.prefix)
  | inr exact ↦ ground (arith, exact)
]
remove-is_registered options id j false q r = elim (Bool-cases options.prefix) [
  | inl whole ↦ ground (arith, whole)
  | inr exact ↦
      let ids = delete_id id (exact_of options.topic r) in
      let at =
        ap (has_id j) (exact_of-keep_exact q options.topic ids r)
        ∙ has_id_if j (options.topic == q) ids (exact_of q r) in
      elim (Bool-cases (key_beq options.topic q)) [
        | inl same ↦ ground (
          arith,
          exact,
          at,
          same,
          has_id-delete_id j id (exact_of options.topic r),
          same_ids q options.topic j r same,
        )
        | inr other ↦ ground (arith, exact, at, other)
      ]
]

-- The routes act as a set of registrations: Subscribe adds its own and no other, remove takes its own
-- away and no other, and a subscription is a target of Publish exactly if it is registered for the
-- topic itself, or for a prefix of the topic that is not empty.
pub routes_refine :
    (options : SubscribeOptions) (id j : ℕ) (topic : Key) (r : Routes)
    → ((kind : Bool) (q : Key)
        → (is_registered j kind q (register options id r)
            ≡ (is_registered j kind q r || is_of options id j kind q))
          × (is_registered j kind q (remove options id r)
              ≡ (is_registered j kind q r && not (is_of options id j kind q))))
      × (has_id j (targets topic r)
          ≡ (is_registered j false topic r || any_prefix topic (λ q. is_registered j true q r)))
routes_refine options id j topic r = (
  λ kind q.
      (register-is_registered options id j kind q r, remove-is_registered options id j kind q r),
  targets-registered j topic r,
)
