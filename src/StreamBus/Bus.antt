-- ===== src/StreamBus/Bus.antt =====
-- streambus/inmemory.go: the topic routing of InMemory. A pointer to a subscription is its id.
pub mod Trie
pub mod Routing
use go_warp.Base.{
  ℕ, zero, suc, ◌+◌, ◌≡◌, ◌<◌, Bool, true, false, not, ◌&&◌, ◌||◌, List, [], ◌∷◌, ◌++◌, Key, key_eq,
  lookup, insert, delete, Option, none, some, if◌then◌else◌, nat_beq,
}
use go_warp.StreamBus.Subscription.{SubscribeOptions}

-- A prefixNode; its children are a map from bytes.
mutual
  pub data PrefixNode : Type 0 where
    node : List ℕ → Children → PrefixNode

  pub data Children : Type 0 where
    no_children : Children
    child : ℕ → PrefixNode → Children → Children

abbrev pub new_prefix_node : PrefixNode
new_prefix_node = node [] no_children

abbrev pub subs_of : PrefixNode → List ℕ
subs_of (node subs below) = subs

abbrev pub children_of : PrefixNode → Children
children_of (node subs below) = below

-- `node.children[b]`, and its assignment.
abbrev pub find_child : ℕ → Children → Option PrefixNode
find_child b no_children = none
find_child b (child c n rest) = if nat_beq c b then some n else find_child b rest

abbrev pub put_child : ℕ → PrefixNode → Children → Children
put_child b n no_children = child b n no_children
put_child b n (child c m rest) =
    if nat_beq c b then child c n rest else child c m (put_child b n rest)

-- A set of ids: `subs[id] = sub` and `delete(subs, id)`.
abbrev pub has_id : ℕ → List ℕ → Bool
has_id id [] = false
has_id id (x ∷ ids) = nat_beq x id || has_id id ids

unfoldable pub add_id : ℕ → List ℕ → List ℕ
add_id id ids = if has_id id ids then ids else id ∷ ids

unfoldable pub delete_id : ℕ → List ℕ → List ℕ
delete_id id [] = []
delete_id id (x ∷ ids) = let rest = delete_id id ids in if nat_beq x id then rest else x ∷ rest

unfoldable pub add_ids : List ℕ → List ℕ → List ℕ
add_ids [] targets = targets
add_ids (id ∷ ids) targets = add_ids ids (add_id id targets)

-- A child that is not there is made.
abbrev pub or_new : Option PrefixNode → PrefixNode
or_new none = new_prefix_node
or_new (some n) = n

-- The walk of Subscribe.
unfoldable pub insert_prefix : Key → ℕ → PrefixNode → PrefixNode
insert_prefix [] id n = node (add_id id (subs_of n)) (children_of n)
insert_prefix (b ∷ topic) id n =
    node (subs_of n)
      (put_child b (insert_prefix topic id (or_new (find_child b (children_of n)))) (children_of n))

-- The walk of remove, which gives up where a child is missing.
unfoldable pub remove_prefix : Key → ℕ → PrefixNode → PrefixNode
remove_prefix [] id n = node (delete_id id (subs_of n)) (children_of n)
remove_prefix (b ∷ topic) id n = elim (find_child b (children_of n)) [
  | none ↦ n
  | some m ↦ node (subs_of n) (put_child b (remove_prefix topic id m) (children_of n))
]

-- The walk of Publish, which takes the subscriptions of each node below the root.
unfoldable pub walk : Key → PrefixNode → List ℕ → List ℕ
walk [] n targets = targets
walk (b ∷ topic) n targets = elim (find_child b (children_of n)) [
  | none ↦ targets
  | some m ↦ walk topic m (add_ids (subs_of m) targets)
]

-- collectPrefixSubscriptions
unfoldable mutual
  pub collect : PrefixNode → List ℕ → List ℕ
  collect (node subs below) dst = collect_children below (add_ids subs dst)

  pub collect_children : Children → List ℕ → List ℕ
  collect_children no_children dst = dst
  collect_children (child b n rest) dst = collect_children rest (collect n dst)

-- `exact` and `prefix`, the part of InMemory that routes.
pub record Routes : Type 0 where
  pub exact : List (Key × List ℕ)
  pub prefix : PrefixNode

-- `b.exact[topic]`, where a missing key is the empty map.
abbrev pub ids_of : Option (List ℕ) → List ℕ
ids_of none = []
ids_of (some ids) = ids

unfoldable pub exact_of : Key → Routes → List ℕ
exact_of topic r = ids_of (lookup topic r.exact)

-- The targets of Publish.
unfoldable pub targets : Key → Routes → List ℕ
unfolding exact_of
targets topic r = walk topic r.prefix (add_ids (exact_of topic r) [])

-- What Subscribe registers.
unfoldable pub register : SubscribeOptions → ℕ → Routes → Routes
unfolding exact_of
register options id r =
    if options.prefix
    then record r { prefix = insert_prefix options.topic id r.prefix }
    else record r { exact = insert options.topic (add_id id (exact_of options.topic r)) r.exact }

-- The ids that stay for a topic: a topic without subscriptions is deleted.
abbrev pub keep_exact : Key → List ℕ → List (Key × List ℕ) → List (Key × List ℕ)
keep_exact topic [] exact = delete topic exact
keep_exact topic (id ∷ ids) exact = insert topic (id ∷ ids) exact

unfoldable pub remove : SubscribeOptions → ℕ → Routes → Routes
unfolding exact_of
remove options id r =
    if options.prefix
    then record r { prefix = remove_prefix options.topic id r.prefix }
    else record r {
      exact = keep_exact options.topic (delete_id id (exact_of options.topic r)) r.exact;
    }
