-- ===== src/StreamBus/Bus/Trie.antt =====
-- streambus/inmemory.go: the prefix nodes are a map from prefixes to sets of ids.
use go_warp.Base.{
  ℕ, ◌≡◌, refl, sym, ◌∙◌, ap, Bool, false, not, ◌&&◌, ◌||◌, List, [], ◌∷◌, Key, key_eq, key_beq,
  Option, none, some, if◌then◌else◌, nat_beq, nat_beq_iff, arith, Bool-cases, Option-cases, inl,
  inr,
}
use go_warp.StreamBus.Bus.{
  PrefixNode, Children, node, no_children, child, new_prefix_node, subs_of, children_of, find_child,
  put_child, has_id, add_id, delete_id, add_ids, or_new, insert_prefix, remove_prefix, walk,
}

pub has_id-add_id :
    (j id : ℕ) (ids : List ℕ) → has_id j (add_id id ids) ≡ (nat_beq id j || has_id j ids)
unfolding add_id
has_id-add_id j id ids = elim (Bool-cases (has_id id ids)) [
  | inl there ↦ elim (Bool-cases (nat_beq id j)) [
    | inl same ↦
        ground (arith, there, same, ap (λ (k : ℕ). has_id k ids) ((nat_beq_iff id j).0 same))
    | inr other ↦ ground (arith, there, other)
  ]
  | inr gone ↦ simp gone refl
]

pub has_id-delete_id :
    (j id : ℕ) (ids : List ℕ) → has_id j (delete_id id ids) ≡ (not (nat_beq id j) && has_id j ids)
unfolding delete_id
has_id-delete_id j id [] = ground arith
has_id-delete_id j id (x ∷ ids) = ground (arith, has_id-delete_id j id ids)

pub has_id-add_ids :
    (j : ℕ) (ids targets : List ℕ)
    → has_id j (add_ids ids targets) ≡ (has_id j ids || has_id j targets)
unfolding add_ids
has_id-add_ids j [] targets = refl
has_id-add_ids j (id ∷ ids) targets =
    ground (arith, has_id-add_ids j ids (add_id id targets), has_id-add_id j id targets)

pub find_child-put_child :
    (b c : ℕ) (n : PrefixNode) (children : Children)
    → find_child c (put_child b n children)
      ≡ (if nat_beq b c then some n else find_child c children)
find_child-put_child b c n no_children = refl
find_child-put_child b c n (child d m rest) = ground (arith, find_child-put_child b c n rest)

-- Whether an id stands at a prefix.
unfoldable pub stands : ℕ → Key → PrefixNode → Bool
stands j [] n = has_id j (subs_of n)
stands j (b ∷ q) n = elim (find_child b (children_of n)) [ none ↦ false | some m ↦ stands j q m ]

abbrev stands_child : ℕ → Key → Option PrefixNode → Bool
stands_child j q none = false
stands_child j q (some m) = stands j q m

stands-child :
    (j b : ℕ) (q : Key) (n : PrefixNode)
    → stands j (b ∷ q) n ≡ stands_child j q (find_child b (children_of n))
unfolding stands
stands-child j b q n = refl

-- Whether a test holds of a prefix of the topic that is not empty.
unfoldable pub any_prefix : Key → (Key → Bool) → Bool
any_prefix [] test = false
any_prefix (b ∷ topic) test = test (b ∷ []) || any_prefix topic (λ q. test (b ∷ q))

any_prefix-cong :
    (topic : Key) (f g : Key → Bool)
    → ((q : Key) → f q ≡ g q)
    → any_prefix topic f ≡ any_prefix topic g
any_prefix-cong topic f g h = ap (any_prefix topic) (λ i q. h q i)

any_prefix-false : (topic : Key) → any_prefix topic (λ q. false) ≡ false
unfolding any_prefix
any_prefix-false [] = refl
any_prefix-false (b ∷ topic) = any_prefix-false topic

-- The walk gives what stands at a prefix of the topic.
pub walk-any_prefix :
    (j : ℕ) (topic : Key) (n : PrefixNode) (dst : List ℕ)
    → has_id j (walk topic n dst) ≡ (has_id j dst || any_prefix topic (λ q. stands j q n))
unfolding walk any_prefix stands
walk-any_prefix j [] n dst = ground arith
walk-any_prefix j (b ∷ topic) n dst =
    let below =
      any_prefix-cong topic (λ q. stands j (b ∷ q) n)
        (λ q. stands_child j q (find_child b (children_of n))) (λ q. stands-child j b q n) in
    elim (Option-cases (find_child b (children_of n))) [
      | inl gone ↦
          let nothing =
            below
            ∙ ap (λ (o : Option PrefixNode). any_prefix topic (λ q. stands_child j q o)) gone
            ∙ any_prefix-false topic in
          ground (arith, gone, nothing)
      | inr (m, e) ↦
          let more =
            below ∙ ap (λ (o : Option PrefixNode). any_prefix topic (λ q. stands_child j q o)) e in
          ground (
            arith,
            e,
            more,
            walk-any_prefix j topic m (add_ids (subs_of m) dst),
            has_id-add_ids j (subs_of m) dst,
          )
    ]

stands-new : (j : ℕ) (q : Key) → stands j q new_prefix_node ≡ false
unfolding stands
stands-new j [] = refl
stands-new j (b ∷ q) = refl

stands-or_new :
    (j : ℕ) (q : Key) (o : Option PrefixNode) → stands j q (or_new o) ≡ stands_child j q o
stands-or_new j q none = stands-new j q
stands-or_new j q (some m) = refl

-- An insertion adds one pair of a prefix and an id.
pub stands-insert_prefix :
    (j id : ℕ) (q p : Key) (n : PrefixNode)
    → stands j q (insert_prefix p id n) ≡ (stands j q n || (nat_beq id j && key_beq p q))
unfolding insert_prefix stands key_beq
stands-insert_prefix j id [] [] n = ground (arith, has_id-add_id j id (subs_of n))
stands-insert_prefix j id (c ∷ q) [] n = ground arith
stands-insert_prefix j id [] (b ∷ p) n = ground arith
stands-insert_prefix j id (c ∷ q) (b ∷ p) n =
    let o = find_child b (children_of n) in
    let m = insert_prefix p id (or_new o) in
    let later = stands-insert_prefix j id q p (or_new o) in
    let found = find_child-put_child b c m (children_of n) in
    elim (Bool-cases (nat_beq b c)) [
      | inl same ↦
          let at : find_child c (put_child b m (children_of n)) ≡ some m =
            ground (arith, found, same) in
          let before : stands j q (or_new o) ≡ stands_child j q (find_child c (children_of n)) =
            stands-or_new j q o
            ∙ ap (λ (k : ℕ). stands_child j q (find_child k (children_of n)))
                ((nat_beq_iff b c).0 same) in
          let to_child : stands j (c ∷ q) (insert_prefix (b ∷ p) id n) ≡ stands j q m =
            stands-child j c q (insert_prefix (b ∷ p) id n) ∙ ap (stands_child j q) at in
          ground (arith, to_child, later, before ∙ sym (stands-child j c q n), same)
      | inr other ↦
          let at : find_child c (put_child b m (children_of n)) ≡ find_child c (children_of n) =
            ground (arith, found, other) in
          ground (arith, at, other)
    ]

-- A removal takes one away.
pub stands-remove_prefix :
    (j id : ℕ) (q p : Key) (n : PrefixNode)
    → stands j q (remove_prefix p id n) ≡ (stands j q n && not (nat_beq id j && key_beq p q))
unfolding remove_prefix stands key_beq
stands-remove_prefix j id [] [] n = ground (arith, has_id-delete_id j id (subs_of n))
stands-remove_prefix j id (c ∷ q) [] n = ground arith
stands-remove_prefix j id [] (b ∷ p) n = elim (Option-cases (find_child b (children_of n))) [
  | inl gone ↦ ground (arith, gone)
  | inr (m, e) ↦ ground (arith, e)
]
stands-remove_prefix j id (c ∷ q) (b ∷ p) n = elim (Option-cases (find_child b (children_of n))) [
  | inl gone ↦ elim (Bool-cases (nat_beq b c)) [
    | inl same ↦
        let nothing : stands j (c ∷ q) n ≡ false =
          stands-child j c q n
          ∙ ap (λ (k : ℕ). stands_child j q (find_child k (children_of n)))
              (sym ((nat_beq_iff b c).0 same))
          ∙ ap (stands_child j q) gone in
        ground (arith, gone, same, nothing)
    | inr other ↦ ground (arith, gone, other)
  ]
  | inr (m, e) ↦
      let m' = remove_prefix p id m in
      let later = stands-remove_prefix j id q p m in
      let found = find_child-put_child b c m' (children_of n) in
      let walked : remove_prefix (b ∷ p) id n ≡ node (subs_of n) (put_child b m' (children_of n)) =
        ground (arith, e) in
      elim (Bool-cases (nat_beq b c)) [
        | inl same ↦
            let at : find_child c (put_child b m' (children_of n)) ≡ some m' =
              ground (arith, found, same) in
            let to_child : stands j (c ∷ q) (remove_prefix (b ∷ p) id n) ≡ stands j q m' =
              ap (stands j (c ∷ q)) walked ∙ ap (stands_child j q) at in
            let before : stands j (c ∷ q) n ≡ stands j q m =
              stands-child j c q n
              ∙ ap (λ (k : ℕ). stands_child j q (find_child k (children_of n)))
                  (sym ((nat_beq_iff b c).0 same))
              ∙ ap (stands_child j q) e in
            ground (arith, to_child, later, before, same)
        | inr other ↦
            let at : find_child c (put_child b m' (children_of n)) ≡ find_child c (children_of n) =
              ground (arith, found, other) in
            let to_child : stands j (c ∷ q) (remove_prefix (b ∷ p) id n) ≡ stands j (c ∷ q) n =
              ap (stands j (c ∷ q)) walked ∙ ap (stands_child j q) at in
            ground (arith, to_child, other)
      ]
]
