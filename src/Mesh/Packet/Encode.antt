-- ===== src/Mesh/Packet/Encode.antt =====
-- syncbus/mesh/packet.go: the bytes that marshal writes.
use mathlib.Core.List.{append_assoc, append-nil}
use go_warp.Base.{
  ℕ, ◌+◌, ◌%◌, ◌^◌, ◌≤◌, ◌<◌, ◌≡◌, refl, ◌∙◌, ap, ◌⊎◌, false, List, [], ◌∷◌, ◌++◌, Key, none,
  length, length-append, length-drop, drop, ltb, nat_beq, if◌then◌else◌, All, arith,
}
use go_warp.Mesh.Buffer.{copy_at, uint16_bytes, uint64_bytes, copy_at-extend}
use go_warp.Mesh.Packet.{
  Packet, type_invalidate, type_heartbeat, type_batch, marshal_key, marshal_keys, marshal_batch,
}

abbrev pub Short : Key → Type 0
Short k = length k < 2 ^ 16

-- What the keys of a batch take on the wire.
unfoldable pub keys_bytes : List Key → List ℕ
keys_bytes [] = []
keys_bytes (k ∷ ks) = uint16_bytes (length k) ++ (k ++ keys_bytes ks)

unfoldable pub head : Packet → List ℕ
head p = p.magic ∷ p.kind ∷ p.node_id

pub length-uint16_bytes : (v : ℕ) → length (uint16_bytes v) ≡ 2
unfolding uint16_bytes
length-uint16_bytes v = refl

-- The length of a buffer of which `done` was written.
length_written :
    (i : ℕ) (done b : List ℕ)
    → length done ≡ i
    → i ≤ length b
    → length (done ++ drop i b) ≡ length b
length_written i done b e h = omega (arith, length-append done (drop i b), length-drop i b)

marshal_keys-bytes :
    (keys : List Key) (curr n : ℕ) (done b : List ℕ)
    → length done ≡ curr
    → All Short keys
    → curr + length (keys_bytes keys) ≡ n
    → n ≤ length b
    → marshal_keys keys curr (done ++ drop curr b)
      ≡ (n, none, (done ++ keys_bytes keys) ++ drop n b)
unfolding marshal_keys keys_bytes
marshal_keys-bytes [] curr n done b e short f h =
    let same : curr ≡ n = omega (arith, f) in rw (append-nil, same) refl
marshal_keys-bytes (k ∷ ks) curr n done b e short f h =
    let u = uint16_bytes (length k) in
    let l = length-uint16_bytes (length k) in
    let size : curr + (2 + length k) + length (keys_bytes ks) ≡ n =
      omega (arith, f, length-append u (k ++ keys_bytes ks), length-append k (keys_bytes ks), l) in
    let room : ltb (length (done ++ drop curr b)) (curr + 2 + length k) ≡ false =
      ground (arith, length_written curr done b e (omega arith)) in
    let small : length k % 2 ^ 16 ≡ length k = omega (arith, short.0) in
    let first = copy_at-extend curr (curr + 2) done u b e (omega (arith, l)) (omega arith) in
    let second =
      copy_at-extend (curr + 2) (curr + (2 + length k)) (done ++ u) k b
        (omega (arith, length-append done u, l, e)) (omega arith) (omega arith) in
    let later =
      marshal_keys-bytes ks (curr + (2 + length k)) n ((done ++ u) ++ k) b
        (omega (arith, length-append done u, length-append (done ++ u) k, l, e)) short.1 size h in
    let joined : ((done ++ u) ++ k) ++ keys_bytes ks ≡ done ++ (u ++ (k ++ keys_bytes ks)) =
      append_assoc (done ++ u) k (keys_bytes ks) ∙ append_assoc done u (k ++ keys_bytes ks) in
    rw (room, small, first, second) (later ∙ ap (λ (xs : List ℕ). (n, none, xs ++ drop n b)) joined)

pub marshal_header :
    (p : Packet) (b : List ℕ)
    → length p.node_id ≡ 16
    → 18 ≤ length b
    → copy_at (copy_at (copy_at b 0 (p.magic ∷ [])) 1 (p.kind ∷ [])) 2 p.node_id
      ≡ head p ++ drop 18 b
unfolding head
marshal_header p b sized room =
    let first = copy_at-extend 0 1 [] (p.magic ∷ []) b refl refl (omega arith) in
    let second = copy_at-extend 1 2 (p.magic ∷ []) (p.kind ∷ []) b refl refl (omega arith) in
    let third =
      copy_at-extend 2 18 (p.magic ∷ p.kind ∷ []) p.node_id b refl (omega (arith, sized))
        (omega arith) in
    rw (first, second, third) refl

-- What follows the header.
unfoldable pub body : Packet → List ℕ
unfolding keys_bytes
body p =
    if nat_beq p.kind type_batch
    then uint16_bytes (length p.keys) ++ keys_bytes p.keys
    else uint64_bytes p.key_hash ++ (uint16_bytes p.key_len ++ p.key)

-- A packet as the bus builds it: what its type does not send is zero.
pub data IsPacket (p : Packet) : Type 0 where
  single :
      (p.kind ≡ type_invalidate) ⊎ (p.kind ≡ type_heartbeat)
      → p.key_hash < 2 ^ 64
      → p.key_len ≡ length p.key
      → Short p.key
      → p.keys ≡ []
      → IsPacket p
  batch :
      p.kind ≡ type_batch
      → length p.keys < 2 ^ 16
      → All Short p.keys
      → p.key_hash ≡ 0
      → p.key_len ≡ 0
      → p.key ≡ []
      → IsPacket p

pub length-uint64_bytes : (v : ℕ) → length (uint64_bytes v) ≡ 8
unfolding uint64_bytes
length-uint64_bytes v = refl

pub length-head : (p : Packet) → length p.node_id ≡ 16 → length (head p) ≡ 18
unfolding head
length-head p h = omega (arith, h)

unfoldable pub size : Packet → ℕ
unfolding head body
size p = length (head p ++ body p)

pub marshal_batch-bytes :
    (p : Packet) (b : List ℕ) (n : ℕ)
    → length p.node_id ≡ 16
    → length p.keys < 2 ^ 16
    → All Short p.keys
    → 20 + length (keys_bytes p.keys) ≡ n
    → n ≤ length b
    → marshal_batch p (head p ++ drop 18 b)
      ≡ (n, none, (head p ++ (uint16_bytes (length p.keys) ++ keys_bytes p.keys)) ++ drop n b)
unfolding marshal_batch
marshal_batch-bytes p b n sized few short f h =
    let u = uint16_bytes (length p.keys) in
    let l = length-uint16_bytes (length p.keys) in
    let room : ltb (length (head p ++ drop 18 b)) 20 ≡ false =
      ground (arith, length_written 18 (head p) b (length-head p sized) (omega arith)) in
    let small : length p.keys % 2 ^ 16 ≡ length p.keys = omega (arith, few) in
    let first =
      copy_at-extend 18 20 (head p) u b (length-head p sized) (omega (arith, l)) (omega arith) in
    let later =
      marshal_keys-bytes p.keys 20 n (head p ++ u) b
        (omega (arith, length-append (head p) u, l, length-head p sized)) short f h in
    rw (room, small, first)
      (later
        ∙ ap (λ (xs : List ℕ). (n, none, xs ++ drop n b))
            (append_assoc (head p) u (keys_bytes p.keys)))

pub marshal_key-bytes :
    (p : Packet) (b : List ℕ) (n : ℕ)
    → length p.node_id ≡ 16
    → p.key_len ≡ length p.key
    → 28 + p.key_len ≡ n
    → n ≤ length b
    → marshal_key p (head p ++ drop 18 b) ≡ (
      n,
      none,
      (head p ++ (uint64_bytes p.key_hash ++ (uint16_bytes p.key_len ++ p.key))) ++ drop n b,
    )
unfolding marshal_key
marshal_key-bytes p b n sized len f h =
    let x = uint64_bytes p.key_hash in
    let u = uint16_bytes p.key_len in
    let lx = length-uint64_bytes p.key_hash in
    let lu = length-uint16_bytes p.key_len in
    let lh = length-head p sized in
    let room : ltb (length (head p ++ drop 18 b)) (28 + length p.key) ≡ false =
      ground (arith, length_written 18 (head p) b lh (omega arith)) in
    let first = copy_at-extend 18 26 (head p) x b lh (omega (arith, lx)) (omega arith) in
    let second =
      copy_at-extend 26 28 (head p ++ x) u b (omega (arith, length-append (head p) x, lx, lh))
        (omega (arith, lu)) (omega arith) in
    let third =
      copy_at-extend 28 n ((head p ++ x) ++ u) p.key b
        (omega (arith, length-append (head p) x, length-append (head p ++ x) u, lx, lh, lu))
        (omega (arith, len)) h in
    let joined : ((head p ++ x) ++ u) ++ p.key ≡ head p ++ (x ++ (u ++ p.key)) =
      append_assoc (head p ++ x) u p.key ∙ append_assoc (head p) x (u ++ p.key) in
    rw (room, first, second, third, f) (ap (λ (xs : List ℕ). (n, none, xs ++ drop n b)) joined)
