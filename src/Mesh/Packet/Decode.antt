-- ===== src/Mesh/Packet/Decode.antt =====
-- syncbus/mesh/packet.go: what unmarshal reads in the bytes of a packet.
use mathlib.Core.List.{append_assoc, append-nil}
use go_warp.Base.{
  ℕ, ◌+◌, ◌^◌, ◌<◌, ◌≡◌, refl, sym, ◌∙◌, ap, true, false, List, [], ◌∷◌, ◌++◌, Key, none, length,
  length-append, ltb, All, arith,
}
use go_warp.Mesh.Buffer.{
  slice, uint16_bytes, uint64_bytes, big_endian, big_endian-uint16_bytes, big_endian-uint64_bytes,
  slice-append,
}
use go_warp.Mesh.Packet.{Packet, unmarshal_key, unmarshal_sized, unmarshal_keys, unmarshal_batch}
use go_warp.Mesh.Packet.Encode.{Short, keys_bytes, length-uint16_bytes, length-uint64_bytes}

unmarshal_keys-bytes :
    (keys : List Key) (curr : ℕ) (done : List ℕ) (q : Packet)
    → length done ≡ curr
    → All Short keys
    → unmarshal_keys (length keys) curr (done ++ keys_bytes keys) q
      ≡ (none, record q { keys = q.keys ++ keys })
unfolding unmarshal_keys keys_bytes
unmarshal_keys-bytes [] curr done q e short = rw append-nil refl
unmarshal_keys-bytes (k ∷ ks) curr done q e short =
    let u = uint16_bytes (length k) in
    let l = length-uint16_bytes (length k) in
    let b = done ++ (u ++ (k ++ keys_bytes ks)) in
    let total : length b ≡ curr + 2 + length k + length (keys_bytes ks) = omega (
      arith,
      length-append done (u ++ (k ++ keys_bytes ks)),
      length-append u (k ++ keys_bytes ks),
      length-append k (keys_bytes ks),
      l,
      e,
    ) in
    let first : slice b curr (curr + 2) ≡ u =
      slice-append curr (curr + 2) done u (k ++ keys_bytes ks) e (omega (arith, l)) in
    let len : big_endian (slice b curr (curr + 2)) ≡ length k =
      ap big_endian first ∙ big_endian-uint16_bytes (length k) short.0 in
    let assoc : b ≡ (done ++ u) ++ (k ++ keys_bytes ks) =
      sym (append_assoc done u (k ++ keys_bytes ks)) in
    let second : slice b (curr + 2) (curr + 2 + length k) ≡ k =
      ap (λ (x : List ℕ). slice x (curr + 2) (curr + 2 + length k)) assoc
      ∙ slice-append (curr + 2) (curr + 2 + length k) (done ++ u) k (keys_bytes ks)
          (omega (arith, length-append done u, l, e)) refl in
    let whole : b ≡ ((done ++ u) ++ k) ++ keys_bytes ks =
      assoc ∙ sym (append_assoc (done ++ u) k (keys_bytes ks)) in
    let later =
      unmarshal_keys-bytes ks (curr + (2 + length k)) ((done ++ u) ++ k)
        (record q { keys = q.keys ++ k ∷ [] })
        (omega (arith, length-append done u, length-append (done ++ u) k, l, e)) short.1 in
    let enough : ltb (length b) (curr + 2) ≡ false = ground (arith, total) in
    let enough' : ltb (length b) (curr + 2 + length k) ≡ false = ground (arith, total) in
    rw (len, second, enough, enough')
      (ap
          (λ (x : List ℕ).
            unmarshal_keys (length ks) (curr + (2 + length k)) x
              (record q { keys = q.keys ++ k ∷ [] }))
          whole
        ∙ later
        ∙ ap (λ (xs : List Key). (none, record q { keys = xs })) (append_assoc q.keys (k ∷ []) ks))

pub unmarshal_batch-bytes :
    (h : List ℕ) (keys : List Key) (q : Packet)
    → length h ≡ 18
    → length keys < 2 ^ 16
    → All Short keys
    → unmarshal_batch (h ++ (uint16_bytes (length keys) ++ keys_bytes keys)) q
      ≡ (none, record q { keys = keys })
unfolding unmarshal_batch
unmarshal_batch-bytes h keys q e few short =
    let u = uint16_bytes (length keys) in
    let l = length-uint16_bytes (length keys) in
    let enough : ltb (length (h ++ (u ++ keys_bytes keys))) 20 ≡ false =
      ground
        (arith, length-append h (u ++ keys_bytes keys), length-append u (keys_bytes keys), l, e) in
    let count : big_endian (slice (h ++ (u ++ keys_bytes keys)) 18 20) ≡ length keys =
      ap big_endian (slice-append 18 20 h u (keys_bytes keys) e (omega (arith, l)))
      ∙ big_endian-uint16_bytes (length keys) few in
    rw (enough, count, ← append_assoc h u (keys_bytes keys))
      (unmarshal_keys-bytes keys 20 (h ++ u) (record q { keys = [] })
        (omega (arith, length-append h u, l, e)) short)

unmarshal_sized-bytes :
    (h key : List ℕ) (q : Packet)
    → length h ≡ 28
    → q.key_len ≡ length key
    → q.key ≡ []
    → unmarshal_sized (h ++ key) q ≡ (none, record q { key = key })
unfolding unmarshal_sized
unmarshal_sized-bytes h [] q e len none_there = ground (arith, length-append h [], len, none_there)
unmarshal_sized-bytes h (x ∷ xs) q e len none_there =
    let enough : ltb (length (h ++ (x ∷ xs))) (28 + q.key_len) ≡ false =
      ground (arith, length-append h (x ∷ xs), len) in
    let some_there : ltb 0 q.key_len ≡ true = ground (arith, len) in
    let read : slice (h ++ (x ∷ xs)) 28 (28 + q.key_len) ≡ x ∷ xs =
      ap (λ (y : List ℕ). slice (h ++ y) 28 (28 + q.key_len)) (sym (append-nil (x ∷ xs)))
      ∙ slice-append 28 (28 + q.key_len) h (x ∷ xs) [] e (omega (arith, len)) in
    rw (enough, some_there, read) refl

pub unmarshal_key-bytes :
    (h : List ℕ) (hash : ℕ) (key : List ℕ) (q : Packet)
    → length h ≡ 18
    → hash < 2 ^ 64
    → Short key
    → q.key ≡ []
    → unmarshal_key (h ++ (uint64_bytes hash ++ (uint16_bytes (length key) ++ key))) q
      ≡ (none, record q { key_hash = hash; key_len = length key; key = key })
unfolding unmarshal_key
unmarshal_key-bytes h hash key q e small short none_there =
    let x = uint64_bytes hash in
    let u = uint16_bytes (length key) in
    let lx = length-uint64_bytes hash in
    let lu = length-uint16_bytes (length key) in
    let b = h ++ (x ++ (u ++ key)) in
    let enough : ltb (length b) 28 ≡ false = ground (
      arith,
      length-append h (x ++ (u ++ key)),
      length-append x (u ++ key),
      length-append u key,
      lx,
      lu,
      e,
    ) in
    let read : big_endian (slice b 18 26) ≡ hash =
      ap big_endian (slice-append 18 26 h x (u ++ key) e (omega (arith, lx)))
      ∙ big_endian-uint64_bytes hash small in
    let left : b ≡ (h ++ x) ++ (u ++ key) = sym (append_assoc h x (u ++ key)) in
    let len : big_endian (slice b 26 28) ≡ length key =
      ap (λ (y : List ℕ). big_endian (slice y 26 28)) left
      ∙ ap big_endian (
          slice-append 26 28 (h ++ x) u key (omega (arith, length-append h x, lx, e))
            (omega (arith, lu)))
      ∙ big_endian-uint16_bytes (length key) short in
    let whole : b ≡ ((h ++ x) ++ u) ++ key = left ∙ sym (append_assoc (h ++ x) u key) in
    rw (enough, read, len)
      (ap (λ (y : List ℕ). unmarshal_sized y (record q { key_hash = hash; key_len = length key }))
          whole
        ∙ unmarshal_sized-bytes ((h ++ x) ++ u) key
            (record q { key_hash = hash; key_len = length key })
            (omega (arith, length-append h x, length-append (h ++ x) u, lx, lu, e)) refl none_there)
