-- ===== src/Mesh/Packet/RoundTrip.antt =====
-- syncbus/mesh/packet.go: unmarshal reads back what marshal wrote.
use go_warp.Base.{
  ℕ, ◌+◌, ◌^◌, ◌≤◌, ◌<◌, ◌≡◌, refl, sym, ◌∙◌, ap, subst, ◌⊎◌, true, false, ◌||◌, List, [], ◌∷◌,
  ◌++◌, none, length, length-append, drop, ltb, nat_beq, All, arith,
}
use go_warp.Mesh.Buffer.{take, uint16_bytes, uint64_bytes, take-append}
use go_warp.Mesh.Packet.{
  Packet, no_packet, magic_byte, type_invalidate, type_heartbeat, type_batch, marshal, marshal_body,
  unmarshal, unmarshal_body,
}
use go_warp.Mesh.Packet.Encode.{
  Short, keys_bytes, head, body, size, IsPacket, single, batch, length-uint16_bytes,
  length-uint64_bytes, length-head, marshal_header, marshal_batch-bytes, marshal_key-bytes,
}
use go_warp.Mesh.Packet.Decode.{unmarshal_batch-bytes, unmarshal_key-bytes}

abbrev one_key : Packet → List ℕ
one_key p = uint64_bytes p.key_hash ++ (uint16_bytes p.key_len ++ p.key)

abbrev many_keys : Packet → List ℕ
many_keys p = uint16_bytes (length p.keys) ++ keys_bytes p.keys

marshal_single :
    (p : Packet) (b : List ℕ)
    → length p.node_id ≡ 16
    → (p.kind ≡ type_invalidate) ⊎ (p.kind ≡ type_heartbeat)
    → p.key_len ≡ length p.key
    → length (head p ++ one_key p) ≤ length b
    → marshal p b ≡ (
      length (head p ++ one_key p),
      none,
      (head p ++ one_key p) ++ drop (length (head p ++ one_key p)) b,
    )
unfolding marshal marshal_body
marshal_single p b sized kind len room =
    let x = uint64_bytes p.key_hash in
    let u = uint16_bytes p.key_len in
    let this : (nat_beq p.kind type_invalidate || nat_beq p.kind type_heartbeat) ≡ true =
      ground (arith, kind) in
    let n : 28 + p.key_len ≡ length (head p ++ (x ++ (u ++ p.key))) = omega (
      arith,
      length-append (head p) (x ++ (u ++ p.key)),
      length-append x (u ++ p.key),
      length-append u p.key,
      length-uint64_bytes p.key_hash,
      length-uint16_bytes p.key_len,
      length-head p sized,
      len,
    ) in
    let enough : ltb (length b) 18 ≡ false = ground (arith, n, room) in
    rw (enough, marshal_header p b sized (omega (arith, n, room)), this)
      (marshal_key-bytes p b (length (head p ++ one_key p)) sized len n room)

marshal_many :
    (p : Packet) (b : List ℕ)
    → length p.node_id ≡ 16
    → p.kind ≡ type_batch
    → length p.keys < 2 ^ 16
    → All Short p.keys
    → length (head p ++ many_keys p) ≤ length b
    → marshal p b ≡ (
      length (head p ++ many_keys p),
      none,
      (head p ++ many_keys p) ++ drop (length (head p ++ many_keys p)) b,
    )
unfolding marshal marshal_body
marshal_many p b sized kind few short room =
    let u = uint16_bytes (length p.keys) in
    let this : nat_beq p.kind type_batch ≡ true = ground (arith, kind) in
    let other : (nat_beq p.kind type_invalidate || nat_beq p.kind type_heartbeat) ≡ false =
      ground (arith, kind) in
    let n : 20 + length (keys_bytes p.keys) ≡ length (head p ++ (u ++ keys_bytes p.keys)) = omega (
      arith,
      length-append (head p) (u ++ keys_bytes p.keys),
      length-append u (keys_bytes p.keys),
      length-uint16_bytes (length p.keys),
      length-head p sized,
    ) in
    let enough : ltb (length b) 18 ≡ false = ground (arith, n, room) in
    rw (enough, marshal_header p b sized (omega (arith, n, room)), other, this)
      (marshal_batch-bytes p b (length (head p ++ many_keys p)) sized few short n room)

abbrev started : Packet → Packet
started p = record no_packet { magic = p.magic; kind = p.kind; node_id = p.node_id }

unmarshal_header :
    (p : Packet) (rest : List ℕ)
    → p.magic ≡ magic_byte
    → length p.node_id ≡ 16
    → unmarshal (head p ++ rest) no_packet ≡ unmarshal_body (head p ++ rest) (started p)
unfolding unmarshal head
unmarshal_header p rest magic sized =
    let enough : ltb (length (p.magic ∷ p.kind ∷ (p.node_id ++ rest))) 18 ≡ false =
      ground (arith, length-append p.node_id rest, sized) in
    let right : nat_beq p.magic magic_byte ≡ true = ground (arith, magic) in
    rw (enough, right, take-append 16 p.node_id rest sized) refl

unmarshal_single :
    (p : Packet)
    → p.magic ≡ magic_byte
    → length p.node_id ≡ 16
    → (p.kind ≡ type_invalidate) ⊎ (p.kind ≡ type_heartbeat)
    → p.key_hash < 2 ^ 64
    → p.key_len ≡ length p.key
    → Short p.key
    → p.keys ≡ []
    → unmarshal (head p ++ one_key p) no_packet ≡ (none, p)
unfolding unmarshal_body head
unmarshal_single p magic sized kind small len short nothing =
    let this : (nat_beq p.kind type_invalidate || nat_beq p.kind type_heartbeat) ≡ true =
      ground (arith, kind) in
    let read : unmarshal_body (head p ++ one_key p) (started p) ≡ (
      none,
      record (started p) { key_hash = p.key_hash; key_len = length p.key; key = p.key },
    ) =
      rw (this, len)
        (unmarshal_key-bytes (head p) p.key_hash p.key (started p) (length-head p sized) small short
          refl) in
    cc (unmarshal_header p (one_key p) magic sized, read, len, nothing)

unmarshal_many :
    (p : Packet)
    → p.magic ≡ magic_byte
    → length p.node_id ≡ 16
    → p.kind ≡ type_batch
    → length p.keys < 2 ^ 16
    → All Short p.keys
    → p.key_hash ≡ 0
    → p.key_len ≡ 0
    → p.key ≡ []
    → unmarshal (head p ++ many_keys p) no_packet ≡ (none, p)
unfolding unmarshal_body
unmarshal_many p magic sized kind few short no_hash no_len no_key =
    let this : nat_beq p.kind type_batch ≡ true = ground (arith, kind) in
    let other : (nat_beq p.kind type_invalidate || nat_beq p.kind type_heartbeat) ≡ false =
      ground (arith, kind) in
    let read : unmarshal_body (head p ++ many_keys p) (started p)
        ≡ (none, record (started p) { keys = p.keys }) =
      rw (other, this)
        (unmarshal_batch-bytes (head p) p.keys (started p) (length-head p sized) few short) in
    cc (unmarshal_header p (many_keys p) magic sized, read, no_hash, no_len, no_key)

body_single :
    (p : Packet) → (p.kind ≡ type_invalidate) ⊎ (p.kind ≡ type_heartbeat) → body p ≡ one_key p
unfolding body
body_single p kind =
    let other : nat_beq p.kind type_batch ≡ false = ground (arith, kind) in rw other refl

body_many : (p : Packet) → p.kind ≡ type_batch → body p ≡ many_keys p
unfolding body
body_many p kind =
    let this : nat_beq p.kind type_batch ≡ true = ground (arith, kind) in rw this refl

-- What a buffer holds and what comes back, for the bytes of a packet.
abbrev Returns : Packet → List ℕ → List ℕ → Type 0
Returns p b bytes =
    let (n, e, b') = marshal p b in
    (n ≡ length (head p ++ bytes)) × (e ≡ none) × (unmarshal (take n b') no_packet ≡ (none, p))

returns :
    (p : Packet) (b bytes : List ℕ)
    → marshal p b
      ≡ (length (head p ++ bytes), none, (head p ++ bytes) ++ drop (length (head p ++ bytes)) b)
    → unmarshal (head p ++ bytes) no_packet ≡ (none, p)
    → Returns p b bytes
returns p b bytes wrote read =
    let n = length (head p ++ bytes) in
    rw wrote (
      refl,
      refl,
      ap (λ (x : List ℕ). unmarshal x no_packet) (take-append n (head p ++ bytes) (drop n b) refl)
          ∙ read,
    )

-- A packet that the bus can build, and a buffer that it fits in: marshal writes it without error and
-- says how many bytes it took, and unmarshal of just these bytes gives the packet back.
pub unmarshal-marshal :
    (p : Packet) (b : List ℕ)
    → p.magic ≡ magic_byte
    → length p.node_id ≡ 16
    → IsPacket p
    → size p ≤ length b
    → let (n, e, b') = marshal p b in
      (n ≡ size p) × (e ≡ none) × (unmarshal (take n b') no_packet ≡ (none, p))
unfolding size
unmarshal-marshal p b magic sized (single kind small len short nothing) room =
    let bytes = body_single p kind in
    subst (Returns p b) (sym bytes) (
      returns p b (one_key p)
        (marshal_single p b sized kind len
          (subst (λ (x : List ℕ). length (head p ++ x) ≤ length b) bytes room))
        (unmarshal_single p magic sized kind small len short nothing))
unmarshal-marshal p b magic sized (batch kind few short no_hash no_len no_key) room =
    let bytes = body_many p kind in
    subst (Returns p b) (sym bytes) (
      returns p b (many_keys p)
        (marshal_many p b sized kind few short
          (subst (λ (x : List ℕ). length (head p ++ x) ≤ length b) bytes room))
        (unmarshal_many p magic sized kind few short no_hash no_len no_key))
