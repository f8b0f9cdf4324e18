-- ===== src/Mesh/Packet.antt =====
-- syncbus/mesh/packet.go: the packets of the mesh bus. A buffer is a list of bytes, which marshal
-- changes in place; it returns how much it wrote, the error, and the buffer.
pub mod Encode
pub mod Decode
pub mod RoundTrip
use go_warp.Base.{
  ℕ, zero, suc, ◌+◌, ◌%◌, ◌^◌, ◌≡◌, Bool, true, false, not, ◌||◌, List, [], ◌∷◌, ◌++◌, Key, Option,
  none, some, length, ltb, nat_beq, if◌then◌else◌, replicate,
}
use go_warp.Mesh.Buffer.{copy_at, slice, byte_at, uint16_bytes, uint64_bytes, big_endian}

pub data PacketError : Type 0 where
  invalid_magic short_buffer : PacketError

abbrev pub magic_byte : ℕ
magic_byte = 0x57

abbrev pub type_invalidate : ℕ
type_invalidate = 1

abbrev pub type_heartbeat : ℕ
type_heartbeat = 2

abbrev pub type_batch : ℕ
type_batch = 3

-- `kind` is Type; a node id has 16 bytes.
pub record Packet : Type 0 where
  pub magic : ℕ
  pub kind : ℕ
  pub node_id : List ℕ
  pub key_hash : ℕ
  pub key_len : ℕ
  pub key : List ℕ
  pub keys : List Key

-- `packet{}`
abbrev pub no_packet : Packet
no_packet = record {
  magic = 0;
  kind = 0;
  node_id = replicate 16 0;
  key_hash = 0;
  key_len = 0;
  key = [];
  keys = [];
}

abbrev has_key : ℕ → Bool
has_key kind = nat_beq kind type_invalidate || nat_beq kind type_heartbeat

pub marshal_key : Packet → List ℕ → ℕ × Option PacketError × List ℕ
marshal_key p b = if ltb (length b) (28 + length p.key) then (0, some short_buffer, b) else (
  28 + p.key_len,
  none,
  copy_at (copy_at (copy_at b 18 (uint64_bytes p.key_hash)) 26 (uint16_bytes p.key_len)) 28 p.key,
)

-- The loop over the keys, from `curr`.
marshal_keys : List Key → ℕ → List ℕ → ℕ × Option PacketError × List ℕ
marshal_keys [] curr b = (curr, none, b)
marshal_keys (k ∷ ks) curr b =
    let rest =
      marshal_keys ks (curr + (2 + length k))
        (copy_at (copy_at b curr (uint16_bytes (length k % 2 ^ 16))) (curr + 2) k) in
    if ltb (length b) (curr + 2 + length k) then (curr, some short_buffer, b) else rest

pub marshal_batch : Packet → List ℕ → ℕ × Option PacketError × List ℕ
unfolding marshal_keys
marshal_batch p b =
    if ltb (length b) 20
    then (0, some short_buffer, b)
    else marshal_keys p.keys 20 (copy_at b 18 (uint16_bytes (length p.keys % 2 ^ 16)))

marshal_body : Packet → List ℕ → ℕ × Option PacketError × List ℕ
unfolding marshal_key marshal_batch
marshal_body p b =
    if has_key p.kind
    then marshal_key p b
    else if nat_beq p.kind type_batch
    then marshal_batch p b
    else (18, none, b)

unfoldable pub marshal : Packet → List ℕ → ℕ × Option PacketError × List ℕ
unfolding marshal_body
marshal p b =
    if ltb (length b) 18
    then (0, some short_buffer, b)
    else marshal_body p (copy_at (copy_at (copy_at b 0 (p.magic ∷ [])) 1 (p.kind ∷ [])) 2 p.node_id)

-- A packet of one key, from its two lengths on.
unmarshal_sized : List ℕ → Packet → Option PacketError × Packet
unmarshal_sized b p =
    if ltb (length b) (28 + p.key_len)
    then (some short_buffer, p)
    else if ltb 0 p.key_len
    then (none, record p { key = slice b 28 (28 + p.key_len) })
    else (none, p)

pub unmarshal_key : List ℕ → Packet → Option PacketError × Packet
unfolding unmarshal_sized
unmarshal_key b p =
    if ltb (length b) 28
    then (some short_buffer, p)
    else unmarshal_sized b
        (record p { key_hash = big_endian (slice b 18 26); key_len = big_endian (slice b 26 28) })

-- `for range count`, from `curr`: each round appends a key.
unmarshal_keys : ℕ → ℕ → List ℕ → Packet → Option PacketError × Packet
unmarshal_keys zero curr b p = (none, p)
unmarshal_keys (suc count) curr b p =
    let len = big_endian (slice b curr (curr + 2)) in
    let rest =
      unmarshal_keys count (curr + (2 + len)) b
        (record p { keys = p.keys ++ slice b (curr + 2) (curr + 2 + len) ∷ [] }) in
    if ltb (length b) (curr + 2)
    then (some short_buffer, p)
    else if ltb (length b) (curr + 2 + len)
    then (some short_buffer, p)
    else rest

pub unmarshal_batch : List ℕ → Packet → Option PacketError × Packet
unfolding unmarshal_keys
unmarshal_batch b p =
    if ltb (length b) 20
    then (some short_buffer, p)
    else unmarshal_keys (big_endian (slice b 18 20)) 20 b (record p { keys = [] })

unmarshal_body : List ℕ → Packet → Option PacketError × Packet
unfolding unmarshal_key unmarshal_batch
unmarshal_body b p =
    if has_key p.kind
    then unmarshal_key b p
    else if nat_beq p.kind type_batch
    then unmarshal_batch b p
    else (none, p)

unfoldable pub unmarshal : List ℕ → Packet → Option PacketError × Packet
unfolding unmarshal_body
unmarshal b p =
    if ltb (length b) 18
    then (some short_buffer, p)
    else if not (nat_beq (byte_at b 0) magic_byte)
    then (some invalid_magic, record p { magic = byte_at b 0 })
    else unmarshal_body b
        (record p { magic = byte_at b 0; kind = byte_at b 1; node_id = slice b 2 18 })
