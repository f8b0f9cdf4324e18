-- ===== src/Tests/Mesh.antt =====
-- Runs of syncbus/mesh/packet.go.
use go_warp.Base.{◌≡◌, refl, ℕ, ◌≤◌, [], ◌∷◌, List, length, replicate, none, some, arith}
use go_warp.Mesh.Buffer.{take, copy_at, uint16_bytes, uint64_bytes, big_endian}
use go_warp.Mesh.Packet.{
  Packet, no_packet, marshal, unmarshal, magic_byte, type_batch, short_buffer, invalid_magic,
}
use go_warp.Mesh.Packet.Encode.{batch, size, head, body, keys_bytes}
use go_warp.Mesh.Packet.RoundTrip.{unmarshal-marshal}

program : Unit {0}
unfolding marshal unmarshal copy_at uint16_bytes uint64_bytes big_endian size head body keys_bytes
program = tt

-- Two keys, and a buffer of 32 bytes.
abbrev packet : Packet
packet = record no_packet {
  magic = magic_byte;
  kind = type_batch;
  keys = (1 ∷ 2 ∷ []) ∷ (3 ∷ []) ∷ [];
}

abbrev buffer : List ℕ
buffer = replicate 32 0

fits : size packet ≤ length buffer
unfolding program
fits = omega arith

unmarshal-marshal_example :
    let (n, e, b') = marshal packet buffer in
    (n ≡ size packet) × (e ≡ none) × (unmarshal (take n b') no_packet ≡ (none, packet))
unmarshal-marshal_example =
    unmarshal-marshal packet buffer refl refl
      (batch refl (omega arith) (omega arith, (omega arith, tt)) refl refl refl) fits

-- A buffer that is too short, and a packet of another protocol.
short : (let (n, e, b) = marshal packet (replicate 26 0) in e) ≡ some short_buffer
unfolding program
short = refl

foreign : (unmarshal (replicate 32 0) no_packet).0 ≡ some invalid_magic
unfolding program
foreign = refl
