-- ===== src/StreamBus/Wire/Decode.antt =====
-- streambus/wire.go: DecodeMessage and readBytes.
pub mod RoundTrip
use go_warp.Base.{
  ℕ, zero, suc, ◌-◌, ◌^◌, ℤ, pos, Bool, true, false, not, List, [], ◌∷◌, Key, length, drop, ltb,
  leb, nat_beq, if◌then◌else◌, ◌&&◌,
}
use go_warp.StreamBus.Ring.{Frame}
use go_warp.StreamBus.InMemory.{Request}
use go_warp.StreamBus.Varint.{Taken, took, broken, read_uvarint, unzigzag}
use go_warp.Mesh.Buffer.{take}
use go_warp.StreamBus.Wire.{
  WireError, invalid_version, invalid_message, Message, Parsed, good, bad, Read, ◌>>=◌, ◌>>◌, give,
  require, wire_version, message_data, message_subscribe, message_pong, read_stamp, reliability_of,
  overflow_of, max_text, max_payload,
}

-- `reader.ReadByte()`
abbrev pub read_byte : Read ℕ
read_byte [] = bad invalid_message
read_byte (b ∷ bs) = good b bs

abbrev pub parsed : Taken ℕ → Parsed ℕ
parsed (took v rest) = good v rest
parsed (broken e) = bad invalid_message

-- `binary.ReadUvarint(reader)`, all of whose errors become ErrInvalidWireMessage.
abbrev pub uvarint : Read ℕ
uvarint src = parsed (read_uvarint src)

-- `make([]byte, size)` and `io.ReadFull`, where the reader has that many bytes.
abbrev pub read_full : ℕ → Read (List ℕ)
read_full size src = good (take size src) (drop size src)

-- The test of the size against the limit and against what the reader still has.
abbrev sized : ℕ → ℕ → Read (List ℕ)
sized maximum size src =
    if leb size maximum && leb size (length src) then read_full size src else bad invalid_message

pub read_bytes : ℕ → Read (List ℕ)
read_bytes maximum = do size ← uvarint; sized maximum size

-- A uint64 that an int can hold.
pub read_int : Read ℤ
read_int = do n ← uvarint; require (ltb n (2 ^ 63)) invalid_message; give (pos n)

pub read_frame : Read Frame
unfolding read_bytes
read_frame = do
  sequence ← uvarint
  timestamp ← uvarint
  reliability ← read_byte
  require (leb reliability 1) invalid_message
  priority ← read_byte
  require (leb priority 3) invalid_message
  topic ← read_bytes max_text
  payload ← read_bytes max_payload
  give (record {
    sequence = sequence;
    timestamp = read_stamp (unzigzag timestamp);
    topic = topic;
    payload = payload;
    reliability = reliability_of reliability;
    priority = priority;
  })

pub read_options : Key → Read Request
unfolding read_int
read_options topic = do
  prefix ← read_byte
  buffer ← read_int
  overflow ← read_byte
  require (leb overflow 3) invalid_message
  replay ← read_int
  since ← uvarint
  give (record {
    topic = topic;
    prefix = nat_beq prefix 1;
    buffer = buffer;
    overflow = overflow_of overflow;
    replay = replay;
    since = since;
  })

-- `reader.Len() != 0`
abbrev at_end : Read (Unit {0})
at_end [] = good tt []
at_end (b ∷ bs) = bad invalid_message

-- A subscription's topic is the frame's; the other kinds have no topic in their options.
abbrev pub options_topic : ℕ → Frame → Key
options_topic kind frame = if nat_beq kind message_subscribe then frame.topic else []

pub read_message : Read Message
unfolding read_bytes read_frame read_options
read_message = do
  version ← read_byte
  require (nat_beq version wire_version) invalid_version
  kind ← read_byte
  require (leb message_data kind && leb kind message_pong) invalid_message
  id ← uvarint
  subscription_id ← uvarint
  ack ← uvarint
  frame ← read_frame
  options ← read_options (options_topic kind frame)
  error_text ← read_bytes max_text
  at_end
  give (record {
    kind = kind;
    id = id;
    subscription_id = subscription_id;
    ack = ack;
    frame = frame;
    options = options;
    error_text = error_text;
  })

pub data Decoded : Type 0 where
  decoded : Message → Decoded
  rejected : WireError → Decoded

abbrev outcome : Parsed Message → Decoded
outcome (good m rest) = decoded m
outcome (bad e) = rejected e

unfoldable pub decode_message : List ℕ → Decoded
unfolding read_message
decode_message src = outcome (read_message src)
