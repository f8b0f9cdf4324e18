-- ===== src/StreamBus/Wire/Decode/RoundTrip.antt =====
-- streambus/wire.go: DecodeMessage reads back what EncodeMessage wrote.
use mathlib.Core.List.{append_assoc, append-nil}
use go_warp.Base.{
  ℕ, ◌%◌, ◌^◌, ◌≤◌, ◌<◌, ◌≡◌, ◌⊎◌, inl, inr, refl, ap, ℤ, beq_ℤ, if◌then◌else◌, -ℤ_parts, pos, ◌+ℤ◌,
  ◌-ℤ◌, Int64, wrap64_of_Int64, int_laws, wrap64-Int64, is_zero, Time, Bool, true, false, List, [],
  ◌++◌, Key, ◌&&◌, length, length-append, ltb, leb, nat_beq, arith, Bool-cases,
}
use go_warp.StreamBus.Ring.{Frame, Reliability, reliable, unreliable}
use go_warp.StreamBus.Subscription.{OverflowPolicy, block, drop_newest, drop_oldest, latest_only}
use go_warp.StreamBus.InMemory.{Request}
use go_warp.StreamBus.Varint.{
  put_uvarint, zigzag, read_uvarint-put_uvarint, unzigzag-zigzag, zigzag_fits,
}
use go_warp.Mesh.Buffer.{take-append, drop-append}
use go_warp.StreamBus.Wire.{
  Message, good, unix_nano, unix_time, unix_epoch, written_stamp, read_stamp, reliability_byte,
  reliability_of, overflow_byte, overflow_of, prefix_byte, put_bytes, to_uint64, frame_bytes,
  options_bytes, wire_topic, message_bytes, bytes, too_large, encode_message, max_text, max_payload,
}
use go_warp.StreamBus.Wire.Decode.{
  parsed, uvarint, read_bytes, read_int, read_frame, read_options, options_topic, read_message,
  decoded, decode_message,
}

-- A timestamp that the wire can carry: none, or one that int64 nanoseconds reach.
abbrev pub IsStamp : Time → Type 0
IsStamp t = (t ≡ pos 0) ⊎ Int64 (t -ℤ pos unix_epoch)

-- The timestamp as it is read: that of the Unix epoch itself is written as 0, and read as none.
abbrev pub stamp_read : Time → Time
stamp_read t = if beq_ℤ t (pos unix_epoch) then pos 0 else t

-- An int that is not negative.
abbrev pub IsCount : ℤ → Type 0
IsCount n = (m : ℕ) × (n ≡ pos m) × (m < 2 ^ 63)

-- The fields fit their types, and the constants are named ones.
pub record IsMessage (m : Message) : Type 0 where
  pub kind_first : 1 ≤ m.kind
  pub kind_last : m.kind ≤ 9
  pub id : m.id < 2 ^ 64
  pub subscription_id : m.subscription_id < 2 ^ 64
  pub ack : m.ack < 2 ^ 64
  pub sequence : m.frame.sequence < 2 ^ 64
  pub stamp : IsStamp m.frame.timestamp
  pub priority : m.frame.priority ≤ 3
  pub buffer : IsCount m.options.buffer
  pub replay : IsCount m.options.replay
  pub since : m.options.since < 2 ^ 64

-- The message as it is read: the topic in the frame, and in the options of a subscription only.
abbrev framed : Message → Frame
framed m = record m.frame { topic = wire_topic m; timestamp = stamp_read m.frame.timestamp }

abbrev pub canonical : Message → Message
canonical m = record m {
  frame = framed m;
  options = record m.options { topic = options_topic m.kind (framed m) };
}

uvarint-put_uvarint :
    (v : ℕ) (rest : List ℕ) → v < 2 ^ 64 → uvarint (put_uvarint v ++ rest) ≡ good v rest
uvarint-put_uvarint v rest h = ap parsed (read_uvarint-put_uvarint v rest h)

read_bytes-put_bytes :
    (maximum : ℕ) (content rest : List ℕ)
    → maximum < 2 ^ 64
    → length content ≤ maximum
    → read_bytes maximum (put_bytes content ++ rest) ≡ good content rest
unfolding read_bytes
read_bytes-put_bytes maximum content rest small short =
    let within : leb (length content) maximum ≡ true = ground arith in
    let there : leb (length content) (length (content ++ rest)) ≡ true =
      ground (arith, length-append content rest) in
    rw
      (
        append_assoc (put_uvarint (length content)) content rest,
        uvarint-put_uvarint (length content) (content ++ rest) (omega arith),
        within,
        there,
        take-append (length content) content rest refl,
        drop-append (length content) content rest refl,
      )
      refl

read_int-to_uint64 :
    (n : ℤ) (rest : List ℕ) → IsCount n → read_int (put_uvarint (to_uint64 n) ++ rest) ≡ good n rest
unfolding read_int
read_int-to_uint64 n rest (m, is, small) =
    let fits : ltb m (2 ^ 63) ≡ true = ground arith in
    let same : m % 2 ^ 64 ≡ m = omega arith in
    rw (is, same, uvarint-put_uvarint m rest (omega arith), fits) refl

difference_zero : (a b : ℤ) → is_zero (a -ℤ b) ≡ beq_ℤ a b
difference_zero a b = ground (arith, -ℤ_parts a b)

back : (a b : ℤ) → (a -ℤ b) +ℤ b ≡ a
back a b = grind int_laws

stamp_round_trip : (t : Time) → IsStamp t → read_stamp (written_stamp t) ≡ stamp_read t
unfolding unix_time unix_nano
stamp_round_trip t h = elim h [
  | inl none_given ↦ rw none_given refl
  | inr fits ↦ elim (Bool-cases (is_zero t)) [
    | inl z ↦ rw z (ground arith)
    | inr nz ↦
        rw
          (
            nz,
            wrap64_of_Int64 (t -ℤ pos unix_epoch) fits,
            difference_zero t (pos unix_epoch),
            back t (pos unix_epoch),
          )
          refl
  ]
]

stamp_fits : (t : Time) → zigzag (written_stamp t) < 2 ^ 64
unfolding unix_nano
stamp_fits t = zigzag_fits (written_stamp t) (ground (arith, wrap64-Int64 (t -ℤ pos unix_epoch)))

reliability_round_trip : (r : Reliability) → reliability_of (reliability_byte r) ≡ r
reliability_round_trip reliable = refl
reliability_round_trip unreliable = refl

overflow_round_trip : (p : OverflowPolicy) → overflow_of (overflow_byte p) ≡ p
overflow_round_trip block = refl
overflow_round_trip drop_newest = refl
overflow_round_trip drop_oldest = refl
overflow_round_trip latest_only = refl

prefix_round_trip : (b : Bool) → nat_beq (prefix_byte b) 1 ≡ b
prefix_round_trip true = refl
prefix_round_trip false = refl

reliability_known : (r : Reliability) → leb (reliability_byte r) 1 ≡ true
reliability_known reliable = refl
reliability_known unreliable = refl

overflow_known : (p : OverflowPolicy) → leb (overflow_byte p) 3 ≡ true
overflow_known block = refl
overflow_known drop_newest = refl
overflow_known drop_oldest = refl
overflow_known latest_only = refl

read_frame-frame_bytes :
    (topic : Key) (f : Frame) (rest : List ℕ)
    → f.sequence < 2 ^ 64
    → IsStamp f.timestamp
    → f.priority ≤ 3
    → length topic ≤ max_text
    → length f.payload ≤ max_payload
    → read_frame (frame_bytes topic f rest)
      ≡ good (record f { topic = topic; timestamp = stamp_read f.timestamp }) rest
unfolding read_frame
read_frame-frame_bytes topic f rest sequence stamp priority short small =
    let known : leb f.priority 3 ≡ true = ground arith in
    rw
      (
        uvarint-put_uvarint f.sequence _ sequence,
        uvarint-put_uvarint (zigzag (written_stamp f.timestamp)) _ (stamp_fits f.timestamp),
        reliability_known f.reliability,
        known,
        read_bytes-put_bytes max_text topic _ (omega arith) short,
        read_bytes-put_bytes max_payload f.payload rest (omega arith) small,
        unzigzag-zigzag (written_stamp f.timestamp),
        stamp_round_trip f.timestamp stamp,
        reliability_round_trip f.reliability,
      )
      refl

read_options-options_bytes :
    (topic : Key) (q : Request) (rest : List ℕ)
    → IsCount q.buffer
    → IsCount q.replay
    → q.since < 2 ^ 64
    → read_options topic (options_bytes q rest) ≡ good (record q { topic = topic }) rest
unfolding read_options
read_options-options_bytes topic q rest buffer replay since =
    rw
      (
        read_int-to_uint64 q.buffer _ buffer,
        overflow_known q.overflow,
        read_int-to_uint64 q.replay _ replay,
        uvarint-put_uvarint q.since rest since,
        prefix_round_trip q.prefix,
        overflow_round_trip q.overflow,
      )
      refl

read_bytes_last :
    (content : List ℕ)
    → length content ≤ max_text
    → read_bytes max_text (put_bytes content) ≡ good content []
read_bytes_last content short =
    rw append-nil at (read_bytes-put_bytes max_text content [] (omega arith) short)

pub decode-message_bytes :
    (m : Message)
    → IsMessage m
    → too_large m ≡ false
    → decode_message (message_bytes m) ≡ decoded (canonical m)
unfolding decode_message read_message
decode-message_bytes m fine small =
    let known : (leb 1 m.kind && leb m.kind 9) ≡ true =
      ground (arith, fine.kind_first, fine.kind_last) in
    let topic : length (wire_topic m) ≤ max_text = ground arith in
    let payload : length m.frame.payload ≤ max_payload = ground arith in
    let text : length m.error_text ≤ max_text = ground arith in
    rw
      (
        known,
        uvarint-put_uvarint m.id _ fine.id,
        uvarint-put_uvarint m.subscription_id _ fine.subscription_id,
        uvarint-put_uvarint m.ack _ fine.ack,
        read_frame-frame_bytes (wire_topic m) m.frame _ fine.sequence fine.stamp fine.priority topic
            payload,
        read_options-options_bytes (options_topic m.kind (framed m)) m.options _ fine.buffer
            fine.replay fine.since,
        read_bytes_last m.error_text text,
      )
      refl

-- Every message whose fields are in range and whose texts are within the limits is encoded, and
-- the bytes decode to the same message, with the topic that was written: the frame's, or that of
-- the options for a subscription whose frame has none. Only a subscription's options keep a topic.
-- A timestamp at the Unix epoch itself is lost: it is read as none.
pub decode-encode :
    (m : Message)
    → IsMessage m
    → too_large m ≡ false
    → (b : List ℕ) × (encode_message m ≡ bytes b) × (decode_message b ≡ decoded (canonical m))
unfolding encode_message
decode-encode m fine small = (message_bytes m, rw small refl, decode-message_bytes m fine small)
