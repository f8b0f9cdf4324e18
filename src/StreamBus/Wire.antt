-- ===== src/StreamBus/Wire.antt =====
-- streambus/wire.go: the binary messages of the transports. A buffer and a reader are lists of
-- bytes, the reader's being what is still to be read.
pub mod Decode
pub mod Stream
use go_warp.Base.{
  ℕ, ◌-◌, ◌*◌, ◌%◌, ◌^◌, ℤ, pos, negsuc, ◌+ℤ◌, ◌-ℤ◌, wrap64, Time, is_zero, Bool, true, false, List,
  [], ◌∷◌, ◌++◌, Key, length, drop, ltb, nat_beq, if◌then◌else◌, ◌&&◌, ◌||◌,
}
use go_warp.StreamBus.Ring.{Reliability, reliable, unreliable, Frame}
use go_warp.StreamBus.Subscription.{OverflowPolicy, block, drop_newest, drop_oldest, latest_only}
use go_warp.StreamBus.InMemory.{Request}
use go_warp.StreamBus.Varint.{
  VarintError, Taken, took, broken, put_uvarint, read_uvarint, zigzag, unzigzag,
}
use go_warp.Mesh.Buffer.{take}

-- ErrInvalidWireVersion, ErrInvalidWireMessage, that error with the frame's length and the limit,
-- the errors of the reader that a stream passes on, and those of a writer.
pub data WireError : Type 0 where
  invalid_version invalid_message : WireError
  frame_too_long : ℕ → ℕ → WireError
  read_error : VarintError → WireError
  write_error : ℕ → WireError
  short_write : WireError

abbrev pub wire_version : ℕ
wire_version = 1

-- MessageData to MessagePong are 1 to 9; a message may hold any other uint8.
abbrev pub message_data : ℕ
message_data = 1

abbrev pub message_subscribe : ℕ
message_subscribe = 3

abbrev pub message_pong : ℕ
message_pong = 9

-- `error_text` is Error.
pub record Message : Type 0 where
  pub kind : ℕ
  pub id : ℕ
  pub subscription_id : ℕ
  pub ack : ℕ
  pub frame : Frame
  pub options : Request
  pub error_text : List ℕ

-- A result with what is left of the reader.
pub data Parsed {ℓ} (A : Type ℓ) : Type ℓ where
  good : A → List ℕ → Parsed A
  bad : WireError → Parsed A

abbrev pub Read : Type 0 → Type 0
Read A = List ℕ → Parsed A

abbrev pub then_read : {A B : Type 0} → Parsed A → (A → Read B) → Parsed B
then_read (good a rest) f = f a rest
then_read (bad e) f = bad e

infixl 5 ◌>>=◌ ◌>>◌
abbrev pub ◌>>=◌ : {A B : Type 0} → Read A → (A → Read B) → Read B
◌>>=◌ m f src = then_read (m src) f

abbrev pub ◌>>◌ : {B : Type 0} → Read (Unit {0}) → Read B → Read B
m >> k = m >>= λ _. k

abbrev pub give : {A : Type 0} → A → Read A
give a src = good a src

-- `if !allowed { return Message{}, e }`
abbrev pub require : Bool → WireError → Read (Unit {0})
require true e src = good tt src
require false e src = bad e

-- `uint64(n)` of an int.
abbrev pub to_uint64 : ℤ → ℕ
to_uint64 (pos n) = n % 2 ^ 64
to_uint64 (negsuc n) = 2 ^ 64 - 1 - n % 2 ^ 64

-- The nanoseconds from Go's zero time to the Unix epoch.
abbrev pub unix_epoch : ℕ
unix_epoch = 62135596800 * 10 ^ 9

-- `t.UnixNano()` and `time.Unix(0, n)`.
unfoldable pub unix_nano : Time → ℤ
unix_nano t = wrap64 (t -ℤ pos unix_epoch)

unfoldable pub unix_time : ℤ → Time
unix_time n = n +ℤ pos unix_epoch

abbrev pub written_stamp : Time → ℤ
written_stamp t = if is_zero t then pos 0 else unix_nano t

abbrev pub read_stamp : ℤ → Time
read_stamp n = if is_zero n then pos 0 else unix_time n

abbrev pub reliability_byte : Reliability → ℕ
reliability_byte reliable = 0
reliability_byte unreliable = 1

abbrev pub reliability_of : ℕ → Reliability
reliability_of b = if nat_beq b 0 then reliable else unreliable

abbrev pub overflow_byte : OverflowPolicy → ℕ
overflow_byte block = 0
overflow_byte drop_newest = 1
overflow_byte drop_oldest = 2
overflow_byte latest_only = 3

abbrev pub overflow_of : ℕ → OverflowPolicy
overflow_of b =
    if nat_beq b 0
    then block
    else if nat_beq b 1
    then drop_newest
    else if nat_beq b 2
    then drop_oldest
    else latest_only

abbrev pub prefix_byte : Bool → ℕ
prefix_byte true = 1
prefix_byte false = 0

abbrev pub put_bytes : List ℕ → List ℕ
put_bytes content = put_uvarint (length content) ++ content

abbrev pub max_text : ℕ
max_text = 2 ^ 20

abbrev pub max_payload : ℕ
max_payload = 64 * 2 ^ 20

abbrev pub is_empty : List ℕ → Bool
is_empty [] = true
is_empty (b ∷ bs) = false

-- The topic that is written: a subscription's own, where the frame has none.
abbrev pub wire_topic : Message → Key
wire_topic m =
    if nat_beq m.kind message_subscribe && is_empty m.frame.topic
    then m.options.topic
    else m.frame.topic

abbrev pub header_bytes : Message → List ℕ → List ℕ
header_bytes m rest =
    wire_version
    ∷ m.kind
    ∷ (put_uvarint m.id ++ (put_uvarint m.subscription_id ++ (put_uvarint m.ack ++ rest)))

abbrev pub frame_bytes : Key → Frame → List ℕ → List ℕ
frame_bytes topic f rest =
    put_uvarint f.sequence
    ++ (put_uvarint (zigzag (written_stamp f.timestamp))
        ++ (reliability_byte f.reliability
            ∷ f.priority
            ∷ (put_bytes topic ++ (put_bytes f.payload ++ rest))))

abbrev pub options_bytes : Request → List ℕ → List ℕ
options_bytes q rest =
    prefix_byte q.prefix
    ∷ (put_uvarint (to_uint64 q.buffer)
        ++ (overflow_byte q.overflow
            ∷ (put_uvarint (to_uint64 q.replay) ++ (put_uvarint q.since ++ rest))))

abbrev pub message_bytes : Message → List ℕ
message_bytes m =
    header_bytes m
      (frame_bytes (wire_topic m) m.frame (options_bytes m.options (put_bytes m.error_text)))

pub data Encoded : Type 0 where
  bytes : List ℕ → Encoded
  refused : WireError → Encoded

abbrev pub too_large : Message → Bool
too_large m =
    ltb max_text (length (wire_topic m))
    || (ltb max_payload (length m.frame.payload) || ltb max_text (length m.error_text))

unfoldable pub encode_message : Message → Encoded
encode_message m = if too_large m then refused invalid_message else bytes (message_bytes m)
