-- ===== src/Tests/Wire.antt =====
-- Messages of the stream bus at concrete values, and a writer that takes three bytes at a time.
use go_warp.Base.{
  ℕ, ◌+◌, ◌-ℤ◌, ◌+ℤ◌, wrap64, ◌≤◌, ◌≡◌, refl, inr, pos, List, [], ◌∷◌, ◌++◌, Option, none, length,
  arith, true, min,
}
use go_warp.Mesh.Buffer.{take}
use go_warp.StreamBus.Ring.{unreliable, no_frame}
use go_warp.StreamBus.Subscription.{latest_only}
use go_warp.StreamBus.Varint.{put_uvarint, read_uvarint}
use go_warp.StreamBus.Wire.{
  WireError, invalid_version, invalid_message, frame_too_long, Message, message_bytes, bytes,
  message_subscribe, unix_epoch, unix_nano, unix_time, encode_message, read_error,
}
use go_warp.StreamBus.Varint.{end_of_file}
use go_warp.StreamBus.Wire.Decode.{decoded, rejected, decode_message}
use go_warp.StreamBus.Wire.Decode.RoundTrip.{IsMessage, canonical, decode-encode}
use go_warp.StreamBus.Wire.Stream.{
  Writer, wrote, write_all, write_message, received, failed, read_framed,
}
use go_warp.StreamBus.Wire.Stream.Sink.{IsWriter, write_all-ends, Delivered}
use go_warp.StreamBus.Wire.Stream.Framed.{read_framed-write_message}

program : Unit {0}
unfolding put_uvarint read_uvarint unix_nano unix_time wrap64 ◌-ℤ◌ ◌+ℤ◌ encode_message
    decode_message write_all write_message read_framed
program = tt

abbrev subscribe_message : Message
subscribe_message = record {
  kind = message_subscribe;
  id = 300;
  subscription_id = 2;
  ack = 0;
  frame = record no_frame {
    timestamp = pos (unix_epoch + 1);
    reliability = unreliable;
    priority = 3;
  };
  options = record {
    topic = 7 ∷ 8 ∷ [];
    prefix = true;
    buffer = pos 64;
    overflow = latest_only;
    replay = pos 0;
    since = 5;
  };
  error_text = 9 ∷ [];
}

stamp_reached : pos (unix_epoch + 1) -ℤ pos unix_epoch ≡ pos 1
unfolding ◌-ℤ◌
stamp_reached = refl

subscribe_message-IsMessage : IsMessage subscribe_message
subscribe_message-IsMessage = record {
  kind_first = omega arith;
  kind_last = omega arith;
  id = omega arith;
  subscription_id = omega arith;
  ack = omega arith;
  sequence = omega arith;
  stamp = inr (rw stamp_reached (omega arith, omega arith));
  priority = omega arith;
  buffer = (64, refl, omega arith);
  replay = (0, refl, omega arith);
  since = omega arith;
}

decode-encode_example :
    (b : List ℕ) × (encode_message subscribe_message ≡ bytes b)
    × (decode_message b ≡ decoded (canonical subscribe_message))
decode-encode_example = decode-encode subscribe_message subscribe_message-IsMessage refl

abbrev by_three : Writer (List ℕ)
by_three = record {
  write = λ content s. let n = min 3 (length content) in (pos n, none, s ++ take n content);
}

abbrev whole : List ℕ → List ℕ
whole s = s

by_three-IsWriter : IsWriter by_three whole
by_three-IsWriter = record {
  count = λ content s. min 3 (length content);
  count_is = λ content s. refl;
  count_small = λ content s. omega arith;
  sink_is = λ content s. refl;
}

write_all-ends_example :
    (e : Option WireError) × (s' : List ℕ) × (write_all by_three (1 ∷ 2 ∷ 3 ∷ 4 ∷ []) []
      ≡ wrote e s')
    × Delivered by_three whole by_three-IsWriter (1 ∷ 2 ∷ 3 ∷ 4 ∷ []) [] e s'
write_all-ends_example = write_all-ends by_three whole by_three-IsWriter (1 ∷ 2 ∷ 3 ∷ 4 ∷ []) []

short : length (message_bytes subscribe_message) ≤ 100
unfolding program
short = omega arith

read_framed-write_message_example :
    (e : Option WireError) × (s' : List ℕ) × (frame : List ℕ) × (write_message by_three
        subscribe_message
        (0 ∷ [])
      ≡ wrote e s')
    × (e ≡ none → s' ≡ (0 ∷ []) ++ frame)
    × ((more : List ℕ)
        → read_framed 100 (frame ++ more) ≡ received (canonical subscribe_message) more)
read_framed-write_message_example =
    read_framed-write_message by_three whole by_three-IsWriter subscribe_message 100 (0 ∷ [])
      subscribe_message-IsMessage refl short (omega arith)

decode_empty : decode_message [] ≡ rejected invalid_message
unfolding program
decode_empty = refl

-- A frame of two bytes of another version, one whose length is above the limit, and the end.
wrong_version : read_framed 100 (2 ∷ 9 ∷ 1 ∷ []) ≡ failed invalid_version
unfolding program
wrong_version = refl

too_long : read_framed 100 (0xac ∷ 2 ∷ 1 ∷ []) ≡ failed (frame_too_long 300 100)
unfolding program
too_long = refl

ended : read_framed 100 [] ≡ failed (read_error end_of_file)
unfolding program
ended = refl
