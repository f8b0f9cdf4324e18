-- ===== src/StreamBus/Wire/Stream.antt =====
-- streambus/wire.go: messages with their length before them, on a stream. What a stream will give
-- is a list of bytes, and then its end. A writer is a parameter: a call of Write takes the bytes
-- and the writer's state, and answers how many it took, an error, and its state afterwards.
pub mod Sink
pub mod Framed
use go_warp.Base.{
  ℕ, zero, suc, ◌-◌, ◌*◌, ◌^◌, ℤ, pos, pos_part, leb_ℤ, List, [], ◌∷◌, Option, none, some, length,
  drop, ltb, if◌then◌else◌, Bool, true, false,
}
use go_warp.StreamBus.Varint.{
  Taken, took, broken, put_uvarint, read_uvarint, end_of_file, unexpected_end,
}
use go_warp.Mesh.Buffer.{take}
use go_warp.StreamBus.Wire.{
  WireError, frame_too_long, read_error, write_error, short_write, Message, bytes, refused, Encoded,
  encode_message,
}
use go_warp.StreamBus.Wire.Decode.{Decoded, decoded, rejected, decode_message}

pub record Writer (W : Type 0) : Type 0 where
  pub write : List ℕ → W → ℤ × Option ℕ × W

-- The error and the writer afterwards; `out_of_fuel` is no Go value.
pub data Written (W : Type 0) : Type 0 where
  wrote : Option WireError → W → Written W
  out_of_fuel : Written W

module _ {W : Type 0} (w : Writer W) where
  -- One answer of Write: `content = content[n:]` where it is no failure.
  abbrev pub after_write : ℤ × Option ℕ × W → Written W → Written W
  after_write (n, some e, s) rest = wrote (some (write_error e)) s
  after_write (n, none, s) rest = if leb_ℤ n (pos 0) then wrote (some short_write) s else rest

  pub write_loop : ℕ → List ℕ → W → Written W
  write_loop fuel [] s = wrote none s
  write_loop zero (b ∷ bs) s = out_of_fuel
  write_loop (suc fuel) (b ∷ bs) s =
      let (n, e, s') = w.write (b ∷ bs) s in
      after_write (n, e, s') (write_loop fuel (drop (pos_part n) (b ∷ bs)) s')

  -- Each round but a failing one takes a byte at least.
  unfoldable pub write_all : List ℕ → W → Written W
  unfolding write_loop
  write_all content s = write_loop (length content) content s

  abbrev next_write : Written W → (W → Written W) → Written W
  next_write (wrote none s) f = f s
  next_write (wrote (some e) s) f = wrote (some e) s
  next_write out_of_fuel f = out_of_fuel

  write_encoded : Encoded → W → Written W
  unfolding write_all
  write_encoded (refused e) s = wrote (some e) s
  write_encoded (bytes content) s =
      next_write (write_all (put_uvarint (length content)) s) (write_all content)

  unfoldable pub write_message : Message → W → Written W
  unfolding write_encoded
  write_message m s = write_encoded (encode_message m) s

-- `max` of NewReader.
unfoldable pub max_frame : ℤ → ℕ
max_frame maximum = if leb_ℤ maximum (pos 0) then 64 * 2 ^ 20 else pos_part maximum

-- A message and the rest of the stream, or an error, after which a stream is not read further.
pub data Received : Type 0 where
  received : Message → List ℕ → Received
  failed : WireError → Received

abbrev pub received_from : Decoded → List ℕ → Received
received_from (decoded m) rest = received m rest
received_from (rejected e) rest = failed e

-- io.ReadFull, for a stream that is too short.
abbrev cut_short : List ℕ → Received
cut_short [] = failed (read_error end_of_file)
cut_short (b ∷ bs) = failed (read_error unexpected_end)

abbrev pub read_sized : ℕ → Taken ℕ → Received
read_sized max (broken e) = failed (read_error e)
read_sized max (took size rest) =
    if ltb max size
    then failed (frame_too_long size max)
    else if ltb (length rest) size
    then cut_short rest
    else received_from (decode_message (take size rest)) (drop size rest)

unfoldable pub read_framed : ℕ → List ℕ → Received
read_framed max src = read_sized max (read_uvarint src)
