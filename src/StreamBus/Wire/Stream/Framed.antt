-- ===== src/StreamBus/Wire/Stream/Framed.antt =====
-- streambus/wire.go: ReadMessage reads back what WriteMessage put on a stream.
use mathlib.Core.List.{append_assoc}
use go_warp.Base.{
  ℕ, ◌^◌, ◌≤◌, ◌<◌, ◌≡◌, refl, ap, ◌∙◌, false, Option-cases, inl, inr, List, ◌++◌, Option, none,
  some, length, length-append, ltb, arith,
}
use go_warp.Mesh.Buffer.{take-append, drop-append}
use go_warp.StreamBus.Varint.{put_uvarint, read_uvarint-put_uvarint}
use go_warp.StreamBus.Wire.{WireError, Message, message_bytes, too_large, encode_message}
use go_warp.StreamBus.Wire.Decode.RoundTrip.{IsMessage, canonical, decode-message_bytes}
use go_warp.StreamBus.Wire.Stream.{
  Writer, wrote, next_write, write_all, write_message, write_encoded, received, read_framed,
}
use go_warp.StreamBus.Wire.Stream.Sink.{IsWriter, write_all-ends, take_whole}

-- A message behind its length.
abbrev pub frame_of : List ℕ → List ℕ
frame_of content = put_uvarint (length content) ++ content

read_framed-frame_of :
    (m : Message) (max : ℕ) (more : List ℕ)
    → IsMessage m
    → too_large m ≡ false
    → length (message_bytes m) ≤ max
    → max < 2 ^ 63
    → read_framed max (frame_of (message_bytes m) ++ more) ≡ received (canonical m) more
unfolding read_framed
read_framed-frame_of m max more fine small within fits =
    let content = message_bytes m in
    let short : ltb max (length content) ≡ false = ground arith in
    let whole : ltb (length (content ++ more)) (length content) ≡ false =
      ground (arith, length-append content more) in
    rw
      (
        append_assoc (put_uvarint (length content)) content more,
        read_uvarint-put_uvarint (length content) (content ++ more) (omega arith),
        short,
        whole,
        take-append (length content) content more refl,
        drop-append (length content) content more refl,
        decode-message_bytes m fine small,
      )
      refl

module _ {W : Type 0} (w : Writer W) (sink : W → List ℕ) (law : IsWriter w sink) where
  write_frame :
      (prefix content : List ℕ) (s : W)
      → (e : Option WireError) × (s' : W) × (next_write w
            (write_all w prefix s)
            (write_all w content)
          ≡ wrote e s')
        × (e ≡ none → sink s' ≡ sink s ++ (prefix ++ content))
  write_frame prefix content s =
      let (e, s', ran, (k, small, arrived, full)) = write_all-ends w sink law prefix s in
      elim (Option-cases e) [
        | inr (x, failing) ↦ (some x, s', rw (ran, failing) refl, λ h. absurd (cc))
        | inl fine ↦
            let (e', s'', ran', (j, small', arrived', full')) =
              write_all-ends w sink law content s' in
            (
              e',
              s'',
              rw (ran, fine) ran',
              λ h.
                  arrived'
                  ∙ ap (λ (t : List ℕ). sink s' ++ t) (take_whole j content (full' h))
                  ∙ ap (λ (t : List ℕ). t ++ content)
                      (arrived ∙ ap (λ (t : List ℕ). sink s ++ t) (take_whole k prefix (full fine)))
                  ∙ append_assoc (sink s) prefix content,
            )
      ]

  -- WriteMessage ends for every writer. Where it returns no error, the writer has taken the
  -- message behind its length, and ReadMessage, of a limit that the message keeps to, reads the
  -- message back as DecodeMessage gives it, and leaves what follows: with the topic that was
  -- written, the frame's or else that of the options of a subscription, and in the options for a
  -- subscription only; with no timestamp where it was the Unix epoch; and otherwise the same. The
  -- message's fields are in range and within the limits of the encoding.
  pub read_framed-write_message :
      (m : Message) (max : ℕ) (s : W)
      → IsMessage m
      → too_large m ≡ false
      → length (message_bytes m) ≤ max
      → max < 2 ^ 63
      → (e : Option WireError) × (s' : W) × (frame : List ℕ) × (write_message w m s ≡ wrote e s')
        × (e ≡ none → sink s' ≡ sink s ++ frame)
        × ((more : List ℕ) → read_framed max (frame ++ more) ≡ received (canonical m) more)
  unfolding write_message write_encoded encode_message
  read_framed-write_message m max s fine small within fits =
      let content = message_bytes m in
      let (e, s', ran, arrived) = write_frame (put_uvarint (length content)) content s in
      (
        e,
        s',
        frame_of content,
        rw small ran,
        arrived,
        λ more. read_framed-frame_of m max more fine small within fits,
      )
