-- ===== src/Frame/Performative/Empty.antt =====
-- Empty frames, which keep a connection alive: what is written is decoded, and what is left in the
-- memory of the frame.
use libamqp.Prelude.{ℕ, ◌≡◌, refl, ap, ◌∙◌, Bool, true, Option, some, List, ◌∷◌, ◌++◌, arith}
use mathlib.Core.Path.{subst}
use libamqp.Buffer.{Buffer, at_end, unchecked_putc, advance_read_index}
use libamqp.Buffer.Bytes.{Holds, append_bytes, append_bytes-Appends, append_bytes-Holds}
use libamqp.Buffer.Words.{
  ntoh_16-bytes, hton_32, bytes_16, bytes_32, hton_16-append, hton_32-append,
}
use libamqp.Codec.State.{State, M, returned}
use libamqp.Codec.State.Hoare.{bind_returned, branch_true}
use libamqp.Codec.Decode.Run.{decode_with, amqp_decode}
use libamqp.Frame.{FrameHeader, decode_header}
use libamqp.Frame.Header.{accepted_header, header_read}
use libamqp.Frame.Performative.{
  Descriptor, DecodedFrame, decode_body, decode_frame_in, decode_any_frame, decode_amqp_frame,
  decode_sasl_frame, check_amqp_frame, check_sasl_frame, accepted, refused, frame_cleanup,
  empty_frame, encode_empty_frame,
}
use libamqp.Frame.Performative.Laws.{frame_read}

-- The eight bytes.
abbrev pub wire_empty : List ℕ
wire_empty = bytes_32 8 ++ (2 ∷ 0 ∷ bytes_16 0)

encode_empty_frame-append : (b : Buffer) → encode_empty_frame b ≡ append_bytes b wire_empty
unfolding encode_empty_frame append_bytes
encode_empty_frame-append b =
    hton_16-append (unchecked_putc (unchecked_putc (hton_32 b 8) 2) 0) 0
    ∙ ap (λ x. append_bytes x (2 ∷ 0 ∷ bytes_16 0)) (hton_32-append b 8)

-- The end of the input is no object.
decode_at_end : (s : State) → s.buffer.index ≡ s.buffer.size → amqp_decode s ≡ returned 0 s
unfolding amqp_decode decode_with at_end
decode_at_end s e = branch_true (at_end s.buffer) _ _ s (ground (arith, e))

abbrev empty_header : FrameHeader
empty_header = record { data_offset = 8; frame_type = 0; type_specific = 0 }

module _ (b : Buffer) (empty : b.size ≡ 0) where
  abbrev pub sent : Buffer
  sent = append_bytes b wire_empty

  sent_size : sent.size ≡ 8
  sent_size = omega (arith, (append_bytes-Appends wire_empty b).grows, empty)

  sent_bytes : Holds sent 0 wire_empty
  sent_bytes =
      subst (λ i. Holds sent i wire_empty) empty (append_bytes-Holds wire_empty b (omega arith))

  header_of_empty : decode_header sent ≡ some (true, empty_header, advance_read_index sent 8)
  header_of_empty =
      let (h0, (h1, (h2, (h3, (h4, (h5, h6)))))) = sent_bytes in
      accepted_header sent empty_header (omega (arith, sent_size))
        (header_read sent 0 0 h4 h5 (ntoh_16-bytes sent 6 0 (omega arith) h6)) refl

  abbrev pub received : State → State
  received s = record s { buffer = advance_read_index sent 8 }

  module _ (lookup : List ℕ → Option Descriptor)
      (decode_fields : DecodedFrame → ℕ → M (Bool × DecodedFrame)) (f : DecodedFrame) (s : State)
      (start : b.index ≡ 0) where
    abbrev decoded : DecodedFrame
    decoded = empty_frame lookup decode_fields (record f { header = empty_header })

    read_to_end : (advance_read_index sent 8).index ≡ (advance_read_index sent 8).size
    unfolding advance_read_index
    read_to_end = omega (arith, (append_bytes-Appends wire_empty b).same_index, start, sent_size)

    frame_decoded :
        decode_frame_in lookup decode_fields f (record s { buffer = sent })
        ≡ returned (true, decoded) (received s)
    unfolding decode_body
    frame_decoded =
        frame_read lookup decode_fields f empty_header (record s { buffer = sent })
          (advance_read_index sent 8) header_of_empty
        ∙ bind_returned amqp_decode _ (received s) 0 (received s)
            (decode_at_end (received s) read_to_end)

    any_decoded :
        decode_any_frame lookup decode_fields f (record s { buffer = sent })
        ≡ returned (accepted decoded) (received s)
    unfolding decode_any_frame
    any_decoded =
        bind_returned (decode_frame_in lookup decode_fields f) _ (record s { buffer = sent })
          (true, decoded) (received s) frame_decoded

    amqp_decoded :
        decode_amqp_frame lookup decode_fields f (record s { buffer = sent })
        ≡ returned (accepted decoded) (received s)
    unfolding decode_amqp_frame check_amqp_frame
    amqp_decoded =
        bind_returned (decode_any_frame lookup decode_fields f) _ (record s { buffer = sent })
          (accepted decoded) (received s) any_decoded
        ∙ ground arith

    sasl_decoded :
        decode_sasl_frame lookup decode_fields f (record s { buffer = sent })
        ≡ returned (refused (frame_cleanup f)) (received s)
    unfolding decode_sasl_frame check_sasl_frame frame_cleanup
    sasl_decoded =
        bind_returned (decode_any_frame lookup decode_fields f) _ (record s { buffer = sent })
          (accepted decoded) (received s) any_decoded
        ∙ ground arith

-- An empty frame that is written into an empty buffer is decoded as an AMQP frame: all is read, and
-- the frame is one that is dispatched as empty. Its pointer to an object, its id and whether it has
-- a method of cleaning up are as its memory held them, and so it gives back what the frame before
-- it would have. As a SASL frame it is refused, and that is given back at once.
pub decode-encode_empty_frame :
    (lookup : List ℕ → Option Descriptor)
    (decode_fields : DecodedFrame → ℕ → M (Bool × DecodedFrame)) (f : DecodedFrame) (s : State)
    (b : Buffer)
    → b.size ≡ 0
    → b.index ≡ 0
    → let s' = record s { buffer = encode_empty_frame b } in
      (g : DecodedFrame) × (t : State) × (decode_amqp_frame lookup decode_fields f s'
        ≡ returned (accepted g) t)
      × (t.buffer.index ≡ t.buffer.size)
      × (g.dispatches_empty ≡ true)
      × (g.descriptor.kind ≡ 1)
      × (g.type ≡ f.type)
      × (g.descriptor.id ≡ f.descriptor.id)
      × (g.has_cleanup ≡ f.has_cleanup)
      × (frame_cleanup g ≡ frame_cleanup f)
      × (decode_sasl_frame lookup decode_fields f s' ≡ returned (refused (frame_cleanup f)) t)
unfolding frame_cleanup
decode-encode_empty_frame lookup decode_fields f s b empty start =
    let wire = encode_empty_frame-append b in
    (
      decoded b empty lookup decode_fields f s start,
      received b empty s,
      ap (λ x. decode_amqp_frame lookup decode_fields f (record s { buffer = x })) wire
          ∙ amqp_decoded b empty lookup decode_fields f s start,
      read_to_end b empty lookup decode_fields f s start,
      refl,
      refl,
      refl,
      refl,
      refl,
      refl,
      ap (λ x. decode_sasl_frame lookup decode_fields f (record s { buffer = x })) wire
          ∙ sasl_decoded b empty lookup decode_fields f s start,
    )
