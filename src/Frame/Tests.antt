-- ===== src/Frame/Tests.antt =====
-- Runs of the frame header, and its theorems at concrete values.
use libamqp.Prelude.{◌≡◌, refl, true, some, [], ◌∷◌, arith, inl, inr}
use libamqp.Buffer.{unchecked_getc_at, advance_read_index}
use libamqp.Buffer.Words.{ntoh_32}
use libamqp.Codec.State.{State, aborted, unsupported}
use libamqp.Frame.{decode_header, decode_frame, write_header}
use libamqp.Frame.Header.{decode_header-write_header, decode_frame-past_end}
use libamqp.Codec.Samples.{buffer_of, state_of}

-- A frame of eight bytes whose data offset is twelve.
abbrev bad_offset : State
bad_offset = state_of (0 ∷ 0 ∷ 0 ∷ 8 ∷ 3 ∷ 0 ∷ 0 ∷ 0 ∷ [])

decode_header-write_header_example :
    let b = buffer_of (0 ∷ 0 ∷ 0 ∷ 0 ∷ 0 ∷ 0 ∷ 0 ∷ 0 ∷ 0x45 ∷ []) in
    let b' = write_header 8 1 7 b in
    (ntoh_32 b' 0 ≡ 9)
    × (decode_header b'
        ≡ some (
          true,
          record { data_offset = 8; frame_type = 1; type_specific = 7 },
          advance_read_index b' 8,
        ))
    × (unchecked_getc_at b' 8 ≡ unchecked_getc_at b 8)
    × (b'.size ≡ 9)
decode_header-write_header_example =
    decode_header-write_header 1 7 8 (buffer_of (0 ∷ 0 ∷ 0 ∷ 0 ∷ 0 ∷ 0 ∷ 0 ∷ 0 ∷ 0x45 ∷ []))
      (inr refl) (omega arith) (omega arith) (omega arith) (omega arith)

decode_frame-past_end_example : decode_frame bad_offset ≡ aborted unsupported
unfolding unchecked_getc_at
decode_frame-past_end_example =
    decode_frame-past_end bad_offset 3 0 (omega arith) refl (omega arith) refl (inl refl)
      (omega arith)
