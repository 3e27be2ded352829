-- ===== src/Frame.antt =====
-- The frame header, Transport/Frame/Frame.c and Transport/Frame/FrameEncode.c: eight bytes with the size
-- of the frame, the offset of its data in words of four bytes, the type, and a word for the type.
pub mod Header
pub mod Performative
mod Tests
use libamqp.Prelude.{
  ℕ, ◌+◌, ◌-◌, ◌*◌, ◌/◌, ◌%◌, ◌^◌, Bool, true, false, ◌&&◌, Option, none, some, ltb, ◌==◌,
  if◌then◌else◌, not,
}
use libamqp.Buffer.{
  Buffer, unchecked_getc_at, unchecked_putc, advance_read_index, advance_write_point,
  set_write_index,
}
use libamqp.Buffer.Words.{ntoh_16, hton_16, hton_32}
use libamqp.Codec.State.{
  State, M, Outcome, returned, aborted, assertion, pure, ◌>>=◌, ◌>>◌, get, set_buffer,
}
use libamqp.Codec.Decode.Run.{amqp_decode}
use libamqp.Codec.Encode.Fixed.{encode_ulong}
use libamqp.Codec.Encode.Compound.{encode_list_8, start_encode_described_type, complete_type}

abbrev pub frame_header_size : ℕ
frame_header_size = 8

abbrev pub data_offset_multiplier : ℕ
data_offset_multiplier = 4

abbrev pub amqp_frame_type : ℕ
amqp_frame_type = 0

abbrev pub amqp_sasl_frame_type : ℕ
amqp_sasl_frame_type = 1

-- The fields of `amqp_frame_t` that come from the header.
pub record FrameHeader : Type 0 where
  pub data_offset : ℕ
  pub frame_type : ℕ
  pub type_specific : ℕ

-- What is read from the fixed places at the start of the buffer.
abbrev pub header_of : Buffer → FrameHeader
header_of b = record {
  data_offset = unchecked_getc_at b 4 * data_offset_multiplier;
  frame_type = unchecked_getc_at b 5;
  type_specific = ntoh_16 b 6;
}

abbrev pub header_valid : FrameHeader → Bool
header_valid frame =
    if ltb frame.data_offset frame_header_size
    then false
    else if not (frame.frame_type == amqp_frame_type)
        && not (frame.frame_type == amqp_sasl_frame_type)
    then false
    else true

-- The read point is moved before the checks; `none` is the failed `assert`. Error messages are left out.
unfoldable pub decode_header : Buffer → Option (Bool × FrameHeader × Buffer)
decode_header b =
    let frame = header_of b in
    if ltb b.size frame_header_size
    then none
    else some (header_valid frame, frame, advance_read_index b frame.data_offset)

-- `decode_frame` as far as `amqp_decode`: the object, which is null for an empty frame, or `none` where
-- the header is refused.
unfoldable pub decode_frame : M (Option ℕ)
decode_frame s = elim (decode_header s.buffer) [
  | none ↦ aborted assertion
  | some (rc, frame, b) ↦
      (if rc then (amqp_decode >>= λ p. pure (some p)) else pure none) (record s { buffer = b })
]

-- The end of `amqp_encode_frame`: the header is written over the bytes left for it.
unfoldable pub write_header : ℕ → ℕ → ℕ → Buffer → Buffer
write_header performative_offset frame_type frame_type_specific b =
    let frame_size = b.size in
    let b0 = set_write_index b 0 in
    let b1 = hton_32 b0 (frame_size % 2 ^ 32) in
    let b2 = unchecked_putc b1 (performative_offset / data_offset_multiplier) in
    let b3 = unchecked_putc b2 frame_type in
    let b4 = hton_16 b3 frame_type_specific in set_write_index b4 frame_size

-- The callback that encodes the fields is a parameter; so is the configuration.
module _ (continue_on_usage_error : Bool) (fields_encoder : M Bool) where
  unfoldable pub encode_frame_list : M Bool
  encode_frame_list = do
    list ← encode_list_8
    rc ← fields_encoder
    _ ← complete_type continue_on_usage_error list
    pure rc

  unfoldable pub encode_performative : ℕ → M Bool
  encode_performative id = do
    frame ← start_encode_described_type
    _ ← encode_ulong id
    rc ← encode_frame_list
    _ ← complete_type continue_on_usage_error frame
    pure rc

  -- The state has the newly allocated buffer; the object that described the frame is not freed.
  unfoldable pub encode_frame : ℕ → ℕ → ℕ → M Bool
  encode_frame id frame_type frame_type_specific = do
    set_buffer λ b. advance_write_point b 8
    performative_offset ← get (λ s. s.buffer.size)
    rc ← encode_performative id
    if rc
        then (set_buffer (write_header performative_offset frame_type frame_type_specific)
            >> pure true)
        else pure false
