-- ===== src/Codec/RoundTrip/Boolean.antt =====
-- The decoders of the two booleans of no width.
use libamqp.Prelude.{ℕ, ◌%◌, ◌^◌, ◌<◌, ◌≡◌, refl, Bool, true, false, ap, if◌then◌else◌, arith}
use libamqp.Buffer.{unchecked_getc_at}
use libamqp.Codec.MetaData.{MetaData}
use libamqp.Codec.MetaData.Search.{find_code, type_meta_data_lookup_lem}
use libamqp.Codec.MetaData.Table.{meta_data_boolean_true, meta_data_boolean_false}
use libamqp.Codec.State.{State, with_b1}
use libamqp.Codec.State.Hoare.{Returns}
use libamqp.Codec.Decode.Fixed.{fixed_zero_width, boolean_true, boolean_false, set_position}
use libamqp.Codec.Decode.Run.{run_decoder, amqp_decode}
use libamqp.Codec.RoundTrip.Reading.{started}
use libamqp.Codec.RoundTrip.Storing.{Stored, fixed_zero_width-Stored}
use libamqp.Codec.RoundTrip.Scalar.{Got, scalar_read}

boolean_true-Stored :
    (p : ℕ) (s : State) → Returns (boolean_true p s) (Stored p 0 (with_b1 (s.types p).word 1) s)
unfolding boolean_true fixed_zero_width set_position
boolean_true-Stored p s = (refl, (ground arith, (ground arith, ground arith)))

started_word :
    (code : ℕ) (meta : MetaData) (s : State)
    → ((started meta code s).types s.next_type).word ≡ (s.types s.next_type).word
started_word code meta s = ground arith

-- `amqp_decode` of a boolean of no width: the object is valid and the code has been read; the byte of
-- its value is 1 for true, but for false it is what an earlier use of the object has left there.
pub decode_boolean_lem :
    (value : Bool) (s : State)
    → s.buffer.index < s.buffer.size
    → unchecked_getc_at s.buffer s.buffer.index ≡ (if value then 0x41 else 0x42)
    → Returns
        (amqp_decode s)
        (Got s 1 (λ w. w % 2 ^ 8 ≡ (if value then 1 else (s.types s.next_type).word % 2 ^ 8)))
unfolding run_decoder boolean_false find_code
decode_boolean_lem true s h e =
    let meta : MetaData = meta_data_boolean_true in
    scalar_read 0x41 meta s 0 _ (λ w. w % 2 ^ 8 ≡ 1) h e (type_meta_data_lookup_lem 0x41) refl
      (boolean_true-Stored s.next_type (started meta 0x41 s)) (omega arith)
decode_boolean_lem false s h e =
    let meta : MetaData = meta_data_boolean_false in
    scalar_read 0x42 meta s 0 _ (λ w. w % 2 ^ 8 ≡ (s.types s.next_type).word % 2 ^ 8) h e
      (type_meta_data_lookup_lem 0x42) refl
      (fixed_zero_width-Stored s.next_type (started meta 0x42 s))
      (ap (λ w. w % 2 ^ 8) (started_word 0x42 meta s))
