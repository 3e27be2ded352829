-- ===== src/Codec/Tests.antt =====
-- Runs of the codec on small buffers, and its theorems at concrete values.
mod Encoding
use libamqp.Prelude.{
  ℕ, zero, suc, ◌-◌, ◌%◌, ◌^◌, ◌≡◌, ◌≢◌, refl, true, false, ◌⊎◌, Option, none, some, List, [], ◌∷◌,
  get_elem?, length, arith,
}
use libamqp.Buffer.{Buffer, getc, putc, check_free_space, check_available, advance_read_index}
use libamqp.Buffer.Words.{hton_64}
use libamqp.Codec.MetaData.{MetaData}
use libamqp.Codec.MetaData.Table.{meta_data_null, meta_data_uint, type_lookup_table}
use libamqp.Codec.MetaData.Lookup.{lookup_in, type_meta_data_lookup}
use libamqp.Codec.MetaData.Search.{find_code, lookup_in-find_code, type_meta_data_lookup_lem}
use libamqp.Codec.State.{AmqpType, State, Outcome, returned, aborted, stuck, ◌>>=◌, type_is_invalid}
use libamqp.Codec.State.Hoare.{Ensures, Extends}
use libamqp.Codec.Decode.Fixed.{set_position, boolean_true, small_uint, fixed_width}
use libamqp.Codec.Decode.Variable.{get_variable_type_size, get_variable_type_count}
use libamqp.Codec.Decode.Compound.{list_list, construct_container_type, element_loop}
use libamqp.Codec.Decode.Sound.Constructor.{widths_ok}
use libamqp.Codec.Encode.{initialize_type}
use libamqp.Codec.RoundTrip.FixedWidth.{ReadBack}
use libamqp.Codec.RoundTrip.Integers.{decode-encode_integer}
use libamqp.Codec.Decode.Run.{decode_type_into_result, amqp_decode}
use libamqp.Codec.Decode.Sound.Step.{Result}
use libamqp.Codec.Decode.Sound.Run.{amqp_decode_lem, decode_type_into_result_lem}
use libamqp.Codec.Encode.Fixed.{
  encode_fixed, encode_fixed_eight_byte, encode_uint, encode_ulong, encode_int, encode_long,
}
use libamqp.Buffer.Bytes.{Holds}
use libamqp.Codec.Encode.Variable.{encode_binary}
use libamqp.Codec.RoundTrip.DataTrip.{DataBack}
use libamqp.Codec.RoundTrip.Binary.{decode-encode_binary}
use libamqp.Codec.Samples.{blank, buffer_of, state_of}

-- A list of two elements, `true` and the `uint` 7.
abbrev list_bytes : List ℕ
list_bytes = 0xC0 ∷ 4 ∷ 2 ∷ 0x41 ∷ 0x52 ∷ 7 ∷ []

-- A `uint` with its constructor already read, in the object at 1.
abbrev uint_state : State
uint_state = record {
  buffer = record (buffer_of (0x70 ∷ 0 ∷ 0 ∷ 1 ∷ 2 ∷ [])) { index = 1 };
  types = λ _. record blank { meta_data = some meta_data_uint };
  next_type = 2;
  container = 0;
}

-- The value in an object that was decoded.
word_at : Outcome ℕ → Option ℕ
word_at (returned p s) = some (s.types p).word
word_at (aborted why) = none
word_at stuck = none

decodes_list : word_at (amqp_decode (state_of list_bytes)) ≡ some 2
unfolding word_at amqp_decode type_meta_data_lookup getc list_list construct_container_type
    get_variable_type_size set_position get_variable_type_count element_loop boolean_true small_uint
    advance_read_index
decodes_list = refl

encodes_then_decodes :
    word_at ((encode_ulong 70000 >>= λ _. amqp_decode) (state_of [])) ≡ some 70000
unfolding word_at amqp_decode encode_ulong encode_fixed_eight_byte encode_fixed check_free_space
    initialize_type hton_64 putc type_meta_data_lookup getc fixed_width check_available
    advance_read_index
encodes_then_decodes = refl

amqp_decode_lem_example : Ensures (amqp_decode (state_of list_bytes)) (Result (state_of list_bytes))
amqp_decode_lem_example = amqp_decode_lem (state_of list_bytes) (omega arith)

decode_type_into_result_lem_example : Ensures (decode_type_into_result 5 1 uint_state) (λ rc t.
    Extends 1 uint_state t
    × ((rc ≡ true) ⊎ (((t.types 1).invalid_cause ≢ 0) × (type_is_invalid (t.types 1) ≡ true))))
decode_type_into_result_lem_example =
    decode_type_into_result_lem 5 1 meta_data_uint uint_state (omega arith) (omega arith) refl
      (unfold widths_ok in refl) (omega arith)

decode-encode_integer_example :
    ReadBack (encode_uint 70000) (state_of []) (λ w. w % 2 ^ 32 ≡ 70000)
    × ReadBack (encode_int 70000) (state_of []) (λ w. w % 2 ^ 32 ≡ 70000)
    × ReadBack (encode_ulong (2 ^ 64 - 5)) (state_of []) (λ w. w ≡ 2 ^ 64 - 5)
    × ReadBack (encode_long (2 ^ 64 - 5)) (state_of []) (λ w. w ≡ 2 ^ 64 - 5)
decode-encode_integer_example =
    decode-encode_integer 70000 (2 ^ 64 - 5) (state_of []) (omega arith) (omega arith) refl
      (omega arith) (omega arith) refl

type_meta_data_lookup_lem_example :
    type_meta_data_lookup 0x71 ≡ some (find_code type_lookup_table 0x71)
type_meta_data_lookup_lem_example = type_meta_data_lookup_lem 0x71

decode-encode_binary_example :
    DataBack (encode_binary (7 ∷ 0 ∷ 255 ∷ [])) (state_of []) (7 ∷ 0 ∷ 255 ∷ [])
decode-encode_binary_example =
    decode-encode_binary (7 ∷ 0 ∷ 255 ∷ []) (state_of []) (omega arith) (omega arith) (omega arith)
      refl (omega arith) (omega arith) refl
