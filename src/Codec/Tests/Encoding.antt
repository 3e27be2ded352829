-- ===== src/Codec/Tests/Encoding.antt =====
-- The theorems on containers and on the other types of fixed width at concrete values.
use libamqp.Prelude.{
  ◌==◌, if◌then◌else◌, ◌-◌, ◌%◌, ◌^◌, ◌≡◌, refl, true, inl, inr, some, [], ◌∷◌, ◌++◌, arith,
}
use libamqp.Buffer.{unchecked_getc_at}
use libamqp.Codec.Flags.{is_list, is_array}
use libamqp.Codec.MetaData.Table.{meta_data_list_8}
use libamqp.Codec.State.{AmqpType, State}
use libamqp.Codec.State.Hoare.{Returns}
use libamqp.Codec.Decode.Run.{amqp_decode}
use libamqp.Codec.Encode.{add_element_to_container}
use libamqp.Codec.Encode.Fixed.{
  encode_ubyte, encode_byte, encode_ushort, encode_short, encode_float, encode_double,
  encode_timestamp,
}
use libamqp.Codec.Encode.Compound.{complete_container_type}
use libamqp.Codec.Encode.Containers.{Added, add_element_to_container_lem}
use libamqp.Codec.Encode.Completion.{field, complete_container_type_lem}
use libamqp.Codec.Encode.Overwrite.{Overwritten}
use libamqp.Codec.RoundTrip.FixedWidth.{ReadBack, decode-encode_fixed}
use libamqp.Codec.Encode.Variable.{encode_string, encode_symbol}
use libamqp.Codec.RoundTrip.DataTrip.{DataBack}
use libamqp.Codec.RoundTrip.Text.{decode-encode_text}
use libamqp.Codec.RoundTrip.Boolean.{decode_boolean_lem}
use libamqp.Codec.RoundTrip.Scalar.{Got}
use libamqp.Codec.Samples.{blank, state_of}

-- An open list of three bytes of elements, two of them, in the object at 1.
abbrev list_type : AmqpType
list_type = record blank {
  meta_data = some meta_data_list_8;
  typedef_flags = is_list;
  position_index = 2;
  word = 2;
  has_elements = true;
}

abbrev list_state : State
list_state = record (state_of (0xC0 ∷ 1 ∷ 0 ∷ 0x41 ∷ 0x52 ∷ 7 ∷ [])) {
  types = λ _. list_type;
  next_type = 5;
}

add_element_to_container_lem_example :
    Returns (add_element_to_container 1 3 list_state) (λ _ t. Added 1 3 0 list_state t)
add_element_to_container_lem_example =
    add_element_to_container_lem 1 3 0 list_state (omega arith) (omega arith) (omega arith)
      (inl refl) (inl refl)

-- An array at 1 with one element, at 2, and a new object at 3 that has another format code.
abbrev array_state : State
array_state = record (state_of (0xE0 ∷ 3 ∷ 1 ∷ 0x50 ∷ 7 ∷ [])) {
  types = λ q.
      if q == 1
      then record blank {
        typedef_flags = is_array;
        word = 1;
        has_elements = true;
        array_constructor = 2;
        elements = λ i. if i == 0 then 2 else 0;
      }
      else if q == 2
      then record blank { format_code = 0x50 }
      else record blank { format_code = 0x71 };
  next_type = 4;
}

complete_container_type_lem_example : Returns (complete_container_type 1 list_state) (λ q t.
    (q ≡ 1) × Overwritten list_state.buffer (2 - 1) (field 1 (6 - 2) ++ field 1 2) 4 t.buffer)
complete_container_type_lem_example =
    complete_container_type_lem 1 4 meta_data_list_8 list_state refl (inl refl) (omega arith)
      (omega arith) (omega arith) (inr (omega arith))

decode-encode_fixed_example :
    ReadBack (encode_ubyte 200) (state_of []) (λ w. w % 2 ^ 8 ≡ 200)
    × ReadBack (encode_byte 200) (state_of []) (λ w. w % 2 ^ 8 ≡ 200)
    × ReadBack (encode_ushort 60000) (state_of []) (λ w. w % 2 ^ 16 ≡ 60000)
    × ReadBack (encode_short 60000) (state_of []) (λ w. w % 2 ^ 16 ≡ 60000)
    × ReadBack (encode_float 0x3f800000) (state_of []) (λ w. w % 2 ^ 32 ≡ 0x3f800000)
    × ReadBack (encode_double 0x3ff0000000000000) (state_of []) (λ w. w ≡ 0x3ff0000000000000)
    × ReadBack (encode_timestamp 0x3ff0000000000000) (state_of []) (λ w. w ≡ 0x3ff0000000000000)
decode-encode_fixed_example =
    decode-encode_fixed 200 60000 0x3f800000 0x3ff0000000000000 (state_of []) (omega arith)
      (omega arith) (omega arith) (omega arith) refl (omega arith) (omega arith) refl

decode_boolean_lem_example :
    Returns (amqp_decode (state_of (0x41 ∷ []))) (Got (state_of (0x41 ∷ [])) 1 (λ w. w % 2 ^ 8 ≡ 1))
unfolding unchecked_getc_at
decode_boolean_lem_example = decode_boolean_lem true (state_of (0x41 ∷ [])) (omega arith) refl

decode-encode_text_example :
    DataBack (encode_string (0x68 ∷ 0x69 ∷ [])) (state_of []) (0x68 ∷ 0x69 ∷ [])
    × DataBack (encode_symbol (0x50 ∷ [])) (state_of []) (0x50 ∷ [])
decode-encode_text_example =
    decode-encode_text (0x68 ∷ 0x69 ∷ []) (0x50 ∷ []) (state_of []) (omega arith) (refl, (refl, tt))
      (omega arith) (refl, tt) (omega arith) (omega arith) (omega arith) (omega arith) refl
      (omega arith) (omega arith) (omega arith) refl
