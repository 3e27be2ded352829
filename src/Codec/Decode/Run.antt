-- ===== src/Codec/Decode/Run.antt =====
-- `amqp_decode` of Codec/Decode/Decode.c: the constructor, the dispatch to its decoder, the recursion.
use libamqp.Prelude.{ℕ, zero, suc, ◌-◌, Bool, ◌&&◌, none, some, ◌==◌, if◌then◌else◌, not}
use libamqp.Buffer.{at_end}
use libamqp.Codec.Errors.{error_unknown_format_code}
use libamqp.Codec.MetaData.{MetaData, Decoder}
use libamqp.Codec.State.{
  M, aborted, stuck, pure, abort, fault, unsupported, assertion, ◌>>=◌, ◌>>◌, get, allocate_type,
  type_is_invalid,
}
use libamqp.Codec.Decode.Fixed.{
  decode_error, fixed_zero_width, boolean_true, boolean_false, fixed_width, uint0, ulong0,
  small_uint, small_int, small_ulong, small_long, decode_char,
}
use libamqp.Codec.Decode.Variable.{construct_variable_type, decode_symbol, decode_string_utf8}
use libamqp.Codec.Decode.Compound.{
  decode_type_constructor, described_type, list_list, list_0, decode_array,
}

-- `amqp_decode`, given the function for what follows a constructor.
unfoldable pub decode_with : (ℕ → M Bool) → M ℕ
unfolding at_end decode_type_constructor
decode_with into_result = do
  done ← get (λ s. at_end s.buffer)
  if done then pure 0 else (do
    p ← allocate_type
    known ← decode_type_constructor p
    if known
        then (into_result p >>= λ _. pure p)
        else (decode_error p error_unknown_format_code >> pure p))

-- `(*type_decoder)(context, buffer, meta_data, type)`.
unfoldable pub run_decoder : (ℕ → M Bool) → Decoder → MetaData → ℕ → M Bool
run_decoder into Decoder.described_type meta p = described_type (decode_with into) p
run_decoder into Decoder.null meta p = fixed_zero_width p
run_decoder into Decoder.boolean_true meta p = boolean_true p
run_decoder into Decoder.boolean_false meta p = boolean_false p
run_decoder into Decoder.uint0 meta p = uint0 p
run_decoder into Decoder.ulong0 meta p = ulong0 p
run_decoder into Decoder.list_0 meta p = list_0 p
run_decoder into Decoder.extension_type meta p = abort unsupported
run_decoder into Decoder.small_uint meta p = small_uint meta p
run_decoder into Decoder.small_ulong meta p = small_ulong meta p
run_decoder into Decoder.small_int meta p = small_int meta p
run_decoder into Decoder.small_long meta p = small_long meta p
run_decoder into Decoder.char meta p = decode_char meta p
run_decoder into Decoder.decimal128 meta p = abort unsupported
run_decoder into Decoder.binary_vbin8 meta p = construct_variable_type meta p
run_decoder into Decoder.binary_vbin32 meta p = construct_variable_type meta p
run_decoder into Decoder.string_str8_utf8 meta p = decode_string_utf8 meta p
run_decoder into Decoder.string_str32_utf8 meta p = decode_string_utf8 meta p
run_decoder into Decoder.symbol_sym8 meta p = decode_symbol meta p
run_decoder into Decoder.symbol_sym32 meta p = decode_symbol meta p
run_decoder into Decoder.list_8 meta p = list_list (decode_with into) meta p
run_decoder into Decoder.list_32 meta p = list_list (decode_with into) meta p
run_decoder into Decoder.map_8 meta p = list_list (decode_with into) meta p
run_decoder into Decoder.map_32 meta p = list_list (decode_with into) meta p
run_decoder into Decoder.array_8 meta p = decode_array into meta p
run_decoder into Decoder.array_32 meta p = decode_array into meta p
run_decoder into _ meta p = fixed_width meta p

-- The decoder's `rc`, once its `assert`s have held: a failure has a cause, and the object is marked.
abbrev pub checked : ℕ → Bool → M Bool
checked p rc = do
  marked ← get (λ s. not ((s.types p).invalid_cause == 0) && type_is_invalid (s.types p))
  if rc then pure rc else (if marked then pure rc else abort assertion)

-- `decode_type_into_result`, on fuel. A call below another has fewer bytes left to read, so one
-- round more than there are bytes left is enough.
unfoldable pub decode_type_into_result : ℕ → ℕ → M Bool
unfolding run_decoder decode_with
decode_type_into_result zero p s = stuck
decode_type_into_result (suc fuel) p s = elim (s.types p).meta_data [
  | none ↦ aborted fault
  | some meta ↦
      (run_decoder (decode_type_into_result fuel) meta.type_decoder meta p >>= checked p) s
]

unfoldable pub amqp_decode : M ℕ
unfolding decode_with decode_type_into_result
amqp_decode s = decode_with (decode_type_into_result (suc (s.buffer.size - s.buffer.index))) s
