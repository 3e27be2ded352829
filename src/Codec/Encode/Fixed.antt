-- ===== src/Codec/Encode/Fixed.antt =====
-- The encoders for types of fixed width of Codec/Encode/Encode.c. A value is given by its bits.
use libamqp.Prelude.{ℕ, ◌+◌, ◌%◌, ◌^◌, List, ltb, ◌==◌, if◌then◌else◌}
use libamqp.Buffer.{Buffer, check_free_space, unchecked_putc, puts}
use libamqp.Buffer.Words.{hton_16, hton_32, hton_64}
use libamqp.Codec.MetaData.{MetaData}
use libamqp.Codec.MetaData.Table.{
  meta_data_null, meta_data_boolean, meta_data_boolean_true, meta_data_boolean_false,
  meta_data_ubyte, meta_data_byte, meta_data_ushort, meta_data_short, meta_data_int_small_int,
  meta_data_int, meta_data_uint_small_uint, meta_data_uint_uint0, meta_data_uint,
  meta_data_ulong_ulong0, meta_data_ulong_small_ulong, meta_data_ulong, meta_data_long_small_long,
  meta_data_long, meta_data_timestamp_ms64, meta_data_float_ieee_754, meta_data_double_ieee_754,
  meta_data_uuid,
}
use libamqp.Codec.State.{M, pure, abort, fault, ◌>>=◌, ◌>>◌, get, set_buffer, set_type, with_b1}
use libamqp.Codec.Decode.Fixed.{with_position, sign_extend}
use libamqp.Codec.Encode.{initialize_type, contained_within_array}

abbrev pub encode_fixed_type : MetaData → M ℕ
encode_fixed_type meta = do
  p ← initialize_type 0 meta
  size ← get (λ s. s.buffer.size)
  set_type p (with_position size meta.width)
  pure p

-- 0 stands for `NULL`: there is no room.
unfoldable pub encode_fixed : MetaData → M ℕ
encode_fixed meta = do
  room ← get (λ s. check_free_space s.buffer (meta.width + 1))
  if room then encode_fixed_type meta else pure 0

-- `if (type) ...`: the bytes of the value follow a constructor.
abbrev pub then_put : M ℕ → (Buffer → Buffer) → M ℕ
then_put m put = do p ← m; if p == 0 then pure p else (set_buffer put >> pure p)

unfoldable pub encode_null : M ℕ
encode_null = encode_fixed meta_data_null

unfoldable pub encode_fixed_one_byte : MetaData → ℕ → M ℕ
encode_fixed_one_byte meta b = then_put (encode_fixed meta) λ x. unchecked_putc x b

abbrev pub put_boolean : ℕ → ℕ → M ℕ
put_boolean value result =
    if result == 0
    then abort fault
    else (set_type result (λ t. record t { word = with_b1 t.word (value % 2 ^ 8) }) >> pure result)

-- A result of `NULL` is written through.
unfoldable pub encode_boolean : ℕ → M ℕ
encode_boolean value = do
  contained ← contained_within_array
  result ←
      (if contained
        then encode_fixed_one_byte meta_data_boolean (if value == 0 then 0 else 1)
        else encode_fixed (if value == 0 then meta_data_boolean_false else meta_data_boolean_true))
  put_boolean value result

unfoldable pub encode_ubyte : ℕ → M ℕ
encode_ubyte value = encode_fixed_one_byte meta_data_ubyte (value % 2 ^ 8)

unfoldable pub encode_byte : ℕ → M ℕ
encode_byte value = encode_fixed_one_byte meta_data_byte (value % 2 ^ 8)

unfoldable pub encode_fixed_two_byte : MetaData → ℕ → M ℕ
encode_fixed_two_byte meta value = then_put (encode_fixed meta) λ x. hton_16 x value

unfoldable pub encode_ushort : ℕ → M ℕ
encode_ushort value = encode_fixed_two_byte meta_data_ushort value

unfoldable pub encode_short : ℕ → M ℕ
encode_short value = encode_fixed_two_byte meta_data_short value

unfoldable pub encode_fixed_four_byte : MetaData → ℕ → M ℕ
encode_fixed_four_byte meta value = then_put (encode_fixed meta) λ x. hton_32 x value

unfoldable pub encode_small_int : ℕ → M ℕ
encode_small_int value = encode_fixed_one_byte meta_data_int_small_int (value % 2 ^ 8)

-- `value == (signed char) (value & 0xff)`.
unfoldable pub encode_int : ℕ → M ℕ
encode_int value =
    if value == sign_extend 32 (value % 2 ^ 8)
    then encode_small_int value
    else encode_fixed_four_byte meta_data_int value

unfoldable pub encode_small_uint : ℕ → M ℕ
encode_small_uint value = encode_fixed_one_byte meta_data_uint_small_uint (value % 2 ^ 8)

unfoldable pub encode_uint0 : M ℕ
encode_uint0 = encode_fixed meta_data_uint_uint0

unfoldable pub encode_uint : ℕ → M ℕ
encode_uint value =
    if value == 0
    then encode_uint0
    else if ltb value 255
    then encode_small_uint value
    else encode_fixed_four_byte meta_data_uint value

unfoldable pub encode_fixed_eight_byte : MetaData → ℕ → M ℕ
encode_fixed_eight_byte meta value = then_put (encode_fixed meta) λ x. hton_64 x value

unfoldable pub encode_ulong0 : M ℕ
encode_ulong0 = encode_fixed meta_data_ulong_ulong0

unfoldable pub encode_small_ulong : ℕ → M ℕ
encode_small_ulong value = encode_fixed_one_byte meta_data_ulong_small_ulong (value % 2 ^ 8)

unfoldable pub encode_ulong : ℕ → M ℕ
encode_ulong value =
    if value == 0
    then encode_ulong0
    else if ltb value 255
    then encode_small_ulong value
    else encode_fixed_eight_byte meta_data_ulong value

unfoldable pub encode_small_long : ℕ → M ℕ
encode_small_long value = encode_fixed_one_byte meta_data_long_small_long (value % 2 ^ 8)

unfoldable pub encode_long : ℕ → M ℕ
encode_long value =
    if value == sign_extend 64 (value % 2 ^ 8)
    then encode_small_long value
    else encode_fixed_eight_byte meta_data_long value

unfoldable pub encode_timestamp : ℕ → M ℕ
encode_timestamp value = encode_fixed_eight_byte meta_data_timestamp_ms64 value

unfoldable pub encode_float : ℕ → M ℕ
encode_float value = encode_fixed_four_byte meta_data_float_ieee_754 value

unfoldable pub encode_double : ℕ → M ℕ
encode_double value = encode_fixed_eight_byte meta_data_double_ieee_754 value

-- `amqp_encode_char`, `amqp_encode_decimal32` and `amqp_encode_decimal64` are not written yet in the
-- source, and return `NULL`.
unfoldable pub encode_unwritten : ℕ → M ℕ
encode_unwritten value = pure 0

unfoldable pub encode_uuid : List ℕ → M ℕ
encode_uuid value = then_put (encode_fixed meta_data_uuid) λ x. (puts x value).1
