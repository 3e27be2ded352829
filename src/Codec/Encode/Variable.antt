-- ===== src/Codec/Encode/Variable.antt =====
-- The encoders for types of variable size of Codec/Encode/Encode.c. The length of a list of bytes
-- is the `size` that goes with the pointer, or `strlen` of it.
use libamqp.Prelude.{ℕ, ◌+◌, ◌%◌, ◌^◌, List, ltb, ◌==◌, if◌then◌else◌, length}
use libamqp.Buffer.{check_free_space, unchecked_putc, puts}
use libamqp.Buffer.Words.{hton_32}
use libamqp.Codec.MetaData.{MetaData}
use libamqp.Codec.MetaData.Table.{
  meta_data_binary_vbin8, meta_data_binary_vbin32, meta_data_symbol_sym8, meta_data_symbol_sym32,
  meta_data_string_str8_utf8, meta_data_string_str32_utf8,
}
use libamqp.Codec.State.{
  buffer_address, M, pure, abort, bad_width, ◌>>=◌, ◌>>◌, get, set_buffer, set_type,
}
use libamqp.Codec.Decode.Fixed.{with_position}
use libamqp.Codec.Decode.Compound.{with_count}
use libamqp.Codec.Encode.{initialize_type}

-- The `switch` on the width of the size field.
abbrev pub put_size : ℕ → ℕ → M (Unit {0})
put_size width size =
    if width == 1
    then set_buffer (λ b. unchecked_putc b (size % 2 ^ 8))
    else if width == 4
    then set_buffer (λ b. hton_32 b (size % 2 ^ 32))
    else abort bad_width

abbrev pub put_variable : MetaData → List ℕ → M ℕ
put_variable meta value = do
  p ← initialize_type 0 meta
  set_type p (with_count buffer_address)
  put_size meta.width (length value)
  size ← get (λ s. s.buffer.size)
  set_type p (with_position size (length value))
  set_buffer λ b. (puts b value).1
  pure p

unfoldable pub encode_simple_variable : MetaData → List ℕ → M ℕ
encode_simple_variable meta value = do
  room ← get (λ s. check_free_space s.buffer (meta.width + 1 + length value))
  if room then put_variable meta value else pure 0

unfoldable pub encode_binary_vbin8 : List ℕ → M ℕ
encode_binary_vbin8 value = encode_simple_variable meta_data_binary_vbin8 value

unfoldable pub encode_binary_vbin32 : List ℕ → M ℕ
encode_binary_vbin32 value = encode_simple_variable meta_data_binary_vbin32 value

unfoldable pub encode_binary : List ℕ → M ℕ
encode_binary value =
    if ltb (length value) 256 then encode_binary_vbin8 value else encode_binary_vbin32 value

-- `amqp_encode_symbol_sym8n` and, with `strlen`, `amqp_encode_symbol_sym8`.
unfoldable pub encode_symbol_sym8 : List ℕ → M ℕ
encode_symbol_sym8 value = encode_simple_variable meta_data_symbol_sym8 value

unfoldable pub encode_symbol_sym32 : List ℕ → M ℕ
encode_symbol_sym32 value = encode_simple_variable meta_data_symbol_sym32 value

-- `amqp_encode_symboln` and, with `strlen`, `amqp_encode_symbol`.
unfoldable pub encode_symbol : List ℕ → M ℕ
encode_symbol value =
    if ltb (length value) 256 then encode_symbol_sym8 value else encode_symbol_sym32 value

-- `encode_string_utf8`, which `amqp_encode_string` and `amqp_encode_stringn` call.
unfoldable pub encode_string : List ℕ → M ℕ
encode_string value =
    encode_simple_variable
      (if ltb (length value) 256 then meta_data_string_str8_utf8 else meta_data_string_str32_utf8)
      value
