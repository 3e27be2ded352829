-- ===== src/Codec/Decode/Variable.antt =====
-- The decoders for types of variable size of Codec/Decode/Decode.c.
use libamqp.Prelude.{
  ℕ, zero, suc, ◌+◌, ◌/◌, ◌%◌, ◌^◌, Bool, true, false, ◌&&◌, Option, none, some, ◌==◌,
  if◌then◌else◌, not,
}
use libamqp.Buffer.{Buffer, unchecked_getc_at, advance_read_index}
use libamqp.Buffer
use libamqp.Buffer.Words.{read_size_field, u32_minus_one}
use libamqp.Codec.Errors.{
  error_buffer_would_overrun, error_variable_type_malformed, error_invalid_symbol_character,
  error_invalid_utf8_character,
}
use libamqp.Codec.MetaData.{MetaData}
use libamqp.Codec.State.{
  M, returned, aborted, pure, abort, bad_width, fault, ◌>>=◌, ◌>>◌, get, set_buffer, set_type,
  buffer_address,
}
use libamqp.Codec.Decode.Fixed.{decode_error, set_position, is_within}

abbrev pub buffer_read_size_field : ℕ → M ℕ
buffer_read_size_field width s = elim (read_size_field s.buffer width) [
  | none ↦ aborted bad_width
  | some (v, b) ↦ returned v (record s { buffer = b })
]

unfoldable pub get_variable_type_size : MetaData → ℕ → M ℕ
unfolding read_size_field
get_variable_type_size meta p = do
  size ← buffer_read_size_field meta.width
  fits ← get (λ s. Buffer.check_available s.buffer size)
  if not (size == u32_minus_one) && fits
      then pure size
      else (decode_error p error_buffer_would_overrun >> pure u32_minus_one)

unfoldable pub get_variable_type_count : MetaData → ℕ → M ℕ
unfolding read_size_field
get_variable_type_count meta p = do
  count ← buffer_read_size_field meta.width
  if count == u32_minus_one
      then (decode_error p error_variable_type_malformed >> pure count)
      else pure count

unfoldable pub construct_variable_type : MetaData → ℕ → M Bool
unfolding get_variable_type_size set_position
construct_variable_type meta p = do
  size ← get_variable_type_size meta p
  if size == u32_minus_one then pure false else (do
    set_position p size
    set_buffer λ b. advance_read_index b size
    set_type p λ t. record t { word = buffer_address }
    pure true)

-- The loops over the characters, `rounds` of them from `index` on: whether all are accepted; none is
-- a fault.
unfoldable pub all_characters : (ℕ → Bool) → Buffer → ℕ → ℕ → Option Bool
all_characters good b index zero = some true
all_characters good b index (suc rounds) =
    let rest = all_characters good b (index + 1) rounds in
    if is_within b index 1
    then (if good (unchecked_getc_at b index) then rest else some false)
    else none

abbrev pub judge_characters : ℕ → ℕ → Option Bool → M Bool
judge_characters code p o = elim o [
  | none ↦ abort fault
  | some accepted ↦ if accepted then pure true else (decode_error p code >> pure false)
]

abbrev pub check_characters : (ℕ → Bool) → ℕ → ℕ → M Bool
check_characters good code p = do
  accepted ←
      get (λ s. all_characters good s.buffer (s.types p).position_index (s.types p).position_size)
  judge_characters code p accepted

abbrev pub checked_variable_type : (ℕ → Bool) → ℕ → MetaData → ℕ → M Bool
checked_variable_type good code meta p = do
  rc ← construct_variable_type meta p
  if rc then check_characters good code p else pure rc

-- `c & 0x80` is not set.
unfoldable pub decode_symbol : MetaData → ℕ → M Bool
unfolding construct_variable_type all_characters
decode_symbol = checked_variable_type (λ c. c / 2 ^ 7 % 2 == 0) error_invalid_symbol_character

unfoldable pub decode_string_utf8 : MetaData → ℕ → M Bool
unfolding construct_variable_type all_characters
decode_string_utf8 = checked_variable_type (λ c. not (c == 0)) error_invalid_utf8_character
