-- ===== src/Codec/Encode/Compound.antt =====
-- Lists, maps, arrays and described types of Codec/Encode/Encode.c: they are opened, and when they are
-- complete their size and count are written over the fields left for them.
use libamqp.Prelude.{
  ℕ, ◌+◌, ◌-◌, ◌*◌, ◌%◌, ◌^◌, Bool, ◌&&◌, ◌||◌, none, some, ltb, ◌==◌, if◌then◌else◌, not,
}
use libamqp.Buffer.{Buffer, check_free_space, unchecked_putc, putc, set_write_index, backup}
use libamqp.Buffer.Words.{hton_32}
use libamqp.Codec.Errors.{error_described_type_overflow, error_complete_wrong_container}
use libamqp.Codec.Flags.{is_list, is_map, is_array, is_composite}
use libamqp.Codec.MetaData.{MetaData}
use libamqp.Codec.MetaData.Table.{
  meta_data_list_0, meta_data_list_8, meta_data_list_32, meta_data_array_8, meta_data_array_32,
  meta_data_map_8, meta_data_map_32, meta_data_described,
}
use libamqp.Codec.State.{
  AmqpType, M, returned, aborted, pure, abort, bad_width, fault, unsupported, assertion, ◌>>=◌,
  ◌>>◌, get, set_buffer, set_type, mark_type_invalid, type_is_empty_list,
}
use libamqp.Codec.Decode.Fixed.{with_position}
use libamqp.Codec.Encode.{initialize_type, contained_within_array, pop_container}

abbrev pub with_index : ℕ → AmqpType → AmqpType
with_index index t = record t { position_index = index }

abbrev pub set_index : ℕ → M (Unit {0})
set_index p = do size ← get (λ s. s.buffer.size); set_type p (with_index size)

-- The fields for the size and the count, and where the count lies.
abbrev pub open_fields : ℕ → ℕ → M (Unit {0})
open_fields width p =
    if width == 0
    then set_index p
    else if width == 1
    then (set_buffer (λ b. unchecked_putc b 1)
        >> (set_index p >> set_buffer (λ b. unchecked_putc b 0)))
    else if width == 4
    then (set_buffer (λ b. hton_32 b 4) >> (set_index p >> set_buffer (λ b. hton_32 b 0)))
    else abort bad_width

unfoldable pub encode_compound_type : ℕ → MetaData → M ℕ
encode_compound_type extra meta = do
  room ← get (λ s. check_free_space s.buffer (meta.width * 2 + 2))
  if room
      then (do p ← initialize_type extra meta; open_fields meta.width p; pure p)
      else abort unsupported

unfoldable pub encode_list_8 : M ℕ
encode_list_8 = encode_compound_type is_list meta_data_list_8

unfoldable pub encode_list_32 : M ℕ
encode_list_32 = encode_compound_type is_list meta_data_list_32

unfoldable pub encode_array_8 : M ℕ
encode_array_8 = encode_compound_type is_array meta_data_array_8

unfoldable pub encode_array_32 : M ℕ
encode_array_32 = encode_compound_type is_array meta_data_array_32

unfoldable pub encode_map_8 : M ℕ
encode_map_8 = encode_compound_type is_map meta_data_map_8

unfoldable pub encode_map_32 : M ℕ
encode_map_32 = encode_compound_type is_map meta_data_map_32

unfoldable pub start_encode_described_type : M ℕ
start_encode_described_type = encode_compound_type is_composite meta_data_described

-- A difference of `size_t`, which wraps.
abbrev pub size_minus : ℕ → ℕ → ℕ
size_minus a b = (2 ^ 64 + a - b) % 2 ^ 64

abbrev pub with_size : ℕ → AmqpType → AmqpType
with_size size t = record t { position_size = size }

-- A described type with too many elements is marked, and so is the container around it.
abbrev pub mark_overflow : ℕ → M (Unit {0})
mark_overflow p = do
  count ← get (λ s. (s.types p).word)
  outer ← get (λ s. s.container)
  if ltb 2 count
      then (mark_type_invalid p error_described_type_overflow
          >> (if outer == 0
              then abort fault
              else mark_type_invalid outer error_described_type_overflow))
      else pure tt

abbrev pub put_fields_8 : AmqpType → Buffer → Buffer
put_fields_8 t b =
    unchecked_putc
      (unchecked_putc (set_write_index b (size_minus t.position_index 1)) (t.position_size % 2 ^ 8))
      (t.word % 2 ^ 8)

abbrev pub put_fields_32 : AmqpType → Buffer → Buffer
put_fields_32 t b =
    hton_32 (hton_32 (set_write_index b (size_minus t.position_index 4)) (t.position_size % 2 ^ 32))
      (t.word % 2 ^ 32)

abbrev pub close_fields : ℕ → ℕ → M (Unit {0})
close_fields width p = do
  t ← get (λ s. s.types p)
  if width == 0
      then mark_overflow p
      else if width == 1
      then set_buffer (put_fields_8 t)
      else if width == 4
      then set_buffer (put_fields_32 t)
      else abort bad_width

-- `type->constructor.meta_data->width`.
abbrev pub width_of : ℕ → M ℕ
width_of p s = elim (s.types p).meta_data [
  | none ↦ aborted fault
  | some meta ↦ returned meta.width s
]

unfoldable pub complete_container_type : ℕ → M ℕ
complete_container_type p = do
  saved ← get (λ s. s.buffer.size)
  index ← get (λ s. (s.types p).position_index)
  set_type p (with_size (size_minus saved index))
  width ← width_of p
  close_fields width p
  set_buffer λ b. set_write_index b saved
  pure p

abbrev pub with_meta_data : MetaData → AmqpType → AmqpType
with_meta_data meta t = record t { meta_data = some meta; format_code = meta.format_code }

-- `amqp_buffer_backup`, with its assertion.
abbrev pub buffer_backup : ℕ → M (Unit {0})
buffer_backup amount s = elim (backup s.buffer amount) [
  | none ↦ aborted assertion
  | some b ↦ returned tt (record s { buffer = b })
]

unfoldable pub complete_empty_list : ℕ → M ℕ
complete_empty_list p = do
  width ← width_of p
  set_type p (with_meta_data meta_data_list_0)
  buffer_backup (width * 2 + 1)
  set_buffer λ b. (putc b meta_data_list_0.format_code).1
  size ← get (λ s. s.buffer.size)
  set_type p (with_position size meta_data_list_0.width)
  pure p

-- `amqp_api_usage_error`: it ends the program unless the configuration says to go on.
abbrev pub api_usage_error : Bool → M (Unit {0})
api_usage_error continue_on_usage_error =
    if continue_on_usage_error then pure tt else abort unsupported

abbrev pub complete_top : ℕ → M ℕ
complete_top top = do
  contained ← contained_within_array
  empty ← get (λ s. type_is_empty_list (s.types top))
  if contained || not empty then complete_container_type top else complete_empty_list top

unfoldable pub complete_type : Bool → ℕ → M ℕ
complete_type continue_on_usage_error p = do
  top ← pop_container
  if not (p == 0) && not (top == p)
      then (do
        api_usage_error continue_on_usage_error
        mark_type_invalid p error_complete_wrong_container
        mark_type_invalid top error_complete_wrong_container
        pure 0)
      else complete_top top

unfoldable pub encode_list_0 : Bool → M ℕ
encode_list_0 continue_on_usage_error = do
  p ← encode_list_8
  if p == 0 then pure p else (complete_type continue_on_usage_error p >>= λ _. pure p)
