-- ===== src/Codec/Decode/Fixed.antt =====
-- The decoders for types of fixed width of Codec/Decode/Decode.c.
use libamqp.Prelude.{
  ℕ, zero, suc, ◌+◌, ◌-◌, ◌%◌, ◌^◌, Bool, true, false, ◌&&◌, ◌||◌, Option, none, some, List, [],
  ◌∷◌, ltb, leb, ◌==◌, if◌then◌else◌, not,
}
use libamqp.Buffer.{Buffer, unchecked_getc_at, advance_read_index}
use libamqp.Buffer
use libamqp.Buffer.Words.{ntoh_16, ntoh_32, ntoh_64}
use libamqp.Codec.Errors.{error_buffer_would_overrun, error_invalid_utf32_character}
use libamqp.Codec.MetaData.{MetaData}
use libamqp.Codec.State.{
  AmqpType, M, pure, abort, bad_width, fault, ◌>>=◌, ◌>>◌, get, set_buffer, set_type,
  mark_type_invalid, with_b1, with_b2, with_b4,
}

-- `decode_error`: the object is marked; the message is left out.
abbrev pub decode_error : ℕ → ℕ → M (Unit {0})
decode_error p code = mark_type_invalid p code

abbrev pub with_position : ℕ → ℕ → AmqpType → AmqpType
with_position index size t = record t { position_index = index; position_size = size }

unfoldable pub set_position : ℕ → ℕ → M (Unit {0})
set_position p size = do index ← get (λ s. s.buffer.index); set_type p (with_position index size)

-- `amqp_decode_null` and `amqp_decode_fixed_zero_width`.
unfoldable pub fixed_zero_width : ℕ → M Bool
unfolding set_position
fixed_zero_width p = do set_position p 0; pure true

-- `type->value.b1._signed = 1`.
unfoldable pub boolean_true : ℕ → M Bool
unfolding fixed_zero_width
boolean_true p = do
  rc ← fixed_zero_width p
  set_type p λ t. record t { word = with_b1 t.word 1 }
  pure rc

-- The value is not written.
unfoldable pub boolean_false : ℕ → M Bool
unfolding fixed_zero_width
boolean_false p = fixed_zero_width p

unfoldable pub check_available : ℕ → ℕ → M Bool
check_available p width = do
  rc ← get (λ s. Buffer.check_available s.buffer width)
  if rc then pure true else (decode_error p error_buffer_would_overrun >> pure false)

-- Bytes that are read without a test lie in front of the write point, or the read is a fault: what is
-- behind has not been written, and behind the capacity there is no fragment.
abbrev pub is_within : Buffer → ℕ → ℕ → Bool
is_within b index n = leb (index + n) b.size

-- The loop of `copy_uuid`, for `i` from `16 - rounds` on; none is a fault.
unfoldable pub copy_uuid : Buffer → ℕ → ℕ → Option (List ℕ)
unfolding unchecked_getc_at
copy_uuid b index zero = some []
copy_uuid b index (suc rounds) =
    let rest = copy_uuid b (index + 1) rounds in
    if is_within b index 1 then put_front (unchecked_getc_at b index) rest else none
  where
    put_front : ℕ → Option (List ℕ) → Option (List ℕ)
    put_front c none = none
    put_front c (some cs) = some (c ∷ cs)

-- What the `switch` on a width comes to: an object with the value, no case, or a fault.
pub data Switch : Type 0 where
  stored : AmqpType → Switch
  no_case outside : Switch

abbrev pub store_within : Buffer → ℕ → ℕ → AmqpType → Switch
store_within b index width t = if is_within b index width then stored t else outside

abbrev pub store_uuid : AmqpType → Option (List ℕ) → Switch
store_uuid t none = outside
store_uuid t (some bytes) = stored (record t { uuid = bytes })

-- The `switch` on the width: what is stored in the union from the bytes at `index`.
unfoldable pub store_fixed : Buffer → ℕ → ℕ → AmqpType → Switch
unfolding unchecked_getc_at ntoh_16 ntoh_32 ntoh_64 copy_uuid
store_fixed b index width t =
    if width == 1
    then store_within b index 1 (record t { word = with_b1 t.word (unchecked_getc_at b index) })
    else if width == 2
    then store_within b index 2 (record t { word = with_b2 t.word (ntoh_16 b index) })
    else if width == 4
    then store_within b index 4 (record t { word = with_b4 t.word (ntoh_32 b index) })
    else if width == 8
    then store_within b index 8 (record t { word = ntoh_64 b index })
    else if width == 16
    then store_uuid t (copy_uuid b index 16)
    else no_case

abbrev pub put_type : ℕ → Switch → M Bool
put_type p o = elim o [
  | stored t ↦ (set_type p (λ _. t) >> pure true)
  | no_case ↦ abort bad_width
  | outside ↦ abort fault
]

unfoldable pub read_fixed : MetaData → ℕ → M Bool
unfolding set_position store_fixed
read_fixed meta p = do
  set_position p meta.width
  set_buffer λ b. advance_read_index b meta.width
  value ← get (λ s. store_fixed s.buffer (s.types p).position_index meta.width (s.types p))
  put_type p value

unfoldable pub fixed_width : MetaData → ℕ → M Bool
unfolding check_available read_fixed
fixed_width meta p = do
  rc ← check_available p meta.width
  if rc then read_fixed meta p else pure false

-- A decoder that goes on only where `fixed_zero_width` or `fixed_width` succeeds.
abbrev pub store_if : ℕ → (ℕ → ℕ) → Bool → M Bool
store_if p f rc =
    if rc then (set_type p (λ t. record t { word = f t.word }) >> pure rc) else pure rc

abbrev pub then_store : M Bool → ℕ → (ℕ → ℕ) → M Bool
then_store m p f = m >>= store_if p f

unfoldable pub uint0 : ℕ → M Bool
unfolding fixed_zero_width
uint0 p = then_store (fixed_zero_width p) p λ w. with_b4 w 0

unfoldable pub ulong0 : ℕ → M Bool
unfolding fixed_zero_width
ulong0 p = then_store (fixed_zero_width p) p λ w. 0

unfoldable pub small_uint : MetaData → ℕ → M Bool
unfolding fixed_width
small_uint meta p = then_store (fixed_width meta p) p λ w. with_b4 w (w % 2 ^ 8)

-- An `int8_t` made wider: its sign fills the upper bits.
abbrev pub sign_extend : ℕ → ℕ → ℕ
sign_extend bits b = if ltb b (2 ^ 7) then b else 2 ^ bits - 2 ^ 8 + b

unfoldable pub small_int : MetaData → ℕ → M Bool
unfolding fixed_width
small_int meta p = then_store (fixed_width meta p) p λ w. with_b4 w (sign_extend 32 (w % 2 ^ 8))

unfoldable pub small_ulong : MetaData → ℕ → M Bool
unfolding fixed_width
small_ulong meta p = then_store (fixed_width meta p) p λ w. w % 2 ^ 8

unfoldable pub small_long : MetaData → ℕ → M Bool
unfolding fixed_width
small_long meta p = then_store (fixed_width meta p) p λ w. sign_extend 64 (w % 2 ^ 8)

-- `amqp_validate_char` of Codec/Type/TypeValidate.h, on the bit pattern of a `wchar_t`, a signed
-- 32 bit integer where the library is built for Linux.
unfoldable pub validate_char : ℕ → Bool
validate_char c = leb (2 ^ 31) c || ltb c 0xd800 || (ltb 0xdfff c && leb c 0x10ffff)

unfoldable pub decode_char : MetaData → ℕ → M Bool
unfolding fixed_width validate_char
decode_char meta p = do
  rc ← fixed_width meta p
  c ← get (λ s. (s.types p).word % 2 ^ 32)
  if rc && not (validate_char c)
      then (decode_error p error_invalid_utf32_character >> pure false)
      else pure rc
