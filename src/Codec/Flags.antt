-- ===== src/Codec/Flags.antt =====
-- The type flags of `amqp_typedef_flags_t` (Codec/Type/EncodingMetaData.h) and the operations on a
-- flag word of Codec/Type/Type.h. A mask of one bit is a power of two `m`, so that the bit is set if
-- `w / m` is odd; a mask of several bits is taken one bit at a time.
use libamqp.Prelude.{ℕ, ◌+◌, ◌-◌, ◌/◌, ◌%◌, Bool, ◌==◌, if◌then◌else◌}

abbrev pub is_null : ℕ
is_null = 0x00000001

abbrev pub is_boolean : ℕ
is_boolean = 0x00000002

abbrev pub is_unsigned : ℕ
is_unsigned = 0x00000004

abbrev pub is_byte : ℕ
is_byte = 0x00000008

abbrev pub is_short : ℕ
is_short = 0x00000010

abbrev pub is_int : ℕ
is_int = 0x00000020

abbrev pub is_long : ℕ
is_long = 0x00000040

abbrev pub is_float : ℕ
is_float = 0x00000080

abbrev pub is_double : ℕ
is_double = 0x00000100

abbrev pub is_timestamp : ℕ
is_timestamp = 0x00000200

abbrev pub is_uuid : ℕ
is_uuid = 0x00000400

abbrev pub is_decimal32 : ℕ
is_decimal32 = 0x00000800

abbrev pub is_decimal64 : ℕ
is_decimal64 = 0x00001000

abbrev pub is_decimal128 : ℕ
is_decimal128 = 0x00002000

abbrev pub is_char : ℕ
is_char = 0x00004000

abbrev pub is_binary : ℕ
is_binary = 0x00008000

abbrev pub is_string : ℕ
is_string = 0x00010000

abbrev pub is_symbol : ℕ
is_symbol = 0x00020000

abbrev pub is_list : ℕ
is_list = 0x00040000

abbrev pub is_map : ℕ
is_map = 0x00080000

abbrev pub is_array : ℕ
is_array = 0x00100000

abbrev pub is_composite : ℕ
is_composite = 0x00200000

abbrev pub is_descriptor : ℕ
is_descriptor = 0x00400000

abbrev pub is_described : ℕ
is_described = 0x00800000

abbrev pub is_extension : ℕ
is_extension = 0x01000000

abbrev pub is_invalid : ℕ
is_invalid = 0x02000000

abbrev pub is_encoded : ℕ
is_encoded = 0x10000000

abbrev pub is_incomplete : ℕ
is_incomplete = 0x20000000

abbrev pub is_contained : ℕ
is_contained = 0x40000000

-- `w & m`, as a truth value.
abbrev pub has_flag : ℕ → ℕ → Bool
has_flag w m = w / m % 2 == 1

-- `w |= m`.
abbrev pub set_flag : ℕ → ℕ → ℕ
set_flag w m = if has_flag w m then w else w + m

-- `w &= ~m`.
abbrev pub clear_flag : ℕ → ℕ → ℕ
clear_flag w m = if has_flag w m then w - m else w
