-- ===== src/Codec/MetaData/Table.antt =====
-- The entries of Codec/Type/EncodingMetaData.c, in its order. Flags that differ are joined by a sum.
use Prim.Native.String.{String}
use libamqp.Prelude.{ℕ, ◌+◌, List, [], ◌∷◌}
use libamqp.Codec.Flags.{
  is_null, is_boolean, is_unsigned, is_byte, is_short, is_int, is_long, is_float, is_double,
  is_timestamp, is_uuid, is_decimal32, is_decimal64, is_decimal128, is_char, is_binary, is_string,
  is_symbol, is_list, is_map, is_array, is_composite, is_extension,
}
use libamqp.Codec.MetaData.{
  MetaData, Decoder, category_fixed, category_variable, category_compound, category_array,
}

-- A row of the source's initialisers, field by field.
abbrev meta_data : ℕ → ℕ → Decoder → String → String → ℕ → ℕ → MetaData
meta_data code width decoder name encoding flags category = record {
  format_code = code;
  width = width;
  type_decoder = decoder;
  name = name;
  encoding_name = encoding;
  typedef_flags = flags;
  category_name_index = category;
}

abbrev pub meta_data_described : MetaData
meta_data_described =
    meta_data 0x00 0 Decoder.described_type "described" "" is_composite category_compound

abbrev pub meta_data_null : MetaData
meta_data_null = meta_data 0x40 0 Decoder.null "null" "" is_null category_fixed

abbrev pub meta_data_boolean_true : MetaData
meta_data_boolean_true =
    meta_data 0x41 0 Decoder.boolean_true "boolean" "true" is_boolean category_fixed

abbrev pub meta_data_boolean_false : MetaData
meta_data_boolean_false =
    meta_data 0x42 0 Decoder.boolean_false "boolean" "false" is_boolean category_fixed

abbrev pub meta_data_uint_uint0 : MetaData
meta_data_uint_uint0 =
    meta_data 0x43 0 Decoder.uint0 "uint" "uint0" (is_int + is_unsigned) category_fixed

abbrev pub meta_data_ulong_ulong0 : MetaData
meta_data_ulong_ulong0 =
    meta_data 0x44 0 Decoder.ulong0 "ulong" "ulong0" (is_long + is_unsigned) category_fixed

abbrev pub meta_data_list_0 : MetaData
meta_data_list_0 = meta_data 0x45 0 Decoder.list_0 "list" "list0" is_list category_fixed

abbrev pub meta_data_extension_fixed_0 : MetaData
meta_data_extension_fixed_0 =
    meta_data 0x4f 0 Decoder.extension_type "extension" "fixed-0" is_extension category_fixed

abbrev pub meta_data_ubyte : MetaData
meta_data_ubyte = meta_data 0x50 1 Decoder.ubyte "ubyte" "" (is_byte + is_unsigned) category_fixed

abbrev pub meta_data_byte : MetaData
meta_data_byte = meta_data 0x51 1 Decoder.byte "byte" "" is_byte category_fixed

abbrev pub meta_data_uint_small_uint : MetaData
meta_data_uint_small_uint =
    meta_data 0x52 1 Decoder.small_uint "uint" "smalluint" (is_int + is_unsigned) category_fixed

abbrev pub meta_data_ulong_small_ulong : MetaData
meta_data_ulong_small_ulong =
    meta_data 0x53 1 Decoder.small_ulong "ulong" "smallulong" (is_long + is_unsigned) category_fixed

abbrev pub meta_data_int_small_int : MetaData
meta_data_int_small_int = meta_data 0x54 1 Decoder.small_int "int" "smallint" is_int category_fixed

abbrev pub meta_data_long_small_long : MetaData
meta_data_long_small_long =
    meta_data 0x55 1 Decoder.small_long "long" "smalllong" is_long category_fixed

abbrev pub meta_data_boolean : MetaData
meta_data_boolean = meta_data 0x56 1 Decoder.boolean "boolean" "" is_boolean category_fixed

abbrev pub meta_data_extension_fixed_1 : MetaData
meta_data_extension_fixed_1 =
    meta_data 0x5f 1 Decoder.extension_type "extension" "fixed-1" is_extension category_fixed

abbrev pub meta_data_ushort : MetaData
meta_data_ushort =
    meta_data 0x60 2 Decoder.ushort "ushort" "" (is_short + is_unsigned) category_fixed

abbrev pub meta_data_short : MetaData
meta_data_short = meta_data 0x61 2 Decoder.short "short" "" is_short category_fixed

abbrev pub meta_data_extension_fixed_2 : MetaData
meta_data_extension_fixed_2 =
    meta_data 0x6f 2 Decoder.extension_type "extension" "fixed-2" is_extension category_fixed

abbrev pub meta_data_uint : MetaData
meta_data_uint = meta_data 0x70 4 Decoder.uint "uint" "" (is_int + is_unsigned) category_fixed

abbrev pub meta_data_int : MetaData
meta_data_int = meta_data 0x71 4 Decoder.int "int" "" is_int category_fixed

abbrev pub meta_data_float_ieee_754 : MetaData
meta_data_float_ieee_754 = meta_data 0x72 4 Decoder.float "float" "ieee-754" is_float category_fixed

abbrev pub meta_data_char_utf32 : MetaData
meta_data_char_utf32 = meta_data 0x73 4 Decoder.char "char" "utf32" is_char category_fixed

abbrev pub meta_data_decimal32_ieee_754 : MetaData
meta_data_decimal32_ieee_754 =
    meta_data 0x74 4 Decoder.decimal32 "decimal32" "ieee-754" is_decimal32 category_fixed

abbrev pub meta_data_extension_fixed_4 : MetaData
meta_data_extension_fixed_4 =
    meta_data 0x7f 4 Decoder.extension_type "extension" "fixed-4" is_extension category_fixed

abbrev pub meta_data_ulong : MetaData
meta_data_ulong = meta_data 0x80 8 Decoder.ulong "ulong" "" (is_long + is_unsigned) category_fixed

abbrev pub meta_data_long : MetaData
meta_data_long = meta_data 0x81 8 Decoder.long "long" "" is_long category_fixed

abbrev pub meta_data_double_ieee_754 : MetaData
meta_data_double_ieee_754 =
    meta_data 0x82 8 Decoder.double "double" "ieee-754" is_double category_fixed

abbrev pub meta_data_timestamp_ms64 : MetaData
meta_data_timestamp_ms64 =
    meta_data 0x83 8 Decoder.timestamp "timestamp" "ms64" is_timestamp category_fixed

abbrev pub meta_data_decimal64_ieee_754 : MetaData
meta_data_decimal64_ieee_754 =
    meta_data 0x84 8 Decoder.decimal64 "decimal64" "ieee-754" is_decimal64 category_fixed

abbrev pub meta_data_extension_fixed_8 : MetaData
meta_data_extension_fixed_8 =
    meta_data 0x8f 8 Decoder.extension_type "extension" "fixed-8" is_extension category_fixed

abbrev pub meta_data_decimal128_ieee_754 : MetaData
meta_data_decimal128_ieee_754 =
    meta_data 0x94 16 Decoder.decimal128 "decimal128" "ieee-754" is_decimal128 category_fixed

abbrev pub meta_data_uuid : MetaData
meta_data_uuid = meta_data 0x98 16 Decoder.uuid "uuid" "" is_uuid category_fixed

abbrev pub meta_data_extension_fixed_16 : MetaData
meta_data_extension_fixed_16 =
    meta_data 0x9f 16 Decoder.extension_type "extension" "fixed-16" is_extension category_fixed

abbrev pub meta_data_binary_vbin8 : MetaData
meta_data_binary_vbin8 =
    meta_data 0xa0 1 Decoder.binary_vbin8 "binary" "vbin8" is_binary category_variable

abbrev pub meta_data_string_str8_utf8 : MetaData
meta_data_string_str8_utf8 =
    meta_data 0xa1 1 Decoder.string_str8_utf8 "string" "str8-utf8" is_string category_variable

abbrev pub meta_data_symbol_sym8 : MetaData
meta_data_symbol_sym8 =
    meta_data 0xa3 1 Decoder.symbol_sym8 "symbol" "sym8" is_symbol category_variable

abbrev pub meta_data_extension_variable_1 : MetaData
meta_data_extension_variable_1 =
    meta_data 0xaf 1 Decoder.extension_type "extension" "variable-1" is_extension category_variable

abbrev pub meta_data_binary_vbin32 : MetaData
meta_data_binary_vbin32 =
    meta_data 0xb0 4 Decoder.binary_vbin32 "binary" "vbin32" is_binary category_variable

abbrev pub meta_data_string_str32_utf8 : MetaData
meta_data_string_str32_utf8 =
    meta_data 0xb1 4 Decoder.string_str32_utf8 "string" "str32-utf8" is_string category_variable

abbrev pub meta_data_symbol_sym32 : MetaData
meta_data_symbol_sym32 =
    meta_data 0xb3 4 Decoder.symbol_sym32 "symbol" "sym32" is_symbol category_variable

abbrev pub meta_data_extension_variable_4 : MetaData
meta_data_extension_variable_4 =
    meta_data 0xbf 4 Decoder.extension_type "extension" "variable-4" is_extension category_variable

abbrev pub meta_data_list_8 : MetaData
meta_data_list_8 = meta_data 0xc0 1 Decoder.list_8 "list" "list8" is_list category_compound

abbrev pub meta_data_map_8 : MetaData
meta_data_map_8 = meta_data 0xc1 1 Decoder.map_8 "map" "map8" is_map category_compound

abbrev pub meta_data_extension_compound_1 : MetaData
meta_data_extension_compound_1 =
    meta_data 0xcf 1 Decoder.extension_type "extension" "compound-1" is_extension category_compound

abbrev pub meta_data_list_32 : MetaData
meta_data_list_32 = meta_data 0xd0 4 Decoder.list_32 "list" "list32" is_list category_compound

abbrev pub meta_data_map_32 : MetaData
meta_data_map_32 = meta_data 0xd1 4 Decoder.map_32 "map" "map32" is_map category_compound

abbrev pub meta_data_extension_compound_4 : MetaData
meta_data_extension_compound_4 =
    meta_data 0xdf 4 Decoder.extension_type "extension" "compound-4" is_extension category_compound

abbrev pub meta_data_array_8 : MetaData
meta_data_array_8 = meta_data 0xe0 1 Decoder.array_8 "array" "array8" is_array category_array

abbrev pub meta_data_extension_array_1 : MetaData
meta_data_extension_array_1 =
    meta_data 0xef 1 Decoder.extension_type "extension" "array-1" is_extension category_array

abbrev pub meta_data_array_32 : MetaData
meta_data_array_32 = meta_data 0xf0 4 Decoder.array_32 "array" "array32" is_array category_array

abbrev pub meta_data_extension_array_4 : MetaData
meta_data_extension_array_4 =
    meta_data 0xff 4 Decoder.extension_type "extension" "array-4" is_extension category_array

abbrev pub type_lookup_table : List MetaData
type_lookup_table =
    meta_data_described ∷ meta_data_null ∷ meta_data_boolean_true ∷ meta_data_boolean_false
    ∷ meta_data_uint_uint0 ∷ meta_data_ulong_ulong0 ∷ meta_data_list_0 ∷ meta_data_extension_fixed_0
    ∷ meta_data_ubyte ∷ meta_data_byte ∷ meta_data_uint_small_uint ∷ meta_data_ulong_small_ulong
    ∷ meta_data_int_small_int ∷ meta_data_long_small_long ∷ meta_data_boolean
    ∷ meta_data_extension_fixed_1 ∷ meta_data_ushort ∷ meta_data_short ∷ meta_data_extension_fixed_2
    ∷ meta_data_uint ∷ meta_data_int ∷ meta_data_float_ieee_754 ∷ meta_data_char_utf32
    ∷ meta_data_decimal32_ieee_754 ∷ meta_data_extension_fixed_4 ∷ meta_data_ulong ∷ meta_data_long
    ∷ meta_data_double_ieee_754 ∷ meta_data_timestamp_ms64 ∷ meta_data_decimal64_ieee_754
    ∷ meta_data_extension_fixed_8 ∷ meta_data_decimal128_ieee_754 ∷ meta_data_uuid
    ∷ meta_data_extension_fixed_16 ∷ meta_data_binary_vbin8 ∷ meta_data_string_str8_utf8
    ∷ meta_data_symbol_sym8 ∷ meta_data_extension_variable_1 ∷ meta_data_binary_vbin32
    ∷ meta_data_string_str32_utf8 ∷ meta_data_symbol_sym32 ∷ meta_data_extension_variable_4
    ∷ meta_data_list_8 ∷ meta_data_map_8 ∷ meta_data_extension_compound_1 ∷ meta_data_list_32
    ∷ meta_data_map_32 ∷ meta_data_extension_compound_4 ∷ meta_data_array_8
    ∷ meta_data_extension_array_1 ∷ meta_data_array_32 ∷ meta_data_extension_array_4 ∷ []
