-- ===== src/Codec/MetaData.antt =====
-- The encodings that the codec knows: `amqp_encoding_meta_data_t` of Codec/Type/EncodingMetaData.h,
-- their kinds and decoders. The print methods are left out.
pub mod Table
pub mod Lookup
pub mod Search
use Prim.Native.String.{String}
use libamqp.Prelude.{ℕ}

-- The function that `type_decoder` points to, by its name without `amqp_decode_`.
pub data Decoder : Type 0 where
  described_type null boolean_true boolean_false uint0 ulong0 list_0 extension_type ubyte byte :
      Decoder
  small_uint small_ulong small_int small_long boolean ushort short uint int float char decimal32 :
      Decoder
  ulong long double timestamp decimal64 decimal128 uuid binary_vbin8 string_str8_utf8 : Decoder
  symbol_sym8 binary_vbin32 string_str32_utf8 symbol_sym32 list_8 map_8 list_32 map_32 array_8 :
      Decoder
  array_32 : Decoder

abbrev pub category_fixed : ℕ
category_fixed = 0

abbrev pub category_variable : ℕ
category_variable = 1

abbrev pub category_compound : ℕ
category_compound = 2

abbrev pub category_array : ℕ
category_array = 3

pub record MetaData : Type 0 where
  pub format_code : ℕ
  pub width : ℕ
  pub type_decoder : Decoder
  pub name : String
  pub encoding_name : String
  pub typedef_flags : ℕ
  pub category_name_index : ℕ
