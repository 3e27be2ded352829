-- ===== src/Codec/Decode/Sound/Dispatch.antt =====
-- What each decoder keeps to, by the entry that names it: the dispatch of `decode_type_into_result`.
use libamqp.Prelude.{ℕ, ◌/◌, ◌%◌, ◌^◌, ◌≤◌, ◌<◌, ◌≡◌, Bool, true, ◌||◌, ◌==◌, not, arith}
use libamqp.Codec.Errors.{error_invalid_symbol_character, error_invalid_utf8_character}
use libamqp.Codec.MetaData.{MetaData, Decoder}
use libamqp.Codec.State.{State, M, with_b4}
use libamqp.Codec.State.Hoare.{Ensures}
use libamqp.Codec.Decode.Fixed.{
  fixed_zero_width, boolean_false, sign_extend, fixed_width, uint0, ulong0, small_uint, small_int,
  small_ulong, small_long,
}
use libamqp.Codec.Decode.Compound.{list_list, decode_array}
use libamqp.Codec.Decode.Variable.{construct_variable_type, decode_symbol, decode_string_utf8}
use libamqp.Codec.Decode.Run.{decode_with, run_decoder}
use libamqp.Codec.Decode.Sound.Fixed.{
  Decoded, InBounds, fixed_zero_width-Decoded, then_store-Decoded, fixed_width-Decoded,
  boolean_true-Decoded, decode_char-Decoded,
}
use libamqp.Codec.Decode.Sound.Variable.{
  IsSizeWidth, construct_variable_type-Decoded, checked_variable_type-Decoded,
}
use libamqp.Codec.Decode.Sound.Constructor.{width_ok}
use libamqp.Codec.Decode.Sound.Compound.{left, list_list-Decoded, list_0-Decoded}
use libamqp.Codec.Decode.Sound.Elements.{IntoSpec}
use libamqp.Codec.Decode.Sound.Array.{decode_array-Decoded}
use libamqp.Codec.Decode.Sound.Described.{described_type-Decoded}
use libamqp.Codec.Decode.Sound.Step.{decode_with-DecodeSpec}

module _ (into : ℕ → M Bool) (meta : MetaData) (p k : ℕ) (s : State) (inside : InBounds s)
    (new : p < s.next_type) (spec : IntoSpec into k) (enough : left s ≤ k) where
  sized : (meta.width == 1 || meta.width == 4) ≡ true → IsSizeWidth meta.width
  sized w = ground arith

  bare_case : Ensures (fixed_zero_width p s) (Decoded p s)
  bare_case = fixed_zero_width-Decoded p s inside

  fixed_case :
      (meta.width == 1 || meta.width == 2 || meta.width == 4 || meta.width == 8 || meta.width == 16)
        ≡ true
      → Ensures (fixed_width meta p s) (Decoded p s)
  fixed_case w = fixed_width-Decoded meta p s inside (ground arith)

  variable_case :
      (meta.width == 1 || meta.width == 4) ≡ true
      → Ensures (construct_variable_type meta p s) (Decoded p s)
  variable_case w = construct_variable_type-Decoded meta p s inside (sized w)

  string_case :
      (meta.width == 1 || meta.width == 4) ≡ true
      → Ensures (decode_string_utf8 meta p s) (Decoded p s)
  unfolding decode_string_utf8
  string_case w =
      checked_variable_type-Decoded (λ c. not (c == 0)) error_invalid_utf8_character meta p s inside
        (sized w) (omega arith)

  symbol_case :
      (meta.width == 1 || meta.width == 4) ≡ true → Ensures (decode_symbol meta p s) (Decoded p s)
  unfolding decode_symbol
  symbol_case w =
      checked_variable_type-Decoded (λ c. c / 2 ^ 7 % 2 == 0) error_invalid_symbol_character meta p
        s inside (sized w) (omega arith)

  list_case :
      (meta.width == 1 || meta.width == 4) ≡ true
      → Ensures (list_list (decode_with into) meta p s) (Decoded p s)
  list_case w =
      list_list-Decoded (decode_with into) meta p k s inside (omega (arith, new)) (sized w)
        (decode_with-DecodeSpec into k spec) (omega (arith, enough))

  array_case :
      (meta.width == 1 || meta.width == 4) ≡ true
      → Ensures (decode_array into meta p s) (Decoded p s)
  array_case w = decode_array-Decoded into meta p k s inside new (sized w) spec enough

  pub run_decoder-Decoded :
      (d : Decoder)
      → width_ok d meta.width ≡ true
      → Ensures (run_decoder into d meta p s) (Decoded p s)
  unfolding run_decoder width_ok boolean_false uint0 ulong0 small_uint small_int small_ulong
      small_long
  run_decoder-Decoded Decoder.described_type w =
      described_type-Decoded (decode_with into) p k s (decode_with-DecodeSpec into k spec) inside
        (omega (arith, new)) enough
  run_decoder-Decoded Decoder.null w = bare_case
  run_decoder-Decoded Decoder.boolean_true w = boolean_true-Decoded p s inside
  run_decoder-Decoded Decoder.boolean_false w = bare_case
  run_decoder-Decoded Decoder.uint0 w =
      then_store-Decoded (fixed_zero_width p) p (λ x. with_b4 x 0) s bare_case
  run_decoder-Decoded Decoder.ulong0 w =
      then_store-Decoded (fixed_zero_width p) p (λ x. 0) s bare_case
  run_decoder-Decoded Decoder.list_0 w = list_0-Decoded p s inside
  run_decoder-Decoded Decoder.extension_type w = tt
  run_decoder-Decoded Decoder.decimal128 w = tt
  run_decoder-Decoded Decoder.small_uint w =
      then_store-Decoded (fixed_width meta p) p (λ x. with_b4 x (x % 2 ^ 8)) s (fixed_case w)
  run_decoder-Decoded Decoder.small_ulong w =
      then_store-Decoded (fixed_width meta p) p (λ x. x % 2 ^ 8) s (fixed_case w)
  run_decoder-Decoded Decoder.small_int w =
      then_store-Decoded (fixed_width meta p) p (λ x. with_b4 x (sign_extend 32 (x % 2 ^ 8))) s
        (fixed_case w)
  run_decoder-Decoded Decoder.small_long w =
      then_store-Decoded (fixed_width meta p) p (λ x. sign_extend 64 (x % 2 ^ 8)) s (fixed_case w)
  run_decoder-Decoded Decoder.char w = decode_char-Decoded meta p s inside (ground arith)
  run_decoder-Decoded Decoder.binary_vbin8 w = variable_case w
  run_decoder-Decoded Decoder.binary_vbin32 w = variable_case w
  run_decoder-Decoded Decoder.string_str8_utf8 w = string_case w
  run_decoder-Decoded Decoder.string_str32_utf8 w = string_case w
  run_decoder-Decoded Decoder.symbol_sym8 w = symbol_case w
  run_decoder-Decoded Decoder.symbol_sym32 w = symbol_case w
  run_decoder-Decoded Decoder.list_8 w = list_case w
  run_decoder-Decoded Decoder.list_32 w = list_case w
  run_decoder-Decoded Decoder.map_8 w = list_case w
  run_decoder-Decoded Decoder.map_32 w = list_case w
  run_decoder-Decoded Decoder.array_8 w = array_case w
  run_decoder-Decoded Decoder.array_32 w = array_case w
  run_decoder-Decoded _ w = fixed_case w
