-- ===== src/Codec/Errors.antt =====
-- The error codes of Context/ErrorHandling.h that the codec records.
use libamqp.Prelude.{ℕ, ◌+◌}

abbrev pub error_code_base : ℕ
error_code_base = 0x1000

abbrev pub error_buffer_would_overrun : ℕ
error_buffer_would_overrun = error_code_base + 2

abbrev pub error_unknown_format_code : ℕ
error_unknown_format_code = error_code_base + 3

abbrev pub error_unknown_array_element_format_code : ℕ
error_unknown_array_element_format_code = error_code_base + 4

abbrev pub error_invalid_symbol_character : ℕ
error_invalid_symbol_character = error_code_base + 7

abbrev pub error_invalid_utf8_character : ℕ
error_invalid_utf8_character = error_code_base + 8

abbrev pub error_invalid_utf32_character : ℕ
error_invalid_utf32_character = error_code_base + 9

abbrev pub error_variable_type_malformed : ℕ
error_variable_type_malformed = error_code_base + 10

abbrev pub error_array_element_type_incorrect : ℕ
error_array_element_type_incorrect = error_code_base + 12

abbrev pub error_described_type_overflow : ℕ
error_described_type_overflow = error_code_base + 14

abbrev pub error_complete_wrong_container : ℕ
error_complete_wrong_container = error_code_base + 15

abbrev pub error_no_descriptor : ℕ
error_no_descriptor = error_code_base + 16

abbrev pub error_no_described_type : ℕ
error_no_described_type = error_code_base + 17

abbrev pub error_descriptor_invalid : ℕ
error_descriptor_invalid = error_code_base + 18

abbrev pub error_described_invalid : ℕ
error_described_invalid = error_code_base + 19
