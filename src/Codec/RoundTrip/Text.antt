-- ===== src/Codec/RoundTrip/Text.antt =====
-- Strings and symbols: `amqp_encode_string`, `amqp_encode_symbol` and the decoders of their encodings.
use libamqp.Prelude.{
  ℕ, ◌+◌, ◌-◌, ◌/◌, ◌%◌, ◌^◌, ◌<◌, ◌≡◌, refl, Bool, true, false, List, [], ◌∷◌, ltb, ◌==◌,
  if◌then◌else◌, not, arith, ◌∙◌, ap, length, All, leb, some, ◌≤◌,
}
use mathlib.Core.Path.{subst, sym}
use libamqp.Buffer.{Buffer, unchecked_getc_at}
use libamqp.Buffer.Bytes.{Holds, IsByte}
use libamqp.Codec.Errors.{error_invalid_symbol_character, error_invalid_utf8_character}
use libamqp.Codec.MetaData.{MetaData}
use libamqp.Codec.MetaData.Search.{find_code, type_meta_data_lookup_lem}
use libamqp.Codec.MetaData.Table.{
  meta_data_string_str8_utf8, meta_data_string_str32_utf8, meta_data_symbol_sym8,
  meta_data_symbol_sym32,
}
use libamqp.Codec.State.{State, pure}
use libamqp.Codec.State.Hoare.{Returns, Returns-if, Returns-bind}
use libamqp.Codec.Decode.Variable.{
  construct_variable_type, all_characters, checked_variable_type, decode_string_utf8, decode_symbol,
  judge_characters, check_characters,
}
use libamqp.Codec.Decode.Run.{run_decoder}
use libamqp.Codec.Encode.Variable.{
  encode_simple_variable, encode_string, encode_symbol, encode_symbol_sym8, encode_symbol_sym32,
}
use libamqp.Codec.RoundTrip.Reading.{started}
use libamqp.Codec.RoundTrip.Writing.{Wrote}
use libamqp.Codec.RoundTrip.Variable.{Placed}
use libamqp.Codec.RoundTrip.Sized.{wire_data, IsEncoding, sized-Wrote}
use libamqp.Codec.RoundTrip.DataTrip.{DataBack, data_round_trip}

-- Each character is accepted.
abbrev pub Accepts : (ℕ → Bool) → List ℕ → Type 0
Accepts good [] = Unit
Accepts good (c ∷ cs) = (good c ≡ true) × Accepts good cs

all_characters-true :
    (good : ℕ → Bool) (b : Buffer) (i k : ℕ) (cs : List ℕ)
    → i + length cs ≤ b.size
    → Holds b i cs
    → Accepts good cs
    → all_characters good (record b { index = k }) i (length cs) ≡ some true
unfolding all_characters unchecked_getc_at
all_characters-true good b i k [] r h a = refl
all_characters-true good b i k (c ∷ cs) r (e, h) (g, a) =
    let near : leb (i + 1) b.size ≡ true = ground (arith, r) in
    rw (near, e, g) (all_characters-true good b (i + 1) k cs (omega (arith, r)) h a)

checked_variable_type-Placed :
    (good : ℕ → Bool) (code : ℕ) (meta : MetaData) (p k : ℕ) (cs : List ℕ) (s : State)
    → k + length cs ≤ s.buffer.size
    → Holds s.buffer k cs
    → Accepts good cs
    → Returns (construct_variable_type meta p s) (Placed p k (length cs) s)
    → Returns (checked_variable_type good code meta p s) (Placed p k (length cs) s)
checked_variable_type-Placed good code meta p k cs s r h a c =
    let Q : Bool → State → Type 0 = Placed p k (length cs) s in
    Returns-bind (construct_variable_type meta p) _ s Q Q c (λ rc t d.
      let fine : all_characters good t.buffer (t.types p).position_index (t.types p).position_size
          ≡ some true =
        ap (λ b. all_characters good b (t.types p).position_index (t.types p).position_size)
          d.1.1.1.1
        ∙ ap
            (λ i.
              all_characters good (record s.buffer { index = k + length cs }) i
                (t.types p).position_size)
            d.1.0
        ∙ ap (all_characters good (record s.buffer { index = k + length cs }) k) d.1.1.0
        ∙ all_characters-true good s.buffer k (k + length cs) cs r h a in
      Returns-if rc (check_characters good code p) (pure rc) t Q
        (λ q. subst (λ o. Returns (judge_characters code p o t) Q) (sym fine) (refl, d.1))
        (λ q. absurd (cc (q, d.0))))

string-IsEncoding : IsEncoding 0xA1 0xB1 meta_data_string_str8_utf8 meta_data_string_str32_utf8
unfolding find_code
string-IsEncoding = record {
  same_8 = refl;
  same_32 = refl;
  width_8 = refl;
  width_32 = refl;
  scalar_8 = λ x. refl;
  scalar_32 = λ x. refl;
  found_8 = type_meta_data_lookup_lem 0xA1;
  found_32 = type_meta_data_lookup_lem 0xB1;
  valid_8 = refl;
  valid_32 = refl;
}

symbol-IsEncoding : IsEncoding 0xA3 0xB3 meta_data_symbol_sym8 meta_data_symbol_sym32
unfolding find_code
symbol-IsEncoding = record {
  same_8 = refl;
  same_32 = refl;
  width_8 = refl;
  width_32 = refl;
  scalar_8 = λ x. refl;
  scalar_32 = λ x. refl;
  found_8 = type_meta_data_lookup_lem 0xA3;
  found_32 = type_meta_data_lookup_lem 0xB3;
  valid_8 = refl;
  valid_32 = refl;
}

branch_inside :
    (b : Bool) (m n : MetaData) (value : List ℕ) (s : State)
    → (if b then encode_simple_variable m value else encode_simple_variable n value) s
      ≡ encode_simple_variable (if b then m else n) value s
branch_inside true m n value s = refl
branch_inside false m n value s = refl

-- The characters of a string are bytes other than 0, those of a symbol are below 128.
abbrev pub is_string_character : ℕ → Bool
is_string_character c = not (c == 0)

abbrev pub is_symbol_character : ℕ → Bool
is_symbol_character c = c / 2 ^ 7 % 2 == 0

decode-encode_string :
    (string : List ℕ) (s : State)
    → All IsByte string
    → Accepts is_string_character string
    → 0 < length string
    → length string < 2 ^ 32 - 1
    → s.container ≡ 0
    → s.buffer.size + 5 + length string < s.buffer.capacity
    → s.buffer.capacity < 2 ^ 64
    → s.buffer.index ≡ s.buffer.size
    → DataBack (encode_string string) s string
unfolding run_decoder encode_string decode_string_utf8
decode-encode_string string s bytes accepted present short c room z i =
    data_round_trip (encode_string string) string s string-IsEncoding
      (λ t k f hs e.
        checked_variable_type-Placed is_string_character error_invalid_utf8_character
          meta_data_string_str8_utf8 t.next_type k string
          (started meta_data_string_str8_utf8 0xA1 t) f hs accepted e)
      (λ t k f hs e.
        checked_variable_type-Placed is_string_character error_invalid_utf8_character
          meta_data_string_str32_utf8 t.next_type k string
          (started meta_data_string_str32_utf8 0xB1 t) f hs accepted e)
      (omega arith) (omega arith) bytes present short i
      (subst (λ r. Returns r (Wrote s (wire_data 0xA1 0xB1 string)))
        (branch_inside (ltb (length string) 256) meta_data_string_str8_utf8
          meta_data_string_str32_utf8 string s)
        (sized-Wrote string-IsEncoding string s c (omega arith) room z))

decode-encode_symbol :
    (symbol : List ℕ) (s : State)
    → All IsByte symbol
    → Accepts is_symbol_character symbol
    → 0 < length symbol
    → length symbol < 2 ^ 32 - 1
    → s.container ≡ 0
    → s.buffer.size + 5 + length symbol < s.buffer.capacity
    → s.buffer.capacity < 2 ^ 64
    → s.buffer.index ≡ s.buffer.size
    → DataBack (encode_symbol symbol) s symbol
unfolding run_decoder encode_symbol encode_symbol_sym8 encode_symbol_sym32 decode_symbol
decode-encode_symbol symbol s bytes accepted present short c room z i =
    data_round_trip (encode_symbol symbol) symbol s symbol-IsEncoding
      (λ t k f hs e.
        checked_variable_type-Placed is_symbol_character error_invalid_symbol_character
          meta_data_symbol_sym8 t.next_type k symbol (started meta_data_symbol_sym8 0xA3 t) f hs
          accepted e)
      (λ t k f hs e.
        checked_variable_type-Placed is_symbol_character error_invalid_symbol_character
          meta_data_symbol_sym32 t.next_type k symbol (started meta_data_symbol_sym32 0xB3 t) f hs
          accepted e)
      (omega arith) (omega arith) bytes present short i
      (sized-Wrote symbol-IsEncoding symbol s c (omega arith) room z)

-- `amqp_encode_string` and `amqp_encode_symbol` of at least one byte, all of them characters that the
-- type admits, and then `amqp_decode`, on a buffer with nothing left to read and more room than the
-- data takes in its longer encoding, no container open: neither fails, the new object is valid, its
-- position is where the same bytes lie, and everything that was written has been read.
-- The data is of bytes, its length is below 2^32 - 1, and the capacity fits a `size_t`.
pub decode-encode_text :
    (string symbol : List ℕ) (s : State)
    → All IsByte string
    → Accepts is_string_character string
    → All IsByte symbol
    → Accepts is_symbol_character symbol
    → 0 < length string
    → 0 < length symbol
    → length string < 2 ^ 32 - 1
    → length symbol < 2 ^ 32 - 1
    → s.container ≡ 0
    → s.buffer.size + 5 + length string < s.buffer.capacity
    → s.buffer.size + 5 + length symbol < s.buffer.capacity
    → s.buffer.capacity < 2 ^ 64
    → s.buffer.index ≡ s.buffer.size
    → DataBack (encode_string string) s string × DataBack (encode_symbol symbol) s symbol
decode-encode_text string symbol s b1 a1 b2 a2 p1 p2 l1 l2 c h1 h2 z i = (
  decode-encode_string string s b1 a1 p1 l1 c h1 z i,
  decode-encode_symbol symbol s b2 a2 p2 l2 c h2 z i,
)
