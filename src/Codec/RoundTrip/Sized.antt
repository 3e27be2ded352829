-- ===== src/Codec/RoundTrip/Sized.antt =====
-- Data of variable size in its two encodings, with a size field of one byte or of four: from an encoder
-- to the object that `amqp_decode` returns.
use libamqp.Prelude.{
  ℕ, ◌+◌, ◌-◌, ◌^◌, ◌≤◌, ◌<◌, ◌≡◌, refl, Bool, true, false, ◌||◌, Option, some, List, [], ◌∷◌, ◌++◌,
  ltb, if◌then◌else◌, arith, sym, ◌∙◌, ap, length,
}
use mathlib.Core.Path.{subst}
use libamqp.Buffer.{Buffer, unchecked_getc_at, unchecked_putc}
use libamqp.Buffer.Bytes.{Holds, append_bytes}
use libamqp.Buffer.Words.{
  bytes_32, hton_32, hton_32-append, ntoh_32-bytes, read_size_field, read_size_field_one,
  read_size_field_four,
}
use libamqp.Codec.Flags.{has_flag, is_invalid, is_incomplete}
use libamqp.Codec.MetaData.{MetaData}
use libamqp.Codec.MetaData.Lookup.{type_meta_data_lookup}
use libamqp.Codec.State.{State}
use libamqp.Codec.State.Hoare.{Returns}
use libamqp.Codec.Decode.Variable.{construct_variable_type}
use libamqp.Codec.Decode.Run.{run_decoder, decode_type_into_result, amqp_decode}
use libamqp.Codec.Encode.Variable.{encode_simple_variable}
use libamqp.Codec.RoundTrip.Reading.{started}
use libamqp.Codec.RoundTrip.Writing.{Wrote, IsScalar}
use libamqp.Codec.RoundTrip.Variable.{
  WritesSize, encode_simple_variable-Wrote, Placed, construct_variable_type-Placed,
}
use libamqp.Codec.RoundTrip.Data.{Holds-index, Holds-++, GotData, data_read}

-- Data on the wire: the format code, the size, the data.
abbrev pub wire_data : ℕ → ℕ → List ℕ → List ℕ
wire_data code_8 code_32 value =
    if ltb (length value) 256
    then code_8 ∷ (length value ∷ []) ++ value
    else code_32 ∷ bytes_32 (length value) ++ value

abbrev in_state : State → Buffer → State
in_state t b = record t { buffer = b }

one_byte_size : (n : ℕ) → n < 2 ^ 8 → WritesSize 1 n (n ∷ [])
unfolding append_bytes
one_byte_size n h t = ap (λ m. in_state t (unchecked_putc t.buffer m)) (omega arith)

four_byte_size : (n : ℕ) → n < 2 ^ 32 → WritesSize 4 n (bytes_32 n)
four_byte_size n h t =
    ap (in_state t) (ap (hton_32 t.buffer) (omega arith) ∙ hton_32-append t.buffer n)

-- An entry for the short encoding and one for the long, with their codes.
pub record IsEncoding (code_8 code_32 : ℕ) (meta_8 meta_32 : MetaData) : Type 0 where
  pub same_8 : meta_8.format_code ≡ code_8
  pub same_32 : meta_32.format_code ≡ code_32
  pub width_8 : meta_8.width ≡ 1
  pub width_32 : meta_32.width ≡ 4
  pub scalar_8 : IsScalar meta_8
  pub scalar_32 : IsScalar meta_32
  pub found_8 : type_meta_data_lookup code_8 ≡ some (some meta_8)
  pub found_32 : type_meta_data_lookup code_32 ≡ some (some meta_32)
  pub valid_8 :
      (has_flag meta_8.typedef_flags is_invalid || has_flag meta_8.typedef_flags is_incomplete)
      ≡ false
  pub valid_32 :
      (has_flag meta_32.typedef_flags is_invalid || has_flag meta_32.typedef_flags is_incomplete)
      ≡ false

module _ {code_8 code_32 : ℕ} {meta_8 meta_32 : MetaData}
    (enc : IsEncoding code_8 code_32 meta_8 meta_32) where
  pub sized-Wrote :
      (value : List ℕ) (s : State)
      → s.container ≡ 0
      → length value < 2 ^ 32
      → s.buffer.size + 5 + length value < s.buffer.capacity
      → s.buffer.capacity < 2 ^ 64
      → Returns
          ((if ltb (length value) 256
              then encode_simple_variable meta_8 value
              else encode_simple_variable meta_32 value)
            s)
          (Wrote s (wire_data code_8 code_32 value))
  sized-Wrote value s c n h z = split (ltb (length value) 256) refl
    where
      split :
          (b : Bool)
          → ltb (length value) 256 ≡ b
          → Returns
              ((if b
                  then encode_simple_variable meta_8 value
                  else encode_simple_variable meta_32 value)
                s)
              (Wrote s (
                if b
                then code_8 ∷ (length value ∷ []) ++ value
                else code_32 ∷ bytes_32 (length value) ++ value))
      split true e =
          subst
            (λ x.
              Returns (encode_simple_variable meta_8 value s)
                (Wrote s (x ∷ (length value ∷ []) ++ value)))
            enc.same_8
            (encode_simple_variable-Wrote meta_8 value (length value ∷ []) s c enc.scalar_8
              (subst (λ w. WritesSize w (length value) (length value ∷ [])) (sym enc.width_8)
                (one_byte_size (length value) (ground arith)))
              enc.width_8 (omega arith) z)
      split false e =
          subst
            (λ x.
              Returns (encode_simple_variable meta_32 value s)
                (Wrote s (x ∷ bytes_32 (length value) ++ value)))
            enc.same_32
            (encode_simple_variable-Wrote meta_32 value (bytes_32 (length value)) s c enc.scalar_32
              (subst (λ w. WritesSize w (length value) (bytes_32 (length value))) (sym enc.width_32)
                (four_byte_size (length value) n))
              enc.width_32 (omega arith) z)

-- What the decoder of an entry adds to `amqp_construct_variable_type` does not stand in the way.
abbrev pub Runs : ℕ → MetaData → List ℕ → Type 0
Runs code meta value =
    (s : State) (k : ℕ)
    → k + length value ≤ s.buffer.size
    → Holds (started meta code s).buffer k value
    → Returns (construct_variable_type meta s.next_type (started meta code s))
        (Placed s.next_type k (length value) (started meta code s))
    → Returns
        (run_decoder (decode_type_into_result (s.buffer.size - s.buffer.index)) meta.type_decoder
          meta s.next_type (started meta code s))
        (Placed s.next_type k (length value) (started meta code s))

abbrev field_read : ℕ → Buffer → ℕ → Option (ℕ × Buffer)
field_read k b n = some (n, record b { index = k })

pub short-GotData :
    {code_8 code_32 : ℕ} {meta_8 meta_32 : MetaData} (value : List ℕ) (s : State)
    → IsEncoding code_8 code_32 meta_8 meta_32
    → Runs code_8 meta_8 value
    → length value < 256
    → 0 < length value
    → s.buffer.index + 2 + length value ≤ s.buffer.size
    → Holds s.buffer s.buffer.index (code_8 ∷ length value ∷ value)
    → Returns (amqp_decode s) (GotData s value (s.buffer.index + 1 + 1 + length value))
short-GotData {code_8} {code_32} {meta_8} value s enc run small some_data fits (hc, (hn, hv)) =
    let i : ℕ = s.buffer.index in
    let b : Buffer = record s.buffer { index = i + 1 } in
    let field : unchecked_getc_at b (i + 1) ≡ length value =
      (Holds-index s.buffer (i + 1) (i + 1) (length value ∷ []) (hn, tt)).0 in
    let size : read_size_field b meta_8.width ≡ field_read (i + 1 + 1) s.buffer (length value) =
      ap (read_size_field b) enc.width_8
      ∙ read_size_field_one b (omega arith)
      ∙ ap (field_read (i + 1 + 1) s.buffer) field in
    data_read code_8 meta_8 s value (i + 1 + 1) (omega arith) hc enc.found_8 enc.valid_8
      (run s (i + 1 + 1) (omega arith) (Holds-index s.buffer (i + 1) (i + 1 + 1) value hv) (
        construct_variable_type-Placed meta_8 s.next_type (length value) (i + 1 + 1)
          (started meta_8 code_8 s) size (omega arith) (omega arith) (omega arith)))
      hv

pub long-GotData :
    {code_8 code_32 : ℕ} {meta_8 meta_32 : MetaData} (value : List ℕ) (s : State)
    → IsEncoding code_8 code_32 meta_8 meta_32
    → Runs code_32 meta_32 value
    → length value < 2 ^ 32 - 1
    → 0 < length value
    → s.buffer.index + 5 + length value ≤ s.buffer.size
    → Holds s.buffer s.buffer.index (code_32 ∷ bytes_32 (length value) ++ value)
    → Returns (amqp_decode s) (GotData s value (s.buffer.index + 1 + 1 + 1 + 1 + 1 + length value))
long-GotData {code_8} {code_32} {meta_8} {meta_32} value s enc run small some_data fits (hc, hs) =
    let i : ℕ = s.buffer.index in
    let k : ℕ = i + 1 + 1 + 1 + 1 + 1 in
    let b : Buffer = record s.buffer { index = i + 1 } in
    let parts = Holds-++ s.buffer (i + 1) (bytes_32 (length value)) value hs in
    let field =
      ntoh_32-bytes b (i + 1) (length value) (omega arith)
        (Holds-index s.buffer (i + 1) (i + 1) (bytes_32 (length value)) parts.0) in
    let held : Holds s.buffer k value = subst (λ j. Holds s.buffer j value) (omega arith) parts.1 in
    let size : read_size_field b meta_32.width ≡ field_read k s.buffer (length value) =
      ap (read_size_field b) enc.width_32
      ∙ read_size_field_four b (omega arith)
      ∙ ap (field_read k s.buffer) field in
    data_read code_32 meta_32 s value k (omega arith) hc enc.found_32 enc.valid_32
      (run s k (omega arith) (Holds-index s.buffer (i + 1) k value held) (
        construct_variable_type-Placed meta_32 s.next_type (length value) k
          (started meta_32 code_32 s) size (omega arith) (omega arith) (omega arith)))
      held
