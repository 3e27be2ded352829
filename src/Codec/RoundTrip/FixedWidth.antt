-- ===== src/Codec/RoundTrip/FixedWidth.antt =====
-- The types of one fixed width: `amqp_encode_ubyte`, `amqp_encode_byte`, `amqp_encode_ushort`,
-- `amqp_encode_short`, `amqp_encode_float`, `amqp_encode_double`, `amqp_encode_timestamp`.
use libamqp.Prelude.{ℕ, ◌%◌, ◌^◌, ◌<◌, ◌≡◌, refl, false, [], ◌∷◌, arith}
use libamqp.Buffer.Words.{
  bytes_16, bytes_32, bytes_64, bytes_16-IsByte, bytes_32-IsByte, bytes_64-IsByte, hton_16-append,
  hton_32-append, hton_64-append,
}
use libamqp.Codec.MetaData.Search.{find_code, type_meta_data_lookup_lem}
use libamqp.Codec.MetaData.Table.{
  meta_data_ubyte, meta_data_byte, meta_data_ushort, meta_data_short, meta_data_float_ieee_754,
  meta_data_double_ieee_754, meta_data_timestamp_ms64,
}
use libamqp.Codec.State.{State, M, ◌>>=◌, type_is_invalid}
use libamqp.Codec.State.Hoare.{Returns}
use libamqp.Codec.Decode.Run.{run_decoder, amqp_decode}
use libamqp.Codec.Encode.Fixed.{
  encode_fixed_two_byte, encode_fixed_four_byte, encode_fixed_eight_byte, encode_ubyte, encode_byte,
  encode_ushort, encode_short, encode_float, encode_double, encode_timestamp,
}
use libamqp.Codec.RoundTrip.Writing.{HasRoom, then_put-Wrote}
use libamqp.Codec.RoundTrip.Scalar.{scalar_read, round_trip}
use libamqp.Codec.RoundTrip.Words.{fixed_one, fixed_two, fixed_four, fixed_eight}
use libamqp.Codec.RoundTrip.Cases.{byte_value, one_byte-Wrote}

-- A value that is read back: the low bits of the union, a valid object, and nothing left to read.
abbrev pub ReadBack : M ℕ → State → (ℕ → Type 0) → Type 0
ReadBack encode s V = Returns ((encode >>= λ _. amqp_decode) s) (λ p t.
    V (t.types p).word × (type_is_invalid (t.types p) ≡ false) × (t.buffer.index ≡ t.buffer.size))

module _ (s : State) (c : s.container ≡ 0) (z : 0 < s.next_type) (r : HasRoom s 9)
    (i : s.buffer.index ≡ s.buffer.size) where
  read_ubyte : (v : ℕ) → v < 2 ^ 8 → ReadBack (encode_ubyte v) s (λ w. w % 2 ^ 8 ≡ v)
  unfolding encode_ubyte run_decoder find_code
  read_ubyte v h =
      round_trip (encode_ubyte v) (0x50 ∷ v ∷ []) s (λ w. w % 2 ^ 8 ≡ v) i (omega arith, (h, tt))
        (byte_value v s 0x50 (encode_ubyte v) h
          (one_byte-Wrote meta_data_ubyte (v % 2 ^ 8) s c z (λ x. refl) (omega (arith, r.0), r.1)))
        (λ t f hs.
          scalar_read 0x50 meta_data_ubyte t 1 _ (λ w. w % 2 ^ 8 ≡ v) (omega arith) hs.0
            (type_meta_data_lookup_lem 0x50) refl (fixed_one 0x50 meta_data_ubyte t v refl f hs.1)
            (omega arith))

  read_byte : (v : ℕ) → v < 2 ^ 8 → ReadBack (encode_byte v) s (λ w. w % 2 ^ 8 ≡ v)
  unfolding encode_byte run_decoder find_code
  read_byte v h =
      round_trip (encode_byte v) (0x51 ∷ v ∷ []) s (λ w. w % 2 ^ 8 ≡ v) i (omega arith, (h, tt))
        (byte_value v s 0x51 (encode_byte v) h
          (one_byte-Wrote meta_data_byte (v % 2 ^ 8) s c z (λ x. refl) (omega (arith, r.0), r.1)))
        (λ t f hs.
          scalar_read 0x51 meta_data_byte t 1 _ (λ w. w % 2 ^ 8 ≡ v) (omega arith) hs.0
            (type_meta_data_lookup_lem 0x51) refl (fixed_one 0x51 meta_data_byte t v refl f hs.1)
            (omega arith))

  read_ushort : (v : ℕ) → v < 2 ^ 16 → ReadBack (encode_ushort v) s (λ w. w % 2 ^ 16 ≡ v)
  unfolding encode_ushort encode_fixed_two_byte run_decoder find_code
  read_ushort v h =
      round_trip (encode_ushort v) (0x60 ∷ bytes_16 v) s (λ w. w % 2 ^ 16 ≡ v) i
        (omega arith, bytes_16-IsByte v)
        (then_put-Wrote meta_data_ushort _ (bytes_16 v) s c z (λ x. refl) (omega (arith, r.0), r.1)
          (λ b. hton_16-append b v))
        (λ t f hs.
          scalar_read 0x60 meta_data_ushort t 2 _ (λ w. w % 2 ^ 16 ≡ v) (omega arith) hs.0
            (type_meta_data_lookup_lem 0x60) refl
            (fixed_two 0x60 meta_data_ushort t v refl h f hs.1) (omega arith))

  read_short : (v : ℕ) → v < 2 ^ 16 → ReadBack (encode_short v) s (λ w. w % 2 ^ 16 ≡ v)
  unfolding encode_short encode_fixed_two_byte run_decoder find_code
  read_short v h =
      round_trip (encode_short v) (0x61 ∷ bytes_16 v) s (λ w. w % 2 ^ 16 ≡ v) i
        (omega arith, bytes_16-IsByte v)
        (then_put-Wrote meta_data_short _ (bytes_16 v) s c z (λ x. refl) (omega (arith, r.0), r.1)
          (λ b. hton_16-append b v))
        (λ t f hs.
          scalar_read 0x61 meta_data_short t 2 _ (λ w. w % 2 ^ 16 ≡ v) (omega arith) hs.0
            (type_meta_data_lookup_lem 0x61) refl (fixed_two 0x61 meta_data_short t v refl h f hs.1)
            (omega arith))

  read_float : (v : ℕ) → v < 2 ^ 32 → ReadBack (encode_float v) s (λ w. w % 2 ^ 32 ≡ v)
  unfolding encode_float encode_fixed_four_byte run_decoder find_code
  read_float v h =
      round_trip (encode_float v) (0x72 ∷ bytes_32 v) s (λ w. w % 2 ^ 32 ≡ v) i
        (omega arith, bytes_32-IsByte v)
        (then_put-Wrote meta_data_float_ieee_754 _ (bytes_32 v) s c z (λ x. refl)
          (omega (arith, r.0), r.1) (λ b. hton_32-append b v))
        (λ t f hs.
          scalar_read 0x72 meta_data_float_ieee_754 t 4 _ (λ w. w % 2 ^ 32 ≡ v) (omega arith) hs.0
            (type_meta_data_lookup_lem 0x72) refl
            (fixed_four 0x72 meta_data_float_ieee_754 t v refl h f hs.1) (omega arith))

  read_double : (v : ℕ) → v < 2 ^ 64 → ReadBack (encode_double v) s (λ w. w ≡ v)
  unfolding encode_double encode_fixed_eight_byte run_decoder find_code
  read_double v h =
      round_trip (encode_double v) (0x82 ∷ bytes_64 v) s (λ w. w ≡ v) i
        (omega arith, bytes_64-IsByte v)
        (then_put-Wrote meta_data_double_ieee_754 _ (bytes_64 v) s c z (λ x. refl)
          (omega (arith, r.0), r.1) (λ b. hton_64-append b v))
        (λ t f hs.
          scalar_read 0x82 meta_data_double_ieee_754 t 8 _ (λ w. w ≡ v) (omega arith) hs.0
            (type_meta_data_lookup_lem 0x82) refl
            (fixed_eight 0x82 meta_data_double_ieee_754 t v refl h f hs.1) (omega arith))

  read_timestamp : (v : ℕ) → v < 2 ^ 64 → ReadBack (encode_timestamp v) s (λ w. w ≡ v)
  unfolding encode_timestamp encode_fixed_eight_byte run_decoder find_code
  read_timestamp v h =
      round_trip (encode_timestamp v) (0x83 ∷ bytes_64 v) s (λ w. w ≡ v) i
        (omega arith, bytes_64-IsByte v)
        (then_put-Wrote meta_data_timestamp_ms64 _ (bytes_64 v) s c z (λ x. refl)
          (omega (arith, r.0), r.1) (λ b. hton_64-append b v))
        (λ t f hs.
          scalar_read 0x83 meta_data_timestamp_ms64 t 8 _ (λ w. w ≡ v) (omega arith) hs.0
            (type_meta_data_lookup_lem 0x83) refl
            (fixed_eight 0x83 meta_data_timestamp_ms64 t v refl h f hs.1) (omega arith))

-- Each of these encoders and then `amqp_decode`, on a buffer with nothing left to read and room for nine
-- bytes, no container open, given the bits of a value of its width: neither fails, the new object is
-- valid and holds the value in that many low bits of its union, and all that was written has been read.
-- The next address is not null, and the capacity fits a `size_t`.
pub decode-encode_fixed :
    (v1 v2 v4 v8 : ℕ) (s : State)
    → v1 < 2 ^ 8
    → v2 < 2 ^ 16
    → v4 < 2 ^ 32
    → v8 < 2 ^ 64
    → s.container ≡ 0
    → 0 < s.next_type
    → HasRoom s 9
    → s.buffer.index ≡ s.buffer.size
    → ReadBack (encode_ubyte v1) s (λ w. w % 2 ^ 8 ≡ v1)
      × ReadBack (encode_byte v1) s (λ w. w % 2 ^ 8 ≡ v1)
      × ReadBack (encode_ushort v2) s (λ w. w % 2 ^ 16 ≡ v2)
      × ReadBack (encode_short v2) s (λ w. w % 2 ^ 16 ≡ v2)
      × ReadBack (encode_float v4) s (λ w. w % 2 ^ 32 ≡ v4)
      × ReadBack (encode_double v8) s (λ w. w ≡ v8)
      × ReadBack (encode_timestamp v8) s (λ w. w ≡ v8)
decode-encode_fixed v1 v2 v4 v8 s h1 h2 h4 h8 c z r i = (
  read_ubyte s c z r i v1 h1,
  read_byte s c z r i v1 h1,
  read_ushort s c z r i v2 h2,
  read_short s c z r i v2 h2,
  read_float s c z r i v4 h4,
  read_double s c z r i v8 h8,
  read_timestamp s c z r i v8 h8,
)
