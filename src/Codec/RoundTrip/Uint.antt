-- ===== src/Codec/RoundTrip/Uint.antt =====
-- `uint`: `amqp_encode_uint` and the decoders of its three encodings.
use libamqp.Prelude.{
  ℕ, ◌+◌, ◌%◌, ◌^◌, ◌≤◌, ◌<◌, ◌≡◌, refl, false, List, [], ◌∷◌, ltb, ◌==◌, if◌then◌else◌, arith, All,
}
use mathlib.Core.Path.{subst}
use libamqp.Buffer.Bytes.{Holds, IsByte}
use libamqp.Buffer.Words.{bytes_32, bytes_32-IsByte, hton_32-append}
use libamqp.Codec.MetaData.{MetaData}
use libamqp.Codec.MetaData.Search.{find_code, type_meta_data_lookup_lem}
use libamqp.Codec.MetaData.Table.{meta_data_uint_uint0, meta_data_uint_small_uint, meta_data_uint}
use libamqp.Codec.State.{State, ◌>>=◌, type_is_invalid, with_b4}
use libamqp.Codec.State.Hoare.{Returns}
use libamqp.Codec.Decode.Fixed.{fixed_zero_width, fixed_width, uint0, small_uint}
use libamqp.Codec.Decode.Run.{run_decoder, amqp_decode}
use libamqp.Codec.Encode.Fixed.{
  encode_fixed_four_byte, encode_uint, encode_uint0, encode_small_uint,
}
use libamqp.Codec.RoundTrip.Reading.{started}
use libamqp.Codec.RoundTrip.Storing.{fixed_zero_width-Stored, then_store-Stored}
use libamqp.Codec.RoundTrip.Writing.{Wrote, HasRoom, encode_fixed-Wrote, then_put-Wrote}
use libamqp.Codec.RoundTrip.Scalar.{Got, scalar_read, round_trip}
use libamqp.Codec.RoundTrip.Words.{fixed_one, fixed_four}
use libamqp.Codec.RoundTrip.Cases.{choose-Wrote, Decodes, if_cases, byte_value, one_byte-Wrote}

-- The bytes of an unsigned integer on the wire.
abbrev pub wire_uint : ℕ → List ℕ
wire_uint v = if v == 0 then 0x43 ∷ [] else if ltb v 255 then 0x52 ∷ v ∷ [] else 0x70 ∷ bytes_32 v

encode_uint-Wrote :
    (v : ℕ) (s : State)
    → s.container ≡ 0
    → 0 < s.next_type
    → HasRoom s 5
    → Returns (encode_uint v s) (Wrote s (wire_uint v))
unfolding encode_uint encode_uint0 encode_small_uint encode_fixed_four_byte
encode_uint-Wrote v s c z h =
    choose-Wrote (v == 0) (ltb v 255) encode_uint0 (encode_small_uint v)
      (encode_fixed_four_byte meta_data_uint v) (0x43 ∷ []) (0x52 ∷ v ∷ []) (0x70 ∷ bytes_32 v) s
      (λ _. encode_fixed-Wrote meta_data_uint_uint0 s c (λ x. refl) (omega (arith, h.0), h.1))
      (λ _ r. byte_value v s 0x52 (encode_small_uint v) (ground arith) (
        one_byte-Wrote meta_data_uint_small_uint (v % 2 ^ 8) s c z (λ x. refl)
          (omega (arith, h.0), h.1)))
      (λ _ _.
        then_put-Wrote meta_data_uint _ (bytes_32 v) s c z (λ x. refl) h (λ b. hton_32-append b v))

uint0-Got :
    (s : State)
    → s.buffer.index < s.buffer.size
    → Holds s.buffer s.buffer.index (0x43 ∷ [])
    → Returns (amqp_decode s) (Got s 1 (λ w. w % 2 ^ 32 ≡ 0))
unfolding run_decoder uint0 find_code
uint0-Got s h hs =
    let meta : MetaData = meta_data_uint_uint0 in
    scalar_read 0x43 meta s 0 _ (λ w. w % 2 ^ 32 ≡ 0) h hs.0 (type_meta_data_lookup_lem 0x43) refl
      (then_store-Stored (fixed_zero_width s.next_type) s.next_type 0 _ (λ w. with_b4 w 0)
        (started meta 0x43 s) (fixed_zero_width-Stored s.next_type (started meta 0x43 s)))
      (omega arith)

small_uint-Got :
    (v : ℕ) (s : State)
    → v < 2 ^ 8
    → s.buffer.index + 2 ≤ s.buffer.size
    → Holds s.buffer s.buffer.index (0x52 ∷ v ∷ [])
    → Returns (amqp_decode s) (Got s 2 (λ w. w % 2 ^ 32 ≡ v))
unfolding run_decoder small_uint find_code
small_uint-Got v s b h (hc, hs) =
    let meta : MetaData = meta_data_uint_small_uint in
    scalar_read 0x52 meta s 1 _ (λ w. w % 2 ^ 32 ≡ v) (omega arith) hc
      (type_meta_data_lookup_lem 0x52) refl
      (then_store-Stored (fixed_width meta s.next_type) s.next_type 1 _ (λ w. with_b4 w (w % 2 ^ 8))
        (started meta 0x52 s) (fixed_one 0x52 meta s v refl h hs))
      (omega arith)

uint-Got :
    (v : ℕ) (s : State)
    → v < 2 ^ 32
    → s.buffer.index + 5 ≤ s.buffer.size
    → Holds s.buffer s.buffer.index (0x70 ∷ bytes_32 v)
    → Returns (amqp_decode s) (Got s 5 (λ w. w % 2 ^ 32 ≡ v))
unfolding run_decoder find_code
uint-Got v s b h (hc, hs) =
    scalar_read 0x70 meta_data_uint s 4 _ (λ w. w % 2 ^ 32 ≡ v) (omega arith) hc
      (type_meta_data_lookup_lem 0x70) refl (fixed_four 0x70 meta_data_uint s v refl b h hs)
      (omega arith)

wire_uint-Decodes : (v : ℕ) (s : State) → v < 2 ^ 32 → Decodes (wire_uint v) (λ w. w % 2 ^ 32 ≡ v) s
wire_uint-Decodes v s b =
    if_cases (v == 0) (λ l. Decodes l (λ w. w % 2 ^ 32 ≡ v) s)
      (λ q h hs.
        let e : 0 ≡ v = ground arith in
        subst (λ x. Returns (amqp_decode s) (Got s 1 (λ w. w % 2 ^ 32 ≡ x))) e
          (uint0-Got s (omega arith) hs))
      (λ _.
        if_cases (ltb v 255) (λ l. Decodes l (λ w. w % 2 ^ 32 ≡ v) s)
          (λ q h hs. small_uint-Got v s (ground arith) h hs) (λ _ h hs. uint-Got v s b h hs))

wire_uint-IsByte : (v : ℕ) → All IsByte (wire_uint v)
wire_uint-IsByte v =
    if_cases (v == 0) (All IsByte) (λ _. (omega arith, tt))
      (λ _.
        if_cases (ltb v 255) (All IsByte) (λ q. (omega arith, (ground arith, tt)))
          (λ _. (omega arith, bytes_32-IsByte v)))

-- `amqp_encode_uint` and then `amqp_decode`, on a buffer with nothing left to read and room for five
-- bytes, no container open: neither fails, the new object is valid and its `uint32_t` is the number
-- that was encoded, and everything that was written has been read.
-- The number has 32 bits, the next address is not null, and the capacity fits a `size_t`.
pub decode-encode_uint :
    (v : ℕ) (s : State)
    → v < 2 ^ 32
    → s.container ≡ 0
    → 0 < s.next_type
    → HasRoom s 5
    → s.buffer.index ≡ s.buffer.size
    → Returns ((encode_uint v >>= λ _. amqp_decode) s) (λ p t.
      ((t.types p).word % 2 ^ 32 ≡ v)
      × (type_is_invalid (t.types p) ≡ false)
      × (t.buffer.index ≡ t.buffer.size))
decode-encode_uint v s b c z h i =
    round_trip (encode_uint v) (wire_uint v) s (λ w. w % 2 ^ 32 ≡ v) i (wire_uint-IsByte v)
      (encode_uint-Wrote v s c z h) (λ t r hs. wire_uint-Decodes v t b r hs)
