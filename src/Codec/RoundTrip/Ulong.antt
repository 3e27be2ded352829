-- ===== src/Codec/RoundTrip/Ulong.antt =====
-- `ulong`: `amqp_encode_ulong` and the decoders of its three encodings.
use libamqp.Prelude.{
  ℕ, ◌+◌, ◌%◌, ◌^◌, ◌≤◌, ◌<◌, ◌≡◌, refl, false, List, [], ◌∷◌, ltb, ◌==◌, if◌then◌else◌, arith, All,
}
use mathlib.Core.Path.{subst}
use libamqp.Buffer.Bytes.{Holds, IsByte}
use libamqp.Buffer.Words.{bytes_64, bytes_64-IsByte, hton_64-append}
use libamqp.Codec.MetaData.{MetaData}
use libamqp.Codec.MetaData.Search.{find_code, type_meta_data_lookup_lem}
use libamqp.Codec.MetaData.Table.{
  meta_data_ulong_ulong0, meta_data_ulong_small_ulong, meta_data_ulong,
}
use libamqp.Codec.State.{State, ◌>>=◌, type_is_invalid}
use libamqp.Codec.State.Hoare.{Returns}
use libamqp.Codec.Decode.Fixed.{fixed_zero_width, fixed_width, ulong0, small_ulong}
use libamqp.Codec.Decode.Run.{run_decoder, amqp_decode}
use libamqp.Codec.Encode.Fixed.{
  encode_fixed_eight_byte, encode_ulong, encode_ulong0, encode_small_ulong,
}
use libamqp.Codec.RoundTrip.Reading.{started}
use libamqp.Codec.RoundTrip.Storing.{fixed_zero_width-Stored, then_store-Stored}
use libamqp.Codec.RoundTrip.Writing.{Wrote, HasRoom, encode_fixed-Wrote, then_put-Wrote}
use libamqp.Codec.RoundTrip.Scalar.{Got, scalar_read, round_trip}
use libamqp.Codec.RoundTrip.Words.{fixed_one, fixed_eight}
use libamqp.Codec.RoundTrip.Cases.{choose-Wrote, Decodes, if_cases, byte_value, one_byte-Wrote}

-- The bytes of an unsigned integer on the wire.
abbrev pub wire_ulong : ℕ → List ℕ
wire_ulong v = if v == 0 then 0x44 ∷ [] else if ltb v 255 then 0x53 ∷ v ∷ [] else 0x80 ∷ bytes_64 v

encode_ulong-Wrote :
    (v : ℕ) (s : State)
    → s.container ≡ 0
    → 0 < s.next_type
    → HasRoom s 9
    → Returns (encode_ulong v s) (Wrote s (wire_ulong v))
unfolding encode_ulong encode_ulong0 encode_small_ulong encode_fixed_eight_byte
encode_ulong-Wrote v s c z h =
    choose-Wrote (v == 0) (ltb v 255) encode_ulong0 (encode_small_ulong v)
      (encode_fixed_eight_byte meta_data_ulong v) (0x44 ∷ []) (0x53 ∷ v ∷ []) (0x80 ∷ bytes_64 v) s
      (λ _. encode_fixed-Wrote meta_data_ulong_ulong0 s c (λ x. refl) (omega (arith, h.0), h.1))
      (λ _ r. byte_value v s 0x53 (encode_small_ulong v) (ground arith) (
        one_byte-Wrote meta_data_ulong_small_ulong (v % 2 ^ 8) s c z (λ x. refl)
          (omega (arith, h.0), h.1)))
      (λ _ _.
        then_put-Wrote meta_data_ulong _ (bytes_64 v) s c z (λ x. refl) h (λ b. hton_64-append b v))

ulong0-Got :
    (s : State)
    → s.buffer.index < s.buffer.size
    → Holds s.buffer s.buffer.index (0x44 ∷ [])
    → Returns (amqp_decode s) (Got s 1 (λ w. w ≡ 0))
unfolding run_decoder ulong0 find_code
ulong0-Got s h hs =
    let meta : MetaData = meta_data_ulong_ulong0 in
    scalar_read 0x44 meta s 0 _ (λ w. w ≡ 0) h hs.0 (type_meta_data_lookup_lem 0x44) refl
      (then_store-Stored (fixed_zero_width s.next_type) s.next_type 0 _ (λ w. 0)
        (started meta 0x44 s) (fixed_zero_width-Stored s.next_type (started meta 0x44 s)))
      (omega arith)

small_ulong-Got :
    (v : ℕ) (s : State)
    → v < 2 ^ 8
    → s.buffer.index + 2 ≤ s.buffer.size
    → Holds s.buffer s.buffer.index (0x53 ∷ v ∷ [])
    → Returns (amqp_decode s) (Got s 2 (λ w. w ≡ v))
unfolding run_decoder small_ulong find_code
small_ulong-Got v s b h (hc, hs) =
    let meta : MetaData = meta_data_ulong_small_ulong in
    scalar_read 0x53 meta s 1 _ (λ w. w ≡ v) (omega arith) hc (type_meta_data_lookup_lem 0x53) refl
      (then_store-Stored (fixed_width meta s.next_type) s.next_type 1 _ (λ w. w % 2 ^ 8)
        (started meta 0x53 s) (fixed_one 0x53 meta s v refl h hs))
      (omega arith)

ulong-Got :
    (v : ℕ) (s : State)
    → v < 2 ^ 64
    → s.buffer.index + 9 ≤ s.buffer.size
    → Holds s.buffer s.buffer.index (0x80 ∷ bytes_64 v)
    → Returns (amqp_decode s) (Got s 9 (λ w. w ≡ v))
unfolding run_decoder find_code
ulong-Got v s b h (hc, hs) =
    scalar_read 0x80 meta_data_ulong s 8 _ (λ w. w ≡ v) (omega arith) hc
      (type_meta_data_lookup_lem 0x80) refl (fixed_eight 0x80 meta_data_ulong s v refl b h hs)
      (omega arith)

wire_ulong-Decodes : (v : ℕ) (s : State) → v < 2 ^ 64 → Decodes (wire_ulong v) (λ w. w ≡ v) s
wire_ulong-Decodes v s b =
    if_cases (v == 0) (λ l. Decodes l (λ w. w ≡ v) s)
      (λ q h hs.
        let e : 0 ≡ v = ground arith in
        subst (λ x. Returns (amqp_decode s) (Got s 1 (λ w. w ≡ x))) e
          (ulong0-Got s (omega arith) hs))
      (λ _.
        if_cases (ltb v 255) (λ l. Decodes l (λ w. w ≡ v) s)
          (λ q h hs. small_ulong-Got v s (ground arith) h hs) (λ _ h hs. ulong-Got v s b h hs))

wire_ulong-IsByte : (v : ℕ) → All IsByte (wire_ulong v)
wire_ulong-IsByte v =
    if_cases (v == 0) (All IsByte) (λ _. (omega arith, tt))
      (λ _.
        if_cases (ltb v 255) (All IsByte) (λ q. (omega arith, (ground arith, tt)))
          (λ _. (omega arith, bytes_64-IsByte v)))

-- `amqp_encode_ulong` and then `amqp_decode`, on a buffer with nothing left to read and room for nine
-- bytes, no container open: neither fails, the new object is valid and its `uint64_t` is the number
-- that was encoded, and everything that was written has been read.
-- The number has 64 bits, the next address is not null, and the capacity fits a `size_t`.
pub decode-encode_ulong :
    (v : ℕ) (s : State)
    → v < 2 ^ 64
    → s.container ≡ 0
    → 0 < s.next_type
    → HasRoom s 9
    → s.buffer.index ≡ s.buffer.size
    → Returns ((encode_ulong v >>= λ _. amqp_decode) s) (λ p t.
      ((t.types p).word ≡ v)
      × (type_is_invalid (t.types p) ≡ false)
      × (t.buffer.index ≡ t.buffer.size))
decode-encode_ulong v s b c z h i =
    round_trip (encode_ulong v) (wire_ulong v) s (λ w. w ≡ v) i (wire_ulong-IsByte v)
      (encode_ulong-Wrote v s c z h) (λ t r hs. wire_ulong-Decodes v t b r hs)
