-- ===== src/Codec/RoundTrip/Long.antt =====
-- `long`: `amqp_encode_long` and the decoders of its two encodings. A signed number is given by
-- its bits, in two's complement.
use libamqp.Prelude.{
  ℕ, ◌+◌, ◌-◌, ◌%◌, ◌^◌, ◌≤◌, ◌<◌, ◌≡◌, refl, true, false, ◌||◌, List, [], ◌∷◌, ltb, leb, ◌==◌,
  if◌then◌else◌, arith, sym, All,
}
use mathlib.Core.Path.{subst}
use libamqp.Buffer.Bytes.{Holds, IsByte}
use libamqp.Buffer.Words.{bytes_64, bytes_64-IsByte, hton_64-append}
use libamqp.Codec.MetaData.{MetaData}
use libamqp.Codec.MetaData.Search.{find_code, type_meta_data_lookup_lem}
use libamqp.Codec.MetaData.Table.{meta_data_long_small_long, meta_data_long}
use libamqp.Codec.State.{State, M, ◌>>=◌, type_is_invalid, with_b1}
use libamqp.Codec.State.Hoare.{Returns}
use libamqp.Codec.Decode.Fixed.{fixed_width, small_long, sign_extend}
use libamqp.Codec.Decode.Run.{run_decoder, amqp_decode}
use libamqp.Codec.Encode.Fixed.{encode_fixed_eight_byte, encode_long, encode_small_long}
use libamqp.Codec.RoundTrip.Reading.{started}
use libamqp.Codec.RoundTrip.Storing.{then_store-Stored}
use libamqp.Codec.RoundTrip.Writing.{Wrote, HasRoom, then_put-Wrote}
use libamqp.Codec.RoundTrip.Scalar.{Got, scalar_read, round_trip}
use libamqp.Codec.RoundTrip.Words.{old_word, fixed_one, fixed_eight}
use libamqp.Codec.RoundTrip.Cases.{two_cases, Decodes, if_cases, one_byte-Wrote}

abbrev pub wire_long : ℕ → List ℕ
wire_long v =
    if ltb v (2 ^ 7) || leb (2 ^ 64 - 2 ^ 7) v then 0x55 ∷ v % 2 ^ 8 ∷ [] else 0x81 ∷ bytes_64 v

-- The source's test picks the numbers from -128 to 127.
fits_long :
    (v : ℕ)
    → v < 2 ^ 64
    → (v == sign_extend 64 (v % 2 ^ 8)) ≡ (ltb v (2 ^ 7) || leb (2 ^ 64 - 2 ^ 7) v)
fits_long v b = ground arith

encode_long-Wrote :
    (v : ℕ) (s : State)
    → v < 2 ^ 64
    → s.container ≡ 0
    → 0 < s.next_type
    → HasRoom s 9
    → Returns (encode_long v s) (Wrote s (wire_long v))
unfolding encode_long encode_small_long encode_fixed_eight_byte
encode_long-Wrote v s b c z h =
    subst
      (λ t.
        Returns ((if t then encode_small_long v else encode_fixed_eight_byte meta_data_long v) s)
          (Wrote s (wire_long v)))
      (sym (fits_long v b))
      (two_cases (ltb v (2 ^ 7) || leb (2 ^ 64 - 2 ^ 7) v)
        (λ (m : M ℕ) (l : List ℕ). Returns (m s) (Wrote s l))
        (one_byte-Wrote meta_data_long_small_long (v % 2 ^ 8) s c z (λ x. refl)
          (omega (arith, h.0), h.1))
        (then_put-Wrote meta_data_long _ (bytes_64 v) s c z (λ x. refl) h
          (λ x. hton_64-append x v)))

long_value :
    (v old : ℕ)
    → v < 2 ^ 64
    → (ltb v (2 ^ 7) || leb (2 ^ 64 - 2 ^ 7) v) ≡ true
    → sign_extend 64 (with_b1 old (v % 2 ^ 8) % 2 ^ 8) ≡ v
long_value v old b q = ground arith

small_long-Got :
    (v : ℕ) (s : State)
    → v < 2 ^ 64
    → (ltb v (2 ^ 7) || leb (2 ^ 64 - 2 ^ 7) v) ≡ true
    → s.buffer.index + 2 ≤ s.buffer.size
    → Holds s.buffer s.buffer.index (0x55 ∷ v % 2 ^ 8 ∷ [])
    → Returns (amqp_decode s) (Got s 2 (λ w. w ≡ v))
unfolding run_decoder small_long find_code
small_long-Got v s b q h (hc, hs) =
    let meta : MetaData = meta_data_long_small_long in
    scalar_read 0x55 meta s 1 _ (λ w. w ≡ v) (omega arith) hc (type_meta_data_lookup_lem 0x55) refl
      (then_store-Stored (fixed_width meta s.next_type) s.next_type 1 _
        (λ w. sign_extend 64 (w % 2 ^ 8)) (started meta 0x55 s)
        (fixed_one 0x55 meta s (v % 2 ^ 8) refl h hs))
      (long_value v (old_word 0x55 meta s) b q)

long-Got :
    (v : ℕ) (s : State)
    → v < 2 ^ 64
    → s.buffer.index + 9 ≤ s.buffer.size
    → Holds s.buffer s.buffer.index (0x81 ∷ bytes_64 v)
    → Returns (amqp_decode s) (Got s 9 (λ w. w ≡ v))
unfolding run_decoder find_code
long-Got v s b h (hc, hs) =
    scalar_read 0x81 meta_data_long s 8 _ (λ w. w ≡ v) (omega arith) hc
      (type_meta_data_lookup_lem 0x81) refl (fixed_eight 0x81 meta_data_long s v refl b h hs)
      (omega arith)

wire_long-Decodes : (v : ℕ) (s : State) → v < 2 ^ 64 → Decodes (wire_long v) (λ w. w ≡ v) s
wire_long-Decodes v s b =
    if_cases (ltb v (2 ^ 7) || leb (2 ^ 64 - 2 ^ 7) v) (λ l. Decodes l (λ w. w ≡ v) s)
      (λ q h hs. small_long-Got v s b q h hs) (λ _ h hs. long-Got v s b h hs)

wire_long-IsByte : (v : ℕ) → All IsByte (wire_long v)
wire_long-IsByte v =
    if_cases (ltb v (2 ^ 7) || leb (2 ^ 64 - 2 ^ 7) v) (All IsByte)
      (λ q. (omega arith, (omega arith, tt))) (λ _. (omega arith, bytes_64-IsByte v))

-- `amqp_encode_long` and then `amqp_decode`, on a buffer with nothing left to read and room for nine
-- bytes, no container open: neither fails, the new object is valid and its `int64_t` has the bits of
-- the number that was encoded, and everything that was written has been read.
-- The number has 64 bits, the next address is not null, and the capacity fits a `size_t`.
pub decode-encode_long :
    (v : ℕ) (s : State)
    → v < 2 ^ 64
    → s.container ≡ 0
    → 0 < s.next_type
    → HasRoom s 9
    → s.buffer.index ≡ s.buffer.size
    → Returns ((encode_long v >>= λ _. amqp_decode) s) (λ p t.
      ((t.types p).word ≡ v)
      × (type_is_invalid (t.types p) ≡ false)
      × (t.buffer.index ≡ t.buffer.size))
decode-encode_long v s b c z h i =
    round_trip (encode_long v) (wire_long v) s (λ w. w ≡ v) i (wire_long-IsByte v)
      (encode_long-Wrote v s b c z h) (λ t r hs. wire_long-Decodes v t b r hs)
