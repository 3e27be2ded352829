-- ===== src/Codec/RoundTrip/Int.antt =====
-- `int`: `amqp_encode_int` and the decoders of its two encodings. A signed number is given by
-- its bits, in two's complement.
use libamqp.Prelude.{
  ℕ, ◌+◌, ◌-◌, ◌%◌, ◌^◌, ◌≤◌, ◌<◌, ◌≡◌, refl, true, false, ◌||◌, List, [], ◌∷◌, ltb, leb, ◌==◌,
  if◌then◌else◌, arith, sym, All,
}
use mathlib.Core.Path.{subst}
use libamqp.Buffer.Bytes.{Holds, IsByte}
use libamqp.Buffer.Words.{bytes_32, bytes_32-IsByte, hton_32-append}
use libamqp.Codec.MetaData.{MetaData}
use libamqp.Codec.MetaData.Search.{find_code, type_meta_data_lookup_lem}
use libamqp.Codec.MetaData.Table.{meta_data_int_small_int, meta_data_int}
use libamqp.Codec.State.{State, M, ◌>>=◌, type_is_invalid, with_b1, with_b4}
use libamqp.Codec.State.Hoare.{Returns}
use libamqp.Codec.Decode.Fixed.{fixed_width, small_int, sign_extend}
use libamqp.Codec.Decode.Run.{run_decoder, amqp_decode}
use libamqp.Codec.Encode.Fixed.{encode_fixed_four_byte, encode_int, encode_small_int}
use libamqp.Codec.RoundTrip.Reading.{started}
use libamqp.Codec.RoundTrip.Storing.{then_store-Stored}
use libamqp.Codec.RoundTrip.Writing.{Wrote, HasRoom, then_put-Wrote}
use libamqp.Codec.RoundTrip.Scalar.{Got, scalar_read, round_trip}
use libamqp.Codec.RoundTrip.Words.{old_word, fixed_one, fixed_four}
use libamqp.Codec.RoundTrip.Cases.{two_cases, Decodes, if_cases, one_byte-Wrote}

-- The bytes of a signed integer on the wire: one byte from -128 to 127.
abbrev pub wire_int : ℕ → List ℕ
wire_int v =
    if ltb v (2 ^ 7) || leb (2 ^ 32 - 2 ^ 7) v then 0x54 ∷ v % 2 ^ 8 ∷ [] else 0x71 ∷ bytes_32 v

-- The source's test picks the numbers from -128 to 127.
fits_int :
    (v : ℕ)
    → v < 2 ^ 32
    → (v == sign_extend 32 (v % 2 ^ 8)) ≡ (ltb v (2 ^ 7) || leb (2 ^ 32 - 2 ^ 7) v)
fits_int v b = ground arith

encode_int-Wrote :
    (v : ℕ) (s : State)
    → v < 2 ^ 32
    → s.container ≡ 0
    → 0 < s.next_type
    → HasRoom s 5
    → Returns (encode_int v s) (Wrote s (wire_int v))
unfolding encode_int encode_small_int encode_fixed_four_byte
encode_int-Wrote v s b c z h =
    subst
      (λ t.
        Returns ((if t then encode_small_int v else encode_fixed_four_byte meta_data_int v) s)
          (Wrote s (wire_int v)))
      (sym (fits_int v b))
      (two_cases (ltb v (2 ^ 7) || leb (2 ^ 32 - 2 ^ 7) v)
        (λ (m : M ℕ) (l : List ℕ). Returns (m s) (Wrote s l))
        (one_byte-Wrote meta_data_int_small_int (v % 2 ^ 8) s c z (λ x. refl)
          (omega (arith, h.0), h.1))
        (then_put-Wrote meta_data_int _ (bytes_32 v) s c z (λ x. refl) h (λ x. hton_32-append x v)))

int_value :
    (v old : ℕ)
    → v < 2 ^ 32
    → (ltb v (2 ^ 7) || leb (2 ^ 32 - 2 ^ 7) v) ≡ true
    → with_b4 (with_b1 old (v % 2 ^ 8)) (sign_extend 32 (with_b1 old (v % 2 ^ 8) % 2 ^ 8)) % 2 ^ 32
      ≡ v
int_value v old b q = ground arith

small_int-Got :
    (v : ℕ) (s : State)
    → v < 2 ^ 32
    → (ltb v (2 ^ 7) || leb (2 ^ 32 - 2 ^ 7) v) ≡ true
    → s.buffer.index + 2 ≤ s.buffer.size
    → Holds s.buffer s.buffer.index (0x54 ∷ v % 2 ^ 8 ∷ [])
    → Returns (amqp_decode s) (Got s 2 (λ w. w % 2 ^ 32 ≡ v))
unfolding run_decoder small_int find_code
small_int-Got v s b q h (hc, hs) =
    let meta : MetaData = meta_data_int_small_int in
    scalar_read 0x54 meta s 1 _ (λ w. w % 2 ^ 32 ≡ v) (omega arith) hc
      (type_meta_data_lookup_lem 0x54) refl
      (then_store-Stored (fixed_width meta s.next_type) s.next_type 1 _
        (λ w. with_b4 w (sign_extend 32 (w % 2 ^ 8))) (started meta 0x54 s)
        (fixed_one 0x54 meta s (v % 2 ^ 8) refl h hs))
      (int_value v (old_word 0x54 meta s) b q)

int-Got :
    (v : ℕ) (s : State)
    → v < 2 ^ 32
    → s.buffer.index + 5 ≤ s.buffer.size
    → Holds s.buffer s.buffer.index (0x71 ∷ bytes_32 v)
    → Returns (amqp_decode s) (Got s 5 (λ w. w % 2 ^ 32 ≡ v))
unfolding run_decoder find_code
int-Got v s b h (hc, hs) =
    scalar_read 0x71 meta_data_int s 4 _ (λ w. w % 2 ^ 32 ≡ v) (omega arith) hc
      (type_meta_data_lookup_lem 0x71) refl (fixed_four 0x71 meta_data_int s v refl b h hs)
      (omega arith)

wire_int-Decodes : (v : ℕ) (s : State) → v < 2 ^ 32 → Decodes (wire_int v) (λ w. w % 2 ^ 32 ≡ v) s
wire_int-Decodes v s b =
    if_cases (ltb v (2 ^ 7) || leb (2 ^ 32 - 2 ^ 7) v) (λ l. Decodes l (λ w. w % 2 ^ 32 ≡ v) s)
      (λ q h hs. small_int-Got v s b q h hs) (λ _ h hs. int-Got v s b h hs)

wire_int-IsByte : (v : ℕ) → All IsByte (wire_int v)
wire_int-IsByte v =
    if_cases (ltb v (2 ^ 7) || leb (2 ^ 32 - 2 ^ 7) v) (All IsByte)
      (λ q. (omega arith, (omega arith, tt))) (λ _. (omega arith, bytes_32-IsByte v))

-- `amqp_encode_int` and then `amqp_decode`, on a buffer with nothing left to read and room for five
-- bytes, no container open: neither fails, the new object is valid and its `int32_t` has the bits of
-- the number that was encoded, and everything that was written has been read.
-- The number has 32 bits, the next address is not null, and the capacity fits a `size_t`.
pub decode-encode_int :
    (v : ℕ) (s : State)
    → v < 2 ^ 32
    → s.container ≡ 0
    → 0 < s.next_type
    → HasRoom s 5
    → s.buffer.index ≡ s.buffer.size
    → Returns ((encode_int v >>= λ _. amqp_decode) s) (λ p t.
      ((t.types p).word % 2 ^ 32 ≡ v)
      × (type_is_invalid (t.types p) ≡ false)
      × (t.buffer.index ≡ t.buffer.size))
decode-encode_int v s b c z h i =
    round_trip (encode_int v) (wire_int v) s (λ w. w % 2 ^ 32 ≡ v) i (wire_int-IsByte v)
      (encode_int-Wrote v s b c z h) (λ t r hs. wire_int-Decodes v t b r hs)
