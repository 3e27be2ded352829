-- ===== src/Codec/RoundTrip/Integers.antt =====
-- The integers that have a shorter encoding for small values.
use libamqp.Prelude.{ℕ, ◌%◌, ◌^◌, ◌<◌, ◌≡◌, arith}
use libamqp.Codec.State.{State}
use libamqp.Codec.Encode.Fixed.{encode_uint, encode_ulong, encode_int, encode_long}
use libamqp.Codec.RoundTrip.Writing.{HasRoom}
use libamqp.Codec.RoundTrip.FixedWidth.{ReadBack}
use libamqp.Codec.RoundTrip.Uint.{decode-encode_uint}
use libamqp.Codec.RoundTrip.Ulong.{decode-encode_ulong}
use libamqp.Codec.RoundTrip.Int.{decode-encode_int}
use libamqp.Codec.RoundTrip.Long.{decode-encode_long}

-- Each of these encoders and then `amqp_decode`, on a buffer with nothing left to read and room for nine
-- bytes, no container open, given the bits of a number of its width: neither fails, the new object is
-- valid and holds the number in that many low bits of its union, and all that was written has been read,
-- whichever encoding was chosen. The next address is not null, and the capacity fits a `size_t`.
pub decode-encode_integer :
    (v4 v8 : ℕ) (s : State)
    → v4 < 2 ^ 32
    → v8 < 2 ^ 64
    → s.container ≡ 0
    → 0 < s.next_type
    → HasRoom s 9
    → s.buffer.index ≡ s.buffer.size
    → ReadBack (encode_uint v4) s (λ w. w % 2 ^ 32 ≡ v4)
      × ReadBack (encode_int v4) s (λ w. w % 2 ^ 32 ≡ v4)
      × ReadBack (encode_ulong v8) s (λ w. w ≡ v8)
      × ReadBack (encode_long v8) s (λ w. w ≡ v8)
decode-encode_integer v4 v8 s h4 h8 c z r i = (
  decode-encode_uint v4 s h4 c z (omega (arith, r.0), r.1) i,
  decode-encode_int v4 s h4 c z (omega (arith, r.0), r.1) i,
  decode-encode_ulong v8 s h8 c z r i,
  decode-encode_long v8 s h8 c z r i,
)
