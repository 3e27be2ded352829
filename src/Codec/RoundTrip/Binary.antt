-- ===== src/Codec/RoundTrip/Binary.antt =====
-- Binary data: `amqp_encode_binary` and the decoders of its two encodings.
use libamqp.Prelude.{ℕ, ◌+◌, ◌-◌, ◌^◌, ◌<◌, ◌≡◌, refl, List, arith, length, All}
use libamqp.Buffer.Bytes.{IsByte}
use libamqp.Codec.MetaData.Search.{find_code, type_meta_data_lookup_lem}
use libamqp.Codec.MetaData.Table.{meta_data_binary_vbin8, meta_data_binary_vbin32}
use libamqp.Codec.State.{State}
use libamqp.Codec.Decode.Run.{run_decoder}
use libamqp.Codec.Encode.Variable.{encode_binary, encode_binary_vbin8, encode_binary_vbin32}
use libamqp.Codec.RoundTrip.Sized.{IsEncoding, sized-Wrote}
use libamqp.Codec.RoundTrip.DataTrip.{DataBack, data_round_trip}

binary-IsEncoding : IsEncoding 0xA0 0xB0 meta_data_binary_vbin8 meta_data_binary_vbin32
unfolding find_code
binary-IsEncoding = record {
  same_8 = refl;
  same_32 = refl;
  width_8 = refl;
  width_32 = refl;
  scalar_8 = λ x. refl;
  scalar_32 = λ x. refl;
  found_8 = type_meta_data_lookup_lem 0xA0;
  found_32 = type_meta_data_lookup_lem 0xB0;
  valid_8 = refl;
  valid_32 = refl;
}

-- `amqp_encode_binary` of at least one byte and then `amqp_decode`, on a buffer with nothing left to
-- read and more room than the data takes in its longer encoding, no container open: neither fails, the
-- new object is valid, its position is where the same bytes lie, and everything that was written has
-- been read.
-- The data is of bytes, its length is below 2^32 - 1, and the capacity fits a `size_t`.
pub decode-encode_binary :
    (value : List ℕ) (s : State)
    → All IsByte value
    → 0 < length value
    → length value < 2 ^ 32 - 1
    → s.container ≡ 0
    → s.buffer.size + 5 + length value < s.buffer.capacity
    → s.buffer.capacity < 2 ^ 64
    → s.buffer.index ≡ s.buffer.size
    → DataBack (encode_binary value) s value
unfolding run_decoder encode_binary encode_binary_vbin8 encode_binary_vbin32
decode-encode_binary value s bytes some_data small c h z i =
    data_round_trip (encode_binary value) value s binary-IsEncoding (λ t k f hs e. e)
      (λ t k f hs e. e) (omega arith) (omega arith) bytes some_data small i
      (sized-Wrote binary-IsEncoding value s c (omega arith) h z)
