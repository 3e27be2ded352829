-- ===== src/Codec/RoundTrip.antt =====
-- What the encoder of Codec/Encode/Encode.c writes is what the decoder of Codec/Decode/Decode.c reads.
pub mod Reading
pub mod Storing
pub mod Writing
pub mod Scalar
pub mod Words
pub mod Cases
pub mod Uint
pub mod Ulong
pub mod Int
pub mod Long
pub mod Variable
pub mod Data
pub mod Sized
pub mod DataTrip
pub mod Binary
pub mod FixedWidth
pub mod Integers
pub mod Boolean
pub mod PastEnd
pub mod Text
