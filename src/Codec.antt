-- ===== src/Codec.antt =====
-- The AMQP 1.0 type codec of Codec/.
pub mod Errors
pub mod Flags
pub mod MetaData
pub mod State
pub mod Cleanup
pub mod Decode
pub mod Encode
pub mod RoundTrip
pub mod Samples
mod Tests
