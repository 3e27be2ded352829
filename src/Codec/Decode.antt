-- ===== src/Codec/Decode.antt =====
-- The decoder of Codec/Decode/Decode.c. A decoder works on the object at `p`, and returns its `rc`.
pub mod Fixed
pub mod Variable
pub mod Compound
pub mod Run
pub mod Sound
