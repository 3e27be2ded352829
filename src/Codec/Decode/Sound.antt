-- ===== src/Codec/Decode/Sound.antt =====
-- What every decoder of Codec/Decode/Decode.c keeps to: it reads within the buffer, changes no older
-- object, and marks the object that it fails on.
pub mod Fixed
pub mod Variable
pub mod Constructor
pub mod Compound
pub mod Elements
pub mod Array
pub mod Described
pub mod Step
pub mod Dispatch
pub mod Run
