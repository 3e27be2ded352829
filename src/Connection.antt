-- ===== src/Connection.antt =====
-- The connection of Transport/Connection: its reader, and the frames that are read through it.
pub mod Reader
pub mod Frames
pub mod Writer
pub mod Negotiator
pub mod Negotiation
pub mod Transfer
pub mod Samples
