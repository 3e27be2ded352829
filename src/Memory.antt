-- ===== src/Memory.antt =====
-- The pools of objects of one size, Memory/Pool.c: the map of free places in a block, and the pools.
pub mod Mask
pub mod Pool
