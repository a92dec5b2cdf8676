-- ===== src/Raw.antt =====
-- The raw tables: src/raw.
pub mod Pairs
pub mod Tag
pub mod Bitmask
pub mod Group
pub mod Overflow
pub mod Layout
pub mod Probe
pub mod Run
pub mod Key
pub mod Api
pub mod Table
pub mod Transfer
