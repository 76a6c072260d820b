-- ===== src/Tests.antt =====
-- The theorems at concrete inputs, one file for each program.
pub mod Packets
pub mod Protocol
pub mod Agg
pub mod Tables
pub mod Paramserver
pub mod Xdp
pub mod Cpus
pub mod Worker
pub mod Frames
pub mod Fuzz
