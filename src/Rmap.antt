-- ===== src/Rmap.antt =====
-- FEE/rmap.c
pub mod Crc
pub mod Packet
pub mod Header
pub mod Parse
pub mod RoundTrip
