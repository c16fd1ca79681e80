-- ===== src/Fee.antt =====
-- FEE/smile_fee.c and FEE/smile_fee.h: the data packets of the FEE.
pub mod Packet
pub mod Event
pub mod Create
pub mod Full
pub mod Transfer
