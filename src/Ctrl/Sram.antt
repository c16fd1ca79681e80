-- ===== src/Ctrl/Sram.antt =====
-- The mirror of the FEE's SRAM, FEE/smile_fee_ctrl.c: reading and writing it, and its exchange with
-- the FEE in pieces.
pub mod Local
pub mod Transfer
pub mod Termination
pub mod Pieces
pub mod Sending
pub mod Endless
pub mod Bytes
pub mod Laws
