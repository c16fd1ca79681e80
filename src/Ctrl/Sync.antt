-- ===== src/Ctrl/Sync.antt =====
-- Exchanging the mirror of FEE/smile_fee_ctrl.c with the FEE, register by register.
pub mod Registers
pub mod Values
pub mod Table
pub mod Exchange
pub mod Housekeeping
