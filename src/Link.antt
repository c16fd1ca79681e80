-- ===== src/Link.antt =====
-- FEE/smile_fee_rmap.c
pub mod Log
pub mod State
pub mod Receive
pub mod Command
pub mod Submit
pub mod Package
pub mod Reach
pub mod Registers
