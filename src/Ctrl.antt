-- ===== src/Ctrl.antt =====
-- The local mirror of the FEE's registers and memory: FEE/smile_fee_ctrl.c and FEE/byteorder.h.
pub mod Swap
pub mod Mirror
pub mod Field
pub mod CfgReadout
pub mod CfgImage
pub mod CfgDetector
pub mod HkTemperatures
pub mod HkVoltages
pub mod HkLink
pub mod HkErrors
pub mod Table
pub mod Cells
pub mod Readback
pub mod Sync
pub mod Sram
