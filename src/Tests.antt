-- ===== src/Tests.antt =====
-- Concrete inputs on which the theorems on FEE/rmap.c, FEE/smile_fee_rmap.c and the other sources
-- are applied.
pub mod Packets
pub mod RmapTests
pub mod LinkTests
pub mod GresbTests
pub mod FeeTests
pub mod CtrlTests
