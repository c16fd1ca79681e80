-- ===== src/Link/Registers.antt =====
-- The public commands of FEE/smile_fee_cmd.c: for an arbitrary address, and one for each register.
pub mod Addresses
pub mod CfgReads
pub mod HkReads
pub mod CfgWrites
use smile_fee.Base.{ℕ}
use smile_fee.Link.Command.{GenAllocs, CmdGen, fee_read_cmd_register_internal}
use smile_fee.Link.Command.{fee_write_cmd_register_internal, fee_write_cmd_data_internal}
use smile_fee.Link.Command.{fee_read_cmd_data_internal}

unfoldable pub fee_read_cmd_register : GenAllocs → ℕ → CmdGen
fee_read_cmd_register a addr = fee_read_cmd_register_internal a addr

unfoldable pub fee_write_cmd_register : GenAllocs → ℕ → CmdGen
fee_write_cmd_register a addr = fee_write_cmd_register_internal a addr

unfoldable pub fee_write_cmd_data : GenAllocs → ℕ → ℕ → CmdGen
fee_write_cmd_data a addr size = fee_write_cmd_data_internal a addr size

unfoldable pub fee_read_cmd_data : GenAllocs → ℕ → ℕ → CmdGen
fee_read_cmd_data a addr size = fee_read_cmd_data_internal a addr size
