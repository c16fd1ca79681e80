-- ===== src/Ctrl/Sync/Registers.antt =====
-- The functions of FEE/smile_fee_ctrl.c that exchange one configuration register with the FEE.
use smile_fee.Base.{ℕ, ◌+◌, Option, some, Bool, ℤ, negsuc}
use smile_fee.Link.State.{Link}
use smile_fee.Link.Command.{GenAllocs}
use smile_fee.Link.Submit.{smile_fee_sync}
use smile_fee.Link.Registers.Addresses.{
  cfg_reg_0, cfg_reg_1, cfg_reg_2, cfg_reg_3, cfg_reg_4, cfg_reg_5, cfg_reg_6,
}
use smile_fee.Link.Registers.Addresses.{
  cfg_reg_7, cfg_reg_8, cfg_reg_9, cfg_reg_14, cfg_reg_15, cfg_reg_16, cfg_reg_17,
}
use smile_fee.Link.Registers.Addresses.{
  cfg_reg_18, cfg_reg_19, cfg_reg_20, cfg_reg_21, cfg_reg_22, cfg_reg_23, cfg_reg_24,
}
use smile_fee.Link.Registers.Addresses.{cfg_reg_25}
use smile_fee.Link.Registers.CfgReads.{
  fee_read_cmd_cfg_reg_0, fee_read_cmd_cfg_reg_1, fee_read_cmd_cfg_reg_2, fee_read_cmd_cfg_reg_3,
  fee_read_cmd_cfg_reg_4, fee_read_cmd_cfg_reg_5, fee_read_cmd_cfg_reg_6,
}
use smile_fee.Link.Registers.CfgReads.{
  fee_read_cmd_cfg_reg_7, fee_read_cmd_cfg_reg_8, fee_read_cmd_cfg_reg_9, fee_read_cmd_cfg_reg_14,
  fee_read_cmd_cfg_reg_15, fee_read_cmd_cfg_reg_16, fee_read_cmd_cfg_reg_17,
}
use smile_fee.Link.Registers.CfgReads.{
  fee_read_cmd_cfg_reg_18, fee_read_cmd_cfg_reg_19, fee_read_cmd_cfg_reg_20,
  fee_read_cmd_cfg_reg_21, fee_read_cmd_cfg_reg_22, fee_read_cmd_cfg_reg_23,
  fee_read_cmd_cfg_reg_24,
}
use smile_fee.Link.Registers.CfgReads.{fee_read_cmd_cfg_reg_25}
use smile_fee.Link.Registers.CfgWrites.{
  fee_write_cmd_cfg_reg_0, fee_write_cmd_cfg_reg_1, fee_write_cmd_cfg_reg_2,
  fee_write_cmd_cfg_reg_3, fee_write_cmd_cfg_reg_4, fee_write_cmd_cfg_reg_5,
  fee_write_cmd_cfg_reg_6,
}
use smile_fee.Link.Registers.CfgWrites.{
  fee_write_cmd_cfg_reg_7, fee_write_cmd_cfg_reg_8, fee_write_cmd_cfg_reg_9,
  fee_write_cmd_cfg_reg_14, fee_write_cmd_cfg_reg_15, fee_write_cmd_cfg_reg_16,
  fee_write_cmd_cfg_reg_17,
}
use smile_fee.Link.Registers.CfgWrites.{
  fee_write_cmd_cfg_reg_18, fee_write_cmd_cfg_reg_19, fee_write_cmd_cfg_reg_20,
  fee_write_cmd_cfg_reg_21, fee_write_cmd_cfg_reg_22, fee_write_cmd_cfg_reg_23,
  fee_write_cmd_cfg_reg_24,
}
use smile_fee.Link.Registers.CfgWrites.{fee_write_cmd_cfg_reg_25}

-- A caller: which allocations of a call succeed, and where its mirror lies in memory. The mirror
-- has a register at the register's address behind that place.
pub record Caller : Type 0 where
  pub allocs : GenAllocs
  pub malloc_ok : Bool
  pub mirror : ℕ

-- `enum sync_direction`; an `int` may have another value.
pub data SyncDirection : Type 0 where
  fee2dpu dpu2fee : SyncDirection
  other : ℤ → SyncDirection

abbrev pub smile_fee_sync_cfg_reg_0 : Caller → SyncDirection → Link → Option ℤ × Link
smile_fee_sync_cfg_reg_0 c fee2dpu s =
    smile_fee_sync (fee_read_cmd_cfg_reg_0 c.allocs) c.malloc_ok (c.mirror + cfg_reg_0) 0 s
smile_fee_sync_cfg_reg_0 c dpu2fee s =
    smile_fee_sync (fee_write_cmd_cfg_reg_0 c.allocs) c.malloc_ok (c.mirror + cfg_reg_0) 4 s
smile_fee_sync_cfg_reg_0 c (other d) s = (some (negsuc 0), s)

abbrev pub smile_fee_sync_cfg_reg_1 : Caller → SyncDirection → Link → Option ℤ × Link
smile_fee_sync_cfg_reg_1 c fee2dpu s =
    smile_fee_sync (fee_read_cmd_cfg_reg_1 c.allocs) c.malloc_ok (c.mirror + cfg_reg_1) 0 s
smile_fee_sync_cfg_reg_1 c dpu2fee s =
    smile_fee_sync (fee_write_cmd_cfg_reg_1 c.allocs) c.malloc_ok (c.mirror + cfg_reg_1) 4 s
smile_fee_sync_cfg_reg_1 c (other d) s = (some (negsuc 0), s)

abbrev pub smile_fee_sync_cfg_reg_2 : Caller → SyncDirection → Link → Option ℤ × Link
smile_fee_sync_cfg_reg_2 c fee2dpu s =
    smile_fee_sync (fee_read_cmd_cfg_reg_2 c.allocs) c.malloc_ok (c.mirror + cfg_reg_2) 0 s
smile_fee_sync_cfg_reg_2 c dpu2fee s =
    smile_fee_sync (fee_write_cmd_cfg_reg_2 c.allocs) c.malloc_ok (c.mirror + cfg_reg_2) 4 s
smile_fee_sync_cfg_reg_2 c (other d) s = (some (negsuc 0), s)

abbrev pub smile_fee_sync_cfg_reg_3 : Caller → SyncDirection → Link → Option ℤ × Link
smile_fee_sync_cfg_reg_3 c fee2dpu s =
    smile_fee_sync (fee_read_cmd_cfg_reg_3 c.allocs) c.malloc_ok (c.mirror + cfg_reg_3) 0 s
smile_fee_sync_cfg_reg_3 c dpu2fee s =
    smile_fee_sync (fee_write_cmd_cfg_reg_3 c.allocs) c.malloc_ok (c.mirror + cfg_reg_3) 4 s
smile_fee_sync_cfg_reg_3 c (other d) s = (some (negsuc 0), s)

abbrev pub smile_fee_sync_cfg_reg_4 : Caller → SyncDirection → Link → Option ℤ × Link
smile_fee_sync_cfg_reg_4 c fee2dpu s =
    smile_fee_sync (fee_read_cmd_cfg_reg_4 c.allocs) c.malloc_ok (c.mirror + cfg_reg_4) 0 s
smile_fee_sync_cfg_reg_4 c dpu2fee s =
    smile_fee_sync (fee_write_cmd_cfg_reg_4 c.allocs) c.malloc_ok (c.mirror + cfg_reg_4) 4 s
smile_fee_sync_cfg_reg_4 c (other d) s = (some (negsuc 0), s)

abbrev pub smile_fee_sync_cfg_reg_5 : Caller → SyncDirection → Link → Option ℤ × Link
smile_fee_sync_cfg_reg_5 c fee2dpu s =
    smile_fee_sync (fee_read_cmd_cfg_reg_5 c.allocs) c.malloc_ok (c.mirror + cfg_reg_5) 0 s
smile_fee_sync_cfg_reg_5 c dpu2fee s =
    smile_fee_sync (fee_write_cmd_cfg_reg_5 c.allocs) c.malloc_ok (c.mirror + cfg_reg_5) 4 s
smile_fee_sync_cfg_reg_5 c (other d) s = (some (negsuc 0), s)

abbrev pub smile_fee_sync_cfg_reg_6 : Caller → SyncDirection → Link → Option ℤ × Link
smile_fee_sync_cfg_reg_6 c fee2dpu s =
    smile_fee_sync (fee_read_cmd_cfg_reg_6 c.allocs) c.malloc_ok (c.mirror + cfg_reg_6) 0 s
smile_fee_sync_cfg_reg_6 c dpu2fee s =
    smile_fee_sync (fee_write_cmd_cfg_reg_6 c.allocs) c.malloc_ok (c.mirror + cfg_reg_6) 4 s
smile_fee_sync_cfg_reg_6 c (other d) s = (some (negsuc 0), s)

abbrev pub smile_fee_sync_cfg_reg_7 : Caller → SyncDirection → Link → Option ℤ × Link
smile_fee_sync_cfg_reg_7 c fee2dpu s =
    smile_fee_sync (fee_read_cmd_cfg_reg_7 c.allocs) c.malloc_ok (c.mirror + cfg_reg_7) 0 s
smile_fee_sync_cfg_reg_7 c dpu2fee s =
    smile_fee_sync (fee_write_cmd_cfg_reg_7 c.allocs) c.malloc_ok (c.mirror + cfg_reg_7) 4 s
smile_fee_sync_cfg_reg_7 c (other d) s = (some (negsuc 0), s)

abbrev pub smile_fee_sync_cfg_reg_8 : Caller → SyncDirection → Link → Option ℤ × Link
smile_fee_sync_cfg_reg_8 c fee2dpu s =
    smile_fee_sync (fee_read_cmd_cfg_reg_8 c.allocs) c.malloc_ok (c.mirror + cfg_reg_8) 0 s
smile_fee_sync_cfg_reg_8 c dpu2fee s =
    smile_fee_sync (fee_write_cmd_cfg_reg_8 c.allocs) c.malloc_ok (c.mirror + cfg_reg_8) 4 s
smile_fee_sync_cfg_reg_8 c (other d) s = (some (negsuc 0), s)

abbrev pub smile_fee_sync_cfg_reg_9 : Caller → SyncDirection → Link → Option ℤ × Link
smile_fee_sync_cfg_reg_9 c fee2dpu s =
    smile_fee_sync (fee_read_cmd_cfg_reg_9 c.allocs) c.malloc_ok (c.mirror + cfg_reg_9) 0 s
smile_fee_sync_cfg_reg_9 c dpu2fee s =
    smile_fee_sync (fee_write_cmd_cfg_reg_9 c.allocs) c.malloc_ok (c.mirror + cfg_reg_9) 4 s
smile_fee_sync_cfg_reg_9 c (other d) s = (some (negsuc 0), s)

abbrev pub smile_fee_sync_cfg_reg_14 : Caller → SyncDirection → Link → Option ℤ × Link
smile_fee_sync_cfg_reg_14 c fee2dpu s =
    smile_fee_sync (fee_read_cmd_cfg_reg_14 c.allocs) c.malloc_ok (c.mirror + cfg_reg_14) 0 s
smile_fee_sync_cfg_reg_14 c dpu2fee s =
    smile_fee_sync (fee_write_cmd_cfg_reg_14 c.allocs) c.malloc_ok (c.mirror + cfg_reg_14) 4 s
smile_fee_sync_cfg_reg_14 c (other d) s = (some (negsuc 0), s)

abbrev pub smile_fee_sync_cfg_reg_15 : Caller → SyncDirection → Link → Option ℤ × Link
smile_fee_sync_cfg_reg_15 c fee2dpu s =
    smile_fee_sync (fee_read_cmd_cfg_reg_15 c.allocs) c.malloc_ok (c.mirror + cfg_reg_15) 0 s
smile_fee_sync_cfg_reg_15 c dpu2fee s =
    smile_fee_sync (fee_write_cmd_cfg_reg_15 c.allocs) c.malloc_ok (c.mirror + cfg_reg_15) 4 s
smile_fee_sync_cfg_reg_15 c (other d) s = (some (negsuc 0), s)

abbrev pub smile_fee_sync_cfg_reg_16 : Caller → SyncDirection → Link → Option ℤ × Link
smile_fee_sync_cfg_reg_16 c fee2dpu s =
    smile_fee_sync (fee_read_cmd_cfg_reg_16 c.allocs) c.malloc_ok (c.mirror + cfg_reg_16) 0 s
smile_fee_sync_cfg_reg_16 c dpu2fee s =
    smile_fee_sync (fee_write_cmd_cfg_reg_16 c.allocs) c.malloc_ok (c.mirror + cfg_reg_16) 4 s
smile_fee_sync_cfg_reg_16 c (other d) s = (some (negsuc 0), s)

abbrev pub smile_fee_sync_cfg_reg_17 : Caller → SyncDirection → Link → Option ℤ × Link
smile_fee_sync_cfg_reg_17 c fee2dpu s =
    smile_fee_sync (fee_read_cmd_cfg_reg_17 c.allocs) c.malloc_ok (c.mirror + cfg_reg_17) 0 s
smile_fee_sync_cfg_reg_17 c dpu2fee s =
    smile_fee_sync (fee_write_cmd_cfg_reg_17 c.allocs) c.malloc_ok (c.mirror + cfg_reg_17) 4 s
smile_fee_sync_cfg_reg_17 c (other d) s = (some (negsuc 0), s)

abbrev pub smile_fee_sync_cfg_reg_18 : Caller → SyncDirection → Link → Option ℤ × Link
smile_fee_sync_cfg_reg_18 c fee2dpu s =
    smile_fee_sync (fee_read_cmd_cfg_reg_18 c.allocs) c.malloc_ok (c.mirror + cfg_reg_18) 0 s
smile_fee_sync_cfg_reg_18 c dpu2fee s =
    smile_fee_sync (fee_write_cmd_cfg_reg_18 c.allocs) c.malloc_ok (c.mirror + cfg_reg_18) 4 s
smile_fee_sync_cfg_reg_18 c (other d) s = (some (negsuc 0), s)

abbrev pub smile_fee_sync_cfg_reg_19 : Caller → SyncDirection → Link → Option ℤ × Link
smile_fee_sync_cfg_reg_19 c fee2dpu s =
    smile_fee_sync (fee_read_cmd_cfg_reg_19 c.allocs) c.malloc_ok (c.mirror + cfg_reg_19) 0 s
smile_fee_sync_cfg_reg_19 c dpu2fee s =
    smile_fee_sync (fee_write_cmd_cfg_reg_19 c.allocs) c.malloc_ok (c.mirror + cfg_reg_19) 4 s
smile_fee_sync_cfg_reg_19 c (other d) s = (some (negsuc 0), s)

abbrev pub smile_fee_sync_cfg_reg_20 : Caller → SyncDirection → Link → Option ℤ × Link
smile_fee_sync_cfg_reg_20 c fee2dpu s =
    smile_fee_sync (fee_read_cmd_cfg_reg_20 c.allocs) c.malloc_ok (c.mirror + cfg_reg_20) 0 s
smile_fee_sync_cfg_reg_20 c dpu2fee s =
    smile_fee_sync (fee_write_cmd_cfg_reg_20 c.allocs) c.malloc_ok (c.mirror + cfg_reg_20) 4 s
smile_fee_sync_cfg_reg_20 c (other d) s = (some (negsuc 0), s)

abbrev pub smile_fee_sync_cfg_reg_21 : Caller → SyncDirection → Link → Option ℤ × Link
smile_fee_sync_cfg_reg_21 c fee2dpu s =
    smile_fee_sync (fee_read_cmd_cfg_reg_21 c.allocs) c.malloc_ok (c.mirror + cfg_reg_21) 0 s
smile_fee_sync_cfg_reg_21 c dpu2fee s =
    smile_fee_sync (fee_write_cmd_cfg_reg_21 c.allocs) c.malloc_ok (c.mirror + cfg_reg_21) 4 s
smile_fee_sync_cfg_reg_21 c (other d) s = (some (negsuc 0), s)

abbrev pub smile_fee_sync_cfg_reg_22 : Caller → SyncDirection → Link → Option ℤ × Link
smile_fee_sync_cfg_reg_22 c fee2dpu s =
    smile_fee_sync (fee_read_cmd_cfg_reg_22 c.allocs) c.malloc_ok (c.mirror + cfg_reg_22) 0 s
smile_fee_sync_cfg_reg_22 c dpu2fee s =
    smile_fee_sync (fee_write_cmd_cfg_reg_22 c.allocs) c.malloc_ok (c.mirror + cfg_reg_22) 4 s
smile_fee_sync_cfg_reg_22 c (other d) s = (some (negsuc 0), s)

abbrev pub smile_fee_sync_cfg_reg_23 : Caller → SyncDirection → Link → Option ℤ × Link
smile_fee_sync_cfg_reg_23 c fee2dpu s =
    smile_fee_sync (fee_read_cmd_cfg_reg_23 c.allocs) c.malloc_ok (c.mirror + cfg_reg_23) 0 s
smile_fee_sync_cfg_reg_23 c dpu2fee s =
    smile_fee_sync (fee_write_cmd_cfg_reg_23 c.allocs) c.malloc_ok (c.mirror + cfg_reg_23) 4 s
smile_fee_sync_cfg_reg_23 c (other d) s = (some (negsuc 0), s)

abbrev pub smile_fee_sync_cfg_reg_24 : Caller → SyncDirection → Link → Option ℤ × Link
smile_fee_sync_cfg_reg_24 c fee2dpu s =
    smile_fee_sync (fee_read_cmd_cfg_reg_24 c.allocs) c.malloc_ok (c.mirror + cfg_reg_24) 0 s
smile_fee_sync_cfg_reg_24 c dpu2fee s =
    smile_fee_sync (fee_write_cmd_cfg_reg_24 c.allocs) c.malloc_ok (c.mirror + cfg_reg_24) 4 s
smile_fee_sync_cfg_reg_24 c (other d) s = (some (negsuc 0), s)

abbrev pub smile_fee_sync_cfg_reg_25 : Caller → SyncDirection → Link → Option ℤ × Link
smile_fee_sync_cfg_reg_25 c fee2dpu s =
    smile_fee_sync (fee_read_cmd_cfg_reg_25 c.allocs) c.malloc_ok (c.mirror + cfg_reg_25) 0 s
smile_fee_sync_cfg_reg_25 c dpu2fee s =
    smile_fee_sync (fee_write_cmd_cfg_reg_25 c.allocs) c.malloc_ok (c.mirror + cfg_reg_25) 4 s
smile_fee_sync_cfg_reg_25 c (other d) s = (some (negsuc 0), s)
