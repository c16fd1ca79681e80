-- ===== src/Link/Registers/HkReads.antt =====
-- The commands of FEE/smile_fee_cmd.c that read a housekeeping register.
use smile_fee.Link.Command.{GenAllocs, CmdGen, fee_read_cmd_register_internal}
use smile_fee.Link.Registers.Addresses.{
  hk_reg_4, hk_reg_5, hk_reg_6, hk_reg_7, hk_reg_8, hk_reg_9, hk_reg_10,
}
use smile_fee.Link.Registers.Addresses.{
  hk_reg_11, hk_reg_12, hk_reg_13, hk_reg_14, hk_reg_15, hk_reg_16,
}
use smile_fee.Link.Registers.Addresses.{
  hk_reg_17, hk_reg_18, hk_reg_19, hk_reg_20, hk_reg_21, hk_reg_22,
}
use smile_fee.Link.Registers.Addresses.{
  hk_reg_23, hk_reg_28, hk_reg_29, hk_reg_30, hk_reg_31, hk_reg_32,
}
use smile_fee.Link.Registers.Addresses.{hk_reg_33, hk_reg_34, hk_reg_35, hk_reg_36, hk_reg_37}

abbrev pub fee_read_cmd_hk_reg_4 : GenAllocs → CmdGen
fee_read_cmd_hk_reg_4 a = fee_read_cmd_register_internal a hk_reg_4

abbrev pub fee_read_cmd_hk_reg_5 : GenAllocs → CmdGen
fee_read_cmd_hk_reg_5 a = fee_read_cmd_register_internal a hk_reg_5

abbrev pub fee_read_cmd_hk_reg_6 : GenAllocs → CmdGen
fee_read_cmd_hk_reg_6 a = fee_read_cmd_register_internal a hk_reg_6

abbrev pub fee_read_cmd_hk_reg_7 : GenAllocs → CmdGen
fee_read_cmd_hk_reg_7 a = fee_read_cmd_register_internal a hk_reg_7

abbrev pub fee_read_cmd_hk_reg_8 : GenAllocs → CmdGen
fee_read_cmd_hk_reg_8 a = fee_read_cmd_register_internal a hk_reg_8

abbrev pub fee_read_cmd_hk_reg_9 : GenAllocs → CmdGen
fee_read_cmd_hk_reg_9 a = fee_read_cmd_register_internal a hk_reg_9

abbrev pub fee_read_cmd_hk_reg_10 : GenAllocs → CmdGen
fee_read_cmd_hk_reg_10 a = fee_read_cmd_register_internal a hk_reg_10

abbrev pub fee_read_cmd_hk_reg_11 : GenAllocs → CmdGen
fee_read_cmd_hk_reg_11 a = fee_read_cmd_register_internal a hk_reg_11

abbrev pub fee_read_cmd_hk_reg_12 : GenAllocs → CmdGen
fee_read_cmd_hk_reg_12 a = fee_read_cmd_register_internal a hk_reg_12

abbrev pub fee_read_cmd_hk_reg_13 : GenAllocs → CmdGen
fee_read_cmd_hk_reg_13 a = fee_read_cmd_register_internal a hk_reg_13

abbrev pub fee_read_cmd_hk_reg_14 : GenAllocs → CmdGen
fee_read_cmd_hk_reg_14 a = fee_read_cmd_register_internal a hk_reg_14

abbrev pub fee_read_cmd_hk_reg_15 : GenAllocs → CmdGen
fee_read_cmd_hk_reg_15 a = fee_read_cmd_register_internal a hk_reg_15

abbrev pub fee_read_cmd_hk_reg_16 : GenAllocs → CmdGen
fee_read_cmd_hk_reg_16 a = fee_read_cmd_register_internal a hk_reg_16

abbrev pub fee_read_cmd_hk_reg_17 : GenAllocs → CmdGen
fee_read_cmd_hk_reg_17 a = fee_read_cmd_register_internal a hk_reg_17

abbrev pub fee_read_cmd_hk_reg_18 : GenAllocs → CmdGen
fee_read_cmd_hk_reg_18 a = fee_read_cmd_register_internal a hk_reg_18

abbrev pub fee_read_cmd_hk_reg_19 : GenAllocs → CmdGen
fee_read_cmd_hk_reg_19 a = fee_read_cmd_register_internal a hk_reg_19

abbrev pub fee_read_cmd_hk_reg_20 : GenAllocs → CmdGen
fee_read_cmd_hk_reg_20 a = fee_read_cmd_register_internal a hk_reg_20

abbrev pub fee_read_cmd_hk_reg_21 : GenAllocs → CmdGen
fee_read_cmd_hk_reg_21 a = fee_read_cmd_register_internal a hk_reg_21

abbrev pub fee_read_cmd_hk_reg_22 : GenAllocs → CmdGen
fee_read_cmd_hk_reg_22 a = fee_read_cmd_register_internal a hk_reg_22

abbrev pub fee_read_cmd_hk_reg_23 : GenAllocs → CmdGen
fee_read_cmd_hk_reg_23 a = fee_read_cmd_register_internal a hk_reg_23

abbrev pub fee_read_cmd_hk_reg_28 : GenAllocs → CmdGen
fee_read_cmd_hk_reg_28 a = fee_read_cmd_register_internal a hk_reg_28

abbrev pub fee_read_cmd_hk_reg_29 : GenAllocs → CmdGen
fee_read_cmd_hk_reg_29 a = fee_read_cmd_register_internal a hk_reg_29

abbrev pub fee_read_cmd_hk_reg_30 : GenAllocs → CmdGen
fee_read_cmd_hk_reg_30 a = fee_read_cmd_register_internal a hk_reg_30

abbrev pub fee_read_cmd_hk_reg_31 : GenAllocs → CmdGen
fee_read_cmd_hk_reg_31 a = fee_read_cmd_register_internal a hk_reg_31

abbrev pub fee_read_cmd_hk_reg_32 : GenAllocs → CmdGen
fee_read_cmd_hk_reg_32 a = fee_read_cmd_register_internal a hk_reg_32

abbrev pub fee_read_cmd_hk_reg_33 : GenAllocs → CmdGen
fee_read_cmd_hk_reg_33 a = fee_read_cmd_register_internal a hk_reg_33

abbrev pub fee_read_cmd_hk_reg_34 : GenAllocs → CmdGen
fee_read_cmd_hk_reg_34 a = fee_read_cmd_register_internal a hk_reg_34

abbrev pub fee_read_cmd_hk_reg_35 : GenAllocs → CmdGen
fee_read_cmd_hk_reg_35 a = fee_read_cmd_register_internal a hk_reg_35

abbrev pub fee_read_cmd_hk_reg_36 : GenAllocs → CmdGen
fee_read_cmd_hk_reg_36 a = fee_read_cmd_register_internal a hk_reg_36

abbrev pub fee_read_cmd_hk_reg_37 : GenAllocs → CmdGen
fee_read_cmd_hk_reg_37 a = fee_read_cmd_register_internal a hk_reg_37
