-- ===== src/Link/Registers/CfgReads.antt =====
-- The commands of FEE/smile_fee_cmd.c that read a configuration register.
use smile_fee.Link.Command.{GenAllocs, CmdGen, fee_read_cmd_register_internal}
use smile_fee.Link.Registers.Addresses.{
  cfg_reg_0, cfg_reg_1, cfg_reg_2, cfg_reg_3, cfg_reg_4, cfg_reg_5,
}
use smile_fee.Link.Registers.Addresses.{
  cfg_reg_6, cfg_reg_7, cfg_reg_8, cfg_reg_9, cfg_reg_14, cfg_reg_15,
}
use smile_fee.Link.Registers.Addresses.{
  cfg_reg_16, cfg_reg_17, cfg_reg_18, cfg_reg_19, cfg_reg_20, cfg_reg_21,
}
use smile_fee.Link.Registers.Addresses.{cfg_reg_22, cfg_reg_23, cfg_reg_24, cfg_reg_25, cfg_reg_26}

abbrev pub fee_read_cmd_cfg_reg_0 : GenAllocs → CmdGen
fee_read_cmd_cfg_reg_0 a = fee_read_cmd_register_internal a cfg_reg_0

abbrev pub fee_read_cmd_cfg_reg_1 : GenAllocs → CmdGen
fee_read_cmd_cfg_reg_1 a = fee_read_cmd_register_internal a cfg_reg_1

abbrev pub fee_read_cmd_cfg_reg_2 : GenAllocs → CmdGen
fee_read_cmd_cfg_reg_2 a = fee_read_cmd_register_internal a cfg_reg_2

abbrev pub fee_read_cmd_cfg_reg_3 : GenAllocs → CmdGen
fee_read_cmd_cfg_reg_3 a = fee_read_cmd_register_internal a cfg_reg_3

abbrev pub fee_read_cmd_cfg_reg_4 : GenAllocs → CmdGen
fee_read_cmd_cfg_reg_4 a = fee_read_cmd_register_internal a cfg_reg_4

abbrev pub fee_read_cmd_cfg_reg_5 : GenAllocs → CmdGen
fee_read_cmd_cfg_reg_5 a = fee_read_cmd_register_internal a cfg_reg_5

abbrev pub fee_read_cmd_cfg_reg_6 : GenAllocs → CmdGen
fee_read_cmd_cfg_reg_6 a = fee_read_cmd_register_internal a cfg_reg_6

abbrev pub fee_read_cmd_cfg_reg_7 : GenAllocs → CmdGen
fee_read_cmd_cfg_reg_7 a = fee_read_cmd_register_internal a cfg_reg_7

abbrev pub fee_read_cmd_cfg_reg_8 : GenAllocs → CmdGen
fee_read_cmd_cfg_reg_8 a = fee_read_cmd_register_internal a cfg_reg_8

abbrev pub fee_read_cmd_cfg_reg_9 : GenAllocs → CmdGen
fee_read_cmd_cfg_reg_9 a = fee_read_cmd_register_internal a cfg_reg_9

abbrev pub fee_read_cmd_cfg_reg_14 : GenAllocs → CmdGen
fee_read_cmd_cfg_reg_14 a = fee_read_cmd_register_internal a cfg_reg_14

abbrev pub fee_read_cmd_cfg_reg_15 : GenAllocs → CmdGen
fee_read_cmd_cfg_reg_15 a = fee_read_cmd_register_internal a cfg_reg_15

abbrev pub fee_read_cmd_cfg_reg_16 : GenAllocs → CmdGen
fee_read_cmd_cfg_reg_16 a = fee_read_cmd_register_internal a cfg_reg_16

abbrev pub fee_read_cmd_cfg_reg_17 : GenAllocs → CmdGen
fee_read_cmd_cfg_reg_17 a = fee_read_cmd_register_internal a cfg_reg_17

abbrev pub fee_read_cmd_cfg_reg_18 : GenAllocs → CmdGen
fee_read_cmd_cfg_reg_18 a = fee_read_cmd_register_internal a cfg_reg_18

abbrev pub fee_read_cmd_cfg_reg_19 : GenAllocs → CmdGen
fee_read_cmd_cfg_reg_19 a = fee_read_cmd_register_internal a cfg_reg_19

abbrev pub fee_read_cmd_cfg_reg_20 : GenAllocs → CmdGen
fee_read_cmd_cfg_reg_20 a = fee_read_cmd_register_internal a cfg_reg_20

abbrev pub fee_read_cmd_cfg_reg_21 : GenAllocs → CmdGen
fee_read_cmd_cfg_reg_21 a = fee_read_cmd_register_internal a cfg_reg_21

abbrev pub fee_read_cmd_cfg_reg_22 : GenAllocs → CmdGen
fee_read_cmd_cfg_reg_22 a = fee_read_cmd_register_internal a cfg_reg_22

abbrev pub fee_read_cmd_cfg_reg_23 : GenAllocs → CmdGen
fee_read_cmd_cfg_reg_23 a = fee_read_cmd_register_internal a cfg_reg_23

abbrev pub fee_read_cmd_cfg_reg_24 : GenAllocs → CmdGen
fee_read_cmd_cfg_reg_24 a = fee_read_cmd_register_internal a cfg_reg_24

abbrev pub fee_read_cmd_cfg_reg_25 : GenAllocs → CmdGen
fee_read_cmd_cfg_reg_25 a = fee_read_cmd_register_internal a cfg_reg_25

abbrev pub fee_read_cmd_cfg_reg_26 : GenAllocs → CmdGen
fee_read_cmd_cfg_reg_26 a = fee_read_cmd_register_internal a cfg_reg_26
