-- ===== src/Link/Registers/Addresses.antt =====
-- The register addresses of FEE/smile_fee_cmd.h.
use smile_fee.Base.{ℕ}

abbrev pub cfg_reg_0 : ℕ
cfg_reg_0 = 0x00000000

abbrev pub cfg_reg_1 : ℕ
cfg_reg_1 = 0x00000004

abbrev pub cfg_reg_2 : ℕ
cfg_reg_2 = 0x00000008

abbrev pub cfg_reg_3 : ℕ
cfg_reg_3 = 0x0000000C

abbrev pub cfg_reg_4 : ℕ
cfg_reg_4 = 0x00000010

abbrev pub cfg_reg_5 : ℕ
cfg_reg_5 = 0x00000014

abbrev pub cfg_reg_6 : ℕ
cfg_reg_6 = 0x00000018

abbrev pub cfg_reg_7 : ℕ
cfg_reg_7 = 0x0000001C

abbrev pub cfg_reg_8 : ℕ
cfg_reg_8 = 0x00000020

abbrev pub cfg_reg_9 : ℕ
cfg_reg_9 = 0x00000024

abbrev pub cfg_reg_10 : ℕ
cfg_reg_10 = 0x00000028

abbrev pub cfg_reg_11 : ℕ
cfg_reg_11 = 0x0000002C

abbrev pub cfg_reg_12 : ℕ
cfg_reg_12 = 0x00000030

abbrev pub cfg_reg_13 : ℕ
cfg_reg_13 = 0x00000034

abbrev pub cfg_reg_14 : ℕ
cfg_reg_14 = 0x00000038

abbrev pub cfg_reg_15 : ℕ
cfg_reg_15 = 0x0000003C

abbrev pub cfg_reg_16 : ℕ
cfg_reg_16 = 0x00000040

abbrev pub cfg_reg_17 : ℕ
cfg_reg_17 = 0x00000044

abbrev pub cfg_reg_18 : ℕ
cfg_reg_18 = 0x00000048

abbrev pub cfg_reg_19 : ℕ
cfg_reg_19 = 0x0000004C

abbrev pub cfg_reg_20 : ℕ
cfg_reg_20 = 0x00000050

abbrev pub cfg_reg_21 : ℕ
cfg_reg_21 = 0x00000054

abbrev pub cfg_reg_22 : ℕ
cfg_reg_22 = 0x00000058

abbrev pub cfg_reg_23 : ℕ
cfg_reg_23 = 0x0000005C

abbrev pub cfg_reg_24 : ℕ
cfg_reg_24 = 0x00000060

abbrev pub cfg_reg_25 : ℕ
cfg_reg_25 = 0x00000064

abbrev pub cfg_reg_26 : ℕ
cfg_reg_26 = 0x00000068

abbrev pub hk_reg_0 : ℕ
hk_reg_0 = 0x00000700

abbrev pub hk_reg_1 : ℕ
hk_reg_1 = 0x00000704

abbrev pub hk_reg_2 : ℕ
hk_reg_2 = 0x00000708

abbrev pub hk_reg_3 : ℕ
hk_reg_3 = 0x0000070C

abbrev pub hk_reg_4 : ℕ
hk_reg_4 = 0x00000710

abbrev pub hk_reg_5 : ℕ
hk_reg_5 = 0x00000714

abbrev pub hk_reg_6 : ℕ
hk_reg_6 = 0x00000718

abbrev pub hk_reg_7 : ℕ
hk_reg_7 = 0x0000071C

abbrev pub hk_reg_8 : ℕ
hk_reg_8 = 0x00000720

abbrev pub hk_reg_9 : ℕ
hk_reg_9 = 0x00000724

abbrev pub hk_reg_10 : ℕ
hk_reg_10 = 0x00000728

abbrev pub hk_reg_11 : ℕ
hk_reg_11 = 0x0000072C

abbrev pub hk_reg_12 : ℕ
hk_reg_12 = 0x00000730

abbrev pub hk_reg_13 : ℕ
hk_reg_13 = 0x00000734

abbrev pub hk_reg_14 : ℕ
hk_reg_14 = 0x00000738

abbrev pub hk_reg_15 : ℕ
hk_reg_15 = 0x0000073C

abbrev pub hk_reg_16 : ℕ
hk_reg_16 = 0x00000740

abbrev pub hk_reg_17 : ℕ
hk_reg_17 = 0x00000744

abbrev pub hk_reg_18 : ℕ
hk_reg_18 = 0x00000748

abbrev pub hk_reg_19 : ℕ
hk_reg_19 = 0x0000074C

abbrev pub hk_reg_20 : ℕ
hk_reg_20 = 0x00000750

abbrev pub hk_reg_21 : ℕ
hk_reg_21 = 0x00000754

abbrev pub hk_reg_22 : ℕ
hk_reg_22 = 0x00000758

abbrev pub hk_reg_23 : ℕ
hk_reg_23 = 0x0000075C

abbrev pub hk_reg_24 : ℕ
hk_reg_24 = 0x00000760

abbrev pub hk_reg_25 : ℕ
hk_reg_25 = 0x00000764

abbrev pub hk_reg_26 : ℕ
hk_reg_26 = 0x00000768

abbrev pub hk_reg_27 : ℕ
hk_reg_27 = 0x0000076C

abbrev pub hk_reg_28 : ℕ
hk_reg_28 = 0x00000770

abbrev pub hk_reg_29 : ℕ
hk_reg_29 = 0x00000774

abbrev pub hk_reg_30 : ℕ
hk_reg_30 = 0x00000778

abbrev pub hk_reg_31 : ℕ
hk_reg_31 = 0x0000077C

abbrev pub hk_reg_32 : ℕ
hk_reg_32 = 0x00000780

abbrev pub hk_reg_33 : ℕ
hk_reg_33 = 0x00000784

abbrev pub hk_reg_34 : ℕ
hk_reg_34 = 0x00000788

abbrev pub hk_reg_35 : ℕ
hk_reg_35 = 0x0000078C

abbrev pub hk_reg_36 : ℕ
hk_reg_36 = 0x00000790

abbrev pub hk_reg_37 : ℕ
hk_reg_37 = 0x00000794
