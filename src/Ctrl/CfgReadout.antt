-- ===== src/Ctrl/CfgReadout.antt =====
-- The values of the configuration registers 0 to 4 in the mirror, as FEE/smile_fee_ctrl.c reads and
-- sets them. An argument is a value of its C type.
use smile_fee.Base.{ℕ, u16, complement, bit_and, bit_or, ltb}
use smile_fee.Base.{◌==◌, ◌<<<◌, ◌>>>◌, ◌-◌}
use smile_fee.Base.{if◌then◌else◌}
use smile_fee.Link.Registers.Addresses.{cfg_reg_0, cfg_reg_1, cfg_reg_2, cfg_reg_3, cfg_reg_4}
use smile_fee.Ctrl.Mirror.{Mirror, host, update, as_flag}

abbrev pub smile_fee_get_vstart : Mirror → ℕ
smile_fee_get_vstart m = u16 (bit_and (host cfg_reg_0 m) 0xFFFF)

abbrev pub smile_fee_get_vend : Mirror → ℕ
smile_fee_get_vend m = u16 (bit_and (host cfg_reg_0 m >>> 16) 0xFFFF)

abbrev pub smile_fee_set_vstart : ℕ → Mirror → Mirror
smile_fee_set_vstart vstart m =
    update cfg_reg_0 (λ r. bit_or (bit_and r (complement 32 0xFFFF)) (bit_and 0xFFFF vstart)) m

abbrev pub smile_fee_set_vend : ℕ → Mirror → Mirror
smile_fee_set_vend vend m =
    update cfg_reg_0
      (λ r. bit_or (bit_and r (complement 32 (0xFFFF <<< 16))) ((bit_and 0xFFFF vend) <<< 16)) m

abbrev pub smile_fee_get_charge_injection_width : Mirror → ℕ
smile_fee_get_charge_injection_width m = u16 (bit_and (host cfg_reg_1 m) 0xFFFF)

abbrev pub smile_fee_get_charge_injection_gap : Mirror → ℕ
smile_fee_get_charge_injection_gap m = u16 (bit_and (host cfg_reg_1 m >>> 16) 0xFFFF)

abbrev pub smile_fee_set_charge_injection_width : ℕ → Mirror → Mirror
smile_fee_set_charge_injection_width width m =
    update cfg_reg_1 (λ r. bit_or (bit_and r (complement 32 0xFFFF)) (bit_and 0xFFFF width)) m

abbrev pub smile_fee_set_charge_injection_gap : ℕ → Mirror → Mirror
smile_fee_set_charge_injection_gap gap m =
    update cfg_reg_1
      (λ r. bit_or (bit_and r (complement 32 (0xFFFF <<< 16))) ((bit_and 0xFFFF gap) <<< 16)) m

abbrev pub smile_fee_get_parallel_toi_period : Mirror → ℕ
smile_fee_get_parallel_toi_period m = u16 (bit_and (host cfg_reg_2 m) 0xFFF)

abbrev pub smile_fee_get_parallel_clk_overlap : Mirror → ℕ
smile_fee_get_parallel_clk_overlap m = u16 (bit_and (host cfg_reg_2 m >>> 12) 0xFFF)

abbrev pub smile_fee_set_parallel_toi_period : ℕ → Mirror → Mirror
smile_fee_set_parallel_toi_period period m =
    update cfg_reg_2 (λ r. bit_or (bit_and r (complement 32 0xFFF)) (bit_and 0xFFF period)) m

abbrev pub smile_fee_set_parallel_clk_overlap : ℕ → Mirror → Mirror
smile_fee_set_parallel_clk_overlap overlap m =
    update cfg_reg_2
      (λ r. bit_or (bit_and r (complement 32 (0xFFF <<< 12))) ((bit_and 0xFFF overlap) <<< 12)) m

abbrev pub smile_fee_get_n_final_dump : Mirror → ℕ
smile_fee_get_n_final_dump m = u16 (bit_and (host cfg_reg_3 m) 0xFFFF)

abbrev pub smile_fee_get_h_end : Mirror → ℕ
smile_fee_get_h_end m = u16 (bit_and (host cfg_reg_3 m >>> 16) 0xFFF)

abbrev pub smile_fee_get_charge_injection : Mirror → ℕ
smile_fee_get_charge_injection m = bit_and (host cfg_reg_3 m >>> 28) 0x1

abbrev pub smile_fee_get_tri_level_clk : Mirror → ℕ
smile_fee_get_tri_level_clk m = bit_and (host cfg_reg_3 m >>> 29) 0x1

abbrev pub smile_fee_get_img_clk_dir : Mirror → ℕ
smile_fee_get_img_clk_dir m = bit_and (host cfg_reg_3 m >>> 30) 0x1

abbrev pub smile_fee_get_reg_clk_dir : Mirror → ℕ
smile_fee_get_reg_clk_dir m = bit_and (host cfg_reg_3 m >>> 31) 0x1

abbrev pub smile_fee_set_n_final_dump : ℕ → Mirror → Mirror
smile_fee_set_n_final_dump lines m =
    update cfg_reg_3 (λ r. bit_or (bit_and r (complement 32 0xFFFF)) (bit_and 0xFFFF lines)) m

abbrev pub smile_fee_set_h_end : ℕ → Mirror → Mirror
smile_fee_set_h_end transfers m =
    update cfg_reg_3
      (λ r. bit_or (bit_and r (complement 32 (0xFFF <<< 16))) ((bit_and 0xFFF transfers) <<< 16)) m

abbrev pub smile_fee_set_charge_injection : ℕ → Mirror → Mirror
smile_fee_set_charge_injection mode m =
    update cfg_reg_3 (λ r. bit_or (bit_and r (complement 32 (0x1 <<< 28))) (as_flag mode <<< 28)) m

abbrev pub smile_fee_set_tri_level_clk : ℕ → Mirror → Mirror
smile_fee_set_tri_level_clk mode m =
    update cfg_reg_3 (λ r. bit_or (bit_and r (complement 32 (0x1 <<< 29))) (as_flag mode <<< 29)) m

abbrev pub smile_fee_set_img_clk_dir : ℕ → Mirror → Mirror
smile_fee_set_img_clk_dir mode m =
    update cfg_reg_3 (λ r. bit_or (bit_and r (complement 32 (0x1 <<< 30))) (as_flag mode <<< 30)) m

abbrev pub smile_fee_set_reg_clk_dir : ℕ → Mirror → Mirror
smile_fee_set_reg_clk_dir mode m =
    update cfg_reg_3 (λ r. bit_or (bit_and r (complement 32 (0x1 <<< 31))) (as_flag mode <<< 31)) m

abbrev pub smile_fee_get_packet_size : Mirror → ℕ
smile_fee_get_packet_size m = u16 (bit_and (host cfg_reg_4 m) 0xFFFF)

abbrev pub smile_fee_get_cdsclp_hi : Mirror → ℕ
smile_fee_get_cdsclp_hi m = u16 (bit_and (host cfg_reg_4 m >>> 16) 0xFFF)

abbrev pub smile_fee_set_packet_size : ℕ → Mirror → Mirror
smile_fee_set_packet_size pkt_size m =
    update cfg_reg_4 (λ r. bit_or (bit_and r (complement 32 0xFFFF)) (bit_and 0xFFFF pkt_size)) m

abbrev pub smile_fee_set_cdsclp_hi : ℕ → Mirror → Mirror
smile_fee_set_cdsclp_hi cdsclp m =
    update cfg_reg_4
      (λ r. bit_or (bit_and r (complement 32 (0xFFF <<< 16))) ((bit_and 0xFFF cdsclp) <<< 16)) m

abbrev pub smile_fee_get_ccd_readout : ℕ → Mirror → ℕ
smile_fee_get_ccd_readout ccd_id m =
    if ccd_id == 0
    then 0
    else if ltb 2 ccd_id
    then 0
    else bit_and ((host cfg_reg_2 m >>> 24) >>> (ccd_id - 1)) 0x1

abbrev pub smile_fee_set_ccd_readout : ℕ → ℕ → Mirror → Mirror
smile_fee_set_ccd_readout ccd_id status m =
    if ccd_id == 0
    then m
    else if ltb 2 ccd_id
    then m
    else update cfg_reg_2
        (λ r.
          bit_or (bit_and r (complement 32 ((0x1 <<< (ccd_id - 1)) <<< 24)))
            ((as_flag status <<< (ccd_id - 1)) <<< 24))
        m

-- `!` applies to the whole shifted word.
abbrev pub smile_fee_get_adc_pwrdn_en : Mirror → ℕ
smile_fee_get_adc_pwrdn_en m = bit_and (if (host cfg_reg_4 m >>> 28) == 0 then 1 else 0) 0x1

abbrev pub smile_fee_set_adc_pwrdn_en : ℕ → Mirror → Mirror
smile_fee_set_adc_pwrdn_en mode m =
    let mode = if mode == 0 then 1 else 0 in
    update cfg_reg_4 (λ r. bit_or (bit_and r (complement 32 (0x1 <<< 28))) (mode <<< 28)) m
