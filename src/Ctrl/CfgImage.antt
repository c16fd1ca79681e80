-- ===== src/Ctrl/CfgImage.antt =====
-- The values of the configuration registers 5 to 9 in the mirror, as FEE/smile_fee_ctrl.c reads and
-- sets them. An argument is a value of its C type.
use smile_fee.Base.{ℕ, u16, complement, bit_and, bit_or, ℤ}
use smile_fee.Base.{◌==◌, ◌<<<◌, ◌>>>◌}
use smile_fee.Base.{if◌then◌else◌}
use smile_fee.Link.Registers.Addresses.{cfg_reg_5, cfg_reg_6, cfg_reg_7, cfg_reg_8, cfg_reg_9}
use smile_fee.Ctrl.Mirror.{Mirror, host, update, as_flag, int16}
use smile_fee.Ctrl.Swap.{be32_to_cpu}

abbrev pub smile_fee_get_trap_pumping_dwell_term : Mirror → ℕ
smile_fee_get_trap_pumping_dwell_term m = bit_and (host cfg_reg_5 m) 0xFFFFF

abbrev pub smile_fee_get_sync_sel : Mirror → ℕ
smile_fee_get_sync_sel m = bit_and (host cfg_reg_5 m >>> 20) 0x1

abbrev pub smile_fee_get_sel_pwr_sync : Mirror → ℕ
smile_fee_get_sel_pwr_sync m = bit_and (host cfg_reg_5 m >>> 21) 0x1

abbrev pub smile_fee_get_use_pwr_sync : Mirror → ℕ
smile_fee_get_use_pwr_sync m = bit_and (host cfg_reg_5 m >>> 22) 0x1

abbrev pub smile_fee_get_digitise_en : Mirror → ℕ
smile_fee_get_digitise_en m = bit_and (host cfg_reg_5 m >>> 23) 0x1

abbrev pub smile_fee_get_correction_bypass : Mirror → ℕ
smile_fee_get_correction_bypass m = bit_and (host cfg_reg_5 m >>> 24) 0x1

abbrev pub smile_fee_get_dg_en : Mirror → ℕ
smile_fee_get_dg_en m = bit_and (host cfg_reg_5 m >>> 25) 0x1

abbrev pub smile_fee_get_correction_type : Mirror → ℕ
smile_fee_get_correction_type m = bit_and (host cfg_reg_5 m >>> 26) 0x1

abbrev pub smile_fee_get_edu_wandering_mask_en : Mirror → ℕ
smile_fee_get_edu_wandering_mask_en m = bit_and (host cfg_reg_5 m >>> 27) 0x1

abbrev pub smile_fee_get_readout_node_sel : Mirror → ℕ
smile_fee_get_readout_node_sel m = u16 (bit_and (host cfg_reg_5 m >>> 28) 0xF)

abbrev pub smile_fee_set_trap_pumping_dwell_term : ℕ → Mirror → Mirror
smile_fee_set_trap_pumping_dwell_term dwell m =
    update cfg_reg_5 (λ r. bit_or (bit_and r (complement 32 0xFFFFF)) (bit_and 0xFFFFF dwell)) m

abbrev pub smile_fee_set_sync_sel : ℕ → Mirror → Mirror
smile_fee_set_sync_sel mode m =
    update cfg_reg_5 (λ r. bit_or (bit_and r (complement 32 (0x1 <<< 20))) (as_flag mode <<< 20)) m

abbrev pub smile_fee_set_sel_pwr_sync : ℕ → Mirror → Mirror
smile_fee_set_sel_pwr_sync mode m =
    update cfg_reg_5 (λ r. bit_or (bit_and r (complement 32 (0x1 <<< 21))) (as_flag mode <<< 21)) m

abbrev pub smile_fee_set_use_pwr_sync : ℕ → Mirror → Mirror
smile_fee_set_use_pwr_sync mode m =
    update cfg_reg_5 (λ r. bit_or (bit_and r (complement 32 (0x1 <<< 22))) (as_flag mode <<< 22)) m

abbrev pub smile_fee_set_digitise_en : ℕ → Mirror → Mirror
smile_fee_set_digitise_en mode m =
    update cfg_reg_5 (λ r. bit_or (bit_and r (complement 32 (0x1 <<< 23))) (as_flag mode <<< 23)) m

abbrev pub smile_fee_set_correction_bypass : ℕ → Mirror → Mirror
smile_fee_set_correction_bypass mode m =
    update cfg_reg_5 (λ r. bit_or (bit_and r (complement 32 (0x1 <<< 24))) (as_flag mode <<< 24)) m

abbrev pub smile_fee_set_dg_en : ℕ → Mirror → Mirror
smile_fee_set_dg_en mode m =
    update cfg_reg_5 (λ r. bit_or (bit_and r (complement 32 (0x1 <<< 25))) (as_flag mode <<< 25)) m

abbrev pub smile_fee_set_correction_type : ℕ → Mirror → Mirror
smile_fee_set_correction_type mode m =
    update cfg_reg_5 (λ r. bit_or (bit_and r (complement 32 (0x1 <<< 26))) (as_flag mode <<< 26)) m

abbrev pub smile_fee_set_edu_wandering_mask_en : ℕ → Mirror → Mirror
smile_fee_set_edu_wandering_mask_en mode m =
    update cfg_reg_5 (λ r. bit_or (bit_and r (complement 32 (0x1 <<< 27))) (as_flag mode <<< 27)) m

abbrev pub smile_fee_set_readout_node_sel : ℕ → Mirror → Mirror
smile_fee_set_readout_node_sel nodes m =
    if nodes == 0
    then m
    else update cfg_reg_5
        (λ r. bit_or (bit_and r (complement 32 (0xF <<< 28))) ((bit_and 0xF nodes) <<< 28)) m

abbrev pub smile_fee_get_full_sun_pix_threshold : Mirror → ℕ
smile_fee_get_full_sun_pix_threshold m = u16 (bit_and (host cfg_reg_6 m) 0xFFFF)

abbrev pub smile_fee_set_full_sun_pix_threshold : ℕ → Mirror → Mirror
smile_fee_set_full_sun_pix_threshold threshold m =
    update cfg_reg_6 (λ r. bit_or (bit_and r (complement 32 0xFFFF)) (bit_and 0xFFFF threshold)) m

abbrev pub smile_fee_set_pix_offset : ℕ → Mirror → Mirror
smile_fee_set_pix_offset offset m =
    update cfg_reg_6
      (λ r. bit_or (bit_and r (complement 32 (0xFF <<< 16))) ((bit_and 0xFF offset) <<< 16)) m

abbrev pub smile_fee_get_readout_pause_counter : Mirror → ℕ
smile_fee_get_readout_pause_counter m = u16 (bit_and (host cfg_reg_7 m) 0xFFFF)

abbrev pub smile_fee_get_trap_pumping_shuffle_counter : Mirror → ℕ
smile_fee_get_trap_pumping_shuffle_counter m = u16 (bit_and (host cfg_reg_7 m >>> 16) 0xFFFF)

abbrev pub smile_fee_set_readout_pause_counter : ℕ → Mirror → Mirror
smile_fee_set_readout_pause_counter readout_pause m =
    update cfg_reg_7 (λ r. bit_or (bit_and r (complement 32 0xFFFF)) (bit_and 0xFFFF readout_pause))
      m

abbrev pub smile_fee_set_trap_pumping_shuffle_counter : ℕ → Mirror → Mirror
smile_fee_set_trap_pumping_shuffle_counter shuffle_counter m =
    update cfg_reg_7
      (λ r.
        bit_or (bit_and r (complement 32 (0xFFFF <<< 16)))
          ((bit_and 0xFFFF shuffle_counter) <<< 16))
      m

abbrev pub smile_fee_get_int_sync_period : Mirror → ℕ
smile_fee_get_int_sync_period m = u16 (bit_and (host cfg_reg_8 m) 0xFFFFF)

abbrev pub smile_fee_get_cdsclp_lo : Mirror → ℕ
smile_fee_get_cdsclp_lo m = u16 (bit_and (host cfg_reg_8 m >>> 20) 0xFFF)

abbrev pub smile_fee_set_int_sync_period : ℕ → Mirror → Mirror
smile_fee_set_int_sync_period period m =
    update cfg_reg_8 (λ r. bit_or (bit_and r (complement 32 0xFFFFF)) (bit_and 0xFFFFF period)) m

abbrev pub smile_fee_set_cdsclp_lo : ℕ → Mirror → Mirror
smile_fee_set_cdsclp_lo cdsclp m =
    update cfg_reg_8
      (λ r. bit_or (bit_and r (complement 32 (0xFFF <<< 20))) ((bit_and 0xFFF cdsclp) <<< 20)) m

abbrev pub smile_fee_get_rowclp_hi : Mirror → ℕ
smile_fee_get_rowclp_hi m = u16 (bit_and (host cfg_reg_9 m) 0xFFF)

abbrev pub smile_fee_set_rowclp_hi : ℕ → Mirror → Mirror
smile_fee_set_rowclp_hi rowclp_hi m =
    update cfg_reg_9 (λ r. bit_or (bit_and r (complement 32 0xFFF)) (bit_and 0xFFF rowclp_hi)) m

-- The stored word is shifted before it is swapped; the 16 bits are returned as a signed value.
abbrev pub smile_fee_get_pix_offset : Mirror → ℤ
smile_fee_get_pix_offset m = int16 (u16 (bit_and (be32_to_cpu (m.word cfg_reg_6 >>> 16)) 0xFFFF))
