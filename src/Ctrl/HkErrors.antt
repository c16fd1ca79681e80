-- ===== src/Ctrl/HkErrors.antt =====
-- The values of the housekeeping registers 34 to 37 in the mirror, as FEE/smile_fee_ctrl.c reads and
-- sets them. An argument is a value of its C type.
use smile_fee.Base.{ℕ, u8, u16, complement, bit_and, bit_or}
use smile_fee.Base.{◌<<<◌, ◌>>>◌}
use smile_fee.Link.Registers.Addresses.{hk_reg_34, hk_reg_35, hk_reg_36, hk_reg_37}
use smile_fee.Ctrl.Mirror.{Mirror, host, update, as_flag}

abbrev pub smile_fee_get_hk_error_flag_spw_dac_on_bias_readback : Mirror → ℕ
smile_fee_get_hk_error_flag_spw_dac_on_bias_readback m = bit_and (host hk_reg_34 m) 0x1

abbrev pub smile_fee_get_hk_error_flag_dac_off_bias_readback_error : Mirror → ℕ
smile_fee_get_hk_error_flag_dac_off_bias_readback_error m = bit_and (host hk_reg_34 m >>> 1) 0x1

abbrev pub smile_fee_get_hk_error_flag_ext_sdram_edac_corr_err_error : Mirror → ℕ
smile_fee_get_hk_error_flag_ext_sdram_edac_corr_err_error m = bit_and (host hk_reg_34 m >>> 5) 0x1

abbrev pub smile_fee_get_hk_error_flag_ext_sdram_edac_uncorr_err_error : Mirror → ℕ
smile_fee_get_hk_error_flag_ext_sdram_edac_uncorr_err_error m = bit_and (host hk_reg_34 m >>> 6) 0x1

abbrev pub smile_fee_get_hk_error_flag_spw_link_disconnect_error : Mirror → ℕ
smile_fee_get_hk_error_flag_spw_link_disconnect_error m = bit_and (host hk_reg_34 m >>> 7) 0x1

abbrev pub smile_fee_get_hk_error_flag_spw_link_escape_error : Mirror → ℕ
smile_fee_get_hk_error_flag_spw_link_escape_error m = bit_and (host hk_reg_34 m >>> 8) 0x1

abbrev pub smile_fee_get_hk_error_flag_spw_link_credit_error : Mirror → ℕ
smile_fee_get_hk_error_flag_spw_link_credit_error m = bit_and (host hk_reg_34 m >>> 9) 0x1

abbrev pub smile_fee_get_hk_error_flag_spw_link_parity_error : Mirror → ℕ
smile_fee_get_hk_error_flag_spw_link_parity_error m = bit_and (host hk_reg_34 m >>> 10) 0x1

abbrev pub smile_fee_set_hk_error_flag_spw_dac_on_bias_readback : ℕ → Mirror → Mirror
smile_fee_set_hk_error_flag_spw_dac_on_bias_readback error_flag_spw_dac_on_bias_readback m =
    update hk_reg_34
      (λ r. bit_or (bit_and r (complement 32 0x1)) (as_flag error_flag_spw_dac_on_bias_readback)) m

abbrev pub smile_fee_set_hk_error_flag_dac_off_bias_readback_error : ℕ → Mirror → Mirror
smile_fee_set_hk_error_flag_dac_off_bias_readback_error error_flag_dac_off_bias_readback_error m =
    update hk_reg_34
      (λ r.
        bit_or (bit_and r (complement 32 (0x1 <<< 1)))
          (as_flag error_flag_dac_off_bias_readback_error <<< 1))
      m

abbrev pub smile_fee_set_hk_error_flag_ext_sdram_edac_corr_err_error : ℕ → Mirror → Mirror
smile_fee_set_hk_error_flag_ext_sdram_edac_corr_err_error error_flag_ext_sdram_edac_corr_err_error
      m =
    update hk_reg_34
      (λ r.
        bit_or (bit_and r (complement 32 (0x1 <<< 5)))
          (as_flag error_flag_ext_sdram_edac_corr_err_error <<< 5))
      m

abbrev pub smile_fee_set_hk_error_flag_ext_sdram_edac_uncorr_err_error : ℕ → Mirror → Mirror
smile_fee_set_hk_error_flag_ext_sdram_edac_uncorr_err_error
      error_flag_ext_sdram_edac_uncorr_err_error m =
    update hk_reg_34
      (λ r.
        bit_or (bit_and r (complement 32 (0x1 <<< 6)))
          (as_flag error_flag_ext_sdram_edac_uncorr_err_error <<< 6))
      m

abbrev pub smile_fee_set_hk_error_flag_spw_link_disconnect_error : ℕ → Mirror → Mirror
smile_fee_set_hk_error_flag_spw_link_disconnect_error error_flag_spw_link_disconnect_error m =
    update hk_reg_34
      (λ r.
        bit_or (bit_and r (complement 32 (0x1 <<< 7)))
          (as_flag error_flag_spw_link_disconnect_error <<< 7))
      m

abbrev pub smile_fee_set_hk_error_flag_spw_link_escape_error : ℕ → Mirror → Mirror
smile_fee_set_hk_error_flag_spw_link_escape_error error_flag_spw_link_escape_error m =
    update hk_reg_34
      (λ r.
        bit_or (bit_and r (complement 32 (0x1 <<< 8)))
          (as_flag error_flag_spw_link_escape_error <<< 8))
      m

abbrev pub smile_fee_set_hk_error_flag_spw_link_credit_error : ℕ → Mirror → Mirror
smile_fee_set_hk_error_flag_spw_link_credit_error error_flag_spw_link_credit_error m =
    update hk_reg_34
      (λ r.
        bit_or (bit_and r (complement 32 (0x1 <<< 9)))
          (as_flag error_flag_spw_link_credit_error <<< 9))
      m

abbrev pub smile_fee_set_hk_error_flag_spw_link_parity_error : ℕ → Mirror → Mirror
smile_fee_set_hk_error_flag_spw_link_parity_error error_flag_spw_link_parity_error m =
    update hk_reg_34
      (λ r.
        bit_or (bit_and r (complement 32 (0x1 <<< 10)))
          (as_flag error_flag_spw_link_parity_error <<< 10))
      m

abbrev pub smile_fee_get_hk_fpga_minor_version : Mirror → ℕ
smile_fee_get_hk_fpga_minor_version m = u8 (bit_and (host hk_reg_35 m) 0xFF)

abbrev pub smile_fee_get_hk_fpga_major_version : Mirror → ℕ
smile_fee_get_hk_fpga_major_version m = u8 (bit_and (host hk_reg_35 m >>> 8) 0xF)

abbrev pub smile_fee_get_hk_board_id : Mirror → ℕ
smile_fee_get_hk_board_id m = u16 (bit_and (host hk_reg_35 m >>> 12) 0x1F)

abbrev pub smile_fee_get_cmic_corr : Mirror → ℕ
smile_fee_get_cmic_corr m = u16 (bit_and (host hk_reg_35 m >>> 17) 0xFFF)

abbrev pub smile_fee_set_hk_fpga_minor_version : ℕ → Mirror → Mirror
smile_fee_set_hk_fpga_minor_version minor m =
    update hk_reg_35 (λ r. bit_or (bit_and r (complement 32 0xFF)) (bit_and 0xFF minor)) m

abbrev pub smile_fee_set_hk_fpga_major_version : ℕ → Mirror → Mirror
smile_fee_set_hk_fpga_major_version major m =
    update hk_reg_35
      (λ r. bit_or (bit_and r (complement 32 (0xF <<< 8))) ((bit_and 0xF major) <<< 8)) m

abbrev pub smile_fee_set_hk_board_id : ℕ → Mirror → Mirror
smile_fee_set_hk_board_id id m =
    update hk_reg_35
      (λ r. bit_or (bit_and r (complement 32 (0x1F <<< 12))) ((bit_and 0x1F id) <<< 12)) m

abbrev pub smile_fee_set_cmic_corr : ℕ → Mirror → Mirror
smile_fee_set_cmic_corr corr m =
    update hk_reg_35
      (λ r. bit_or (bit_and r (complement 32 (0xFFF <<< 17))) ((bit_and 0xFFF corr) <<< 17)) m

abbrev pub smile_fee_get_hk_ccd2_f_pix_full_sun : Mirror → ℕ
smile_fee_get_hk_ccd2_f_pix_full_sun m = bit_and (u16 (host hk_reg_36 m >>> 16)) 0xFFFF

abbrev pub smile_fee_get_hk_ccd2_e_pix_full_sun : Mirror → ℕ
smile_fee_get_hk_ccd2_e_pix_full_sun m = bit_and (u16 (host hk_reg_36 m)) 0xFFFF

abbrev pub smile_fee_set_hk_ccd2_f_pix_full_sun : ℕ → Mirror → Mirror
smile_fee_set_hk_ccd2_f_pix_full_sun ccd2_e_pix_full_sun m =
    update hk_reg_36
      (λ r.
        bit_or (bit_and r (complement 32 (0xFFFF <<< 16)))
          ((bit_and 0xFFFF ccd2_e_pix_full_sun) <<< 16))
      m

abbrev pub smile_fee_set_hk_ccd2_e_pix_full_sun : ℕ → Mirror → Mirror
smile_fee_set_hk_ccd2_e_pix_full_sun ccd2_f_pix_full_sun m =
    update hk_reg_36
      (λ r. bit_or (bit_and r (complement 32 0xFFFF)) (bit_and 0xFFFF ccd2_f_pix_full_sun)) m

abbrev pub smile_fee_get_hk_ccd4_f_pix_full_sun : Mirror → ℕ
smile_fee_get_hk_ccd4_f_pix_full_sun m = bit_and (u16 (host hk_reg_37 m >>> 16)) 0xFFFF

abbrev pub smile_fee_get_hk_ccd4_e_pix_full_sun : Mirror → ℕ
smile_fee_get_hk_ccd4_e_pix_full_sun m = bit_and (u16 (host hk_reg_37 m)) 0xFFFF

abbrev pub smile_fee_set_hk_ccd4_f_pix_full_sun : ℕ → Mirror → Mirror
smile_fee_set_hk_ccd4_f_pix_full_sun ccd4_e_pix_full_sun m =
    update hk_reg_37
      (λ r.
        bit_or (bit_and r (complement 32 (0xFFFF <<< 16)))
          ((bit_and 0xFFFF ccd4_e_pix_full_sun) <<< 16))
      m

abbrev pub smile_fee_set_hk_ccd4_e_pix_full_sun : ℕ → Mirror → Mirror
smile_fee_set_hk_ccd4_e_pix_full_sun ccd4_f_pix_full_sun m =
    update hk_reg_37
      (λ r. bit_or (bit_and r (complement 32 0xFFFF)) (bit_and 0xFFFF ccd4_f_pix_full_sun)) m
