-- ===== src/Ctrl/Table/HkErrors.antt =====
-- The fields of the housekeeping registers 34 to 37, and that the code reads and sets them.
use smile_fee.Base.{List, refl, u16, arith}
use smile_fee.Base.{[], ◌∷◌, ◌>>>◌}
use smile_fee.Bits.{bit_and-ones}
use smile_fee.Link.Registers.Addresses.{hk_reg_34, hk_reg_35, hk_reg_36, hk_reg_37}
use smile_fee.Ctrl.Mirror.{host}
use smile_fee.Ctrl.Field.{Checked, checked, high_value, low_value, high_flag, low_flag}
use smile_fee.Ctrl.HkErrors.{
  smile_fee_get_hk_error_flag_spw_dac_on_bias_readback,
  smile_fee_get_hk_error_flag_dac_off_bias_readback_error,
  smile_fee_get_hk_error_flag_ext_sdram_edac_corr_err_error,
  smile_fee_get_hk_error_flag_ext_sdram_edac_uncorr_err_error,
  smile_fee_get_hk_error_flag_spw_link_disconnect_error,
  smile_fee_get_hk_error_flag_spw_link_escape_error,
  smile_fee_get_hk_error_flag_spw_link_credit_error,
}
use smile_fee.Ctrl.HkErrors.{
  smile_fee_get_hk_error_flag_spw_link_parity_error, smile_fee_get_hk_fpga_minor_version,
  smile_fee_get_hk_fpga_major_version, smile_fee_get_hk_board_id, smile_fee_get_cmic_corr,
  smile_fee_get_hk_ccd2_f_pix_full_sun, smile_fee_get_hk_ccd2_e_pix_full_sun,
}
use smile_fee.Ctrl.HkErrors.{
  smile_fee_get_hk_ccd4_f_pix_full_sun, smile_fee_get_hk_ccd4_e_pix_full_sun,
  smile_fee_set_hk_error_flag_spw_dac_on_bias_readback,
  smile_fee_set_hk_error_flag_dac_off_bias_readback_error,
  smile_fee_set_hk_error_flag_ext_sdram_edac_corr_err_error,
  smile_fee_set_hk_error_flag_ext_sdram_edac_uncorr_err_error,
  smile_fee_set_hk_error_flag_spw_link_disconnect_error,
}
use smile_fee.Ctrl.HkErrors.{
  smile_fee_set_hk_error_flag_spw_link_escape_error,
  smile_fee_set_hk_error_flag_spw_link_credit_error,
  smile_fee_set_hk_error_flag_spw_link_parity_error, smile_fee_set_hk_fpga_minor_version,
  smile_fee_set_hk_fpga_major_version, smile_fee_set_hk_board_id, smile_fee_set_cmic_corr,
}
use smile_fee.Ctrl.HkErrors.{
  smile_fee_set_hk_ccd2_f_pix_full_sun, smile_fee_set_hk_ccd2_e_pix_full_sun,
  smile_fee_set_hk_ccd4_f_pix_full_sun, smile_fee_set_hk_ccd4_e_pix_full_sun,
}

abbrev pub error_fields : List Checked
error_fields =
    checked (
      low_flag hk_reg_34 31 smile_fee_get_hk_error_flag_spw_dac_on_bias_readback
        smile_fee_set_hk_error_flag_spw_dac_on_bias_readback refl
        (λ m. omega (arith, bit_and-ones 1 (host hk_reg_34 m))) (λ v m. refl))
    ∷ checked (
        high_flag hk_reg_34 30 smile_fee_get_hk_error_flag_dac_off_bias_readback_error
          smile_fee_set_hk_error_flag_dac_off_bias_readback_error 1 refl
          (λ m. omega (arith, bit_and-ones 1 (host hk_reg_34 m >>> 1))) (λ v m. refl))
    ∷ checked (
        high_flag hk_reg_34 26 smile_fee_get_hk_error_flag_ext_sdram_edac_corr_err_error
          smile_fee_set_hk_error_flag_ext_sdram_edac_corr_err_error 5 refl
          (λ m. omega (arith, bit_and-ones 1 (host hk_reg_34 m >>> 5))) (λ v m. refl))
    ∷ checked (
        high_flag hk_reg_34 25 smile_fee_get_hk_error_flag_ext_sdram_edac_uncorr_err_error
          smile_fee_set_hk_error_flag_ext_sdram_edac_uncorr_err_error 6 refl
          (λ m. omega (arith, bit_and-ones 1 (host hk_reg_34 m >>> 6))) (λ v m. refl))
    ∷ checked (
        high_flag hk_reg_34 24 smile_fee_get_hk_error_flag_spw_link_disconnect_error
          smile_fee_set_hk_error_flag_spw_link_disconnect_error 7 refl
          (λ m. omega (arith, bit_and-ones 1 (host hk_reg_34 m >>> 7))) (λ v m. refl))
    ∷ checked (
        high_flag hk_reg_34 23 smile_fee_get_hk_error_flag_spw_link_escape_error
          smile_fee_set_hk_error_flag_spw_link_escape_error 8 refl
          (λ m. omega (arith, bit_and-ones 1 (host hk_reg_34 m >>> 8))) (λ v m. refl))
    ∷ checked (
        high_flag hk_reg_34 22 smile_fee_get_hk_error_flag_spw_link_credit_error
          smile_fee_set_hk_error_flag_spw_link_credit_error 9 refl
          (λ m. omega (arith, bit_and-ones 1 (host hk_reg_34 m >>> 9))) (λ v m. refl))
    ∷ checked (
        high_flag hk_reg_34 21 smile_fee_get_hk_error_flag_spw_link_parity_error
          smile_fee_set_hk_error_flag_spw_link_parity_error 10 refl
          (λ m. omega (arith, bit_and-ones 1 (host hk_reg_34 m >>> 10))) (λ v m. refl))
    ∷ []

abbrev pub version_fields : List Checked
version_fields =
    checked (
      low_value hk_reg_35 8 24 smile_fee_get_hk_fpga_minor_version
        smile_fee_set_hk_fpga_minor_version refl
        (λ m. omega (arith, bit_and-ones 8 (host hk_reg_35 m))) (λ v m. refl))
    ∷ checked (
        high_value hk_reg_35 4 20 smile_fee_get_hk_fpga_major_version
          smile_fee_set_hk_fpga_major_version 8 refl
          (λ m. omega (arith, bit_and-ones 4 (host hk_reg_35 m >>> 8))) (λ v m. refl))
    ∷ checked (
        high_value hk_reg_35 5 15 smile_fee_get_hk_board_id smile_fee_set_hk_board_id 12 refl
          (λ m. omega (arith, bit_and-ones 5 (host hk_reg_35 m >>> 12))) (λ v m. refl))
    ∷ checked (
        high_value hk_reg_35 12 3 smile_fee_get_cmic_corr smile_fee_set_cmic_corr 17 refl
          (λ m. omega (arith, bit_and-ones 12 (host hk_reg_35 m >>> 17))) (λ v m. refl))
    ∷ checked (
        high_value hk_reg_36 16 0 smile_fee_get_hk_ccd2_f_pix_full_sun
          smile_fee_set_hk_ccd2_f_pix_full_sun 16 refl
          (λ m. omega (arith, bit_and-ones 16 (u16 (host hk_reg_36 m >>> 16)))) (λ v m. refl))
    ∷ checked (
        low_value hk_reg_36 16 16 smile_fee_get_hk_ccd2_e_pix_full_sun
          smile_fee_set_hk_ccd2_e_pix_full_sun refl
          (λ m. omega (arith, bit_and-ones 16 (u16 (host hk_reg_36 m)))) (λ v m. refl))
    ∷ checked (
        high_value hk_reg_37 16 0 smile_fee_get_hk_ccd4_f_pix_full_sun
          smile_fee_set_hk_ccd4_f_pix_full_sun 16 refl
          (λ m. omega (arith, bit_and-ones 16 (u16 (host hk_reg_37 m >>> 16)))) (λ v m. refl))
    ∷ checked (
        low_value hk_reg_37 16 16 smile_fee_get_hk_ccd4_e_pix_full_sun
          smile_fee_set_hk_ccd4_e_pix_full_sun refl
          (λ m. omega (arith, bit_and-ones 16 (u16 (host hk_reg_37 m)))) (λ v m. refl))
    ∷ []
