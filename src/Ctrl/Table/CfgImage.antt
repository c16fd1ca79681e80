-- ===== src/Ctrl/Table/CfgImage.antt =====
-- The fields of the configuration registers 5 to 9, and that the code reads and sets them.
use smile_fee.Base.{List, refl, arith}
use smile_fee.Base.{[], ◌∷◌, ◌>>>◌}
use smile_fee.Bits.{bit_and-ones}
use smile_fee.Link.Registers.Addresses.{cfg_reg_5, cfg_reg_6, cfg_reg_7, cfg_reg_8, cfg_reg_9}
use smile_fee.Ctrl.Mirror.{host}
use smile_fee.Ctrl.Field.{Checked, checked, high_value, low_value, high_nonzero, high_flag}
use smile_fee.Ctrl.CfgImage.{
  smile_fee_get_trap_pumping_dwell_term, smile_fee_get_sync_sel, smile_fee_get_sel_pwr_sync,
  smile_fee_get_use_pwr_sync, smile_fee_get_digitise_en, smile_fee_get_correction_bypass,
  smile_fee_get_dg_en,
}
use smile_fee.Ctrl.CfgImage.{
  smile_fee_get_correction_type, smile_fee_get_edu_wandering_mask_en,
  smile_fee_get_readout_node_sel, smile_fee_get_full_sun_pix_threshold,
  smile_fee_get_readout_pause_counter, smile_fee_get_trap_pumping_shuffle_counter,
  smile_fee_get_cdsclp_lo,
}
use smile_fee.Ctrl.CfgImage.{
  smile_fee_get_rowclp_hi, smile_fee_set_trap_pumping_dwell_term, smile_fee_set_sync_sel,
  smile_fee_set_sel_pwr_sync, smile_fee_set_use_pwr_sync, smile_fee_set_digitise_en,
  smile_fee_set_correction_bypass,
}
use smile_fee.Ctrl.CfgImage.{
  smile_fee_set_dg_en, smile_fee_set_correction_type, smile_fee_set_edu_wandering_mask_en,
  smile_fee_set_readout_node_sel, smile_fee_set_full_sun_pix_threshold,
  smile_fee_set_readout_pause_counter, smile_fee_set_trap_pumping_shuffle_counter,
}
use smile_fee.Ctrl.CfgImage.{smile_fee_set_cdsclp_lo, smile_fee_set_rowclp_hi}

abbrev pub control_fields : List Checked
control_fields =
    checked (
      low_value cfg_reg_5 20 12 smile_fee_get_trap_pumping_dwell_term
        smile_fee_set_trap_pumping_dwell_term refl
        (λ m. omega (arith, bit_and-ones 20 (host cfg_reg_5 m))) (λ v m. refl))
    ∷ checked (
        high_flag cfg_reg_5 11 smile_fee_get_sync_sel smile_fee_set_sync_sel 20 refl
          (λ m. omega (arith, bit_and-ones 1 (host cfg_reg_5 m >>> 20))) (λ v m. refl))
    ∷ checked (
        high_flag cfg_reg_5 10 smile_fee_get_sel_pwr_sync smile_fee_set_sel_pwr_sync 21 refl
          (λ m. omega (arith, bit_and-ones 1 (host cfg_reg_5 m >>> 21))) (λ v m. refl))
    ∷ checked (
        high_flag cfg_reg_5 9 smile_fee_get_use_pwr_sync smile_fee_set_use_pwr_sync 22 refl
          (λ m. omega (arith, bit_and-ones 1 (host cfg_reg_5 m >>> 22))) (λ v m. refl))
    ∷ checked (
        high_flag cfg_reg_5 8 smile_fee_get_digitise_en smile_fee_set_digitise_en 23 refl
          (λ m. omega (arith, bit_and-ones 1 (host cfg_reg_5 m >>> 23))) (λ v m. refl))
    ∷ checked (
        high_flag cfg_reg_5 7 smile_fee_get_correction_bypass smile_fee_set_correction_bypass 24
          refl (λ m. omega (arith, bit_and-ones 1 (host cfg_reg_5 m >>> 24))) (λ v m. refl))
    ∷ checked (
        high_flag cfg_reg_5 6 smile_fee_get_dg_en smile_fee_set_dg_en 25 refl
          (λ m. omega (arith, bit_and-ones 1 (host cfg_reg_5 m >>> 25))) (λ v m. refl))
    ∷ checked (
        high_flag cfg_reg_5 5 smile_fee_get_correction_type smile_fee_set_correction_type 26 refl
          (λ m. omega (arith, bit_and-ones 1 (host cfg_reg_5 m >>> 26))) (λ v m. refl))
    ∷ checked (
        high_flag cfg_reg_5 4 smile_fee_get_edu_wandering_mask_en
          smile_fee_set_edu_wandering_mask_en 27 refl
          (λ m. omega (arith, bit_and-ones 1 (host cfg_reg_5 m >>> 27))) (λ v m. refl))
    ∷ checked (
        high_nonzero cfg_reg_5 4 0 smile_fee_get_readout_node_sel smile_fee_set_readout_node_sel 28
          refl (λ m. omega (arith, bit_and-ones 4 (host cfg_reg_5 m >>> 28))) (λ v m. ground arith))
    ∷ []

abbrev pub counter_fields : List Checked
counter_fields =
    checked (
      low_value cfg_reg_6 16 16 smile_fee_get_full_sun_pix_threshold
        smile_fee_set_full_sun_pix_threshold refl
        (λ m. omega (arith, bit_and-ones 16 (host cfg_reg_6 m))) (λ v m. refl))
    ∷ checked (
        low_value cfg_reg_7 16 16 smile_fee_get_readout_pause_counter
          smile_fee_set_readout_pause_counter refl
          (λ m. omega (arith, bit_and-ones 16 (host cfg_reg_7 m))) (λ v m. refl))
    ∷ checked (
        high_value cfg_reg_7 16 0 smile_fee_get_trap_pumping_shuffle_counter
          smile_fee_set_trap_pumping_shuffle_counter 16 refl
          (λ m. omega (arith, bit_and-ones 16 (host cfg_reg_7 m >>> 16))) (λ v m. refl))
    ∷ checked (
        high_value cfg_reg_8 12 0 smile_fee_get_cdsclp_lo smile_fee_set_cdsclp_lo 20 refl
          (λ m. omega (arith, bit_and-ones 12 (host cfg_reg_8 m >>> 20))) (λ v m. refl))
    ∷ checked (
        low_value cfg_reg_9 12 20 smile_fee_get_rowclp_hi smile_fee_set_rowclp_hi refl
          (λ m. omega (arith, bit_and-ones 12 (host cfg_reg_9 m))) (λ v m. refl))
    ∷ []
