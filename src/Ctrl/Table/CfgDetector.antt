-- ===== src/Ctrl/Table/CfgDetector.antt =====
-- The fields of the configuration registers 14 to 25, and that the code reads and sets them.
use smile_fee.Base.{List, refl, arith}
use smile_fee.Base.{[], ◌∷◌, ◌>>>◌}
use smile_fee.Bits.{bit_and-ones}
use smile_fee.Link.Registers.Addresses.{
  cfg_reg_14, cfg_reg_15, cfg_reg_16, cfg_reg_17, cfg_reg_18, cfg_reg_19, cfg_reg_20,
}
use smile_fee.Link.Registers.Addresses.{cfg_reg_21, cfg_reg_22, cfg_reg_23, cfg_reg_24, cfg_reg_25}
use smile_fee.Ctrl.Mirror.{host}
use smile_fee.Ctrl.Field.{
  Checked, checked, high_value, low_value, high_nonzero, high_flag, low_flag,
}
use smile_fee.Ctrl.Field.{whole_value}
use smile_fee.Ctrl.CfgDetector.{
  smile_fee_get_ccd2_vod_config, smile_fee_get_ccd4_vod_config, smile_fee_get_ccd2_vrd_config,
  smile_fee_get_ccd4_vrd_config, smile_fee_get_ccd2_vgd_config, smile_fee_get_ccd4_vgd_config,
  smile_fee_get_ccd_vog_config,
}
use smile_fee.Ctrl.CfgDetector.{
  smile_fee_get_rowclp_lo, smile_fee_get_ccd_mode_config, smile_fee_get_ccd_mode2_config,
  smile_fee_get_event_detection, smile_fee_get_clear_error_flag, smile_fee_get_ccd2_e_pix_threshold,
  smile_fee_get_ccd2_f_pix_threshold,
}
use smile_fee.Ctrl.CfgDetector.{
  smile_fee_get_ccd4_e_pix_threshold, smile_fee_get_ccd4_f_pix_threshold,
  smile_fee_get_event_pkt_limit, smile_fee_get_execute_op, smile_fee_set_ccd2_vod_config,
  smile_fee_set_ccd4_vod_config, smile_fee_set_ccd2_vrd_config,
}
use smile_fee.Ctrl.CfgDetector.{
  smile_fee_set_ccd4_vrd_config, smile_fee_set_ccd2_vgd_config, smile_fee_set_ccd4_vgd_config,
  smile_fee_set_ccd_vog_config, smile_fee_set_rowclp_lo, smile_fee_set_ccd_mode_config,
  smile_fee_set_ccd_mode2_config,
}
use smile_fee.Ctrl.CfgDetector.{
  smile_fee_set_event_detection, smile_fee_set_clear_error_flag, smile_fee_set_ccd2_e_pix_threshold,
  smile_fee_set_ccd2_f_pix_threshold, smile_fee_set_ccd4_e_pix_threshold,
  smile_fee_set_ccd4_f_pix_threshold, smile_fee_set_event_pkt_limit,
}
use smile_fee.Ctrl.CfgDetector.{smile_fee_set_execute_op}

abbrev pub voltage_fields : List Checked
voltage_fields =
    checked (
      whole_value cfg_reg_14 smile_fee_get_ccd2_vod_config smile_fee_set_ccd2_vod_config (λ m. refl)
        (λ v m. refl))
    ∷ checked (
        whole_value cfg_reg_15 smile_fee_get_ccd4_vod_config smile_fee_set_ccd4_vod_config
          (λ m. refl) (λ v m. refl))
    ∷ checked (
        whole_value cfg_reg_16 smile_fee_get_ccd2_vrd_config smile_fee_set_ccd2_vrd_config
          (λ m. refl) (λ v m. refl))
    ∷ checked (
        whole_value cfg_reg_17 smile_fee_get_ccd4_vrd_config smile_fee_set_ccd4_vrd_config
          (λ m. refl) (λ v m. refl))
    ∷ checked (
        whole_value cfg_reg_18 smile_fee_get_ccd2_vgd_config smile_fee_set_ccd2_vgd_config
          (λ m. refl) (λ v m. refl))
    ∷ checked (
        whole_value cfg_reg_19 smile_fee_get_ccd4_vgd_config smile_fee_set_ccd4_vgd_config
          (λ m. refl) (λ v m. refl))
    ∷ checked (
        whole_value cfg_reg_20 smile_fee_get_ccd_vog_config smile_fee_set_ccd_vog_config (λ m. refl)
          (λ v m. refl))
    ∷ []

abbrev pub event_fields : List Checked
event_fields =
    checked (
      low_value cfg_reg_21 12 20 smile_fee_get_rowclp_lo smile_fee_set_rowclp_lo refl
        (λ m. omega (arith, bit_and-ones 12 (host cfg_reg_21 m))) (λ v m. refl))
    ∷ checked (
        high_value cfg_reg_21 4 4 smile_fee_get_ccd_mode_config smile_fee_set_ccd_mode_config 24
          refl (λ m. omega (arith, bit_and-ones 4 (host cfg_reg_21 m >>> 24))) (λ v m. refl))
    ∷ checked (
        high_nonzero cfg_reg_21 2 2 smile_fee_get_ccd_mode2_config smile_fee_set_ccd_mode2_config 28
          refl (λ m. omega (arith, bit_and-ones 2 (host cfg_reg_21 m >>> 28)))
          (λ v m. ground arith))
    ∷ checked (
        high_flag cfg_reg_21 1 smile_fee_get_event_detection smile_fee_set_event_detection 30 refl
          (λ m. omega (arith, bit_and-ones 1 (host cfg_reg_21 m >>> 30))) (λ v m. refl))
    ∷ checked (
        high_flag cfg_reg_21 0 smile_fee_get_clear_error_flag smile_fee_set_clear_error_flag 31 refl
          (λ m. omega (arith, bit_and-ones 1 (host cfg_reg_21 m >>> 31))) (λ v m. refl))
    ∷ checked (
        low_value cfg_reg_22 16 16 smile_fee_get_ccd2_e_pix_threshold
          smile_fee_set_ccd2_e_pix_threshold refl
          (λ m. omega (arith, bit_and-ones 16 (host cfg_reg_22 m))) (λ v m. refl))
    ∷ checked (
        high_value cfg_reg_22 16 0 smile_fee_get_ccd2_f_pix_threshold
          smile_fee_set_ccd2_f_pix_threshold 16 refl
          (λ m. omega (arith, bit_and-ones 16 (host cfg_reg_22 m >>> 16))) (λ v m. refl))
    ∷ checked (
        low_value cfg_reg_23 16 16 smile_fee_get_ccd4_e_pix_threshold
          smile_fee_set_ccd4_e_pix_threshold refl
          (λ m. omega (arith, bit_and-ones 16 (host cfg_reg_23 m))) (λ v m. refl))
    ∷ checked (
        high_value cfg_reg_23 16 0 smile_fee_get_ccd4_f_pix_threshold
          smile_fee_set_ccd4_f_pix_threshold 16 refl
          (λ m. omega (arith, bit_and-ones 16 (host cfg_reg_23 m >>> 16))) (λ v m. refl))
    ∷ checked (
        high_value cfg_reg_24 24 0 smile_fee_get_event_pkt_limit smile_fee_set_event_pkt_limit 8
          refl (λ m. omega (arith, bit_and-ones 24 (host cfg_reg_24 m >>> 8))) (λ v m. refl))
    ∷ checked (
        low_flag cfg_reg_25 31 smile_fee_get_execute_op smile_fee_set_execute_op refl
          (λ m. omega (arith, bit_and-ones 1 (host cfg_reg_25 m))) (λ v m. refl))
    ∷ []
