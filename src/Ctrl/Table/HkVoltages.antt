-- ===== src/Ctrl/Table/HkVoltages.antt =====
-- The fields of the housekeeping registers 13 to 23, and that the code reads and sets them.
use smile_fee.Base.{List, refl, u16, arith}
use smile_fee.Base.{[], ◌∷◌, ◌>>>◌}
use smile_fee.Bits.{bit_and-ones}
use smile_fee.Link.Registers.Addresses.{
  hk_reg_13, hk_reg_14, hk_reg_15, hk_reg_16, hk_reg_17, hk_reg_18, hk_reg_19,
}
use smile_fee.Link.Registers.Addresses.{hk_reg_20, hk_reg_21, hk_reg_22, hk_reg_23}
use smile_fee.Ctrl.Mirror.{host}
use smile_fee.Ctrl.Field.{Checked, checked, high_value, low_value}
use smile_fee.Ctrl.HkVoltages.{
  smile_fee_get_hk_ccd2_vdd_mon, smile_fee_get_hk_ccd2_vgd_mon, smile_fee_get_hk_vccd,
  smile_fee_get_hk_vrclk_mon, smile_fee_get_hk_viclk, smile_fee_get_hk_ccd4_vod_mon_f,
  smile_fee_get_hk_5vb_pos_mon,
}
use smile_fee.Ctrl.HkVoltages.{
  smile_fee_get_hk_5vb_neg_mon, smile_fee_get_hk_3v3b_mon, smile_fee_get_hk_2v5a_mon,
  smile_fee_get_hk_3v3d_mon, smile_fee_get_hk_2v5d_mon, smile_fee_get_hk_1v2d_mon,
  smile_fee_get_hk_5vref_mon,
}
use smile_fee.Ctrl.HkVoltages.{
  smile_fee_get_hk_vccd_pos_raw, smile_fee_get_hk_vclk_pos_raw, smile_fee_get_hk_van1_pos_raw,
  smile_fee_get_hk_van3_neg_mon, smile_fee_get_hk_van2_pos_raw, smile_fee_get_hk_vdig_raw,
  smile_fee_get_hk_ig_hi_mon,
}
use smile_fee.Ctrl.HkVoltages.{
  smile_fee_get_hk_ccd2_vod_mon_f, smile_fee_set_hk_ccd2_vdd_mon, smile_fee_set_hk_ccd2_vgd_mon,
  smile_fee_set_hk_vccd, smile_fee_set_hk_vrclk_mon, smile_fee_set_hk_viclk,
  smile_fee_set_hk_ccd4_vod_mon_f,
}
use smile_fee.Ctrl.HkVoltages.{
  smile_fee_set_hk_5vb_pos_mon, smile_fee_set_hk_5vb_neg_mon, smile_fee_set_hk_3v3b_mon,
  smile_fee_set_hk_2v5a_mon, smile_fee_set_hk_3v3d_mon, smile_fee_set_hk_2v5d_mon,
  smile_fee_set_hk_1v2d_mon,
}
use smile_fee.Ctrl.HkVoltages.{
  smile_fee_set_hk_5vref_mon, smile_fee_set_hk_vccd_pos_raw, smile_fee_set_hk_vclk_pos_raw,
  smile_fee_set_hk_van1_pos_raw, smile_fee_set_hk_van3_neg_monw, smile_fee_set_hk_van2_pos_raw,
  smile_fee_set_hk_vdig_raw,
}
use smile_fee.Ctrl.HkVoltages.{smile_fee_set_hk_ig_hi_mon, smile_fee_set_hk_ccd2_vod_mon_f}

abbrev pub bias_fields : List Checked
bias_fields =
    checked (
      high_value hk_reg_13 16 0 smile_fee_get_hk_ccd2_vdd_mon smile_fee_set_hk_ccd2_vdd_mon 16 refl
        (λ m. omega (arith, bit_and-ones 16 (u16 (host hk_reg_13 m >>> 16)))) (λ v m. refl))
    ∷ checked (
        low_value hk_reg_13 16 16 smile_fee_get_hk_ccd2_vgd_mon smile_fee_set_hk_ccd2_vgd_mon refl
          (λ m. omega (arith, bit_and-ones 16 (u16 (host hk_reg_13 m)))) (λ v m. refl))
    ∷ checked (
        high_value hk_reg_14 16 0 smile_fee_get_hk_vccd smile_fee_set_hk_vccd 16 refl
          (λ m. omega (arith, bit_and-ones 16 (u16 (host hk_reg_14 m >>> 16)))) (λ v m. refl))
    ∷ checked (
        low_value hk_reg_14 16 16 smile_fee_get_hk_vrclk_mon smile_fee_set_hk_vrclk_mon refl
          (λ m. omega (arith, bit_and-ones 16 (u16 (host hk_reg_14 m)))) (λ v m. refl))
    ∷ checked (
        high_value hk_reg_15 16 0 smile_fee_get_hk_viclk smile_fee_set_hk_viclk 16 refl
          (λ m. omega (arith, bit_and-ones 16 (u16 (host hk_reg_15 m >>> 16)))) (λ v m. refl))
    ∷ checked (
        low_value hk_reg_15 16 16 smile_fee_get_hk_ccd4_vod_mon_f smile_fee_set_hk_ccd4_vod_mon_f
          refl (λ m. omega (arith, bit_and-ones 16 (u16 (host hk_reg_15 m)))) (λ v m. refl))
    ∷ checked (
        high_value hk_reg_16 16 0 smile_fee_get_hk_5vb_pos_mon smile_fee_set_hk_5vb_pos_mon 16 refl
          (λ m. omega (arith, bit_and-ones 16 (u16 (host hk_reg_16 m >>> 16)))) (λ v m. refl))
    ∷ checked (
        low_value hk_reg_16 16 16 smile_fee_get_hk_5vb_neg_mon smile_fee_set_hk_5vb_neg_mon refl
          (λ m. omega (arith, bit_and-ones 16 (u16 (host hk_reg_16 m)))) (λ v m. refl))
    ∷ checked (
        high_value hk_reg_17 16 0 smile_fee_get_hk_3v3b_mon smile_fee_set_hk_3v3b_mon 16 refl
          (λ m. omega (arith, bit_and-ones 16 (u16 (host hk_reg_17 m >>> 16)))) (λ v m. refl))
    ∷ checked (
        low_value hk_reg_17 16 16 smile_fee_get_hk_2v5a_mon smile_fee_set_hk_2v5a_mon refl
          (λ m. omega (arith, bit_and-ones 16 (u16 (host hk_reg_17 m)))) (λ v m. refl))
    ∷ checked (
        high_value hk_reg_18 16 0 smile_fee_get_hk_3v3d_mon smile_fee_set_hk_3v3d_mon 16 refl
          (λ m. omega (arith, bit_and-ones 16 (u16 (host hk_reg_18 m >>> 16)))) (λ v m. refl))
    ∷ checked (
        low_value hk_reg_18 16 16 smile_fee_get_hk_2v5d_mon smile_fee_set_hk_2v5d_mon refl
          (λ m. omega (arith, bit_and-ones 16 (u16 (host hk_reg_18 m)))) (λ v m. refl))
    ∷ []

abbrev pub supply_fields : List Checked
supply_fields =
    checked (
      high_value hk_reg_19 16 0 smile_fee_get_hk_1v2d_mon smile_fee_set_hk_1v2d_mon 16 refl
        (λ m. omega (arith, bit_and-ones 16 (u16 (host hk_reg_19 m >>> 16)))) (λ v m. refl))
    ∷ checked (
        low_value hk_reg_19 16 16 smile_fee_get_hk_5vref_mon smile_fee_set_hk_5vref_mon refl
          (λ m. omega (arith, bit_and-ones 16 (u16 (host hk_reg_19 m)))) (λ v m. refl))
    ∷ checked (
        high_value hk_reg_20 16 0 smile_fee_get_hk_vccd_pos_raw smile_fee_set_hk_vccd_pos_raw 16
          refl (λ m. omega (arith, bit_and-ones 16 (u16 (host hk_reg_20 m >>> 16)))) (λ v m. refl))
    ∷ checked (
        low_value hk_reg_20 16 16 smile_fee_get_hk_vclk_pos_raw smile_fee_set_hk_vclk_pos_raw refl
          (λ m. omega (arith, bit_and-ones 16 (u16 (host hk_reg_20 m)))) (λ v m. refl))
    ∷ checked (
        high_value hk_reg_21 16 0 smile_fee_get_hk_van1_pos_raw smile_fee_set_hk_van1_pos_raw 16
          refl (λ m. omega (arith, bit_and-ones 16 (u16 (host hk_reg_21 m >>> 16)))) (λ v m. refl))
    ∷ checked (
        low_value hk_reg_21 16 16 smile_fee_get_hk_van3_neg_mon smile_fee_set_hk_van3_neg_monw refl
          (λ m. omega (arith, bit_and-ones 16 (u16 (host hk_reg_21 m)))) (λ v m. refl))
    ∷ checked (
        high_value hk_reg_22 16 0 smile_fee_get_hk_van2_pos_raw smile_fee_set_hk_van2_pos_raw 16
          refl (λ m. omega (arith, bit_and-ones 16 (u16 (host hk_reg_22 m >>> 16)))) (λ v m. refl))
    ∷ checked (
        low_value hk_reg_22 16 16 smile_fee_get_hk_vdig_raw smile_fee_set_hk_vdig_raw refl
          (λ m. omega (arith, bit_and-ones 16 (u16 (host hk_reg_22 m)))) (λ v m. refl))
    ∷ checked (
        high_value hk_reg_23 16 0 smile_fee_get_hk_ig_hi_mon smile_fee_set_hk_ig_hi_mon 16 refl
          (λ m. omega (arith, bit_and-ones 16 (u16 (host hk_reg_23 m >>> 16)))) (λ v m. refl))
    ∷ checked (
        low_value hk_reg_23 16 16 smile_fee_get_hk_ccd2_vod_mon_f smile_fee_set_hk_ccd2_vod_mon_f
          refl (λ m. omega (arith, bit_and-ones 16 (u16 (host hk_reg_23 m)))) (λ v m. refl))
    ∷ []
