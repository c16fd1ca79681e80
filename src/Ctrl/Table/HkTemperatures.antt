-- ===== src/Ctrl/Table/HkTemperatures.antt =====
-- The fields of the housekeeping registers 4 to 12, and that the code reads and sets them.
use smile_fee.Base.{List, refl, u16, arith}
use smile_fee.Base.{[], ◌∷◌, ◌>>>◌}
use smile_fee.Bits.{bit_and-ones}
use smile_fee.Link.Registers.Addresses.{
  hk_reg_4, hk_reg_5, hk_reg_6, hk_reg_7, hk_reg_8, hk_reg_9, hk_reg_10,
}
use smile_fee.Link.Registers.Addresses.{hk_reg_11, hk_reg_12}
use smile_fee.Ctrl.Mirror.{host}
use smile_fee.Ctrl.Field.{Checked, checked, high_value, low_value}
use smile_fee.Ctrl.HkTemperatures.{
  smile_fee_get_hk_ccd2_ts_a, smile_fee_get_hk_ccd4_ts_b, smile_fee_get_hk_prt1,
  smile_fee_get_hk_prt2, smile_fee_get_hk_prt3, smile_fee_get_hk_prt4, smile_fee_get_hk_prt5,
}
use smile_fee.Ctrl.HkTemperatures.{
  smile_fee_get_hk_ccd4_vod_mon_e, smile_fee_get_hk_ccd4_vog_mon, smile_fee_get_hk_ccd4_vrd_mon_e,
  smile_fee_get_hk_ccd2_vod_mon, smile_fee_get_hk_ccd2_vog_mon, smile_fee_get_hk_ccd2_vrd_mon_e,
  smile_fee_get_hk_ccd4_vrd_mon_f,
}
use smile_fee.Ctrl.HkTemperatures.{
  smile_fee_get_hk_ccd4_vdd_mon, smile_fee_get_hk_ccd4_vgd_mon, smile_fee_get_hk_ccd2_vrd_mon_f,
  smile_fee_set_hk_ccd2_ts_a, smile_fee_set_hk_ccd2_ts_b, smile_fee_set_hk_prt1,
  smile_fee_set_hk_prt2,
}
use smile_fee.Ctrl.HkTemperatures.{
  smile_fee_set_hk_prt3, smile_fee_set_hk_prt4, smile_fee_set_hk_prt5,
  smile_fee_set_hk_ccd4_vod_mon_e, smile_fee_set_hk_ccd4_vog_mon, smile_fee_set_hk_ccd4_vrd_mon_e,
  smile_fee_set_hk_ccd2_vod_mon,
}
use smile_fee.Ctrl.HkTemperatures.{
  smile_fee_set_hk_ccd2_vog_mon, smile_fee_set_hk_ccd2_vrd_mon_e, smile_fee_set_hk_ccd4_vrd_mon_f,
  smile_fee_set_hk_ccd4_vdd_mon, smile_fee_set_hk_ccd4_vgd_mon, smile_fee_set_hk_ccd2_vrd_mon_f,
}

abbrev pub temperature_fields : List Checked
temperature_fields =
    checked (
      high_value hk_reg_4 16 0 smile_fee_get_hk_ccd2_ts_a smile_fee_set_hk_ccd2_ts_a 16 refl
        (λ m. omega (arith, bit_and-ones 16 (u16 (host hk_reg_4 m >>> 16)))) (λ v m. refl))
    ∷ checked (
        low_value hk_reg_4 16 16 smile_fee_get_hk_ccd4_ts_b smile_fee_set_hk_ccd2_ts_b refl
          (λ m. omega (arith, bit_and-ones 16 (u16 (host hk_reg_4 m)))) (λ v m. refl))
    ∷ checked (
        high_value hk_reg_5 16 0 smile_fee_get_hk_prt1 smile_fee_set_hk_prt1 16 refl
          (λ m. omega (arith, bit_and-ones 16 (u16 (host hk_reg_5 m >>> 16)))) (λ v m. refl))
    ∷ checked (
        low_value hk_reg_5 16 16 smile_fee_get_hk_prt2 smile_fee_set_hk_prt2 refl
          (λ m. omega (arith, bit_and-ones 16 (u16 (host hk_reg_5 m)))) (λ v m. refl))
    ∷ checked (
        high_value hk_reg_6 16 0 smile_fee_get_hk_prt3 smile_fee_set_hk_prt3 16 refl
          (λ m. omega (arith, bit_and-ones 16 (u16 (host hk_reg_6 m >>> 16)))) (λ v m. refl))
    ∷ checked (
        low_value hk_reg_6 16 16 smile_fee_get_hk_prt4 smile_fee_set_hk_prt4 refl
          (λ m. omega (arith, bit_and-ones 16 (u16 (host hk_reg_6 m)))) (λ v m. refl))
    ∷ checked (
        high_value hk_reg_7 16 0 smile_fee_get_hk_prt5 smile_fee_set_hk_prt5 16 refl
          (λ m. omega (arith, bit_and-ones 16 (u16 (host hk_reg_7 m >>> 16)))) (λ v m. refl))
    ∷ checked (
        high_value hk_reg_8 16 0 smile_fee_get_hk_ccd4_vod_mon_e smile_fee_set_hk_ccd4_vod_mon_e 16
          refl (λ m. omega (arith, bit_and-ones 16 (u16 (host hk_reg_8 m >>> 16)))) (λ v m. refl))
    ∷ checked (
        low_value hk_reg_8 16 16 smile_fee_get_hk_ccd4_vog_mon smile_fee_set_hk_ccd4_vog_mon refl
          (λ m. omega (arith, bit_and-ones 16 (u16 (host hk_reg_8 m)))) (λ v m. refl))
    ∷ []

abbrev pub monitor_fields : List Checked
monitor_fields =
    checked (
      high_value hk_reg_9 16 0 smile_fee_get_hk_ccd4_vrd_mon_e smile_fee_set_hk_ccd4_vrd_mon_e 16
        refl (λ m. omega (arith, bit_and-ones 16 (u16 (host hk_reg_9 m >>> 16)))) (λ v m. refl))
    ∷ checked (
        low_value hk_reg_9 16 16 smile_fee_get_hk_ccd2_vod_mon smile_fee_set_hk_ccd2_vod_mon refl
          (λ m. omega (arith, bit_and-ones 16 (u16 (host hk_reg_9 m)))) (λ v m. refl))
    ∷ checked (
        high_value hk_reg_10 16 0 smile_fee_get_hk_ccd2_vog_mon smile_fee_set_hk_ccd2_vog_mon 16
          refl (λ m. omega (arith, bit_and-ones 16 (u16 (host hk_reg_10 m >>> 16)))) (λ v m. refl))
    ∷ checked (
        low_value hk_reg_10 16 16 smile_fee_get_hk_ccd2_vrd_mon_e smile_fee_set_hk_ccd2_vrd_mon_e
          refl (λ m. omega (arith, bit_and-ones 16 (u16 (host hk_reg_10 m)))) (λ v m. refl))
    ∷ checked (
        high_value hk_reg_11 16 0 smile_fee_get_hk_ccd4_vrd_mon_f smile_fee_set_hk_ccd4_vrd_mon_f 16
          refl (λ m. omega (arith, bit_and-ones 16 (u16 (host hk_reg_11 m >>> 16)))) (λ v m. refl))
    ∷ checked (
        low_value hk_reg_11 16 16 smile_fee_get_hk_ccd4_vdd_mon smile_fee_set_hk_ccd4_vdd_mon refl
          (λ m. omega (arith, bit_and-ones 16 (u16 (host hk_reg_11 m)))) (λ v m. refl))
    ∷ checked (
        high_value hk_reg_12 16 0 smile_fee_get_hk_ccd4_vgd_mon smile_fee_set_hk_ccd4_vgd_mon 16
          refl (λ m. omega (arith, bit_and-ones 16 (u16 (host hk_reg_12 m >>> 16)))) (λ v m. refl))
    ∷ checked (
        low_value hk_reg_12 16 16 smile_fee_get_hk_ccd2_vrd_mon_f smile_fee_set_hk_ccd2_vrd_mon_f
          refl (λ m. omega (arith, bit_and-ones 16 (u16 (host hk_reg_12 m)))) (λ v m. refl))
    ∷ []
