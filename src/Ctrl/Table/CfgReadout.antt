-- ===== src/Ctrl/Table/CfgReadout.antt =====
-- The fields of the configuration registers 0 to 4, and that the code reads and sets them.
use smile_fee.Base.{List, refl, arith}
use smile_fee.Base.{[], ◌∷◌, ◌>>>◌, ◌<<<◌}
use smile_fee.Bits.{bit_and-ones}
use smile_fee.Link.Registers.Addresses.{cfg_reg_0, cfg_reg_1, cfg_reg_2, cfg_reg_3, cfg_reg_4}
use smile_fee.Ctrl.Mirror.{host, as_flag}
use smile_fee.Ctrl.Field.{Checked, checked, as_flag-lt, flag, masked-IsField, high_value}
use smile_fee.Ctrl.Field.{low_value, high_flag}
use smile_fee.Ctrl.CfgReadout.{
  smile_fee_get_ccd_readout, smile_fee_set_ccd_readout, smile_fee_get_vstart, smile_fee_get_vend,
  smile_fee_get_charge_injection_width, smile_fee_get_charge_injection_gap,
  smile_fee_get_parallel_toi_period,
}
use smile_fee.Ctrl.CfgReadout.{
  smile_fee_get_parallel_clk_overlap, smile_fee_get_n_final_dump, smile_fee_get_h_end,
  smile_fee_get_charge_injection, smile_fee_get_tri_level_clk, smile_fee_get_img_clk_dir,
  smile_fee_get_reg_clk_dir,
}
use smile_fee.Ctrl.CfgReadout.{
  smile_fee_get_packet_size, smile_fee_get_cdsclp_hi, smile_fee_set_vstart, smile_fee_set_vend,
  smile_fee_set_charge_injection_width, smile_fee_set_charge_injection_gap,
  smile_fee_set_parallel_toi_period,
}
use smile_fee.Ctrl.CfgReadout.{
  smile_fee_set_parallel_clk_overlap, smile_fee_set_n_final_dump, smile_fee_set_h_end,
  smile_fee_set_charge_injection, smile_fee_set_tri_level_clk, smile_fee_set_img_clk_dir,
  smile_fee_set_reg_clk_dir,
}
use smile_fee.Ctrl.CfgReadout.{smile_fee_set_packet_size, smile_fee_set_cdsclp_hi}

abbrev pub readout_fields : List Checked
readout_fields =
    checked (
      low_value cfg_reg_0 16 16 smile_fee_get_vstart smile_fee_set_vstart refl
        (λ m. omega (arith, bit_and-ones 16 (host cfg_reg_0 m))) (λ v m. refl))
    ∷ checked (
        high_value cfg_reg_0 16 0 smile_fee_get_vend smile_fee_set_vend 16 refl
          (λ m. omega (arith, bit_and-ones 16 (host cfg_reg_0 m >>> 16))) (λ v m. refl))
    ∷ checked (
        low_value cfg_reg_1 16 16 smile_fee_get_charge_injection_width
          smile_fee_set_charge_injection_width refl
          (λ m. omega (arith, bit_and-ones 16 (host cfg_reg_1 m))) (λ v m. refl))
    ∷ checked (
        high_value cfg_reg_1 16 0 smile_fee_get_charge_injection_gap
          smile_fee_set_charge_injection_gap 16 refl
          (λ m. omega (arith, bit_and-ones 16 (host cfg_reg_1 m >>> 16))) (λ v m. refl))
    ∷ checked (
        low_value cfg_reg_2 12 20 smile_fee_get_parallel_toi_period
          smile_fee_set_parallel_toi_period refl
          (λ m. omega (arith, bit_and-ones 12 (host cfg_reg_2 m))) (λ v m. refl))
    ∷ checked (
        high_value cfg_reg_2 12 8 smile_fee_get_parallel_clk_overlap
          smile_fee_set_parallel_clk_overlap 12 refl
          (λ m. omega (arith, bit_and-ones 12 (host cfg_reg_2 m >>> 12))) (λ v m. refl))
    ∷ checked (
        masked-IsField
          (flag cfg_reg_2 24 (smile_fee_get_ccd_readout 1) (smile_fee_set_ccd_readout 1)) 7 refl
          (λ m. omega (arith, bit_and-ones 1 ((host cfg_reg_2 m >>> 24) >>> 0))) as_flag-lt
          (λ v. (as_flag v <<< 0) <<< 24) (λ v. omega arith) (λ v m. refl))
    ∷ checked (
        masked-IsField
          (flag cfg_reg_2 25 (smile_fee_get_ccd_readout 2) (smile_fee_set_ccd_readout 2)) 6 refl
          (λ m. omega (arith, bit_and-ones 1 ((host cfg_reg_2 m >>> 24) >>> 1))) as_flag-lt
          (λ v. (as_flag v <<< 1) <<< 24) (λ v. omega arith) (λ v m. refl))
    ∷ []

abbrev pub clock_fields : List Checked
clock_fields =
    checked (
      low_value cfg_reg_3 16 16 smile_fee_get_n_final_dump smile_fee_set_n_final_dump refl
        (λ m. omega (arith, bit_and-ones 16 (host cfg_reg_3 m))) (λ v m. refl))
    ∷ checked (
        high_value cfg_reg_3 12 4 smile_fee_get_h_end smile_fee_set_h_end 16 refl
          (λ m. omega (arith, bit_and-ones 12 (host cfg_reg_3 m >>> 16))) (λ v m. refl))
    ∷ checked (
        high_flag cfg_reg_3 3 smile_fee_get_charge_injection smile_fee_set_charge_injection 28 refl
          (λ m. omega (arith, bit_and-ones 1 (host cfg_reg_3 m >>> 28))) (λ v m. refl))
    ∷ checked (
        high_flag cfg_reg_3 2 smile_fee_get_tri_level_clk smile_fee_set_tri_level_clk 29 refl
          (λ m. omega (arith, bit_and-ones 1 (host cfg_reg_3 m >>> 29))) (λ v m. refl))
    ∷ checked (
        high_flag cfg_reg_3 1 smile_fee_get_img_clk_dir smile_fee_set_img_clk_dir 30 refl
          (λ m. omega (arith, bit_and-ones 1 (host cfg_reg_3 m >>> 30))) (λ v m. refl))
    ∷ checked (
        high_flag cfg_reg_3 0 smile_fee_get_reg_clk_dir smile_fee_set_reg_clk_dir 31 refl
          (λ m. omega (arith, bit_and-ones 1 (host cfg_reg_3 m >>> 31))) (λ v m. refl))
    ∷ checked (
        low_value cfg_reg_4 16 16 smile_fee_get_packet_size smile_fee_set_packet_size refl
          (λ m. omega (arith, bit_and-ones 16 (host cfg_reg_4 m))) (λ v m. refl))
    ∷ checked (
        high_value cfg_reg_4 12 4 smile_fee_get_cdsclp_hi smile_fee_set_cdsclp_hi 16 refl
          (λ m. omega (arith, bit_and-ones 12 (host cfg_reg_4 m >>> 16))) (λ v m. refl))
    ∷ []
