-- ===== src/Ctrl/Table/HkLink.antt =====
-- The fields of the housekeeping registers 32 and 33, and that the code reads and sets them.
use smile_fee.Base.{List, refl, u8, bit_and, arith}
use smile_fee.Base.{[], ◌∷◌, ◌>>>◌, ◌%◌, ◌^◌}
use smile_fee.Bits.{bit_and-ones}
use smile_fee.Link.Registers.Addresses.{hk_reg_32, hk_reg_33}
use smile_fee.Ctrl.Mirror.{host}
use smile_fee.Ctrl.Field.{Checked, checked, value, IsField, masked-IsField, high_value, high_flag}
use smile_fee.Ctrl.Field.{low_flag}
use smile_fee.Ctrl.HkLink.{
  smile_fee_get_spw_id, smile_fee_get_hk_timecode_from_spw, smile_fee_get_hk_rmap_target_status,
  smile_fee_get_hk_rmap_target_indicate, smile_fee_get_hk_spw_link_escape_error,
  smile_fee_get_hk_spw_link_credit_error, smile_fee_get_hk_spw_link_parity_error,
}
use smile_fee.Ctrl.HkLink.{
  smile_fee_get_hk_spw_link_disconnect, smile_fee_get_hk_spw_link_running,
  smile_fee_get_hk_frame_counter, smile_fee_get_hk_fpga_op_mode, smile_fee_set_spw_id,
  smile_fee_set_hk_timecode_from_spw, smile_fee_set_hk_rmap_target_status,
}
use smile_fee.Ctrl.HkLink.{
  smile_fee_set_hk_rmap_target_indicate, smile_fee_set_hk_spw_link_escape_error,
  smile_fee_set_hk_spw_link_credit_error, smile_fee_set_hk_spw_link_parity_error,
  smile_fee_set_hk_spw_link_disconnect_error, smile_fee_set_hk_spw_link_running,
  smile_fee_set_hk_frame_counter,
}
use smile_fee.Ctrl.HkLink.{smile_fee_set_hk_fpga_op_mode}

-- Only four of the seven digits are set.
pub op_mode-IsField :
    IsField
      (record (value hk_reg_33 0 7 smile_fee_get_hk_fpga_op_mode smile_fee_set_hk_fpga_op_mode) {
        encode = λ v. v % 2 ^ 4;
      })
op_mode-IsField =
    masked-IsField
      (record (value hk_reg_33 0 7 smile_fee_get_hk_fpga_op_mode smile_fee_set_hk_fpga_op_mode) {
        encode = λ v. v % 2 ^ 4;
      })
      25 refl (λ m. omega (arith, bit_and-ones 7 (u8 (host hk_reg_33 m)))) (λ v. omega arith)
      (λ v. bit_and v 0xF) (λ v. omega (arith, bit_and-ones 4 v)) (λ v m. refl)

abbrev pub link_fields : List Checked
link_fields =
    checked (
      high_value hk_reg_32 2 6 smile_fee_get_spw_id smile_fee_set_spw_id 24 refl
        (λ m. omega (arith, bit_and-ones 2 (u8 (host hk_reg_32 m >>> 24)))) (λ v m. refl))
    ∷ checked (
        high_value hk_reg_32 8 8 smile_fee_get_hk_timecode_from_spw
          smile_fee_set_hk_timecode_from_spw 16 refl
          (λ m. omega (arith, bit_and-ones 8 (u8 (host hk_reg_32 m >>> 16)))) (λ v m. refl))
    ∷ checked (
        high_value hk_reg_32 8 16 smile_fee_get_hk_rmap_target_status
          smile_fee_set_hk_rmap_target_status 8 refl
          (λ m. omega (arith, bit_and-ones 8 (u8 (host hk_reg_32 m >>> 8)))) (λ v m. refl))
    ∷ checked (
        high_flag hk_reg_32 26 smile_fee_get_hk_rmap_target_indicate
          smile_fee_set_hk_rmap_target_indicate 5 refl
          (λ m. omega (arith, bit_and-ones 1 (host hk_reg_32 m >>> 5))) (λ v m. refl))
    ∷ checked (
        high_flag hk_reg_32 27 smile_fee_get_hk_spw_link_escape_error
          smile_fee_set_hk_spw_link_escape_error 4 refl
          (λ m. omega (arith, bit_and-ones 1 (host hk_reg_32 m >>> 4))) (λ v m. refl))
    ∷ checked (
        high_flag hk_reg_32 28 smile_fee_get_hk_spw_link_credit_error
          smile_fee_set_hk_spw_link_credit_error 3 refl
          (λ m. omega (arith, bit_and-ones 1 (host hk_reg_32 m >>> 3))) (λ v m. refl))
    ∷ checked (
        high_flag hk_reg_32 29 smile_fee_get_hk_spw_link_parity_error
          smile_fee_set_hk_spw_link_parity_error 2 refl
          (λ m. omega (arith, bit_and-ones 1 (host hk_reg_32 m >>> 2))) (λ v m. refl))
    ∷ checked (
        high_flag hk_reg_32 30 smile_fee_get_hk_spw_link_disconnect
          smile_fee_set_hk_spw_link_disconnect_error 1 refl
          (λ m. omega (arith, bit_and-ones 1 (host hk_reg_32 m >>> 1))) (λ v m. refl))
    ∷ checked (
        low_flag hk_reg_32 31 smile_fee_get_hk_spw_link_running smile_fee_set_hk_spw_link_running
          refl (λ m. omega (arith, bit_and-ones 1 (host hk_reg_32 m))) (λ v m. refl))
    ∷ checked (
        high_value hk_reg_33 16 0 smile_fee_get_hk_frame_counter smile_fee_set_hk_frame_counter 16
          refl (λ m. omega (arith, bit_and-ones 16 (host hk_reg_33 m >>> 16))) (λ v m. refl))
    ∷ checked (op_mode-IsField)
    ∷ []
