-- ===== src/Ctrl/HkLink.antt =====
-- The values of the housekeeping registers 32 and 33 in the mirror, as FEE/smile_fee_ctrl.c reads and
-- sets them. An argument is a value of its C type.
use smile_fee.Base.{ℕ, u8, complement, bit_and, bit_or}
use smile_fee.Base.{◌<<<◌, ◌>>>◌}
use smile_fee.Link.Registers.Addresses.{hk_reg_32, hk_reg_33}
use smile_fee.Ctrl.Mirror.{Mirror, host, update, as_flag}

abbrev pub smile_fee_get_spw_id : Mirror → ℕ
smile_fee_get_spw_id m = bit_and (u8 (host hk_reg_32 m >>> 24)) 0x3

abbrev pub smile_fee_get_hk_timecode_from_spw : Mirror → ℕ
smile_fee_get_hk_timecode_from_spw m = bit_and (u8 (host hk_reg_32 m >>> 16)) 0xFF

abbrev pub smile_fee_get_hk_rmap_target_status : Mirror → ℕ
smile_fee_get_hk_rmap_target_status m = bit_and (u8 (host hk_reg_32 m >>> 8)) 0xFF

abbrev pub smile_fee_get_hk_rmap_target_indicate : Mirror → ℕ
smile_fee_get_hk_rmap_target_indicate m = bit_and (host hk_reg_32 m >>> 5) 0x1

abbrev pub smile_fee_get_hk_spw_link_escape_error : Mirror → ℕ
smile_fee_get_hk_spw_link_escape_error m = bit_and (host hk_reg_32 m >>> 4) 0x1

abbrev pub smile_fee_get_hk_spw_link_credit_error : Mirror → ℕ
smile_fee_get_hk_spw_link_credit_error m = bit_and (host hk_reg_32 m >>> 3) 0x1

abbrev pub smile_fee_get_hk_spw_link_parity_error : Mirror → ℕ
smile_fee_get_hk_spw_link_parity_error m = bit_and (host hk_reg_32 m >>> 2) 0x1

abbrev pub smile_fee_get_hk_spw_link_disconnect : Mirror → ℕ
smile_fee_get_hk_spw_link_disconnect m = bit_and (host hk_reg_32 m >>> 1) 0x1

abbrev pub smile_fee_get_hk_spw_link_running : Mirror → ℕ
smile_fee_get_hk_spw_link_running m = bit_and (host hk_reg_32 m) 0x1

abbrev pub smile_fee_set_spw_id : ℕ → Mirror → Mirror
smile_fee_set_spw_id spw_id m =
    update hk_reg_32
      (λ r. bit_or (bit_and r (complement 32 (0x3 <<< 24))) ((bit_and 0x3 spw_id) <<< 24)) m

abbrev pub smile_fee_set_hk_timecode_from_spw : ℕ → Mirror → Mirror
smile_fee_set_hk_timecode_from_spw timecode_from_spw m =
    update hk_reg_32
      (λ r.
        bit_or (bit_and r (complement 32 (0xFF <<< 16))) ((bit_and 0xFF timecode_from_spw) <<< 16))
      m

abbrev pub smile_fee_set_hk_rmap_target_status : ℕ → Mirror → Mirror
smile_fee_set_hk_rmap_target_status rmap_target_status m =
    update hk_reg_32
      (λ r.
        bit_or (bit_and r (complement 32 (0xFF <<< 8))) ((bit_and 0xFF rmap_target_status) <<< 8))
      m

abbrev pub smile_fee_set_hk_rmap_target_indicate : ℕ → Mirror → Mirror
smile_fee_set_hk_rmap_target_indicate rmap_target_indicate m =
    update hk_reg_32
      (λ r. bit_or (bit_and r (complement 32 (0x1 <<< 5))) (as_flag rmap_target_indicate <<< 5)) m

abbrev pub smile_fee_set_hk_spw_link_escape_error : ℕ → Mirror → Mirror
smile_fee_set_hk_spw_link_escape_error spw_link_escape_error m =
    update hk_reg_32
      (λ r. bit_or (bit_and r (complement 32 (0x1 <<< 4))) (as_flag spw_link_escape_error <<< 4)) m

abbrev pub smile_fee_set_hk_spw_link_credit_error : ℕ → Mirror → Mirror
smile_fee_set_hk_spw_link_credit_error spw_link_credit_error m =
    update hk_reg_32
      (λ r. bit_or (bit_and r (complement 32 (0x1 <<< 3))) (as_flag spw_link_credit_error <<< 3)) m

abbrev pub smile_fee_set_hk_spw_link_parity_error : ℕ → Mirror → Mirror
smile_fee_set_hk_spw_link_parity_error spw_link_parity_error m =
    update hk_reg_32
      (λ r. bit_or (bit_and r (complement 32 (0x1 <<< 2))) (as_flag spw_link_parity_error <<< 2)) m

abbrev pub smile_fee_set_hk_spw_link_disconnect_error : ℕ → Mirror → Mirror
smile_fee_set_hk_spw_link_disconnect_error spw_link_disconnect_error m =
    update hk_reg_32
      (λ r.
        bit_or (bit_and r (complement 32 (0x1 <<< 1))) (as_flag spw_link_disconnect_error <<< 1))
      m

abbrev pub smile_fee_set_hk_spw_link_running : ℕ → Mirror → Mirror
smile_fee_set_hk_spw_link_running spw_link_running m =
    update hk_reg_32 (λ r. bit_or (bit_and r (complement 32 0x1)) (as_flag spw_link_running)) m

abbrev pub smile_fee_get_hk_frame_counter : Mirror → ℕ
smile_fee_get_hk_frame_counter m = bit_and (host hk_reg_33 m >>> 16) 0xFFFF

abbrev pub smile_fee_get_hk_fpga_op_mode : Mirror → ℕ
smile_fee_get_hk_fpga_op_mode m = bit_and (u8 (host hk_reg_33 m)) 0x7F

abbrev pub smile_fee_set_hk_frame_counter : ℕ → Mirror → Mirror
smile_fee_set_hk_frame_counter frame_counter m =
    update hk_reg_33
      (λ r.
        bit_or (bit_and r (complement 32 (0xFFFF <<< 16))) ((bit_and 0xFFFF frame_counter) <<< 16))
      m

abbrev pub smile_fee_set_hk_fpga_op_mode : ℕ → Mirror → Mirror
smile_fee_set_hk_fpga_op_mode fpga_op_mode m =
    update hk_reg_33 (λ r. bit_or (bit_and r (complement 32 0x7F)) (bit_and fpga_op_mode 0xF)) m
