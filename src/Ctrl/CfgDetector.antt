-- ===== src/Ctrl/CfgDetector.antt =====
-- The values of the configuration registers 14 to 25 in the mirror, as FEE/smile_fee_ctrl.c reads and
-- sets them. An argument is a value of its C type.
use smile_fee.Base.{ℕ, u8, u16, u32, complement, bit_and}
use smile_fee.Base.{bit_or}
use smile_fee.Base.{◌==◌, ◌<<<◌, ◌>>>◌}
use smile_fee.Base.{if◌then◌else◌}
use smile_fee.Link.Registers.Addresses.{
  cfg_reg_14, cfg_reg_15, cfg_reg_16, cfg_reg_17, cfg_reg_18, cfg_reg_19, cfg_reg_20,
}
use smile_fee.Link.Registers.Addresses.{cfg_reg_21, cfg_reg_22, cfg_reg_23, cfg_reg_24, cfg_reg_25}
use smile_fee.Ctrl.Mirror.{Mirror, host, update, as_flag}

abbrev pub smile_fee_get_ccd2_vod_config : Mirror → ℕ
smile_fee_get_ccd2_vod_config m = host cfg_reg_14 m

abbrev pub smile_fee_set_ccd2_vod_config : ℕ → Mirror → Mirror
smile_fee_set_ccd2_vod_config vod m = update cfg_reg_14 (λ r. vod) m

abbrev pub smile_fee_get_ccd4_vod_config : Mirror → ℕ
smile_fee_get_ccd4_vod_config m = host cfg_reg_15 m

abbrev pub smile_fee_set_ccd4_vod_config : ℕ → Mirror → Mirror
smile_fee_set_ccd4_vod_config vod m = update cfg_reg_15 (λ r. vod) m

abbrev pub smile_fee_get_ccd2_vrd_config : Mirror → ℕ
smile_fee_get_ccd2_vrd_config m = host cfg_reg_16 m

abbrev pub smile_fee_set_ccd2_vrd_config : ℕ → Mirror → Mirror
smile_fee_set_ccd2_vrd_config vrd m = update cfg_reg_16 (λ r. vrd) m

abbrev pub smile_fee_get_ccd4_vrd_config : Mirror → ℕ
smile_fee_get_ccd4_vrd_config m = host cfg_reg_17 m

abbrev pub smile_fee_set_ccd4_vrd_config : ℕ → Mirror → Mirror
smile_fee_set_ccd4_vrd_config vrd m = update cfg_reg_17 (λ r. vrd) m

abbrev pub smile_fee_get_ccd2_vgd_config : Mirror → ℕ
smile_fee_get_ccd2_vgd_config m = host cfg_reg_18 m

abbrev pub smile_fee_set_ccd2_vgd_config : ℕ → Mirror → Mirror
smile_fee_set_ccd2_vgd_config vgd m = update cfg_reg_18 (λ r. vgd) m

abbrev pub smile_fee_get_ccd4_vgd_config : Mirror → ℕ
smile_fee_get_ccd4_vgd_config m = host cfg_reg_19 m

abbrev pub smile_fee_set_ccd4_vgd_config : ℕ → Mirror → Mirror
smile_fee_set_ccd4_vgd_config vgd m = update cfg_reg_19 (λ r. vgd) m

abbrev pub smile_fee_get_ccd_vog_config : Mirror → ℕ
smile_fee_get_ccd_vog_config m = host cfg_reg_20 m

abbrev pub smile_fee_set_ccd_vog_config : ℕ → Mirror → Mirror
smile_fee_set_ccd_vog_config vog m = update cfg_reg_20 (λ r. vog) m

abbrev pub smile_fee_get_rowclp_lo : Mirror → ℕ
smile_fee_get_rowclp_lo m = u16 (bit_and (host cfg_reg_21 m) 0xFFF)

abbrev pub smile_fee_get_ccd_mode_config : Mirror → ℕ
smile_fee_get_ccd_mode_config m = u8 (bit_and (host cfg_reg_21 m >>> 24) 0xF)

abbrev pub smile_fee_get_ccd_mode2_config : Mirror → ℕ
smile_fee_get_ccd_mode2_config m = u8 (bit_and (host cfg_reg_21 m >>> 28) 0x3)

abbrev pub smile_fee_get_event_detection : Mirror → ℕ
smile_fee_get_event_detection m = bit_and (host cfg_reg_21 m >>> 30) 0x1

abbrev pub smile_fee_get_clear_error_flag : Mirror → ℕ
smile_fee_get_clear_error_flag m = bit_and (host cfg_reg_21 m >>> 31) 0x1

abbrev pub smile_fee_set_rowclp_lo : ℕ → Mirror → Mirror
smile_fee_set_rowclp_lo rowclp_lo m =
    update cfg_reg_21 (λ r. bit_or (bit_and r (complement 32 0xFFF)) (bit_and 0xFFF rowclp_lo)) m

abbrev pub smile_fee_set_h_start : ℕ → Mirror → Mirror
smile_fee_set_h_start row m =
    update cfg_reg_21
      (λ r. bit_or (bit_and r (complement 32 (0xFFF <<< 12))) ((bit_and 0xFFF row) <<< 12)) m

abbrev pub smile_fee_set_ccd_mode_config : ℕ → Mirror → Mirror
smile_fee_set_ccd_mode_config mode m =
    update cfg_reg_21
      (λ r. bit_or (bit_and r (complement 32 (0xF <<< 24))) ((bit_and 0xF mode) <<< 24)) m

abbrev pub smile_fee_set_ccd_mode2_config : ℕ → Mirror → Mirror
smile_fee_set_ccd_mode2_config mode m =
    if mode == 0
    then m
    else update cfg_reg_21
        (λ r. bit_or (bit_and r (complement 32 (0x3 <<< 28))) ((bit_and 0x3 mode) <<< 28)) m

abbrev pub smile_fee_set_event_detection : ℕ → Mirror → Mirror
smile_fee_set_event_detection mode m =
    update cfg_reg_21 (λ r. bit_or (bit_and r (complement 32 (0x1 <<< 30))) (as_flag mode <<< 30)) m

abbrev pub smile_fee_set_clear_error_flag : ℕ → Mirror → Mirror
smile_fee_set_clear_error_flag mode m =
    update cfg_reg_21 (λ r. bit_or (bit_and r (complement 32 (0x1 <<< 31))) (as_flag mode <<< 31)) m

abbrev pub smile_fee_get_ccd2_e_pix_threshold : Mirror → ℕ
smile_fee_get_ccd2_e_pix_threshold m = u16 (bit_and (host cfg_reg_22 m) 0xFFFF)

abbrev pub smile_fee_get_ccd2_f_pix_threshold : Mirror → ℕ
smile_fee_get_ccd2_f_pix_threshold m = u16 (bit_and (host cfg_reg_22 m >>> 16) 0xFFFF)

abbrev pub smile_fee_set_ccd2_e_pix_threshold : ℕ → Mirror → Mirror
smile_fee_set_ccd2_e_pix_threshold threshold m =
    update cfg_reg_22 (λ r. bit_or (bit_and r (complement 32 0xFFFF)) (bit_and 0xFFFF threshold)) m

abbrev pub smile_fee_set_ccd2_f_pix_threshold : ℕ → Mirror → Mirror
smile_fee_set_ccd2_f_pix_threshold threshold m =
    update cfg_reg_22
      (λ r. bit_or (bit_and r (complement 32 (0xFFFF <<< 16))) ((bit_and 0xFFFF threshold) <<< 16))
      m

abbrev pub smile_fee_get_ccd4_e_pix_threshold : Mirror → ℕ
smile_fee_get_ccd4_e_pix_threshold m = u16 (bit_and (host cfg_reg_23 m) 0xFFFF)

abbrev pub smile_fee_get_ccd4_f_pix_threshold : Mirror → ℕ
smile_fee_get_ccd4_f_pix_threshold m = u16 (bit_and (host cfg_reg_23 m >>> 16) 0xFFFF)

abbrev pub smile_fee_set_ccd4_e_pix_threshold : ℕ → Mirror → Mirror
smile_fee_set_ccd4_e_pix_threshold threshold m =
    update cfg_reg_23 (λ r. bit_or (bit_and r (complement 32 0xFFFF)) (bit_and 0xFFFF threshold)) m

abbrev pub smile_fee_set_ccd4_f_pix_threshold : ℕ → Mirror → Mirror
smile_fee_set_ccd4_f_pix_threshold threshold m =
    update cfg_reg_23
      (λ r. bit_or (bit_and r (complement 32 (0xFFFF <<< 16))) ((bit_and 0xFFFF threshold) <<< 16))
      m

abbrev pub smile_fee_get_event_pkt_limit : Mirror → ℕ
smile_fee_get_event_pkt_limit m = u32 (bit_and (host cfg_reg_24 m >>> 8) 0xFFFFFF)

abbrev pub smile_fee_set_event_pkt_limit : ℕ → Mirror → Mirror
smile_fee_set_event_pkt_limit pkt_limit m =
    update cfg_reg_24
      (λ r.
        bit_or (bit_and r (complement 32 (0xFFFFFF <<< 8))) ((bit_and 0xFFFFFF pkt_limit) <<< 8))
      m

abbrev pub smile_fee_get_execute_op : Mirror → ℕ
smile_fee_get_execute_op m = bit_and (host cfg_reg_25 m) 0x1

abbrev pub smile_fee_set_execute_op : ℕ → Mirror → Mirror
smile_fee_set_execute_op mode m =
    update cfg_reg_25 (λ r. bit_or (bit_and r (complement 32 0x1)) (as_flag mode)) m

-- The stored word is not swapped.
abbrev pub smile_fee_get_h_start : Mirror → ℕ
smile_fee_get_h_start m = u16 (bit_and (m.word cfg_reg_21 >>> 12) 0xFFF)
