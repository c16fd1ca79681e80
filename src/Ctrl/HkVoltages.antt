-- ===== src/Ctrl/HkVoltages.antt =====
-- The values of the housekeeping registers 13 to 23 in the mirror, as FEE/smile_fee_ctrl.c reads and
-- sets them. An argument is a value of its C type.
use smile_fee.Base.{ℕ, u16, complement, bit_and, bit_or}
use smile_fee.Base.{◌<<<◌, ◌>>>◌}
use smile_fee.Link.Registers.Addresses.{
  hk_reg_13, hk_reg_14, hk_reg_15, hk_reg_16, hk_reg_17, hk_reg_18, hk_reg_19,
}
use smile_fee.Link.Registers.Addresses.{hk_reg_20, hk_reg_21, hk_reg_22, hk_reg_23}
use smile_fee.Ctrl.Mirror.{Mirror, host, update}

abbrev pub smile_fee_get_hk_ccd2_vdd_mon : Mirror → ℕ
smile_fee_get_hk_ccd2_vdd_mon m = bit_and (u16 (host hk_reg_13 m >>> 16)) 0xFFFF

abbrev pub smile_fee_get_hk_ccd2_vgd_mon : Mirror → ℕ
smile_fee_get_hk_ccd2_vgd_mon m = bit_and (u16 (host hk_reg_13 m)) 0xFFFF

abbrev pub smile_fee_set_hk_ccd2_vdd_mon : ℕ → Mirror → Mirror
smile_fee_set_hk_ccd2_vdd_mon ccd2_vdd_mon m =
    update hk_reg_13
      (λ r.
        bit_or (bit_and r (complement 32 (0xFFFF <<< 16))) ((bit_and 0xFFFF ccd2_vdd_mon) <<< 16))
      m

abbrev pub smile_fee_set_hk_ccd2_vgd_mon : ℕ → Mirror → Mirror
smile_fee_set_hk_ccd2_vgd_mon ccd2_vgd_mon m =
    update hk_reg_13 (λ r. bit_or (bit_and r (complement 32 0xFFFF)) (bit_and 0xFFFF ccd2_vgd_mon))
      m

abbrev pub smile_fee_get_hk_vccd : Mirror → ℕ
smile_fee_get_hk_vccd m = bit_and (u16 (host hk_reg_14 m >>> 16)) 0xFFFF

abbrev pub smile_fee_get_hk_vrclk_mon : Mirror → ℕ
smile_fee_get_hk_vrclk_mon m = bit_and (u16 (host hk_reg_14 m)) 0xFFFF

abbrev pub smile_fee_set_hk_vccd : ℕ → Mirror → Mirror
smile_fee_set_hk_vccd vccd m =
    update hk_reg_14
      (λ r. bit_or (bit_and r (complement 32 (0xFFFF <<< 16))) ((bit_and 0xFFFF vccd) <<< 16)) m

abbrev pub smile_fee_set_hk_vrclk_mon : ℕ → Mirror → Mirror
smile_fee_set_hk_vrclk_mon vrclk_mon m =
    update hk_reg_14 (λ r. bit_or (bit_and r (complement 32 0xFFFF)) (bit_and 0xFFFF vrclk_mon)) m

abbrev pub smile_fee_get_hk_viclk : Mirror → ℕ
smile_fee_get_hk_viclk m = bit_and (u16 (host hk_reg_15 m >>> 16)) 0xFFFF

abbrev pub smile_fee_get_hk_ccd4_vod_mon_f : Mirror → ℕ
smile_fee_get_hk_ccd4_vod_mon_f m = bit_and (u16 (host hk_reg_15 m)) 0xFFFF

abbrev pub smile_fee_set_hk_viclk : ℕ → Mirror → Mirror
smile_fee_set_hk_viclk viclk m =
    update hk_reg_15
      (λ r. bit_or (bit_and r (complement 32 (0xFFFF <<< 16))) ((bit_and 0xFFFF viclk) <<< 16)) m

abbrev pub smile_fee_set_hk_ccd4_vod_mon_f : ℕ → Mirror → Mirror
smile_fee_set_hk_ccd4_vod_mon_f ccd4_vod_mon_f m =
    update hk_reg_15
      (λ r. bit_or (bit_and r (complement 32 0xFFFF)) (bit_and 0xFFFF ccd4_vod_mon_f)) m

abbrev pub smile_fee_get_hk_5vb_pos_mon : Mirror → ℕ
smile_fee_get_hk_5vb_pos_mon m = bit_and (u16 (host hk_reg_16 m >>> 16)) 0xFFFF

abbrev pub smile_fee_get_hk_5vb_neg_mon : Mirror → ℕ
smile_fee_get_hk_5vb_neg_mon m = bit_and (u16 (host hk_reg_16 m)) 0xFFFF

abbrev pub smile_fee_set_hk_5vb_pos_mon : ℕ → Mirror → Mirror
smile_fee_set_hk_5vb_pos_mon _5vb_pos_mon m =
    update hk_reg_16
      (λ r.
        bit_or (bit_and r (complement 32 (0xFFFF <<< 16))) ((bit_and 0xFFFF _5vb_pos_mon) <<< 16))
      m

abbrev pub smile_fee_set_hk_5vb_neg_mon : ℕ → Mirror → Mirror
smile_fee_set_hk_5vb_neg_mon _5vb_neg_mon m =
    update hk_reg_16 (λ r. bit_or (bit_and r (complement 32 0xFFFF)) (bit_and 0xFFFF _5vb_neg_mon))
      m

abbrev pub smile_fee_get_hk_3v3b_mon : Mirror → ℕ
smile_fee_get_hk_3v3b_mon m = bit_and (u16 (host hk_reg_17 m >>> 16)) 0xFFFF

abbrev pub smile_fee_get_hk_2v5a_mon : Mirror → ℕ
smile_fee_get_hk_2v5a_mon m = bit_and (u16 (host hk_reg_17 m)) 0xFFFF

abbrev pub smile_fee_set_hk_3v3b_mon : ℕ → Mirror → Mirror
smile_fee_set_hk_3v3b_mon _3v3b_mon m =
    update hk_reg_17
      (λ r. bit_or (bit_and r (complement 32 (0xFFFF <<< 16))) ((bit_and 0xFFFF _3v3b_mon) <<< 16))
      m

abbrev pub smile_fee_set_hk_2v5a_mon : ℕ → Mirror → Mirror
smile_fee_set_hk_2v5a_mon _2v5a_mon m =
    update hk_reg_17 (λ r. bit_or (bit_and r (complement 32 0xFFFF)) (bit_and 0xFFFF _2v5a_mon)) m

abbrev pub smile_fee_get_hk_3v3d_mon : Mirror → ℕ
smile_fee_get_hk_3v3d_mon m = bit_and (u16 (host hk_reg_18 m >>> 16)) 0xFFFF

abbrev pub smile_fee_get_hk_2v5d_mon : Mirror → ℕ
smile_fee_get_hk_2v5d_mon m = bit_and (u16 (host hk_reg_18 m)) 0xFFFF

abbrev pub smile_fee_set_hk_3v3d_mon : ℕ → Mirror → Mirror
smile_fee_set_hk_3v3d_mon _3v3d_mon m =
    update hk_reg_18
      (λ r. bit_or (bit_and r (complement 32 (0xFFFF <<< 16))) ((bit_and 0xFFFF _3v3d_mon) <<< 16))
      m

abbrev pub smile_fee_set_hk_2v5d_mon : ℕ → Mirror → Mirror
smile_fee_set_hk_2v5d_mon _2v5d_mon m =
    update hk_reg_18 (λ r. bit_or (bit_and r (complement 32 0xFFFF)) (bit_and 0xFFFF _2v5d_mon)) m

abbrev pub smile_fee_get_hk_1v2d_mon : Mirror → ℕ
smile_fee_get_hk_1v2d_mon m = bit_and (u16 (host hk_reg_19 m >>> 16)) 0xFFFF

abbrev pub smile_fee_get_hk_5vref_mon : Mirror → ℕ
smile_fee_get_hk_5vref_mon m = bit_and (u16 (host hk_reg_19 m)) 0xFFFF

abbrev pub smile_fee_set_hk_1v2d_mon : ℕ → Mirror → Mirror
smile_fee_set_hk_1v2d_mon _1v2d_mon m =
    update hk_reg_19
      (λ r. bit_or (bit_and r (complement 32 (0xFFFF <<< 16))) ((bit_and 0xFFFF _1v2d_mon) <<< 16))
      m

abbrev pub smile_fee_set_hk_5vref_mon : ℕ → Mirror → Mirror
smile_fee_set_hk_5vref_mon _5vref_mon m =
    update hk_reg_19 (λ r. bit_or (bit_and r (complement 32 0xFFFF)) (bit_and 0xFFFF _5vref_mon)) m

abbrev pub smile_fee_get_hk_vccd_pos_raw : Mirror → ℕ
smile_fee_get_hk_vccd_pos_raw m = bit_and (u16 (host hk_reg_20 m >>> 16)) 0xFFFF

abbrev pub smile_fee_get_hk_vclk_pos_raw : Mirror → ℕ
smile_fee_get_hk_vclk_pos_raw m = bit_and (u16 (host hk_reg_20 m)) 0xFFFF

abbrev pub smile_fee_set_hk_vccd_pos_raw : ℕ → Mirror → Mirror
smile_fee_set_hk_vccd_pos_raw vccd_pos_raw m =
    update hk_reg_20
      (λ r.
        bit_or (bit_and r (complement 32 (0xFFFF <<< 16))) ((bit_and 0xFFFF vccd_pos_raw) <<< 16))
      m

abbrev pub smile_fee_set_hk_vclk_pos_raw : ℕ → Mirror → Mirror
smile_fee_set_hk_vclk_pos_raw vclk_pos_raw m =
    update hk_reg_20 (λ r. bit_or (bit_and r (complement 32 0xFFFF)) (bit_and 0xFFFF vclk_pos_raw))
      m

abbrev pub smile_fee_get_hk_van1_pos_raw : Mirror → ℕ
smile_fee_get_hk_van1_pos_raw m = bit_and (u16 (host hk_reg_21 m >>> 16)) 0xFFFF

abbrev pub smile_fee_get_hk_van3_neg_mon : Mirror → ℕ
smile_fee_get_hk_van3_neg_mon m = bit_and (u16 (host hk_reg_21 m)) 0xFFFF

abbrev pub smile_fee_set_hk_van1_pos_raw : ℕ → Mirror → Mirror
smile_fee_set_hk_van1_pos_raw van1_pos_raw m =
    update hk_reg_21
      (λ r.
        bit_or (bit_and r (complement 32 (0xFFFF <<< 16))) ((bit_and 0xFFFF van1_pos_raw) <<< 16))
      m

abbrev pub smile_fee_set_hk_van3_neg_monw : ℕ → Mirror → Mirror
smile_fee_set_hk_van3_neg_monw van3_neg_mon m =
    update hk_reg_21 (λ r. bit_or (bit_and r (complement 32 0xFFFF)) (bit_and 0xFFFF van3_neg_mon))
      m

abbrev pub smile_fee_get_hk_van2_pos_raw : Mirror → ℕ
smile_fee_get_hk_van2_pos_raw m = bit_and (u16 (host hk_reg_22 m >>> 16)) 0xFFFF

abbrev pub smile_fee_get_hk_vdig_raw : Mirror → ℕ
smile_fee_get_hk_vdig_raw m = bit_and (u16 (host hk_reg_22 m)) 0xFFFF

abbrev pub smile_fee_set_hk_van2_pos_raw : ℕ → Mirror → Mirror
smile_fee_set_hk_van2_pos_raw van2_pos_raw m =
    update hk_reg_22
      (λ r.
        bit_or (bit_and r (complement 32 (0xFFFF <<< 16))) ((bit_and 0xFFFF van2_pos_raw) <<< 16))
      m

abbrev pub smile_fee_set_hk_vdig_raw : ℕ → Mirror → Mirror
smile_fee_set_hk_vdig_raw vdig_raw m =
    update hk_reg_22 (λ r. bit_or (bit_and r (complement 32 0xFFFF)) (bit_and 0xFFFF vdig_raw)) m

abbrev pub smile_fee_get_hk_ig_hi_mon : Mirror → ℕ
smile_fee_get_hk_ig_hi_mon m = bit_and (u16 (host hk_reg_23 m >>> 16)) 0xFFFF

abbrev pub smile_fee_get_hk_ccd2_vod_mon_f : Mirror → ℕ
smile_fee_get_hk_ccd2_vod_mon_f m = bit_and (u16 (host hk_reg_23 m)) 0xFFFF

abbrev pub smile_fee_set_hk_ig_hi_mon : ℕ → Mirror → Mirror
smile_fee_set_hk_ig_hi_mon ig_hi_mon m =
    update hk_reg_23
      (λ r. bit_or (bit_and r (complement 32 (0xFFFF <<< 16))) ((bit_and 0xFFFF ig_hi_mon) <<< 16))
      m

abbrev pub smile_fee_set_hk_ccd2_vod_mon_f : ℕ → Mirror → Mirror
smile_fee_set_hk_ccd2_vod_mon_f ccd2_vod_mon_f m =
    update hk_reg_23
      (λ r. bit_or (bit_and r (complement 32 0xFFFF)) (bit_and 0xFFFF ccd2_vod_mon_f)) m
