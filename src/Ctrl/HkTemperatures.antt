-- ===== src/Ctrl/HkTemperatures.antt =====
-- The values of the housekeeping registers 4 to 12 in the mirror, as FEE/smile_fee_ctrl.c reads and
-- sets them. An argument is a value of its C type.
use smile_fee.Base.{ℕ, u16, complement, bit_and, bit_or}
use smile_fee.Base.{◌<<<◌, ◌>>>◌}
use smile_fee.Link.Registers.Addresses.{
  hk_reg_4, hk_reg_5, hk_reg_6, hk_reg_7, hk_reg_8, hk_reg_9, hk_reg_10,
}
use smile_fee.Link.Registers.Addresses.{hk_reg_11, hk_reg_12}
use smile_fee.Ctrl.Mirror.{Mirror, host, update}

abbrev pub smile_fee_get_hk_ccd2_ts_a : Mirror → ℕ
smile_fee_get_hk_ccd2_ts_a m = bit_and (u16 (host hk_reg_4 m >>> 16)) 0xFFFF

abbrev pub smile_fee_get_hk_ccd4_ts_b : Mirror → ℕ
smile_fee_get_hk_ccd4_ts_b m = bit_and (u16 (host hk_reg_4 m)) 0xFFFF

abbrev pub smile_fee_set_hk_ccd2_ts_a : ℕ → Mirror → Mirror
smile_fee_set_hk_ccd2_ts_a ccd2_ts_a m =
    update hk_reg_4
      (λ r. bit_or (bit_and r (complement 32 (0xFFFF <<< 16))) ((bit_and 0xFFFF ccd2_ts_a) <<< 16))
      m

abbrev pub smile_fee_set_hk_ccd2_ts_b : ℕ → Mirror → Mirror
smile_fee_set_hk_ccd2_ts_b ccd4_ts_b m =
    update hk_reg_4 (λ r. bit_or (bit_and r (complement 32 0xFFFF)) (bit_and 0xFFFF ccd4_ts_b)) m

abbrev pub smile_fee_get_hk_prt1 : Mirror → ℕ
smile_fee_get_hk_prt1 m = bit_and (u16 (host hk_reg_5 m >>> 16)) 0xFFFF

abbrev pub smile_fee_get_hk_prt2 : Mirror → ℕ
smile_fee_get_hk_prt2 m = bit_and (u16 (host hk_reg_5 m)) 0xFFFF

abbrev pub smile_fee_set_hk_prt1 : ℕ → Mirror → Mirror
smile_fee_set_hk_prt1 prt1 m =
    update hk_reg_5
      (λ r. bit_or (bit_and r (complement 32 (0xFFFF <<< 16))) ((bit_and 0xFFFF prt1) <<< 16)) m

abbrev pub smile_fee_set_hk_prt2 : ℕ → Mirror → Mirror
smile_fee_set_hk_prt2 prt2 m =
    update hk_reg_5 (λ r. bit_or (bit_and r (complement 32 0xFFFF)) (bit_and 0xFFFF prt2)) m

abbrev pub smile_fee_get_hk_prt3 : Mirror → ℕ
smile_fee_get_hk_prt3 m = bit_and (u16 (host hk_reg_6 m >>> 16)) 0xFFFF

abbrev pub smile_fee_get_hk_prt4 : Mirror → ℕ
smile_fee_get_hk_prt4 m = bit_and (u16 (host hk_reg_6 m)) 0xFFFF

abbrev pub smile_fee_set_hk_prt3 : ℕ → Mirror → Mirror
smile_fee_set_hk_prt3 prt3 m =
    update hk_reg_6
      (λ r. bit_or (bit_and r (complement 32 (0xFFFF <<< 16))) ((bit_and 0xFFFF prt3) <<< 16)) m

abbrev pub smile_fee_set_hk_prt4 : ℕ → Mirror → Mirror
smile_fee_set_hk_prt4 prt4 m =
    update hk_reg_6 (λ r. bit_or (bit_and r (complement 32 0xFFFF)) (bit_and 0xFFFF prt4)) m

abbrev pub smile_fee_get_hk_prt5 : Mirror → ℕ
smile_fee_get_hk_prt5 m = bit_and (u16 (host hk_reg_7 m >>> 16)) 0xFFFF

abbrev pub smile_fee_set_hk_prt5 : ℕ → Mirror → Mirror
smile_fee_set_hk_prt5 prt5 m =
    update hk_reg_7
      (λ r. bit_or (bit_and r (complement 32 (0xFFFF <<< 16))) ((bit_and 0xFFFF prt5) <<< 16)) m

abbrev pub smile_fee_get_hk_ccd4_vod_mon_e : Mirror → ℕ
smile_fee_get_hk_ccd4_vod_mon_e m = bit_and (u16 (host hk_reg_8 m >>> 16)) 0xFFFF

abbrev pub smile_fee_get_hk_ccd4_vog_mon : Mirror → ℕ
smile_fee_get_hk_ccd4_vog_mon m = bit_and (u16 (host hk_reg_8 m)) 0xFFFF

abbrev pub smile_fee_set_hk_ccd4_vod_mon_e : ℕ → Mirror → Mirror
smile_fee_set_hk_ccd4_vod_mon_e ccd4_vod_mon_e m =
    update hk_reg_8
      (λ r.
        bit_or (bit_and r (complement 32 (0xFFFF <<< 16))) ((bit_and 0xFFFF ccd4_vod_mon_e) <<< 16))
      m

abbrev pub smile_fee_set_hk_ccd4_vog_mon : ℕ → Mirror → Mirror
smile_fee_set_hk_ccd4_vog_mon ccd4_vog_mon m =
    update hk_reg_8 (λ r. bit_or (bit_and r (complement 32 0xFFFF)) (bit_and 0xFFFF ccd4_vog_mon)) m

abbrev pub smile_fee_get_hk_ccd4_vrd_mon_e : Mirror → ℕ
smile_fee_get_hk_ccd4_vrd_mon_e m = bit_and (u16 (host hk_reg_9 m >>> 16)) 0xFFFF

abbrev pub smile_fee_get_hk_ccd2_vod_mon : Mirror → ℕ
smile_fee_get_hk_ccd2_vod_mon m = bit_and (u16 (host hk_reg_9 m)) 0xFFFF

abbrev pub smile_fee_set_hk_ccd4_vrd_mon_e : ℕ → Mirror → Mirror
smile_fee_set_hk_ccd4_vrd_mon_e ccd4_vrd_mon_e m =
    update hk_reg_9
      (λ r.
        bit_or (bit_and r (complement 32 (0xFFFF <<< 16))) ((bit_and 0xFFFF ccd4_vrd_mon_e) <<< 16))
      m

abbrev pub smile_fee_set_hk_ccd2_vod_mon : ℕ → Mirror → Mirror
smile_fee_set_hk_ccd2_vod_mon ccd2_vod_mon m =
    update hk_reg_9 (λ r. bit_or (bit_and r (complement 32 0xFFFF)) (bit_and 0xFFFF ccd2_vod_mon)) m

abbrev pub smile_fee_get_hk_ccd2_vog_mon : Mirror → ℕ
smile_fee_get_hk_ccd2_vog_mon m = bit_and (u16 (host hk_reg_10 m >>> 16)) 0xFFFF

abbrev pub smile_fee_get_hk_ccd2_vrd_mon_e : Mirror → ℕ
smile_fee_get_hk_ccd2_vrd_mon_e m = bit_and (u16 (host hk_reg_10 m)) 0xFFFF

abbrev pub smile_fee_set_hk_ccd2_vog_mon : ℕ → Mirror → Mirror
smile_fee_set_hk_ccd2_vog_mon ccd2_vrd_mon m =
    update hk_reg_10
      (λ r.
        bit_or (bit_and r (complement 32 (0xFFFF <<< 16))) ((bit_and 0xFFFF ccd2_vrd_mon) <<< 16))
      m

abbrev pub smile_fee_set_hk_ccd2_vrd_mon_e : ℕ → Mirror → Mirror
smile_fee_set_hk_ccd2_vrd_mon_e ccd2_vrd_mon_e m =
    update hk_reg_10
      (λ r. bit_or (bit_and r (complement 32 0xFFFF)) (bit_and 0xFFFF ccd2_vrd_mon_e)) m

abbrev pub smile_fee_get_hk_ccd4_vrd_mon_f : Mirror → ℕ
smile_fee_get_hk_ccd4_vrd_mon_f m = bit_and (u16 (host hk_reg_11 m >>> 16)) 0xFFFF

abbrev pub smile_fee_get_hk_ccd4_vdd_mon : Mirror → ℕ
smile_fee_get_hk_ccd4_vdd_mon m = bit_and (u16 (host hk_reg_11 m)) 0xFFFF

abbrev pub smile_fee_set_hk_ccd4_vrd_mon_f : ℕ → Mirror → Mirror
smile_fee_set_hk_ccd4_vrd_mon_f ccd4_vrd_mon_f m =
    update hk_reg_11
      (λ r.
        bit_or (bit_and r (complement 32 (0xFFFF <<< 16))) ((bit_and 0xFFFF ccd4_vrd_mon_f) <<< 16))
      m

abbrev pub smile_fee_set_hk_ccd4_vdd_mon : ℕ → Mirror → Mirror
smile_fee_set_hk_ccd4_vdd_mon ccd4_vdd_mon m =
    update hk_reg_11 (λ r. bit_or (bit_and r (complement 32 0xFFFF)) (bit_and 0xFFFF ccd4_vdd_mon))
      m

abbrev pub smile_fee_get_hk_ccd4_vgd_mon : Mirror → ℕ
smile_fee_get_hk_ccd4_vgd_mon m = bit_and (u16 (host hk_reg_12 m >>> 16)) 0xFFFF

abbrev pub smile_fee_get_hk_ccd2_vrd_mon_f : Mirror → ℕ
smile_fee_get_hk_ccd2_vrd_mon_f m = bit_and (u16 (host hk_reg_12 m)) 0xFFFF

abbrev pub smile_fee_set_hk_ccd4_vgd_mon : ℕ → Mirror → Mirror
smile_fee_set_hk_ccd4_vgd_mon ccd4_vgd_mon m =
    update hk_reg_12
      (λ r.
        bit_or (bit_and r (complement 32 (0xFFFF <<< 16))) ((bit_and 0xFFFF ccd4_vgd_mon) <<< 16))
      m

abbrev pub smile_fee_set_hk_ccd2_vrd_mon_f : ℕ → Mirror → Mirror
smile_fee_set_hk_ccd2_vrd_mon_f ccd2_vrd_mon_f m =
    update hk_reg_12
      (λ r. bit_or (bit_and r (complement 32 0xFFFF)) (bit_and 0xFFFF ccd2_vrd_mon_f)) m
