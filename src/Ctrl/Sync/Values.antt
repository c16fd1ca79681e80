-- ===== src/Ctrl/Sync/Values.antt =====
-- The functions of FEE/smile_fee_ctrl.c that exchange the register of one value with the FEE.
use smile_fee.Base.{Option, ℤ}
use smile_fee.Link.State.{Link}
use smile_fee.Ctrl.Sync.Registers.{Caller, SyncDirection}
use smile_fee.Ctrl.Sync.Registers.{
  smile_fee_sync_cfg_reg_0, smile_fee_sync_cfg_reg_1, smile_fee_sync_cfg_reg_2,
  smile_fee_sync_cfg_reg_3, smile_fee_sync_cfg_reg_4, smile_fee_sync_cfg_reg_5,
  smile_fee_sync_cfg_reg_6,
}
use smile_fee.Ctrl.Sync.Registers.{
  smile_fee_sync_cfg_reg_7, smile_fee_sync_cfg_reg_8, smile_fee_sync_cfg_reg_9,
  smile_fee_sync_cfg_reg_14, smile_fee_sync_cfg_reg_15, smile_fee_sync_cfg_reg_16,
  smile_fee_sync_cfg_reg_17,
}
use smile_fee.Ctrl.Sync.Registers.{
  smile_fee_sync_cfg_reg_18, smile_fee_sync_cfg_reg_19, smile_fee_sync_cfg_reg_20,
  smile_fee_sync_cfg_reg_21, smile_fee_sync_cfg_reg_22, smile_fee_sync_cfg_reg_23,
  smile_fee_sync_cfg_reg_24,
}
use smile_fee.Ctrl.Sync.Registers.{smile_fee_sync_cfg_reg_25}

abbrev pub smile_fee_sync_vstart : Caller → SyncDirection → Link → Option ℤ × Link
smile_fee_sync_vstart c dir = smile_fee_sync_cfg_reg_0 c dir

abbrev pub smile_fee_sync_vend : Caller → SyncDirection → Link → Option ℤ × Link
smile_fee_sync_vend c dir = smile_fee_sync_cfg_reg_0 c dir

abbrev pub smile_fee_sync_charge_injection_width : Caller → SyncDirection → Link → Option ℤ × Link
smile_fee_sync_charge_injection_width c dir = smile_fee_sync_cfg_reg_1 c dir

abbrev pub smile_fee_sync_charge_injection_gap : Caller → SyncDirection → Link → Option ℤ × Link
smile_fee_sync_charge_injection_gap c dir = smile_fee_sync_cfg_reg_1 c dir

abbrev pub smile_fee_sync_parallel_toi_period : Caller → SyncDirection → Link → Option ℤ × Link
smile_fee_sync_parallel_toi_period c dir = smile_fee_sync_cfg_reg_2 c dir

abbrev pub smile_fee_sync_parallel_clk_overlap : Caller → SyncDirection → Link → Option ℤ × Link
smile_fee_sync_parallel_clk_overlap c dir = smile_fee_sync_cfg_reg_2 c dir

abbrev pub smile_fee_sync_ccd_readout : Caller → SyncDirection → Link → Option ℤ × Link
smile_fee_sync_ccd_readout c dir = smile_fee_sync_cfg_reg_2 c dir

abbrev pub smile_fee_sync_n_final_dump : Caller → SyncDirection → Link → Option ℤ × Link
smile_fee_sync_n_final_dump c dir = smile_fee_sync_cfg_reg_3 c dir

abbrev pub smile_fee_sync_h_end : Caller → SyncDirection → Link → Option ℤ × Link
smile_fee_sync_h_end c dir = smile_fee_sync_cfg_reg_3 c dir

abbrev pub smile_fee_sync_charge_injection : Caller → SyncDirection → Link → Option ℤ × Link
smile_fee_sync_charge_injection c dir = smile_fee_sync_cfg_reg_3 c dir

abbrev pub smile_fee_sync_tri_level_clk : Caller → SyncDirection → Link → Option ℤ × Link
smile_fee_sync_tri_level_clk c dir = smile_fee_sync_cfg_reg_3 c dir

abbrev pub smile_fee_sync_img_clk_dir : Caller → SyncDirection → Link → Option ℤ × Link
smile_fee_sync_img_clk_dir c dir = smile_fee_sync_cfg_reg_3 c dir

abbrev pub smile_fee_sync_reg_clk_dir : Caller → SyncDirection → Link → Option ℤ × Link
smile_fee_sync_reg_clk_dir c dir = smile_fee_sync_cfg_reg_3 c dir

abbrev pub smile_fee_sync_packet_size : Caller → SyncDirection → Link → Option ℤ × Link
smile_fee_sync_packet_size c dir = smile_fee_sync_cfg_reg_4 c dir

abbrev pub smile_fee_sync_cdsclp_hi : Caller → SyncDirection → Link → Option ℤ × Link
smile_fee_sync_cdsclp_hi c dir = smile_fee_sync_cfg_reg_4 c dir

abbrev pub smile_fee_sync_adc_pwrdn_en : Caller → SyncDirection → Link → Option ℤ × Link
smile_fee_sync_adc_pwrdn_en c dir = smile_fee_sync_cfg_reg_4 c dir

abbrev pub smile_fee_sync_trap_pumping_dwell_term : Caller → SyncDirection → Link → Option ℤ × Link
smile_fee_sync_trap_pumping_dwell_term c dir = smile_fee_sync_cfg_reg_5 c dir

abbrev pub smile_fee_sync_sync_sel : Caller → SyncDirection → Link → Option ℤ × Link
smile_fee_sync_sync_sel c dir = smile_fee_sync_cfg_reg_5 c dir

abbrev pub smile_fee_sync_sel_pwr_sync : Caller → SyncDirection → Link → Option ℤ × Link
smile_fee_sync_sel_pwr_sync c dir = smile_fee_sync_cfg_reg_5 c dir

abbrev pub smile_fee_sync_use_pwr_sync : Caller → SyncDirection → Link → Option ℤ × Link
smile_fee_sync_use_pwr_sync c dir = smile_fee_sync_cfg_reg_5 c dir

abbrev pub smile_fee_sync_readout_node_sel : Caller → SyncDirection → Link → Option ℤ × Link
smile_fee_sync_readout_node_sel c dir = smile_fee_sync_cfg_reg_5 c dir

abbrev pub smile_fee_sync_digitise_en : Caller → SyncDirection → Link → Option ℤ × Link
smile_fee_sync_digitise_en c dir = smile_fee_sync_cfg_reg_5 c dir

abbrev pub smile_fee_sync_correction_bypass : Caller → SyncDirection → Link → Option ℤ × Link
smile_fee_sync_correction_bypass c dir = smile_fee_sync_cfg_reg_5 c dir

abbrev pub smile_fee_sync_dg_en : Caller → SyncDirection → Link → Option ℤ × Link
smile_fee_sync_dg_en c dir = smile_fee_sync_cfg_reg_5 c dir

abbrev pub smile_fee_sync_correction_type : Caller → SyncDirection → Link → Option ℤ × Link
smile_fee_sync_correction_type c dir = smile_fee_sync_cfg_reg_5 c dir

abbrev pub smile_fee_sync_edu_wandering_mask_en : Caller → SyncDirection → Link → Option ℤ × Link
smile_fee_sync_edu_wandering_mask_en c dir = smile_fee_sync_cfg_reg_5 c dir

abbrev pub smile_fee_sync_full_sun_pix_threshold : Caller → SyncDirection → Link → Option ℤ × Link
smile_fee_sync_full_sun_pix_threshold c dir = smile_fee_sync_cfg_reg_6 c dir

abbrev pub smile_fee_sync_pix_offset : Caller → SyncDirection → Link → Option ℤ × Link
smile_fee_sync_pix_offset c dir = smile_fee_sync_cfg_reg_6 c dir

abbrev pub smile_fee_sync_readout_pause_counter : Caller → SyncDirection → Link → Option ℤ × Link
smile_fee_sync_readout_pause_counter c dir = smile_fee_sync_cfg_reg_7 c dir

abbrev pub smile_fee_sync_trap_pumping_shuffle_counter :
    Caller → SyncDirection → Link → Option ℤ × Link
smile_fee_sync_trap_pumping_shuffle_counter c dir = smile_fee_sync_cfg_reg_7 c dir

abbrev pub smile_fee_sync_int_sync_period : Caller → SyncDirection → Link → Option ℤ × Link
smile_fee_sync_int_sync_period c dir = smile_fee_sync_cfg_reg_8 c dir

abbrev pub smile_fee_sync_cdsclp_lo : Caller → SyncDirection → Link → Option ℤ × Link
smile_fee_sync_cdsclp_lo c dir = smile_fee_sync_cfg_reg_8 c dir

abbrev pub smile_fee_sync_rowclp_hi : Caller → SyncDirection → Link → Option ℤ × Link
smile_fee_sync_rowclp_hi c dir = smile_fee_sync_cfg_reg_9 c dir

abbrev pub smile_fee_sync_ccd2_vod_config : Caller → SyncDirection → Link → Option ℤ × Link
smile_fee_sync_ccd2_vod_config c dir = smile_fee_sync_cfg_reg_14 c dir

abbrev pub smile_fee_sync_ccd4_vod_config : Caller → SyncDirection → Link → Option ℤ × Link
smile_fee_sync_ccd4_vod_config c dir = smile_fee_sync_cfg_reg_15 c dir

abbrev pub smile_fee_sync_ccd2_vrd_config : Caller → SyncDirection → Link → Option ℤ × Link
smile_fee_sync_ccd2_vrd_config c dir = smile_fee_sync_cfg_reg_16 c dir

abbrev pub smile_fee_sync_ccd4_vrd_config : Caller → SyncDirection → Link → Option ℤ × Link
smile_fee_sync_ccd4_vrd_config c dir = smile_fee_sync_cfg_reg_17 c dir

abbrev pub smile_fee_sync_ccd2_vgd_config : Caller → SyncDirection → Link → Option ℤ × Link
smile_fee_sync_ccd2_vgd_config c dir = smile_fee_sync_cfg_reg_18 c dir

abbrev pub smile_fee_sync_ccd4_vgd_config : Caller → SyncDirection → Link → Option ℤ × Link
smile_fee_sync_ccd4_vgd_config c dir = smile_fee_sync_cfg_reg_19 c dir

abbrev pub smile_fee_sync_ccd_vog_config : Caller → SyncDirection → Link → Option ℤ × Link
smile_fee_sync_ccd_vog_config c dir = smile_fee_sync_cfg_reg_20 c dir

abbrev pub smile_fee_sync_rowclp_lo : Caller → SyncDirection → Link → Option ℤ × Link
smile_fee_sync_rowclp_lo c dir = smile_fee_sync_cfg_reg_21 c dir

abbrev pub smile_fee_sync_h_start : Caller → SyncDirection → Link → Option ℤ × Link
smile_fee_sync_h_start c dir = smile_fee_sync_cfg_reg_21 c dir

abbrev pub smile_fee_sync_ccd_mode_config : Caller → SyncDirection → Link → Option ℤ × Link
smile_fee_sync_ccd_mode_config c dir = smile_fee_sync_cfg_reg_21 c dir

abbrev pub smile_fee_sync_ccd_mode2_config : Caller → SyncDirection → Link → Option ℤ × Link
smile_fee_sync_ccd_mode2_config c dir = smile_fee_sync_cfg_reg_21 c dir

abbrev pub smile_fee_sync_event_detection : Caller → SyncDirection → Link → Option ℤ × Link
smile_fee_sync_event_detection c dir = smile_fee_sync_cfg_reg_21 c dir

abbrev pub smile_fee_sync_clear_error_flag : Caller → SyncDirection → Link → Option ℤ × Link
smile_fee_sync_clear_error_flag c dir = smile_fee_sync_cfg_reg_21 c dir

abbrev pub smile_fee_sync_ccd2_e_pix_threshold : Caller → SyncDirection → Link → Option ℤ × Link
smile_fee_sync_ccd2_e_pix_threshold c dir = smile_fee_sync_cfg_reg_22 c dir

abbrev pub smile_fee_sync_ccd2_f_pix_threshold : Caller → SyncDirection → Link → Option ℤ × Link
smile_fee_sync_ccd2_f_pix_threshold c dir = smile_fee_sync_cfg_reg_22 c dir

abbrev pub smile_fee_sync_ccd4_e_pix_threshold : Caller → SyncDirection → Link → Option ℤ × Link
smile_fee_sync_ccd4_e_pix_threshold c dir = smile_fee_sync_cfg_reg_23 c dir

abbrev pub smile_fee_sync_ccd4_f_pix_threshold : Caller → SyncDirection → Link → Option ℤ × Link
smile_fee_sync_ccd4_f_pix_threshold c dir = smile_fee_sync_cfg_reg_23 c dir

abbrev pub smile_fee_sync_event_pkt_limit : Caller → SyncDirection → Link → Option ℤ × Link
smile_fee_sync_event_pkt_limit c dir = smile_fee_sync_cfg_reg_24 c dir

abbrev pub smile_fee_sync_execute_op : Caller → SyncDirection → Link → Option ℤ × Link
smile_fee_sync_execute_op c dir = smile_fee_sync_cfg_reg_25 c dir
