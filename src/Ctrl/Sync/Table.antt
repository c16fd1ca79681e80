-- ===== src/Ctrl/Sync/Table.antt =====
-- The synchronising functions of FEE/smile_fee_ctrl.c, and the register that each is for.
use smile_fee.Base.{ℕ, ◌+◌, List, [], ◌∷◌, ◌++◌, Option, some, ℤ, negsuc, ◌≡◌, refl}
use smile_fee.Link.State.{Link}
use smile_fee.Link.Command.{fee_read_cmd_register_internal, fee_write_cmd_register_internal}
use smile_fee.Link.Submit.{smile_fee_sync}
use smile_fee.Ctrl.Sync.Registers.{Caller, SyncDirection, fee2dpu, dpu2fee, other}
use smile_fee.Link.Registers.Addresses.{
  cfg_reg_0, cfg_reg_1, cfg_reg_2, cfg_reg_3, cfg_reg_4, cfg_reg_5, cfg_reg_6,
}
use smile_fee.Link.Registers.Addresses.{
  cfg_reg_7, cfg_reg_8, cfg_reg_9, cfg_reg_14, cfg_reg_15, cfg_reg_16, cfg_reg_17,
}
use smile_fee.Link.Registers.Addresses.{
  cfg_reg_18, cfg_reg_19, cfg_reg_20, cfg_reg_21, cfg_reg_22, cfg_reg_23, cfg_reg_24,
}
use smile_fee.Link.Registers.Addresses.{cfg_reg_25}
use smile_fee.Ctrl.Sync.Values.{
  smile_fee_sync_vstart, smile_fee_sync_vend, smile_fee_sync_charge_injection_width,
  smile_fee_sync_charge_injection_gap, smile_fee_sync_parallel_toi_period,
  smile_fee_sync_parallel_clk_overlap, smile_fee_sync_ccd_readout,
}
use smile_fee.Ctrl.Sync.Values.{
  smile_fee_sync_n_final_dump, smile_fee_sync_h_end, smile_fee_sync_charge_injection,
  smile_fee_sync_tri_level_clk, smile_fee_sync_img_clk_dir, smile_fee_sync_reg_clk_dir,
  smile_fee_sync_packet_size,
}
use smile_fee.Ctrl.Sync.Values.{
  smile_fee_sync_cdsclp_hi, smile_fee_sync_adc_pwrdn_en, smile_fee_sync_trap_pumping_dwell_term,
  smile_fee_sync_sync_sel, smile_fee_sync_sel_pwr_sync, smile_fee_sync_use_pwr_sync,
  smile_fee_sync_readout_node_sel,
}
use smile_fee.Ctrl.Sync.Values.{
  smile_fee_sync_digitise_en, smile_fee_sync_correction_bypass, smile_fee_sync_dg_en,
  smile_fee_sync_correction_type, smile_fee_sync_edu_wandering_mask_en,
  smile_fee_sync_full_sun_pix_threshold, smile_fee_sync_pix_offset,
}
use smile_fee.Ctrl.Sync.Values.{
  smile_fee_sync_readout_pause_counter, smile_fee_sync_trap_pumping_shuffle_counter,
  smile_fee_sync_int_sync_period, smile_fee_sync_cdsclp_lo, smile_fee_sync_rowclp_hi,
  smile_fee_sync_ccd2_vod_config, smile_fee_sync_ccd4_vod_config,
}
use smile_fee.Ctrl.Sync.Values.{
  smile_fee_sync_ccd2_vrd_config, smile_fee_sync_ccd4_vrd_config, smile_fee_sync_ccd2_vgd_config,
  smile_fee_sync_ccd4_vgd_config, smile_fee_sync_ccd_vog_config, smile_fee_sync_rowclp_lo,
  smile_fee_sync_h_start,
}
use smile_fee.Ctrl.Sync.Values.{
  smile_fee_sync_ccd_mode_config, smile_fee_sync_ccd_mode2_config, smile_fee_sync_event_detection,
  smile_fee_sync_clear_error_flag, smile_fee_sync_ccd2_e_pix_threshold,
  smile_fee_sync_ccd2_f_pix_threshold, smile_fee_sync_ccd4_e_pix_threshold,
}
use smile_fee.Ctrl.Sync.Values.{
  smile_fee_sync_ccd4_f_pix_threshold, smile_fee_sync_event_pkt_limit, smile_fee_sync_execute_op,
}

-- What such a function has to do for a register.
abbrev pub sync_register : ℕ → Caller → SyncDirection → Link → Option ℤ × Link
sync_register reg c fee2dpu s =
    smile_fee_sync (fee_read_cmd_register_internal c.allocs reg) c.malloc_ok (c.mirror + reg) 0 s
sync_register reg c dpu2fee s =
    smile_fee_sync (fee_write_cmd_register_internal c.allocs reg) c.malloc_ok (c.mirror + reg) 4 s
sync_register reg c (other d) s = (some (negsuc 0), s)

-- A function that does so.
pub record Synced : Type 0 where
  pub reg : ℕ
  pub sync : Caller → SyncDirection → Link → Option ℤ × Link
  pub law : (c : Caller) (dir : SyncDirection) (s : Link) → sync c dir s ≡ sync_register reg c dir s

pub by_direction :
    (f g : Caller → SyncDirection → Link → Option ℤ × Link)
    → ((c : Caller) (s : Link) → f c fee2dpu s ≡ g c fee2dpu s)
    → ((c : Caller) (s : Link) → f c dpu2fee s ≡ g c dpu2fee s)
    → ((c : Caller) (d : ℤ) (s : Link) → f c (other d) s ≡ g c (other d) s)
    → (c : Caller) (dir : SyncDirection) (s : Link) → f c dir s ≡ g c dir s
by_direction f g reads writes fails c fee2dpu s = reads c s
by_direction f g reads writes fails c dpu2fee s = writes c s
by_direction f g reads writes fails c (other d) s = fails c d s

abbrev pub synced :
    (reg : ℕ) (sync : Caller → SyncDirection → Link → Option ℤ × Link)
    → ((c : Caller) (s : Link) → sync c fee2dpu s ≡ sync_register reg c fee2dpu s)
    → ((c : Caller) (s : Link) → sync c dpu2fee s ≡ sync_register reg c dpu2fee s)
    → ((c : Caller) (d : ℤ) (s : Link) → sync c (other d) s ≡ sync_register reg c (other d) s)
    → Synced
synced reg sync reads writes fails = record {
  reg = reg;
  sync = sync;
  law = by_direction sync (sync_register reg) reads writes fails;
}

-- In the order of the fields.
abbrev pub readout_syncs : List Synced
readout_syncs =
    synced cfg_reg_0 smile_fee_sync_vstart (λ c s. refl) (λ c s. refl) (λ c d s. refl)
    ∷ synced cfg_reg_0 smile_fee_sync_vend (λ c s. refl) (λ c s. refl) (λ c d s. refl)
    ∷ synced cfg_reg_1 smile_fee_sync_charge_injection_width (λ c s. refl) (λ c s. refl)
        (λ c d s. refl)
    ∷ synced cfg_reg_1 smile_fee_sync_charge_injection_gap (λ c s. refl) (λ c s. refl)
        (λ c d s. refl)
    ∷ synced cfg_reg_2 smile_fee_sync_parallel_toi_period (λ c s. refl) (λ c s. refl)
        (λ c d s. refl)
    ∷ synced cfg_reg_2 smile_fee_sync_parallel_clk_overlap (λ c s. refl) (λ c s. refl)
        (λ c d s. refl)
    ∷ synced cfg_reg_2 smile_fee_sync_ccd_readout (λ c s. refl) (λ c s. refl) (λ c d s. refl)
    ∷ synced cfg_reg_2 smile_fee_sync_ccd_readout (λ c s. refl) (λ c s. refl) (λ c d s. refl)
    ∷ synced cfg_reg_3 smile_fee_sync_n_final_dump (λ c s. refl) (λ c s. refl) (λ c d s. refl)
    ∷ synced cfg_reg_3 smile_fee_sync_h_end (λ c s. refl) (λ c s. refl) (λ c d s. refl)
    ∷ synced cfg_reg_3 smile_fee_sync_charge_injection (λ c s. refl) (λ c s. refl) (λ c d s. refl)
    ∷ synced cfg_reg_3 smile_fee_sync_tri_level_clk (λ c s. refl) (λ c s. refl) (λ c d s. refl)
    ∷ synced cfg_reg_3 smile_fee_sync_img_clk_dir (λ c s. refl) (λ c s. refl) (λ c d s. refl)
    ∷ synced cfg_reg_3 smile_fee_sync_reg_clk_dir (λ c s. refl) (λ c s. refl) (λ c d s. refl)
    ∷ synced cfg_reg_4 smile_fee_sync_packet_size (λ c s. refl) (λ c s. refl) (λ c d s. refl)
    ∷ synced cfg_reg_4 smile_fee_sync_cdsclp_hi (λ c s. refl) (λ c s. refl) (λ c d s. refl)
    ∷ synced cfg_reg_5 smile_fee_sync_trap_pumping_dwell_term (λ c s. refl) (λ c s. refl)
        (λ c d s. refl)
    ∷ synced cfg_reg_5 smile_fee_sync_sync_sel (λ c s. refl) (λ c s. refl) (λ c d s. refl)
    ∷ synced cfg_reg_5 smile_fee_sync_sel_pwr_sync (λ c s. refl) (λ c s. refl) (λ c d s. refl)
    ∷ synced cfg_reg_5 smile_fee_sync_use_pwr_sync (λ c s. refl) (λ c s. refl) (λ c d s. refl)
    ∷ synced cfg_reg_5 smile_fee_sync_digitise_en (λ c s. refl) (λ c s. refl) (λ c d s. refl)
    ∷ synced cfg_reg_5 smile_fee_sync_correction_bypass (λ c s. refl) (λ c s. refl) (λ c d s. refl)
    ∷ synced cfg_reg_5 smile_fee_sync_dg_en (λ c s. refl) (λ c s. refl) (λ c d s. refl)
    ∷ synced cfg_reg_5 smile_fee_sync_correction_type (λ c s. refl) (λ c s. refl) (λ c d s. refl)
    ∷ []

abbrev pub detector_syncs : List Synced
detector_syncs =
    synced cfg_reg_5 smile_fee_sync_edu_wandering_mask_en (λ c s. refl) (λ c s. refl)
      (λ c d s. refl)
    ∷ synced cfg_reg_5 smile_fee_sync_readout_node_sel (λ c s. refl) (λ c s. refl) (λ c d s. refl)
    ∷ synced cfg_reg_6 smile_fee_sync_full_sun_pix_threshold (λ c s. refl) (λ c s. refl)
        (λ c d s. refl)
    ∷ synced cfg_reg_7 smile_fee_sync_readout_pause_counter (λ c s. refl) (λ c s. refl)
        (λ c d s. refl)
    ∷ synced cfg_reg_7 smile_fee_sync_trap_pumping_shuffle_counter (λ c s. refl) (λ c s. refl)
        (λ c d s. refl)
    ∷ synced cfg_reg_8 smile_fee_sync_cdsclp_lo (λ c s. refl) (λ c s. refl) (λ c d s. refl)
    ∷ synced cfg_reg_9 smile_fee_sync_rowclp_hi (λ c s. refl) (λ c s. refl) (λ c d s. refl)
    ∷ synced cfg_reg_14 smile_fee_sync_ccd2_vod_config (λ c s. refl) (λ c s. refl) (λ c d s. refl)
    ∷ synced cfg_reg_15 smile_fee_sync_ccd4_vod_config (λ c s. refl) (λ c s. refl) (λ c d s. refl)
    ∷ synced cfg_reg_16 smile_fee_sync_ccd2_vrd_config (λ c s. refl) (λ c s. refl) (λ c d s. refl)
    ∷ synced cfg_reg_17 smile_fee_sync_ccd4_vrd_config (λ c s. refl) (λ c s. refl) (λ c d s. refl)
    ∷ synced cfg_reg_18 smile_fee_sync_ccd2_vgd_config (λ c s. refl) (λ c s. refl) (λ c d s. refl)
    ∷ synced cfg_reg_19 smile_fee_sync_ccd4_vgd_config (λ c s. refl) (λ c s. refl) (λ c d s. refl)
    ∷ synced cfg_reg_20 smile_fee_sync_ccd_vog_config (λ c s. refl) (λ c s. refl) (λ c d s. refl)
    ∷ synced cfg_reg_21 smile_fee_sync_rowclp_lo (λ c s. refl) (λ c s. refl) (λ c d s. refl)
    ∷ synced cfg_reg_21 smile_fee_sync_ccd_mode_config (λ c s. refl) (λ c s. refl) (λ c d s. refl)
    ∷ synced cfg_reg_21 smile_fee_sync_ccd_mode2_config (λ c s. refl) (λ c s. refl) (λ c d s. refl)
    ∷ synced cfg_reg_21 smile_fee_sync_event_detection (λ c s. refl) (λ c s. refl) (λ c d s. refl)
    ∷ synced cfg_reg_21 smile_fee_sync_clear_error_flag (λ c s. refl) (λ c s. refl) (λ c d s. refl)
    ∷ synced cfg_reg_22 smile_fee_sync_ccd2_e_pix_threshold (λ c s. refl) (λ c s. refl)
        (λ c d s. refl)
    ∷ synced cfg_reg_22 smile_fee_sync_ccd2_f_pix_threshold (λ c s. refl) (λ c s. refl)
        (λ c d s. refl)
    ∷ synced cfg_reg_23 smile_fee_sync_ccd4_e_pix_threshold (λ c s. refl) (λ c s. refl)
        (λ c d s. refl)
    ∷ synced cfg_reg_23 smile_fee_sync_ccd4_f_pix_threshold (λ c s. refl) (λ c s. refl)
        (λ c d s. refl)
    ∷ synced cfg_reg_24 smile_fee_sync_event_pkt_limit (λ c s. refl) (λ c s. refl) (λ c d s. refl)
    ∷ synced cfg_reg_25 smile_fee_sync_execute_op (λ c s. refl) (λ c s. refl) (λ c d s. refl)
    ∷ []

-- The functions for the four values outside of the table of fields.
abbrev pub sync_adc_pwrdn_en : Synced
sync_adc_pwrdn_en =
    synced cfg_reg_4 smile_fee_sync_adc_pwrdn_en (λ c s. refl) (λ c s. refl) (λ c d s. refl)

abbrev pub sync_pix_offset : Synced
sync_pix_offset =
    synced cfg_reg_6 smile_fee_sync_pix_offset (λ c s. refl) (λ c s. refl) (λ c d s. refl)

abbrev pub sync_int_sync_period : Synced
sync_int_sync_period =
    synced cfg_reg_8 smile_fee_sync_int_sync_period (λ c s. refl) (λ c s. refl) (λ c d s. refl)

abbrev pub sync_h_start : Synced
sync_h_start = synced cfg_reg_21 smile_fee_sync_h_start (λ c s. refl) (λ c s. refl) (λ c d s. refl)

abbrev pub syncs : List Synced
syncs = readout_syncs ++ detector_syncs
