-- ===== src/Tests/CtrlTests.antt =====
-- The theorems on FEE/smile_fee_ctrl.c at concrete mirrors.
use smile_fee.Ctrl.Sram.Sending.{Arrivals, Budget, smile_fee_sync_mirror_to_sram-Exchanged}
use smile_fee.Ctrl.Sram.Sending.{smile_fee_sync_sram_to_mirror-Exchanged}
use smile_fee.Ctrl.Sram.Transfer.{writer, reader}
use smile_fee.Link.State.{Link}
use smile_fee.Ctrl.Sync.Values.{smile_fee_sync_adc_pwrdn_en, smile_fee_sync_pix_offset}
use smile_fee.Ctrl.Sync.Values.{smile_fee_sync_int_sync_period, smile_fee_sync_h_start}
use smile_fee.Base.{ℕ, ◌+◌, ◌*◌, ◌/◌, ◌%◌, ◌^◌, ◌≤◌, [], ◌∷◌, none, some}
use smile_fee.Base.{true, pos, ◌≡◌, ◌↔◌, refl, arith, if◌then◌else◌}
use smile_fee.Base.{◌==◌}
use smile_fee.Link.Registers.Addresses.{cfg_reg_0, cfg_reg_4, cfg_reg_6, cfg_reg_8, cfg_reg_21}
use smile_fee.Ctrl.Mirror.{Mirror, host}
use smile_fee.Ctrl.CfgReadout.{smile_fee_get_vend, smile_fee_set_vstart}
use smile_fee.Ctrl.CfgReadout.{smile_fee_get_adc_pwrdn_en, smile_fee_set_adc_pwrdn_en}
use smile_fee.Ctrl.Table.{fields}
use smile_fee.Ctrl.Cells.{get-put}
use smile_fee.Ctrl.Readback.{get-set_irregular}
use smile_fee.Ctrl.Sram.Local.{smile_fee_write_sram, smile_fee_write_sram_16}
use smile_fee.Ctrl.Sram.Local.{smile_fee_write_sram_32, smile_fee_read_sram_16}
use smile_fee.Ctrl.Sram.Laws.{smile_fee_write_sram_16-eq, smile_fee_write_sram-within}
use smile_fee.Ctrl.Sram.Laws.{read_sram_16-write_sram_16, smile_fee_write_sram_32-doubled}
use smile_fee.Ctrl.Sram.Transfer.{settle, smile_fee_sync_mirror_to_sram}
use smile_fee.Ctrl.Sram.Transfer.{smile_fee_sync_sram_to_mirror}
use smile_fee.Ctrl.Sram.Termination.{at_once}
use smile_fee.Ctrl.Sram.Pieces.{Exchanged, IsRange}
use smile_fee.Rmap.Packet.{RmapPkt, read_addr_inc}
use smile_fee.Link.Log.Laws.{awaited}
use smile_fee.Link.Receive.{process_response}
use smile_fee.Link.Command.{generator}
use smile_fee.Link.Command.Laws.{gen_ok}
use smile_fee.Link.Submit.Sync.{Sent, CanSend}
use smile_fee.Ctrl.Mirror.{mirror_at}
use smile_fee.Ctrl.CfgImage.{smile_fee_get_pix_offset, smile_fee_set_pix_offset}
use smile_fee.Ctrl.CfgImage.{smile_fee_get_int_sync_period, smile_fee_set_int_sync_period}
use smile_fee.Ctrl.CfgDetector.{smile_fee_get_h_start, smile_fee_set_h_start}
use smile_fee.Ctrl.Sync.Registers.{fee2dpu, dpu2fee}
use smile_fee.Ctrl.Sync.Values.{smile_fee_sync_vend}
use smile_fee.Ctrl.Sync.Table.{sync_register}
use smile_fee.Ctrl.Sync.Exchange.{caller, sync-eq, sync-get}
use smile_fee.Ctrl.Sync.Housekeeping.{AllSent, hk_commands, smile_fee_sync_hk_regs}
use smile_fee.Ctrl.Sync.Housekeeping.{smile_fee_sync_hk_regs-zero_iff}
use smile_fee.Tests.Packets.{accept, idle_link, response_pkt}
use smile_fee.Tests.LinkTests.{configured, idle-IsValid}

-- Registers that hold their address.
abbrev mirror : Mirror
mirror = record { word = λ reg. reg; sram = λ i. 0 }

get-put_example : smile_fee_get_vend (smile_fee_set_vstart 5 mirror) ≡ smile_fee_get_vend mirror
unfolding fields
get-put_example = get-put 1 0 _ _ refl refl 5 mirror

smile_fee_write_sram_16-eq_example :
    smile_fee_write_sram_16 (some (0x1234 ∷ 0x5678 ∷ [])) 0x00801800 2 mirror
    ≡ smile_fee_write_sram (some (0x12 ∷ 0x34 ∷ 0x56 ∷ 0x78 ∷ [])) 0x00801800 4 mirror
smile_fee_write_sram_16-eq_example =
    smile_fee_write_sram_16-eq (0x1234 ∷ 0x5678 ∷ []) 0x00801800 2 mirror refl (omega arith)

smile_fee_write_sram-within_example :
    (smile_fee_write_sram (some (1 ∷ 2 ∷ [])) 0x00BFFFFB 2 mirror).1.sram 0x3FFFFD ≡ 0
smile_fee_write_sram-within_example =
    smile_fee_write_sram-within (some (1 ∷ 2 ∷ [])) 0x00BFFFFB 2 mirror 0x3FFFFD (omega arith)

read_sram_16-write_sram_16_example :
    ((smile_fee_write_sram_16 (some (0x1234 ∷ 0x5678 ∷ [])) 0x00801800 2 mirror).0 ≡ pos 4)
    × (smile_fee_read_sram_16 0x00801800 2
          (smile_fee_write_sram_16 (some (0x1234 ∷ 0x5678 ∷ [])) 0x00801800 2 mirror).1
        ≡ (pos 4, 0x1234 ∷ 0x5678 ∷ []))
read_sram_16-write_sram_16_example =
    read_sram_16-write_sram_16 (0x1234 ∷ 0x5678 ∷ []) 0x00801800 mirror
      (omega arith, (omega arith, tt)) (omega arith) (omega arith)

-- The last two numbers of the area, written one byte too far.
smile_fee_write_sram_32-doubled_example :
    ((smile_fee_write_sram_32 (some (0x12345678 ∷ [])) 0x00BFFFFB 1 mirror).0 ≡ pos 2)
    × ((smile_fee_write_sram_32 (some (0x12345678 ∷ [])) 0x00BFFFFB 1 mirror).1.sram 0x3FFFFE
        ≡ 0x78)
smile_fee_write_sram_32-doubled_example =
    smile_fee_write_sram_32-doubled (0x12345678 ∷ []) 0x00BFFFFB mirror 3 (omega arith)
      (omega arith) (omega arith)

get-set_irregular_example :
    (smile_fee_get_pix_offset (smile_fee_set_pix_offset 0x12345 mirror) ≡ pos 0)
    × ((smile_fee_get_int_sync_period (smile_fee_set_int_sync_period 0x12345 mirror) ≡ 0x2345)
        × ((smile_fee_get_h_start (smile_fee_set_h_start 0x12345 mirror)
              ≡ 3 + 5 * 2 ^ 8 + host cfg_reg_21 mirror / 2 ^ 8 % 2 ^ 4 * 2 ^ 4)
            × (smile_fee_get_adc_pwrdn_en (smile_fee_set_adc_pwrdn_en 0x12345 mirror)
                ≡ (if (host cfg_reg_4 mirror / 2 ^ 29) == 0 then 1 else 0))))
get-set_irregular_example = get-set_irregular 0x12345 mirror

sync-eq_example :
    (smile_fee_sync_vend (caller 8192) dpu2fee idle_link
      ≡ sync_register cfg_reg_0 (caller 8192) dpu2fee idle_link)
    × (smile_fee_sync_adc_pwrdn_en (caller 8192) dpu2fee idle_link
        ≡ sync_register cfg_reg_4 (caller 8192) dpu2fee idle_link)
    × (smile_fee_sync_pix_offset (caller 8192) dpu2fee idle_link
        ≡ sync_register cfg_reg_6 (caller 8192) dpu2fee idle_link)
    × (smile_fee_sync_int_sync_period (caller 8192) dpu2fee idle_link
        ≡ sync_register cfg_reg_8 (caller 8192) dpu2fee idle_link)
    × (smile_fee_sync_h_start (caller 8192) dpu2fee idle_link
        ≡ sync_register cfg_reg_21 (caller 8192) dpu2fee idle_link)
unfolding fields
sync-eq_example = sync-eq 1 _ _ (caller 8192) dpu2fee idle_link refl refl

smile_fee_sync_hk_regs-zero_iff_example :
    ((smile_fee_sync_hk_regs (caller 8192) idle_link).0 ≡ some (pos 0))
    ↔ AllSent (hk_commands (caller 8192)) true idle_link
smile_fee_sync_hk_regs-zero_iff_example = smile_fee_sync_hk_regs-zero_iff (caller 8192) idle_link

can_read : CanSend idle_link accept read_addr_inc cfg_reg_0 4
can_read = record {
  configured = configured;
  request = record {
    known = refl;
    id_fits = omega arith;
    addr_fits = omega arith;
    size_fits = omega arith;
  };
  valid = idle-IsValid;
  honest = tt;
  sends = refl;
}

abbrev register_reply : ℕ → RmapPkt
register_reply slot =
    let p = response_pkt in
    record p { tr_id = slot; data_len = 4; payload = some (0x12 ∷ 0x34 ∷ 0x56 ∷ 0x78 ∷ []) }

sync-get_example :
    (sent : Sent accept
      (generator gen_ok read_addr_inc cfg_reg_0 4)
      (8192 + cfg_reg_0)
      (8192 + cfg_reg_0)
      0
      idle_link
      (smile_fee_sync_vend (caller 8192) fee2dpu idle_link))
    × (smile_fee_get_vend (
          mirror_at 8192 65536
            (process_response
              (register_reply sent.slot)
              (smile_fee_sync_vend (caller 8192) fee2dpu idle_link).1).memory)
        ≡ 0x1234)
    × (awaited
          (process_response
            (register_reply sent.slot)
            (smile_fee_sync_vend (caller 8192) fee2dpu idle_link).1).trans_log
          sent.slot
        ≡ none)
unfolding fields
sync-get_example =
    sync-get 1 _ _ 8192 65536 idle_link accept 3 0x12 0x34 0x56 0x78 register_reply refl refl
      can_read tt (omega arith) refl (λ e. omega (arith, e))
      (λ slot. record {
        for_slot = refl;
        length_is = refl;
        bytes = refl;
        are_bytes = (omega arith, omega arith, omega arith, omega arith);
      })

-- Nothing happens between two calls.
abbrev nothing : Link → Link
nothing s = s

nothing-Arrivals : Arrivals nothing
nothing-Arrivals = record { keeps = λ s. refl; keeps_log = λ s. refl; honest = λ s h. h }

idle-Budget : (limit : ℕ) → 3 ≤ limit → Budget accept limit 3 idle_link
idle-Budget limit h = record {
  configured = configured;
  valid = idle-IsValid;
  honest = tt;
  sends = refl;
  left = h;
}

some_rows : IsRange 0x00800010 20
some_rows = record {
  aligned = refl;
  from_start = omega arith;
  in_area = omega arith;
  fits = omega arith;
  to_end = omega arith;
}

-- 20 bytes from the second row on, at most 8 at a time.
smile_fee_sync_mirror_to_sram-Exchanged_example :
    Exchanged
      (writer (caller 8192) nothing)
      at_once
      0x00800010
      (4096 + 16)
      8
      0
      20
      idle_link
      (λ fuel.
        smile_fee_sync_mirror_to_sram
          (writer (caller 8192) nothing)
          fuel
          4096
          0x00800010
          20
          8
          idle_link)
smile_fee_sync_mirror_to_sram-Exchanged_example =
    smile_fee_sync_mirror_to_sram-Exchanged nothing accept 8192 4096 0x00800010 20 8 3 idle_link
      nothing-Arrivals (λ call. refl) some_rows (omega arith) (omega arith) (omega arith)
      (idle-Budget 64 (omega arith))

smile_fee_sync_sram_to_mirror-Exchanged_example :
    Exchanged
      (reader (caller 8192) nothing)
      (settle (reader (caller 8192) nothing))
      0x00800010
      (4096 + 16)
      8
      0
      20
      idle_link
      (λ fuel.
        smile_fee_sync_sram_to_mirror
          (reader (caller 8192) nothing)
          fuel
          4096
          0x00800010
          20
          8
          idle_link)
smile_fee_sync_sram_to_mirror-Exchanged_example =
    smile_fee_sync_sram_to_mirror-Exchanged nothing accept 8192 4096 0x00800010 20 8 3 idle_link
      nothing-Arrivals (λ call. refl) some_rows (omega arith) (omega arith) (omega arith)
      (idle-Budget 3 (omega arith))
