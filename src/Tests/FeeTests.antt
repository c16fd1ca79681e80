-- ===== src/Tests/FeeTests.antt =====
-- The theorems on FEE/smile_fee.c at concrete packets.
use smile_fee.Base.{ℕ, ◌^◌, ◌≤◌, ◌<◌, [], ◌∷◌, ◌++◌, none, some, true, ◌≡◌, refl, arith, pos}
use smile_fee.Base.{replicate, get_or, ◌==◌, if◌then◌else◌, ◌↔◌, zero, suc}
use smile_fee.Fee.Packet.{FeeDataHdr, FeeDataPkt, fee_pkt_is_event}
use smile_fee.Fee.Event.{FeeEventDetection, pixel, fee_event_is_xray}
use smile_fee.Fee.Event.Laws.{IsWide, ring, total, above, fee_event_is_xray_iff}
use smile_fee.Fee.Full.{FeeFfData, fee_ff_aggregate}
use smile_fee.Fee.Full.Laws.{Holds, IsData, feed, payloads, fee_ff_aggregate-payloads}
use smile_fee.Fee.Full.Laws.{fee_ff_aggregate-overrun}
use smile_fee.Fee.Transfer.{FeeFtData, fee_ft_frame_complete}
use smile_fee.Fee.Transfer.Laws.{node_bit, node_number, fee_ft_frame_complete-bits}
use smile_fee.Base.{false, ◌⊎◌}
use smile_fee.Ctrl.Mirror.{Mirror}
use smile_fee.Link.Registers.Addresses.{cfg_reg_21}
use smile_fee.Fee.Create.{FtLayout, fee_ft_aggregator_create}
use smile_fee.Fee.Create.Laws.{refused, Created, fee_ft_aggregator_create-Created}
use smile_fee.Tests.Packets.{all_bytes}

abbrev header : ℕ → FeeDataHdr
header pkt_type = record {
  logical_addr = 0x50;
  proto_id = 0xf0;
  data_len = 4;
  type_field = record { pkt_type = pkt_type; ccd_id = 0; ccd_side = 1; last_pkt = 1 };
  frame_cntr = 0;
  seq_cntr = 0;
}

-- An event at row 1, column 40.
abbrev event : FeeEventDetection
event = record { hdr = header 1; col = 40; row = 1; pix = replicate 25 9 }

nines : (n i : ℕ) → get_or (replicate {A = ℕ} n 9) i 0 < 2 ^ 16
nines zero i = omega arith
nines (suc n) zero = omega arith
nines (suc n) (suc i) = nines n i

event-IsWide : IsWide event
event-IsWide i = nines 25 i

fee_event_is_xray_iff_example : (fee_event_is_xray event 10 100 8 ≡ true) ↔ (
    (fee_pkt_is_event event.hdr ≡ true)
    × (pixel event 12 ≤ 10)
    × (total event ring ≤ 100)
    × (above event 8 ring ≤ 4))
fee_event_is_xray_iff_example = fee_event_is_xray_iff event 10 100 8 event-IsWide

abbrev four_bytes : FeeDataPkt
four_bytes = record { hdr = header 0; payload = all_bytes }

abbrev empty_frame : FeeFfData
empty_frame = record { hk = replicate 152 0; ccd_id = 0; buffer = replicate 8 0; n_elem = 4; n = 0 }

abbrev full_frame : FeeFfData
full_frame = let ff = empty_frame in record ff { n = 4 }

empty-Holds : Holds empty_frame []
empty-Holds = record { stored = refl; counted = refl; size = refl }

full-Holds : Holds full_frame (replicate 8 0)
full-Holds = record { stored = refl; counted = refl; size = refl }

four-IsData : IsData four_bytes
four-IsData = record { of_type = refl; filled = refl; even = refl; some_data = omega arith }

fee_ff_aggregate-payloads_example :
    (ff' : FeeFfData) × feed empty_frame (four_bytes ∷ four_bytes ∷ []) ≡ some ff'
    × Holds ff' ([] ++ payloads (four_bytes ∷ four_bytes ∷ []))
fee_ff_aggregate-payloads_example =
    fee_ff_aggregate-payloads empty_frame [] (four_bytes ∷ four_bytes ∷ []) empty-Holds
      (four-IsData, (four-IsData, tt)) (omega arith)

fee_ff_aggregate-overrun_example : fee_ff_aggregate (some full_frame) (some four_bytes) ≡ none
fee_ff_aggregate-overrun_example =
    fee_ff_aggregate-overrun full_frame (replicate 8 0) four_bytes full-Holds four-IsData
      (omega arith) (omega arith)

abbrev transfer : FeeFtData
transfer = record {
  hk = replicate 152 0;
  e2 = record { buffer = some (replicate 8 0); n = 0 };
  f2 = record { buffer = none; n = 0 };
  e4 = record { buffer = some (replicate 8 0); n = 0 };
  f4 = record { buffer = none; n = 0 };
  n_elem = 4;
  readout = 0xa;
}

fee_ft_frame_complete-bits_example :
    (node_bit (fee_ft_frame_complete transfer four_bytes).1.readout 3
      ≡ (if 3 == node_number 1 0 then 0 else node_bit 0xa 3))
    × (((fee_ft_frame_complete transfer four_bytes).0 ≡ pos 1)
        ↔ ((fee_ft_frame_complete transfer four_bytes).1.readout ≡ 0))
fee_ft_frame_complete-bits_example =
    fee_ft_frame_complete-bits transfer four_bytes 3 (omega arith) (omega arith) (omega arith)
      (omega arith) (omega arith)

-- Binning 6x6 is set, and all four nodes are read out.
abbrev science_mirror : Mirror
science_mirror = record { word = λ a. if a == cfg_reg_21 then 0x20 else 0xf0; sram = λ a. 0 }

fee_ft_aggregator_create-Created_example :
    ((fee_ft_aggregator_create true true science_mirror ≡ none)
      × refused true true science_mirror ≡ true)
    ⊎ ((refused true true science_mirror ≡ false)
        × (ft : FtLayout) × fee_ft_aggregator_create true true science_mirror ≡ some ft
        × Created science_mirror ft)
fee_ft_aggregator_create-Created_example = fee_ft_aggregator_create-Created true true science_mirror
