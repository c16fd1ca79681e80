-- ===== src/Fee/Packet.antt =====
-- The header of a data packet in FEE/smile_fee.h, its type field, and the two tests on it.
use smile_fee.Base.{ℕ, List, Bool, ◌==◌}

abbrev pub fee_pkt_type_data : ℕ
fee_pkt_type_data = 0x0

abbrev pub fee_pkt_type_ev_det : ℕ
fee_pkt_type_ev_det = 0x1

abbrev pub fee_pkt_type_hk : ℕ
fee_pkt_type_hk = 0x2

abbrev pub fee_pkt_type_wmask : ℕ
fee_pkt_type_wmask = 0x3

abbrev pub fee_ccd_side_f : ℕ
fee_ccd_side_f = 0x0

abbrev pub fee_ccd_side_e : ℕ
fee_ccd_side_e = 0x1

abbrev pub fee_ccd_id_2 : ℕ
fee_ccd_id_2 = 0x0

abbrev pub fee_ccd_id_4 : ℕ
fee_ccd_id_4 = 0x1

-- `struct fee_pkt_type`, as far as it is used.
pub record FeePktType : Type 0 where
  pub pkt_type : ℕ
  pub ccd_id : ℕ
  pub ccd_side : ℕ
  pub last_pkt : ℕ

-- `struct fee_data_hdr` in the byte order of the processor. The union of `fee_pkt_type` and `type`
-- is the field `type_field`.
pub record FeeDataHdr : Type 0 where
  pub logical_addr : ℕ
  pub proto_id : ℕ
  pub data_len : ℕ
  pub type_field : FeePktType
  pub frame_cntr : ℕ
  pub seq_cntr : ℕ

-- `struct fee_data_pkt`: the bytes behind the header.
pub record FeeDataPkt : Type 0 where
  pub hdr : FeeDataHdr
  pub payload : List ℕ

unfoldable pub fee_pkt_is_event : FeeDataHdr → Bool
fee_pkt_is_event hdr = hdr.type_field.pkt_type == fee_pkt_type_ev_det

unfoldable pub fee_pkt_is_wandering_mask : FeeDataHdr → Bool
fee_pkt_is_wandering_mask hdr = hdr.type_field.pkt_type == fee_pkt_type_wmask
