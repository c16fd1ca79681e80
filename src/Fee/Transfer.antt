-- ===== src/Fee/Transfer.antt =====
-- The aggregator of frame transfer data in FEE/smile_fee.c.
pub mod Laws
use smile_fee.Base.{
  ℕ, ◌+◌, ◌*◌, ◌/◌, List, Option, none, some, Bool, true, false, ◌&&◌, ◌||◌, ◌==◌, ltb, leb,
}
use smile_fee.Base.{if◌then◌else◌, bit_and, complement, ℤ, pos, negsuc}
use smile_fee.Rmap.Header.{read_bytes}
use smile_fee.Fee.Packet.{FeeDataPkt, fee_pkt_type_data, fee_pkt_type_hk, fee_pkt_type_ev_det}
use smile_fee.Fee.Packet.{
  fee_pkt_type_wmask, fee_ccd_side_e, fee_ccd_side_f, fee_ccd_id_2, fee_ccd_id_4,
}
use smile_fee.Fee.Full.{overwrite, fee_hk_packet_data_len}

abbrev pub fee_readout_node_e2 : ℕ
fee_readout_node_e2 = 0x2

abbrev pub fee_readout_node_f2 : ℕ
fee_readout_node_f2 = 0x1

abbrev pub fee_readout_node_e4 : ℕ
fee_readout_node_e4 = 0x8

abbrev pub fee_readout_node_f4 : ℕ
fee_readout_node_f4 = 0x4

-- The buffer of a readout node, as bytes, and the number of its elements; a node that is not read
-- out has a null pointer. A write behind the end of one buffer, which may hit the next one, is
-- outside of the model.
pub record FtNode : Type 0 where
  pub buffer : Option (List ℕ)
  pub n : ℕ

-- `struct fee_ft_data`, as far as the aggregator uses it.
pub record FeeFtData : Type 0 where
  pub hk : List ℕ
  pub e2 : FtNode
  pub f2 : FtNode
  pub e4 : FtNode
  pub f4 : FtNode
  pub n_elem : ℕ
  pub readout : ℕ

-- One of the four assignments: what is returned and the node after it.
unfoldable pub assign_node : FeeDataPkt → ℕ → FtNode → Option (ℤ × FtNode)
unfolding overwrite
assign_node pkt capacity node =
    let n_elem = pkt.hdr.data_len / 2 in
    if ltb node.n (capacity + n_elem)
    then elim (read_bytes (some pkt.payload) pkt.hdr.data_len) [
      | none ↦ none
      | some bytes ↦ elim node.buffer [
        | none ↦ none
        | some buffer ↦ elim (overwrite buffer (2 * node.n) bytes) [
          | none ↦ none
          | some written ↦ some (pos 0, record node { buffer = some written; n = node.n + n_elem })
        ]
      ]
    ]
    else some (negsuc 0, node)

-- The packet comes from the node `side` of the CCD `ccd`.
abbrev pub is_from : ℕ → ℕ → FeeDataPkt → Bool
is_from side ccd pkt = pkt.hdr.type_field.ccd_side == side && pkt.hdr.type_field.ccd_id == ccd

unfoldable pub fee_ft_aggregate_assign_data : FeeFtData → FeeDataPkt → Option (ℤ × FeeFtData)
unfolding assign_node
fee_ft_aggregate_assign_data ft pkt =
    if is_from fee_ccd_side_e fee_ccd_id_2 pkt
    then elim (assign_node pkt ft.n_elem ft.e2) [
      | none ↦ none
      | some (ret, node) ↦ some (ret, record ft { e2 = node })
    ]
    else if is_from fee_ccd_side_e fee_ccd_id_4 pkt
    then elim (assign_node pkt ft.n_elem ft.e4) [
      | none ↦ none
      | some (ret, node) ↦ some (ret, record ft { e4 = node })
    ]
    else if is_from fee_ccd_side_f fee_ccd_id_2 pkt
    then elim (assign_node pkt ft.n_elem ft.f2) [
      | none ↦ none
      | some (ret, node) ↦ some (ret, record ft { f2 = node })
    ]
    else if is_from fee_ccd_side_f fee_ccd_id_4 pkt
    then elim (assign_node pkt ft.n_elem ft.f4) [
      | none ↦ none
      | some (ret, node) ↦ some (ret, record ft { f4 = node })
    ]
    else some (pos 0, ft)

-- `readout` is 16 bits wide.
abbrev pub clear_node : ℕ → ℕ → ℕ
clear_node readout node = bit_and readout (complement 16 node)

unfoldable pub remaining : ℕ → FeeDataPkt → ℕ
remaining readout pkt =
    if pkt.hdr.type_field.last_pkt == 0
    then readout
    else if is_from fee_ccd_side_e fee_ccd_id_2 pkt
    then clear_node readout fee_readout_node_e2
    else if is_from fee_ccd_side_e fee_ccd_id_4 pkt
    then clear_node readout fee_readout_node_e4
    else if is_from fee_ccd_side_f fee_ccd_id_2 pkt
    then clear_node readout fee_readout_node_f2
    else if is_from fee_ccd_side_f fee_ccd_id_4 pkt
    then clear_node readout fee_readout_node_f4
    else readout

unfoldable pub fee_ft_frame_complete : FeeFtData → FeeDataPkt → ℤ × FeeFtData
fee_ft_frame_complete ft pkt = (
  if remaining ft.readout pkt == 0 then pos 1 else pos 0,
  record ft { readout = remaining ft.readout pkt },
)

unfoldable pub ft_hk : FeeDataPkt → FeeFtData → Option (ℤ × FeeFtData)
unfolding overwrite
ft_hk pkt ft =
    if leb pkt.hdr.data_len fee_hk_packet_data_len
    then elim (read_bytes (some pkt.payload) pkt.hdr.data_len) [
      | none ↦ none
      | some bytes ↦ elim (overwrite ft.hk 0 bytes) [
        | none ↦ none
        | some hk ↦ some (pos 0, record ft { hk = hk })
      ]
    ]
    else some (negsuc 0, ft)

-- What is done before the test for a complete frame.
unfoldable pub ft_packet : FeeDataPkt → FeeFtData → Option (ℤ × FeeFtData)
ft_packet pkt ft =
    if pkt.hdr.type_field.pkt_type == fee_pkt_type_data
    then fee_ft_aggregate_assign_data ft pkt
    else if pkt.hdr.type_field.pkt_type == fee_pkt_type_hk
    then ft_hk pkt ft
    else if pkt.hdr.type_field.pkt_type == fee_pkt_type_ev_det
        || pkt.hdr.type_field.pkt_type == fee_pkt_type_wmask
    then some (pos 0, ft)
    else some (negsuc 0, ft)

-- The test for a complete frame, unless there was an error.
unfoldable pub ft_finish : FeeDataPkt → Option (ℤ × FeeFtData) → Option (ℤ × Option FeeFtData)
ft_finish pkt none = none
ft_finish pkt (some (negsuc n, ft)) = some (negsuc n, some ft)
ft_finish pkt (some (pos n, ft)) =
    if n == 0
    then some ((fee_ft_frame_complete ft pkt).0, some (fee_ft_frame_complete ft pkt).1)
    else some (pos n, some ft)

unfoldable pub fee_ft_aggregate :
    Option FeeFtData → Option FeeDataPkt → Option (ℤ × Option FeeFtData)
fee_ft_aggregate none pkt = some (negsuc 0, none)
fee_ft_aggregate (some ft) none = some (negsuc 0, some ft)
fee_ft_aggregate (some ft) (some pkt) = ft_finish pkt (ft_packet pkt ft)
