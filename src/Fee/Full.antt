-- ===== src/Fee/Full.antt =====
-- The aggregator of full frames in FEE/smile_fee.c.
pub mod Laws
use smile_fee.Base.{
  ℕ, zero, ◌+◌, ◌*◌, ◌/◌, ◌%◌, List, [], ◌∷◌, ◌++◌, Option, none, some, Bool, true, false,
}
use smile_fee.Base.{◌==◌, ltb, leb, if◌then◌else◌, length, take, drop, ℤ, pos, negsuc}
use smile_fee.Rmap.Header.{read_bytes}
use smile_fee.Fee.Packet.{FeeDataPkt, fee_pkt_type_data, fee_pkt_type_hk}

abbrev pub fee_hk_packet_data_len : ℕ
fee_hk_packet_data_len = 152

-- `struct fee_ff_data`. The buffers are given as bytes, `data` has two for each element.
pub record FeeFfData : Type 0 where
  pub hk : List ℕ
  pub ccd_id : ℕ
  pub buffer : List ℕ
  pub n_elem : ℕ
  pub n : ℕ

-- `memcpy(&buffer[at], bytes, length bytes)`; `none` is a write behind the end of the buffer.
unfoldable pub overwrite : List ℕ → ℕ → List ℕ → Option (List ℕ)
overwrite buffer at bytes =
    if leb (at + length bytes) (length buffer)
    then some (take at buffer ++ (bytes ++ drop (at + length bytes) buffer))
    else none

-- The result of an aggregator, `none` for an access outside of a buffer.
unfoldable pub ff_hk : FeeDataPkt → FeeFfData → Option (ℤ × FeeFfData)
unfolding overwrite
ff_hk pkt ff =
    if leb pkt.hdr.data_len fee_hk_packet_data_len
    then elim (read_bytes (some pkt.payload) pkt.hdr.data_len) [
      | none ↦ none
      | some bytes ↦ elim (overwrite ff.hk 0 bytes) [
        | none ↦ none
        | some hk ↦ some (pos 0, record ff { hk = hk })
      ]
    ]
    else some (negsuc 0, ff)

-- The test compares signed numbers, so that `ff->n - n_elem` may be negative.
unfoldable pub ff_data : FeeDataPkt → FeeFfData → Option (ℤ × FeeFfData)
unfolding overwrite
ff_data pkt ff =
    let n_elem = pkt.hdr.data_len / 2 in
    let ret = if pkt.hdr.type_field.last_pkt == 0 then pos 0 else pos 1 in
    if ltb ff.n (ff.n_elem + n_elem)
    then elim (read_bytes (some pkt.payload) pkt.hdr.data_len) [
      | none ↦ none
      | some bytes ↦ elim (overwrite ff.buffer (2 * ff.n) bytes) [
        | none ↦ none
        | some buffer ↦ some (ret, record ff { buffer = buffer; n = ff.n + n_elem })
      ]
    ]
    else some (negsuc 0, ff)

-- What the packet does to an aggregator that exists.
unfoldable pub ff_packet : FeeDataPkt → FeeFfData → Option (ℤ × FeeFfData)
ff_packet pkt ff =
    if pkt.hdr.type_field.pkt_type == fee_pkt_type_hk
    then ff_hk pkt ff
    else if pkt.hdr.type_field.pkt_type == fee_pkt_type_data
    then ff_data pkt ff
    else some (pos 0, ff)

-- A null pointer for either argument is an error.
unfoldable pub fee_ff_aggregate :
    Option FeeFfData → Option FeeDataPkt → Option (ℤ × Option FeeFfData)
fee_ff_aggregate none pkt = some (negsuc 0, none)
fee_ff_aggregate (some ff) none = some (negsuc 0, some ff)
fee_ff_aggregate (some ff) (some pkt) = elim (ff_packet pkt ff) [
  | none ↦ none
  | some (ret, ff') ↦ some (ret, some ff')
]
