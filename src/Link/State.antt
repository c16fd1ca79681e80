-- ===== src/Link/State.antt =====
-- The static variables of FEE/smile_fee_rmap.c and the functions that configure them. The two
-- functions that the client provides are part of the state: what `rmap_tx` returns is a function of
-- the call, and its calls are recorded; what `rmap_rx` will deliver is a list of packets.
use smile_fee.Base.{ℕ, List, Option, none, some, Bool, true, not, ◌||◌, ◌==◌, ltb}
use smile_fee.Base.{if◌then◌else◌, bit_and}
use smile_fee.Rmap.Packet.{
  Status, success, failure, is_null, rmap_max_path_len, rmap_max_reply_path_len,
}
use smile_fee.Rmap.Parse.{Allocs}
use smile_fee.Link.Log.{TransLog}

-- The arguments of a call of `rmap_tx`; the payload is given by its address.
pub record TxCall : Type 0 where
  pub hdr : List ℕ
  pub non_crc_bytes : ℕ
  pub payload_addr : ℕ
  pub payload_size : ℕ

-- A packet as `rmap_rx` delivers it: the size for a null buffer, then the size and the content of
-- the buffer; and whether the allocations made for it succeed.
pub record RxPkt : Type 0 where
  pub announced : ℕ
  pub received : ℕ
  pub content : List ℕ
  pub buffer_ok : Bool
  pub allocs : Allocs

pub record Link : Type 0 where
  pub smile_fee_addr : ℕ
  pub icu_addr : ℕ
  pub dpath : Option (List ℕ)
  pub rpath : Option (List ℕ)
  pub dpath_len : ℕ
  pub rpath_len : ℕ
  pub dst_key : ℕ
  pub rmap_tx : Option (TxCall → ℕ)
  pub rmap_rx : Bool
  pub data_mtu : ℕ
  pub trans_log : TransLog
  pub non_rmap_pkt_err_cnt : ℕ
  -- What lies outside the module: memory by address, packets to come, commands handed over.
  pub memory : ℕ → ℕ
  pub incoming : List RxPkt
  pub sent : List TxCall

unfoldable pub smile_fee_set_destination_logical_address : ℕ → Link → Link
smile_fee_set_destination_logical_address value s = record s { smile_fee_addr = value }

unfoldable pub smile_fee_set_source_logical_address : ℕ → Link → Link
smile_fee_set_source_logical_address value s = record s { icu_addr = value }

unfoldable pub smile_fee_set_destination_path : Option (List ℕ) → ℕ → Link → Status × Link
smile_fee_set_destination_path path len s =
    if ltb rmap_max_path_len len
    then (failure, s)
    else if is_null path || len == 0
    then (success, record s { dpath = none; dpath_len = 0 })
    else (success, record s { dpath = path; dpath_len = len })

unfoldable pub smile_fee_set_return_path : Option (List ℕ) → ℕ → Link → Status × Link
smile_fee_set_return_path path len s =
    if ltb rmap_max_reply_path_len len
    then (failure, s)
    else if not (bit_and len 0x3 == 0)
    then (failure, s)
    else if is_null path || len == 0
    then (success, record s { rpath = none; rpath_len = 0 })
    else (success, record s { rpath = path; rpath_len = len })

unfoldable pub smile_fee_set_destination_key : ℕ → Link → Link
smile_fee_set_destination_key key s = record s { dst_key = key }

unfoldable pub smile_fee_get_data_mtu : Link → ℕ
smile_fee_get_data_mtu s = s.data_mtu

-- The second pointer is only tested; what it delivers is `incoming`.
unfoldable pub smile_fee_rmap_init : ℕ → Option (TxCall → ℕ) → Bool → Link → Status × Link
smile_fee_rmap_init mtu none rx s = (failure, s)
smile_fee_rmap_init mtu (some tx) rx s =
    if rx
    then (success, record s { rmap_tx = some tx; rmap_rx = true; data_mtu = mtu })
    else (failure, s)

-- The counter of FEE/rmap.c is cleared.
unfoldable pub rmap_clear_non_rmap_pckt_cnt_err : Link → Link
rmap_clear_non_rmap_pckt_cnt_err s = record s { non_rmap_pkt_err_cnt = 0 }
