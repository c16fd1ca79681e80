-- ===== src/Link/Receive.antt =====
-- `smile_fee_process_rx` and `smile_fee_rmap_sync_status` of FEE/smile_fee_rmap.c.
pub mod Laws
pub mod Loop
use smile_fee.Base.{
  ℕ, ◌+◌, ◌-◌, List, [], ◌∷◌, Option, none, some, Bool, true, false, not, ◌&&◌, ◌==◌,
}
use smile_fee.Base.{ltb, leb, if◌then◌else◌, length, get_or, take, pos}
use smile_fee.Rmap.Packet.{RmapPkt, copied}
use smile_fee.Rmap.Parse.{Outcome, fault, null, done, rmap_pkt_from_buffer}
use smile_fee.Link.Log.{trans_log_get_addr, trans_log_release_slot}
use smile_fee.Link.State.{Link, RxPkt}

-- `memcpy(dst, bytes, length bytes)`. Memory has no end: whether the client's buffer at `dst` is long
-- enough is outside of the model.
unfoldable pub memcpy : ℕ → List ℕ → (ℕ → ℕ) → ℕ → ℕ
memcpy dst bytes memory a =
    if leb dst a && ltb a (dst + length bytes) then get_or bytes (a - dst) 0 else memory a

-- A converted packet: its data goes to the address that its transaction awaits, and the slot is
-- released; a packet that no transaction awaits is dropped.
unfoldable pub process_response : RmapPkt → Link → Link
unfolding memcpy
process_response rp s =
    let local_addr = trans_log_get_addr (pos rp.tr_id) s.trans_log in
    if local_addr == 0 then s else (record s {
      memory =
          if rp.data_len == 0
          then s.memory
          else memcpy local_addr (copied rp.payload rp.data_len) s.memory;
      trans_log = trans_log_release_slot (pos rp.tr_id) s.trans_log;
    })

-- What a call returns: the number of packets, -1, or an access outside of a buffer.
pub data RxResult : Type 0 where
  processed : ℕ → RxResult
  error undefined : RxResult

-- The packet `p` has been read: convert and process it, or drop it.
unfoldable pub process_pkt : RxPkt → Link → Option Link
process_pkt p s =
    let (cnt, converted) =
      rmap_pkt_from_buffer p.allocs s.non_rmap_pkt_err_cnt (some p.content) p.received in
    let counted = record s { non_rmap_pkt_err_cnt = cnt } in
    elim converted [
      | fault ↦ none
      | null ↦ some counted
      | done rp ↦ some (process_response rp counted)
    ]

-- The loop over the packets that `rmap_rx` has; `cnt` have been read.
unfoldable pub rx_loop : List RxPkt → ℕ → Link → RxResult × Link
rx_loop [] cnt s = (processed cnt, record s { incoming = [] })
rx_loop (p ∷ ps) cnt s = elim (p.announced == 0) [
  | true ↦ (processed cnt, record s { incoming = p ∷ ps })
  | false ↦ elim (s.trans_log.pending == 0) [
    | true ↦ (processed cnt, record s { incoming = p ∷ ps })
    | false ↦ elim p.buffer_ok [
      | false ↦ (error, record s { incoming = p ∷ ps })
      | true ↦ elim (p.received == 0) [
        | true ↦ (error, record s { incoming = ps })
        | false ↦ elim (process_pkt p s) [
          | none ↦ (undefined, record s { incoming = ps })
          | some s' ↦ rx_loop ps (cnt + 1) s'
        ]
      ]
    ]
  ]
]

unfoldable pub smile_fee_process_rx : Link → RxResult × Link
smile_fee_process_rx s = if s.rmap_rx then rx_loop s.incoming 0 s else (error, s)

unfoldable pub smile_fee_rmap_sync_status : Link → ℕ × Link
smile_fee_rmap_sync_status s = let s' = (smile_fee_process_rx s).1 in (s'.trans_log.pending, s')
