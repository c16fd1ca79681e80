-- ===== src/Link/Submit.antt =====
-- Sending commands: `smile_fee_submit_tx`, `smile_fee_sync` and `smile_fee_sync_data` of
-- FEE/smile_fee_rmap.c. A result `none` is an access outside of a buffer.
pub mod Frame
pub mod Sync
pub mod SyncData
use smile_fee.Base.{ℕ, List, [], ◌∷◌, ◌++◌, Option, none, some, Bool, true, false, not, ◌==◌}
use smile_fee.Base.{if◌then◌else◌, length, bit_and, ℤ, pos, negsuc}
use smile_fee.Base.{ltb}
use smile_fee.Link.Log.{trans_log_grab_slot}
use smile_fee.Link.State.{Link, TxCall}
use smile_fee.Link.Receive.{RxResult, processed, error, undefined, smile_fee_process_rx}
use smile_fee.Link.Command.{CmdGen}

-- The arguments of `rmap_tx`; the bytes of the destination path are not part of the checksum.
abbrev pub tx_call : List ℕ → ℕ → ℕ → Link → TxCall
tx_call cmd addr size s = record {
  hdr = cmd;
  non_crc_bytes = s.dpath_len;
  payload_addr = addr;
  payload_size = size;
}

-- The call of `rmap_tx`, if the client has set it.
unfoldable pub hand_over : Option (TxCall → ℕ) → TxCall → Link → Option ℤ × Link
hand_over none call s = (some (negsuc 0), s)
hand_over (some rmap_tx) call s = (
  some (if rmap_tx call == 0 then pos 0 else negsuc 0),
  record s { sent = s.sent ++ (call ∷ []) },
)

unfoldable pub transmit : List ℕ → ℕ → ℕ → Link → Option ℤ × Link
unfolding hand_over
transmit cmd addr size s = hand_over s.rmap_tx (tx_call cmd addr size s) s

unfoldable pub smile_fee_submit_tx : List ℕ → ℕ → ℕ → Link → Option ℤ × Link
unfolding transmit
smile_fee_submit_tx cmd addr size s =
    let s' = (smile_fee_process_rx s).1 in
    elim (smile_fee_process_rx s).0 [
      | undefined ↦ (none, s')
      | error ↦ transmit cmd addr size s'
      | processed _ ↦ transmit cmd addr size s'
    ]

-- `malloc(n)`, which never grants a negative size, that is one near 2^64.
abbrev pub malloc : Bool → ℤ → Option ℕ
malloc malloc_ok (pos n) = if malloc_ok then some n else none
malloc malloc_ok (negsuc _) = none

-- Generate the command for slot `i` and submit it; `malloc_ok` tells whether its buffer can be
-- allocated. A command that is longer than the size asked for is written behind the buffer.
unfoldable pub send_command : CmdGen → Bool → ℕ → ℕ → ℕ → Link → Option ℤ × Link
unfolding smile_fee_submit_tx
send_command fn malloc_ok i addr size s = elim (malloc malloc_ok (fn.needed s i)) [
  | none ↦ (some (negsuc 0), s)
  | some n ↦ elim (fn.fill s i) [
    | none ↦ (none, s)
    | some rmap_cmd ↦
        if ltb n (length rmap_cmd)
        then (none, s)
        else if length rmap_cmd == 0
        then (some (negsuc 0), s)
        else smile_fee_submit_tx rmap_cmd addr size s
  ]
]

-- With a slot for `addr`, or without one: then `busy` is returned.
unfoldable pub with_slot : ℕ → ℤ → (ℕ → Link → Option ℤ × Link) → Link → Option ℤ × Link
with_slot addr busy send s =
    let log = (trans_log_grab_slot addr s.trans_log).1 in
    elim (trans_log_grab_slot addr s.trans_log).0 [
      | none ↦ (some busy, record s { trans_log = log })
      | some i ↦ send i (record s { trans_log = log })
    ]

unfoldable pub smile_fee_sync : CmdGen → Bool → ℕ → ℕ → Link → Option ℤ × Link
unfolding with_slot send_command
smile_fee_sync fn malloc_ok addr data_len s =
    if bit_and data_len 0x3 == 0
    then with_slot addr (negsuc 0) (λ i. send_command fn malloc_ok i addr data_len) s
    else (some (negsuc 0), s)

-- The generator has been applied to the remote address and the length.
unfoldable pub smile_fee_sync_data : CmdGen → Bool → ℕ → ℕ → Bool → Link → Option ℤ × Link
unfolding with_slot send_command
smile_fee_sync_data fn malloc_ok bytes data_len read s =
    let s' = (smile_fee_process_rx s).1 in
    let send = with_slot bytes (pos 1) (λ i.
      send_command fn malloc_ok i (if read then 0 else bytes) (if read then 0 else data_len)) in
    elim (smile_fee_process_rx s).0 [
      | undefined ↦ (none, s')
      | error ↦ send s'
      | processed _ ↦ send s'
    ]
