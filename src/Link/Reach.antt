-- ===== src/Link/Reach.antt =====
-- The states that the functions of FEE/smile_fee_rmap.c reach, called by its client in any order,
-- with packets that arrive and memory that the client writes in between.
pub mod Calls
use smile_fee.Base.{ℕ, ◌≤◌, List, [], ◌∷◌, ◌++◌, Option, none, some, Bool, replicate, ℤ, ◌≡◌, ◌≢◌}
use smile_fee.Base.{refl, subst, sym}
use smile_fee.Base.{true, false, not, ◌||◌, ◌==◌, ltb, bit_and}
use smile_fee.Rmap.Packet.{success, failure, is_null, rmap_max_path_len, rmap_max_reply_path_len}
use smile_fee.Link.Log.{TransLog, trans_log_size, smile_fee_rmap_reset_log}
use smile_fee.Link.Log.Laws.{IsValid, pending-le}
use smile_fee.Link.Log.Release.{smile_fee_rmap_reset_log-IsValid}
use smile_fee.Link.State.{Link, RxPkt, TxCall, smile_fee_rmap_init}
use smile_fee.Link.State.{smile_fee_set_destination_path, smile_fee_set_return_path}
use smile_fee.Link.State.{smile_fee_set_destination_logical_address}
use smile_fee.Link.State.{smile_fee_set_source_logical_address, smile_fee_set_destination_key}
use smile_fee.Link.Receive.{undefined, smile_fee_process_rx, smile_fee_rmap_sync_status}
use smile_fee.Link.Command.{CmdGen}
use smile_fee.Link.Submit.{smile_fee_submit_tx, smile_fee_sync, smile_fee_sync_data}
use smile_fee.Link.Reach.Calls.{Consistent, smile_fee_process_rx-Consistent}
use smile_fee.Link.Reach.Calls.{smile_fee_submit_tx-Consistent, smile_fee_sync-Consistent}
use smile_fee.Link.Reach.Calls.{smile_fee_sync_data-Consistent, on_if}

-- One call of the client, or a change outside of the module; no call accesses memory outside of a
-- buffer.
pub data Step (s : Link) : Link → Type 0 where
  destination_address : (value : ℕ) → Step s (smile_fee_set_destination_logical_address value s)
  source_address : (value : ℕ) → Step s (smile_fee_set_source_logical_address value s)
  destination_key : (key : ℕ) → Step s (smile_fee_set_destination_key key s)
  destination :
      (path : Option (List ℕ)) (len : ℕ) → Step s (smile_fee_set_destination_path path len s).1
  return_path : (path : Option (List ℕ)) (len : ℕ) → Step s (smile_fee_set_return_path path len s).1
  init :
      (mtu : ℕ) (tx : Option (TxCall → ℕ)) (rx : Bool) → Step s (smile_fee_rmap_init mtu tx rx s).1
  reset_log : Step s (record s { trans_log = smile_fee_rmap_reset_log s.trans_log })
  process_rx : (smile_fee_process_rx s).0 ≢ undefined → Step s (smile_fee_process_rx s).1
  submit :
      (cmd : List ℕ) (addr size : ℕ) (r : ℤ)
      → (smile_fee_submit_tx cmd addr size s).0 ≡ some r
      → Step s (smile_fee_submit_tx cmd addr size s).1
  sync :
      (fn : CmdGen) (malloc_ok : Bool) (addr len : ℕ) (r : ℤ)
      → (smile_fee_sync fn malloc_ok addr len s).0 ≡ some r
      → Step s (smile_fee_sync fn malloc_ok addr len s).1
  sync_data :
      (fn : CmdGen) (malloc_ok : Bool) (bytes len : ℕ) (read : Bool) (r : ℤ)
      → (smile_fee_sync_data fn malloc_ok bytes len read s).0 ≡ some r
      → Step s (smile_fee_sync_data fn malloc_ok bytes len read s).1
  arrives : (p : RxPkt) → Step s (record s { incoming = s.incoming ++ (p ∷ []) })
  client_writes : (memory : ℕ → ℕ) → Step s (record s { memory = memory })

-- The log as it is before the first call, its static variable being zero.
abbrev pub static_log : TransLog
static_log = record {
  in_use = replicate trans_log_size 0;
  local_addr = replicate trans_log_size 0;
  pending = 0;
}

pub data Reach : Link → Type 0 where
  start : {s : Link} → s.trans_log ≡ static_log → Reach s
  later : {s t : Link} → Reach s → Step s t → Reach t

destination_path-Consistent :
    (path : Option (List ℕ)) (len : ℕ) (s : Link)
    → Consistent s
    → Consistent (smile_fee_set_destination_path path len s).1
unfolding smile_fee_set_destination_path
destination_path-Consistent path len s v =
    on_if (ltb rmap_max_path_len len) (failure, s) _ v
      (on_if (is_null path || len == 0) (success, record s { dpath = none; dpath_len = 0 })
        (success, record s { dpath = path; dpath_len = len }) v v)

return_path-Consistent :
    (path : Option (List ℕ)) (len : ℕ) (s : Link)
    → Consistent s
    → Consistent (smile_fee_set_return_path path len s).1
unfolding smile_fee_set_return_path
return_path-Consistent path len s v =
    on_if (ltb rmap_max_reply_path_len len) (failure, s) _ v
      (on_if (not (bit_and len 0x3 == 0)) (failure, s) _ v
        (on_if (is_null path || len == 0) (success, record s { rpath = none; rpath_len = 0 })
          (success, record s { rpath = path; rpath_len = len }) v v))

init-Consistent :
    (mtu : ℕ) (tx : Option (TxCall → ℕ)) (rx : Bool) (s : Link)
    → Consistent s
    → Consistent (smile_fee_rmap_init mtu tx rx s).1
unfolding smile_fee_rmap_init
init-Consistent mtu none rx s v = v
init-Consistent mtu (some tx) true s v = v
init-Consistent mtu (some tx) false s v = v

destination_key-Consistent :
    (key : ℕ) (s : Link) → Consistent s → Consistent (smile_fee_set_destination_key key s)
unfolding smile_fee_set_destination_key
destination_key-Consistent key s v = v

Step-Consistent : {s t : Link} → Step s t → Consistent s → Consistent t
unfolding smile_fee_set_destination_logical_address smile_fee_set_source_logical_address
Step-Consistent (destination_address value) v = v
Step-Consistent (source_address value) v = v
Step-Consistent {s} (destination_key key) v = destination_key-Consistent key s v
Step-Consistent {s} (destination path len) v = destination_path-Consistent path len s v
Step-Consistent {s} (return_path path len) v = return_path-Consistent path len s v
Step-Consistent {s} (init mtu tx rx) v = init-Consistent mtu tx rx s v
Step-Consistent {s} reset_log v = (smile_fee_rmap_reset_log-IsValid s.trans_log v.addresses).0
Step-Consistent {s} (process_rx safe) v = smile_fee_process_rx-Consistent s v
Step-Consistent {s} (submit cmd addr size r e) v = smile_fee_submit_tx-Consistent cmd addr size s v
Step-Consistent {s} (sync fn ok addr len r e) v = smile_fee_sync-Consistent fn ok addr len s v
Step-Consistent {s} (sync_data fn ok bytes len read r e) v =
    smile_fee_sync_data-Consistent fn ok bytes len read s v
Step-Consistent (arrives p) v = v
Step-Consistent (client_writes memory) v = v

Reach-Consistent : {s : Link} → Reach s → Consistent s
Reach-Consistent (start e) =
    subst IsValid (sym e) (record { flags = refl; addresses = refl; counted = refl })
Reach-Consistent (later r st) = Step-Consistent st (Reach-Consistent r)

-- From the zero log, whatever calls the client makes in whatever order, whatever packets arrive and
-- whether or not allocations succeed, as long as no call accesses memory outside of a buffer, the
-- log is consistent: its count is the number of slots in use, never above the number of slots.
pub Reach-IsValid :
    {s : Link} → Reach s → IsValid s.trans_log × (s.trans_log.pending ≤ trans_log_size)
Reach-IsValid {s} r = (Reach-Consistent r, pending-le s.trans_log (Reach-Consistent r))
