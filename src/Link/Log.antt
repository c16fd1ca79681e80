-- ===== src/Link/Log.antt =====
-- The transaction log of FEE/smile_fee_rmap.c: `trans_log` and its four operations. An address is
-- a number, 0 the null pointer; `pending` is an `int` that is kept as its 32 bit pattern.
pub mod Laws
pub mod Release
use smile_fee.Base.{ℕ, zero, suc, ◌+◌, ◌-◌, ◌%◌, ◌^◌, List, Option, none, some, ◌==◌, ltb}
use smile_fee.Base.{if◌then◌else◌, get_or, set, replicate, ℤ, pos, negsuc}

abbrev pub trans_log_size : ℕ
trans_log_size = 64

pub record TransLog : Type 0 where
  pub in_use : List ℕ
  pub local_addr : List ℕ
  pub pending : ℕ

-- Slot `i` is taken for `addr`.
unfoldable pub take_slot : ℕ → ℕ → TransLog → TransLog
take_slot i addr log = record {
  in_use = set log.in_use i 1;
  local_addr = set log.local_addr i addr;
  pending = (log.pending + 1) % 2 ^ 32;
}

-- The loop at index `i`, with `left` rounds to go; `none` is the slot -1.
unfoldable pub grab_from : ℕ → ℕ → ℕ → TransLog → Option ℕ × TransLog
unfolding take_slot
grab_from zero i addr log = (none, log)
grab_from (suc left) i addr log =
    let busy = grab_from left (i + 1) addr log in
    if get_or log.in_use i 0 == 0 then (some i, take_slot i addr log) else busy

unfoldable pub trans_log_grab_slot : ℕ → TransLog → Option ℕ × TransLog
unfolding grab_from
trans_log_grab_slot addr log = grab_from trans_log_size 0 addr log

unfoldable pub trans_log_release_slot : ℤ → TransLog → TransLog
trans_log_release_slot (negsuc _) log = log
trans_log_release_slot (pos slot) log =
    if ltb slot trans_log_size
    then (if get_or log.in_use slot 0 == 0 then log else (record log {
      in_use = set log.in_use slot 0;
      pending = (log.pending + 2 ^ 32 - 1) % 2 ^ 32;
    }))
    else log

unfoldable pub trans_log_get_addr : ℤ → TransLog → ℕ
trans_log_get_addr (negsuc _) log = 0
trans_log_get_addr (pos slot) log =
    if ltb slot trans_log_size
    then (if get_or log.in_use slot 0 == 0 then 0 else get_or log.local_addr slot 0)
    else 0

unfoldable pub smile_fee_rmap_reset_log : TransLog → TransLog
smile_fee_rmap_reset_log log = record log { in_use = replicate trans_log_size 0; pending = 0 }
