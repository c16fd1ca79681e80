-- ===== src/Link/Reach/Calls.antt =====
-- The calls that change the state of FEE/smile_fee_rmap.c and the consistency of its log.
use smile_fee.Base.{
  ℕ, ◌+◌, List, [], ◌∷◌, Option, none, some, Bool, true, false, ◌==◌, ℤ, pos, negsuc,
}
use smile_fee.Base.{if◌then◌else◌, length, bit_and, ◌≡◌, refl, sym, subst}
use smile_fee.Base.{some_inj, none_ne}
use smile_fee.Rmap.Packet.{RmapPkt}
use smile_fee.Rmap.Parse.{Outcome, fault, null, done}
use smile_fee.Link.Log.{TransLog, trans_log_grab_slot}
use smile_fee.Link.Log.Laws.{IsValid, GrabResult, trans_log_grab_slot-GrabResult}
use smile_fee.Link.State.{Link, RxPkt, TxCall}
use smile_fee.Link.Receive.{RxResult, processed, error, undefined, process_response, process_pkt}
use smile_fee.Link.Receive.{rx_loop, smile_fee_process_rx}
use smile_fee.Link.Receive.Laws.{process_response-IsLater}
use smile_fee.Link.Command.{CmdGen}
use smile_fee.Base.{ltb}
use smile_fee.Link.Submit.{
  malloc, hand_over, transmit, smile_fee_submit_tx, send_command, with_slot,
}
use smile_fee.Link.Submit.{smile_fee_sync, smile_fee_sync_data, tx_call}

abbrev pub Consistent : Link → Type 0
Consistent s = IsValid s.trans_log

-- Where a packet does not make the parser leave its buffer, processing it keeps the log consistent.
process_pkt-Consistent :
    (p : RxPkt) (s out : Link) → process_pkt p s ≡ some out → Consistent s → Consistent out
unfolding process_pkt
process_pkt-Consistent p s out e v = go _ e
  where
    go :
        (r : ℕ × Outcome RmapPkt)
        → (elim r.1 as (λ x. Option Link) [
          | fault ↦ none
          | null ↦ some (record s { non_rmap_pkt_err_cnt = r.0 })
          | done rp ↦ some (process_response rp (record s { non_rmap_pkt_err_cnt = r.0 }))
        ])
          ≡ some out
        → Consistent out
    go (cnt, fault) e = absurd (none_ne e)
    go (cnt, null) e = subst Consistent (some_inj e) v
    go (cnt, done rp) e =
        subst Consistent (some_inj e)
          (process_response-IsLater rp (record s { non_rmap_pkt_err_cnt = cnt }) v).valid

-- Both outcomes of a test are consistent, so the outcome is.
either :
    {A : Type 0} (b : Bool) (x y : A × Link)
    → Consistent x.1
    → Consistent y.1
    → Consistent (elim b as (λ t. A × Link) [ true ↦ x | false ↦ y ]).1
either true x y hx hy = hx
either false x y hx hy = hy

-- The same with the outcome of a failed test first.
either_last :
    {A : Type 0} (b : Bool) (x y : A × Link)
    → Consistent x.1
    → Consistent y.1
    → Consistent (elim b as (λ t. A × Link) [ false ↦ y | true ↦ x ]).1
either_last true x y hx hy = hx
either_last false x y hx hy = hy

pub on_if :
    {A : Type 0} (b : Bool) (x y : A × Link)
    → Consistent x.1
    → Consistent y.1
    → Consistent (if b then x else y).1
on_if true x y hx hy = hx
on_if false x y hx hy = hy

rx_loop-Consistent :
    (ps : List RxPkt) (cnt : ℕ) (s : Link) → Consistent s → Consistent (rx_loop ps cnt s).1
unfolding rx_loop
rx_loop-Consistent [] cnt s v = v
rx_loop-Consistent (p ∷ ps) cnt s v = either (p.announced == 0) _ _ v (
    either (s.trans_log.pending == 0) _ _ v (
      either_last p.buffer_ok _ _
        (either (p.received == 0) _ _ v (
          go (process_pkt p s) (λ out e. process_pkt-Consistent p s out e v)
            (λ out. rx_loop-Consistent ps (cnt + 1) out)))
        v))
  where
    go :
        (o : Option Link)
        → ((out : Link) → o ≡ some out → Consistent out)
        → ((out : Link) → Consistent out → Consistent (rx_loop ps (cnt + 1) out).1)
        → Consistent
            (elim o as (λ t. RxResult × Link) [
              | none ↦ (undefined, record s { incoming = ps })
              | some s' ↦ rx_loop ps (cnt + 1) s'
            ]).1
    go none h rest = v
    go (some out) h rest = rest out (h out refl)

pub smile_fee_process_rx-Consistent :
    (s : Link) → Consistent s → Consistent (smile_fee_process_rx s).1
unfolding smile_fee_process_rx
smile_fee_process_rx-Consistent s v =
    on_if s.rmap_rx (rx_loop s.incoming 0 s) (error, s) (rx_loop-Consistent s.incoming 0 s v) v

transmit-Consistent :
    (cmd : List ℕ) (addr size : ℕ) (s : Link)
    → Consistent s
    → Consistent (transmit cmd addr size s).1
unfolding transmit hand_over
transmit-Consistent cmd addr size s v = go s.rmap_tx
  where
    go : (tx : Option (TxCall → ℕ)) → Consistent (hand_over tx (tx_call cmd addr size s) s).1
    go none = v
    go (some tx) = v

pub smile_fee_submit_tx-Consistent :
    (cmd : List ℕ) (addr size : ℕ) (s : Link)
    → Consistent s
    → Consistent (smile_fee_submit_tx cmd addr size s).1
unfolding smile_fee_submit_tx
smile_fee_submit_tx-Consistent cmd addr size s v =
    go (smile_fee_process_rx s) (smile_fee_process_rx-Consistent s v)
  where
    go :
        (r : RxResult × Link)
        → Consistent r.1
        → Consistent
            (elim r.0 as (λ x. Option ℤ × Link) [
              | undefined ↦ (none, r.1)
              | error ↦ transmit cmd addr size r.1
              | processed n ↦ transmit cmd addr size r.1
            ]).1
    go (undefined, s') h = h
    go (error, s') h = transmit-Consistent cmd addr size s' h
    go (processed n, s') h = transmit-Consistent cmd addr size s' h

send_command-Consistent :
    (fn : CmdGen) (malloc_ok : Bool) (i addr size : ℕ) (s : Link)
    → Consistent s
    → Consistent (send_command fn malloc_ok i addr size s).1
unfolding send_command
send_command-Consistent fn malloc_ok i addr size s v = allocated (malloc malloc_ok (fn.needed s i))
  where
    made : ℕ → Option (List ℕ) → Option ℤ × Link
    made n o = elim o [
      | none ↦ (none, s)
      | some cmd ↦
          if ltb n (length cmd)
          then (none, s)
          else if length cmd == 0
          then (some (negsuc 0), s)
          else smile_fee_submit_tx cmd addr size s
    ]

    filled : (n : ℕ) (o : Option (List ℕ)) → Consistent (made n o).1
    filled n none = v
    filled n (some cmd) =
        on_if (ltb n (length cmd)) (none, s) _ v
          (on_if (length cmd == 0) (some (negsuc 0), s) (smile_fee_submit_tx cmd addr size s) v
            (smile_fee_submit_tx-Consistent cmd addr size s v))

    allocated :
        (o : Option ℕ)
        → Consistent
            (elim o as (λ x. Option ℤ × Link) [
              | none ↦ (some (negsuc 0), s)
              | some n ↦ made n (fn.fill s i)
            ]).1
    allocated none = v
    allocated (some n) = filled n (fn.fill s i)

with_slot-Consistent :
    (addr : ℕ) (busy : ℤ) (send : ℕ → Link → Option ℤ × Link) (s : Link)
    → ((i : ℕ) (s' : Link) → Consistent s' → Consistent (send i s').1)
    → Consistent s
    → Consistent (with_slot addr busy send s).1
unfolding with_slot
with_slot-Consistent addr busy send s keeps v =
    go (trans_log_grab_slot addr s.trans_log) (trans_log_grab_slot-GrabResult addr s.trans_log v)
  where
    go :
        (r : Option ℕ × TransLog)
        → GrabResult addr s.trans_log r
        → Consistent
            (elim r.0 as (λ x. Option ℤ × Link) [
              | none ↦ (some busy, record s { trans_log = r.1 })
              | some i ↦ send i (record s { trans_log = r.1 })
            ]).1
    go (none, log) g = subst IsValid (sym g.0) v
    go (some i, log) g = keeps i (record s { trans_log = log }) g.valid

pub smile_fee_sync-Consistent :
    (fn : CmdGen) (malloc_ok : Bool) (addr len : ℕ) (s : Link)
    → Consistent s
    → Consistent (smile_fee_sync fn malloc_ok addr len s).1
unfolding smile_fee_sync
smile_fee_sync-Consistent fn malloc_ok addr len s v =
    on_if (bit_and len 0x3 == 0)
      (with_slot addr (negsuc 0) (λ i. send_command fn malloc_ok i addr len) s) (some (negsuc 0), s)
      (with_slot-Consistent addr (negsuc 0) (λ i. send_command fn malloc_ok i addr len) s
        (λ i s' h. send_command-Consistent fn malloc_ok i addr len s' h) v)
      v

pub smile_fee_sync_data-Consistent :
    (fn : CmdGen) (malloc_ok : Bool) (bytes len : ℕ) (read : Bool) (s : Link)
    → Consistent s
    → Consistent (smile_fee_sync_data fn malloc_ok bytes len read s).1
unfolding smile_fee_sync_data
smile_fee_sync_data-Consistent fn malloc_ok bytes len read s v =
    go (smile_fee_process_rx s) (smile_fee_process_rx-Consistent s v)
  where
    send : Link → Option ℤ × Link
    send =
        with_slot bytes (pos 1)
          (λ i. send_command fn malloc_ok i (if read then 0 else bytes) (if read then 0 else len))

    sent : (s' : Link) → Consistent s' → Consistent (send s').1
    sent s' h =
        with_slot-Consistent bytes (pos 1)
          (λ i. send_command fn malloc_ok i (if read then 0 else bytes) (if read then 0 else len))
          s'
          (λ i t.
            send_command-Consistent fn malloc_ok i (if read then 0 else bytes)
              (if read then 0 else len) t)
          h

    go :
        (r : RxResult × Link)
        → Consistent r.1
        → Consistent
            (elim r.0 as (λ x. Option ℤ × Link) [
              | undefined ↦ (none, r.1)
              | error ↦ send r.1
              | processed n ↦ send r.1
            ]).1
    go (undefined, s') h = h
    go (error, s') h = sent s' h
    go (processed n, s') h = sent s' h
