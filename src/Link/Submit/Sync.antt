-- ===== src/Link/Submit/Sync.antt =====
-- What `smile_fee_sync` and `smile_fee_sync_data` of FEE/smile_fee_rmap.c hand to `rmap_tx`, and
-- what they leave in the transaction log.
use smile_fee.Base.{ℕ, ◌%◌, ◌<◌, List, [], ◌∷◌, ◌++◌, Option, none, some, true, false}
use smile_fee.Base.{◌==◌, if◌then◌else◌, length, bit_and, ℤ, pos, negsuc, ◌≡◌, ◌≢◌}
use smile_fee.Base.{refl, ap, ap₂, sym, ◌∙◌, arith, All, subst, ==_iff}
use smile_fee.Bits.{bit_and-ones}
use smile_fee.Link.Log.{TransLog, trans_log_size, trans_log_grab_slot}
use smile_fee.Link.Log.Laws.{IsValid, awaited, Grabbed, GrabResult, trans_log_grab_slot-GrabResult}
use smile_fee.Link.State.{Link, TxCall}
use smile_fee.Link.Receive.{RxResult, processed, error, undefined, smile_fee_process_rx}
use smile_fee.Link.Receive.Laws.{IsLater}
use smile_fee.Link.Receive.Loop.{IsHonest, NoneReady, Ended, Settled, smile_fee_process_rx-Settled}
use smile_fee.Link.Command.{CmdGen, generator}
use smile_fee.Link.Command.Laws.{IsConfigured, gen_ok}
use smile_fee.Link.Command.Wire.{IsRequest, smile_fee_gen_cmd-fits}
use smile_fee.Base.{ltb}
use smile_fee.Link.Submit.{
  tx_call, hand_over, transmit, smile_fee_submit_tx, send_command, with_slot, smile_fee_sync,
}
use smile_fee.Link.Submit.Frame.{settings, smile_fee_process_rx-settings, process_rx_quiet}

abbrev pub no_sent : Link → Link
no_sent s = record s { sent = [] }

-- The settings, without the commands that have been handed over.
abbrev pub unsent : Link → Link
unsent s = no_sent (settings s)

-- One command has been handed over: `call` for the slot `slot`, which was free and now awaits
-- `addr` unless a response that was already there has ended it.
pub record Sent (tx : TxCall → ℕ) (fn : CmdGen) (addr payload size : ℕ) (s : Link)
    (r : Option ℤ × Link) : Type 0 where
  pub slot : ℕ
  pub log : TransLog
  pub grabbed : Grabbed addr s.trans_log slot log
  pub cmd : List ℕ
  pub generated : fn.fill (record s { trans_log = log }) slot ≡ some cmd
  pub result : r.0 ≡ some (if tx (tx_call cmd payload size s) == 0 then pos 0 else negsuc 0)
  pub handed_over : r.1.sent ≡ s.sent ++ (tx_call cmd payload size s ∷ [])
  pub kept : unsent r.1 ≡ unsent s
  pub honest : All IsHonest r.1.incoming
  pub later : IsLater log r.1.trans_log
  pub waiting : NoneReady s.incoming → awaited r.1.trans_log slot ≡ some addr

submit_tx-eq :
    (cmd : List ℕ) (addr size : ℕ) (s : Link)
    → (smile_fee_process_rx s).0 ≢ undefined
    → smile_fee_submit_tx cmd addr size s ≡ transmit cmd addr size (smile_fee_process_rx s).1
unfolding smile_fee_submit_tx
submit_tx-eq cmd addr size s h = go (smile_fee_process_rx s) h
  where
    go :
        (r : RxResult × Link)
        → r.0 ≢ undefined
        → (elim r.0 as (λ x. Option ℤ × Link) [
          | undefined ↦ (none, r.1)
          | error ↦ transmit cmd addr size r.1
          | processed n ↦ transmit cmd addr size r.1
        ])
          ≡ transmit cmd addr size r.1
    go (processed n, s') h = refl
    go (error, s') h = refl
    go (undefined, s') h = absurd (h refl)

pub not_undefined : (r : RxResult) (out : Link) → Ended r out → r ≢ undefined
not_undefined (processed n) out e = λ q. cc
not_undefined error out e = λ q. cc
not_undefined undefined out e = absurd e

send_command-eq :
    (fn : CmdGen) (i addr size : ℕ) (s : Link) (cmd : List ℕ)
    → fn.needed s i ≡ pos (length cmd)
    → fn.fill s i ≡ some cmd
    → 0 < length cmd
    → send_command fn true i addr size s ≡ smile_fee_submit_tx cmd addr size s
unfolding send_command
send_command-eq fn i addr size s cmd n e some_bytes =
    let filled : (length cmd == 0) ≡ false = ground arith in
    let fits : ltb (length cmd) (length cmd) ≡ false = ground arith in
    rw (send_command, n, e, fits, filled)

transmit-eq :
    (cmd : List ℕ) (addr size : ℕ) (s : Link) (tx : TxCall → ℕ)
    → s.rmap_tx ≡ some tx
    → transmit cmd addr size s ≡ (
      some (if tx (tx_call cmd addr size s) == 0 then pos 0 else negsuc 0),
      record s { sent = s.sent ++ (tx_call cmd addr size s ∷ []) },
    )
unfolding transmit hand_over
transmit-eq cmd addr size s tx e = ap (λ t. hand_over t (tx_call cmd addr size s) s) e

-- The command for a slot that has been taken.
module _ (tx : TxCall → ℕ) (fn : CmdGen) (addr payload size i : ℕ) (log : TransLog) (s : Link)
    (cmd : List ℕ) (g : Grabbed addr s.trans_log i log) (honest : All IsHonest s.incoming)
    (sends : s.rmap_tx ≡ some tx)
    (sized : fn.needed (record s { trans_log = log }) i ≡ pos (length cmd))
    (filled : fn.fill (record s { trans_log = log }) i ≡ some cmd)
    (some_bytes : 0 < length cmd) where
  abbrev taken : Link
  taken = record s { trans_log = log }

  abbrev after : Link
  after = (smile_fee_process_rx taken).1

  settled : Settled taken (smile_fee_process_rx taken).0 after
  settled = smile_fee_process_rx-Settled taken honest g.valid

  same : settings after ≡ settings taken
  same = smile_fee_process_rx-settings taken

  command_sent : send_command fn true i payload size taken ≡ (
    some (if tx (tx_call cmd payload size s) == 0 then pos 0 else negsuc 0),
    record after { sent = s.sent ++ (tx_call cmd payload size s ∷ []) },
  )
  command_sent =
      send_command-eq fn i payload size taken cmd sized filled some_bytes
      ∙ submit_tx-eq cmd payload size taken (not_undefined _ after settled.ended)
      ∙ transmit-eq cmd payload size after tx (ap (λ t. t.rmap_tx) same ∙ sends)
      ∙ ap₂
          (λ n xs. (
            some (
                if tx (record {
                  hdr = cmd;
                  non_crc_bytes = n;
                  payload_addr = payload;
                  payload_size = size;
                })
                  == 0
                then pos 0
                else negsuc 0),
            record after {
              sent =
                  xs
                  ++ (record {
                    hdr = cmd;
                    non_crc_bytes = n;
                    payload_addr = payload;
                    payload_size = size;
                  }
                      ∷ []);
            },
          ))
          (ap (λ t. t.dpath_len) same) (ap (λ t. t.sent) same)

  send_command-Sent : Sent tx fn addr payload size s (send_command fn true i payload size taken)
  send_command-Sent = record {
    slot = i;
    log = log;
    grabbed = g;
    cmd = cmd;
    generated = filled;
    result = ap (λ r. r.0) command_sent;
    handed_over = ap (λ r. r.1.sent) command_sent;
    kept = ap (λ r. unsent r.1) command_sent ∙ ap no_sent same;
    honest = subst (λ r. All IsHonest r.1.incoming) (sym command_sent) settled.honest;
    later = subst (λ r. IsLater log r.1.trans_log) (sym command_sent) settled.later;
    waiting = λ h.
        ap (λ r. awaited r.1.trans_log i) command_sent
        ∙ ap (λ t. awaited t.trans_log i) (process_rx_quiet taken h)
        ∙ g.entered;
  }

-- What `smile_fee_sync` and `smile_fee_sync_data` need to send a command.
pub record CanSend (s : Link) (tx : TxCall → ℕ) (code value size : ℕ) : Type 0 where
  pub configured : IsConfigured s
  pub request : IsRequest 0 code value size
  pub valid : IsValid s.trans_log
  pub honest : All IsHonest s.incoming
  pub sends : s.rmap_tx ≡ some tx

module _ (s : Link) (tx : TxCall → ℕ) (code value size : ℕ) (c : CanSend s tx code value size) where
  pub with_slot-Sent :
      (addr payload len free : ℕ) (busy : ℤ)
      → free < trans_log_size
      → awaited s.trans_log free ≡ none
      → Sent tx (generator gen_ok code value size) addr payload len s (
          with_slot addr busy
            (λ i. send_command (generator gen_ok code value size) true i payload len)
            s)
  unfolding with_slot
  with_slot-Sent addr payload len free busy within is_free =
      go (trans_log_grab_slot addr s.trans_log)
        (trans_log_grab_slot-GrabResult addr s.trans_log c.valid)
    where
      send : ℕ → Link → Option ℤ × Link
      send i = send_command (generator gen_ok code value size) true i payload len

      go :
          (r : Option ℕ × TransLog)
          → GrabResult addr s.trans_log r
          → Sent tx
              (generator gen_ok code value size)
              addr
              payload
              len
              s
              (elim r.0 as (λ x. Option ℤ × Link) [
                | none ↦ (some busy, record s { trans_log = r.1 })
                | some i ↦ send i (record s { trans_log = r.1 })
              ])
      go (none, log) g = absurd (g.1 free within is_free)
      go (some i, log) g =
          let s' = record s { trans_log = log } in
          let made =
            smile_fee_gen_cmd-fits s' i code value size
              (record {
                dpath_holds = c.configured.dpath_holds;
                dpath_fits = c.configured.dpath_fits;
                rpath_holds = c.configured.rpath_holds;
                rpath_fits = c.configured.rpath_fits;
                rpath_words = c.configured.rpath_words;
              })
              (record {
                known = c.request.known;
                id_fits = omega (arith, g.in_range);
                addr_fits = c.request.addr_fits;
                size_fits = c.request.size_fits;
              }) in
          send_command-Sent tx (generator gen_ok code value size) addr payload len i log s made.0 g
            c.honest c.sends made.2 made.1 made.3

-- Where the link can send and some slot is free, `smile_fee_sync` with a length that is a multiple
-- of 4 takes the first free slot for the local address, generates the command for this slot and
-- hands it to `rmap_tx` exactly once, with the local address as the payload; it returns 0 if
-- `rmap_tx` does, else -1, and in both cases the slot awaits its response, unless packets were
-- ready to be read and one of them ended it.
pub smile_fee_sync-Sent :
    (s : Link) (tx : TxCall → ℕ) (code value size addr len free : ℕ)
    → CanSend s tx code value size
    → len % 4 ≡ 0
    → free < trans_log_size
    → awaited s.trans_log free ≡ none
    → Sent tx
        (generator gen_ok code value size)
        addr
        addr
        len
        s
        (smile_fee_sync (generator gen_ok code value size) true addr len s)
unfolding smile_fee_sync
smile_fee_sync-Sent s tx code value size addr len free c words within is_free =
    rw aligned (with_slot-Sent s tx code value size c addr addr len free (negsuc 0) within is_free)
  where
    aligned : (bit_and len 0x3 == 0) ≡ true
    aligned = (==_iff _ _).1 (bit_and-ones 2 len ∙ words)
