-- ===== src/Link/Submit/SyncData.antt =====
-- `smile_fee_sync_data` of FEE/smile_fee_rmap.c, and both functions when all the slots are in use.
use smile_fee.Base.{ℕ, ◌<◌, Option, none, some, Bool, true, false}
use smile_fee.Base.{◌==◌, if◌then◌else◌, bit_and, ℤ, pos, negsuc, ◌≡◌, ◌≢◌}
use smile_fee.Base.{refl, ap, sym, ◌∙◌, All, subst}
use smile_fee.Link.Log.{TransLog, trans_log_size, trans_log_grab_slot}
use smile_fee.Link.Log.Laws.{IsValid, awaited, GrabResult, trans_log_grab_slot-GrabResult}
use smile_fee.Link.State.{Link, TxCall}
use smile_fee.Link.Receive.{RxResult, processed, error, undefined, smile_fee_process_rx}
use smile_fee.Link.Receive.Loop.{IsHonest, NoneReady, Settled, smile_fee_process_rx-Settled}
use smile_fee.Link.Command.{CmdGen, generator}
use smile_fee.Link.Command.Laws.{IsConfigured, gen_ok}
use smile_fee.Link.Submit.{send_command, with_slot, smile_fee_sync}
use smile_fee.Link.Submit.{smile_fee_sync_data}
use smile_fee.Link.Submit.Frame.{settings, smile_fee_process_rx-settings, process_rx_quiet}
use smile_fee.Link.Submit.Sync.{Sent, CanSend, with_slot-Sent, not_undefined}

sync_data-eq :
    (fn : CmdGen) (bytes len : ℕ) (read : Bool) (s : Link)
    → (smile_fee_process_rx s).0 ≢ undefined
    → smile_fee_sync_data fn true bytes len read s
      ≡ with_slot bytes
          (pos 1)
          (λ i. send_command fn true i (if read then 0 else bytes) (if read then 0 else len))
          (smile_fee_process_rx s).1
unfolding smile_fee_sync_data
sync_data-eq fn bytes len read s h = go (smile_fee_process_rx s) h
  where
    send : Link → Option ℤ × Link
    send =
        with_slot bytes (pos 1)
          (λ i. send_command fn true i (if read then 0 else bytes) (if read then 0 else len))

    go :
        (r : RxResult × Link)
        → r.0 ≢ undefined
        → (elim r.0 as (λ x. Option ℤ × Link) [
          | undefined ↦ (none, r.1)
          | error ↦ send r.1
          | processed n ↦ send r.1
        ])
          ≡ send r.1
    go (processed n, s') h = refl
    go (error, s') h = refl
    go (undefined, s') h = absurd (h refl)

of_settings : (s : Link) → IsConfigured (settings s) → IsConfigured s
of_settings s c = record {
  dpath_holds = c.dpath_holds;
  dpath_fits = c.dpath_fits;
  rpath_holds = c.rpath_holds;
  rpath_fits = c.rpath_fits;
  rpath_words = c.rpath_words;
}

settings-IsConfigured :
    (s out : Link) → settings s ≡ settings out → IsConfigured s → IsConfigured out
settings-IsConfigured s out e c = of_settings out (
    subst IsConfigured e (record {
      dpath_holds = c.dpath_holds;
      dpath_fits = c.dpath_fits;
      rpath_holds = c.rpath_holds;
      rpath_fits = c.rpath_fits;
      rpath_words = c.rpath_words;
    }))

module _ (s : Link) (tx : TxCall → ℕ) (code value size : ℕ) (c : CanSend s tx code value size) where
  abbrev received : Link
  received = (smile_fee_process_rx s).1

  first-Settled : Settled s (smile_fee_process_rx s).0 received
  first-Settled = smile_fee_process_rx-Settled s c.honest c.valid

  still-CanSend : CanSend received tx code value size
  still-CanSend = record {
    configured =
        settings-IsConfigured s received (sym (smile_fee_process_rx-settings s)) c.configured;
    request = c.request;
    valid = first-Settled.later.valid;
    honest = first-Settled.honest;
    sends = ap (λ t. t.rmap_tx) (smile_fee_process_rx-settings s) ∙ c.sends;
  }

-- Under the same conditions `smile_fee_sync_data` first processes the packets that are ready, and
-- then does the same for the local data address: a command to write carries that address and the
-- length as its payload, a command to read carries none.
pub smile_fee_sync_data-Sent :
    (s : Link) (tx : TxCall → ℕ) (code value size bytes len free : ℕ) (read : Bool)
    → CanSend s tx code value size
    → free < trans_log_size
    → awaited (smile_fee_process_rx s).1.trans_log free ≡ none
    → Sent tx
        (generator gen_ok code value size)
        bytes
        (if read then 0 else bytes)
        (if read then 0 else len)
        (smile_fee_process_rx s).1
        (smile_fee_sync_data (generator gen_ok code value size) true bytes len read s)
smile_fee_sync_data-Sent s tx code value size bytes len free read c within is_free =
    subst
      (Sent tx (generator gen_ok code value size) bytes (if read then 0 else bytes)
        (if read then 0 else len) (smile_fee_process_rx s).1)
      (sym (
        sync_data-eq (generator gen_ok code value size) bytes len read s
          (not_undefined _ _ (first-Settled s tx code value size c).ended)))
      (with_slot-Sent (received s tx code value size c) tx code value size
        (still-CanSend s tx code value size c) bytes _ _ free (pos 1) within is_free)

with_slot-busy :
    (addr : ℕ) (busy : ℤ) (send : ℕ → Link → Option ℤ × Link) (s : Link)
    → IsValid s.trans_log
    → ((j : ℕ) → j < trans_log_size → awaited s.trans_log j ≢ none)
    → with_slot addr busy send s ≡ (some busy, s)
unfolding with_slot
with_slot-busy addr busy send s v full =
    go (trans_log_grab_slot addr s.trans_log) (trans_log_grab_slot-GrabResult addr s.trans_log v)
  where
    go :
        (r : Option ℕ × TransLog)
        → GrabResult addr s.trans_log r
        → (elim r.0 as (λ x. Option ℤ × Link) [
          | none ↦ (some busy, record s { trans_log = r.1 })
          | some i ↦ send i (record s { trans_log = r.1 })
        ])
          ≡ (some busy, s)
    go (none, log) g = ap (λ l. (some busy, record s { trans_log = l })) g.0
    go (some i, log) g = absurd (full i g.in_range g.was_free)

-- With all 64 slots in use and no packet ready, `smile_fee_sync` returns -1 and
-- `smile_fee_sync_data` asks with 1 to try again, for any generator, address and length; both leave
-- the state as it is, and hand over no command.
pub smile_fee_sync-full :
    (fn : CmdGen) (addr len : ℕ) (read : Bool) (s : Link)
    → IsValid s.trans_log
    → NoneReady s.incoming
    → All IsHonest s.incoming
    → ((j : ℕ) → j < trans_log_size → awaited s.trans_log j ≢ none)
    → (smile_fee_sync fn true addr len s ≡ (some (negsuc 0), s))
      × (smile_fee_sync_data fn true addr len read s ≡ (some (pos 1), s))
unfolding smile_fee_sync
smile_fee_sync-full fn addr len read s v quiet honest full = (
  sync_part (bit_and len 0x3 == 0),
  sync_data-eq fn addr len read s (not_undefined _ _ first-Settled.ended)
      ∙ ap (with_slot addr (pos 1) send) (process_rx_quiet s quiet)
      ∙ with_slot-busy addr (pos 1) send s v full,
)
  where
    send : ℕ → Link → Option ℤ × Link
    send i = send_command fn true i (if read then 0 else addr) (if read then 0 else len)

    first-Settled : Settled s (smile_fee_process_rx s).0 (smile_fee_process_rx s).1
    first-Settled = smile_fee_process_rx-Settled s honest v

    sync_part :
        (b : Bool)
        → (if b
            then with_slot addr (negsuc 0) (λ i. send_command fn true i addr len) s
            else (some (negsuc 0), s))
          ≡ (some (negsuc 0), s)
    sync_part true = with_slot-busy addr (negsuc 0) (λ i. send_command fn true i addr len) s v full
    sync_part false = refl
