-- ===== src/Ctrl/Sram/Sending.antt =====
-- The transfers of FEE/smile_fee_ctrl.c with the functions of FEE/smile_fee_rmap.c that they call:
-- they end as long as the transaction log has room for their pieces.
use smile_fee.Base.{
  ℕ, zero, suc, ◌+◌, ◌-◌, ◌*◌, ◌^◌, ◌≤◌, ◌<◌, List, [], ◌∷◌, some, none, true, false,
}
use smile_fee.Base.{
  ◌≡◌, refl, sym, ap, ◌∙◌, subst, arith, All, length, get_or, pos, negsuc, ltb, ◌==◌,
}
use smile_fee.Base.{if◌then◌else◌, Bool}
use smile_fee.Base.{◌||◌}
use smile_fee.Link.Submit.{smile_fee_sync_data}
use smile_fee.Rmap.Packet.{is_read_code, is_write_code, read_addr_inc, write_addr_inc_reply}
use smile_fee.Link.Log.{trans_log_size}
use smile_fee.Link.Log.Laws.{IsValid, awaited, used}
use smile_fee.Link.State.{Link, TxCall}
use smile_fee.Link.Receive.{smile_fee_process_rx, smile_fee_rmap_sync_status}
use smile_fee.Link.Receive.Loop.{IsHonest, smile_fee_process_rx-Settled}
use smile_fee.Link.Command.{generator, fee_read_cmd_data_internal, fee_write_cmd_data_internal}
use smile_fee.Link.Registers.{fee_read_cmd_data, fee_write_cmd_data}
use smile_fee.Link.Command.Laws.{IsConfigured, gen_ok}
use smile_fee.Link.Submit.Frame.{smile_fee_process_rx-settings}
use smile_fee.Link.Submit.Sync.{Sent, CanSend, unsent, no_sent}
use smile_fee.Link.Submit.SyncData.{smile_fee_sync_data-Sent}
use smile_fee.Ctrl.Sync.Exchange.{caller}
use smile_fee.Ctrl.Sram.Local.{fee_sram_start}
use smile_fee.Ctrl.Sram.Transfer.{writer, reader, settle}
use smile_fee.Ctrl.Sram.Transfer.{smile_fee_sync_mirror_to_sram, smile_fee_sync_sram_to_mirror}
use smile_fee.Ctrl.Sram.Termination.{accepted, at_once}
use smile_fee.Ctrl.Sram.Pieces.{Serves, Exchanged, IsRange, transfer-Exchanged}

-- Some slot is free where not all are counted.
free_slot : (xs : List ℕ) → used xs < length xs → (i : ℕ) × (i < length xs) × get_or xs i 0 ≡ 0
free_slot [] h = absurd (omega arith)
free_slot (zero ∷ xs) h = (0, omega arith, refl)
free_slot (suc x ∷ xs) h = let r = free_slot xs (ground arith) in (suc r.0, omega (arith, r.1), r.2)

-- What may happen between two calls: packets arrive that hold their checksums. Whether any do is
-- left open.
pub record Arrivals (elapse : Link → Link) : Type 0 where
  pub keeps : (s : Link) → unsent (elapse s) ≡ unsent s
  pub keeps_log : (s : Link) → (elapse s).trans_log ≡ s.trans_log
  pub honest : (s : Link) → All IsHonest s.incoming → All IsHonest (elapse s).incoming

-- The link can send, and at most `limit` transactions are pending after `k` more.
pub record Budget (tx : TxCall → ℕ) (limit k : ℕ) (s : Link) : Type 0 where
  pub configured : IsConfigured s
  pub valid : IsValid s.trans_log
  pub honest : All IsHonest s.incoming
  pub sends : s.rmap_tx ≡ some tx
  pub left : s.trans_log.pending + k ≤ limit

of_unsent : (s : Link) → IsConfigured (unsent s) → IsConfigured s
of_unsent s c = record {
  dpath_holds = c.dpath_holds;
  dpath_fits = c.dpath_fits;
  rpath_holds = c.rpath_holds;
  rpath_fits = c.rpath_fits;
  rpath_words = c.rpath_words;
}

to_unsent : (s : Link) → IsConfigured s → IsConfigured (unsent s)
to_unsent s c = record {
  dpath_holds = c.dpath_holds;
  dpath_fits = c.dpath_fits;
  rpath_holds = c.rpath_holds;
  rpath_fits = c.rpath_fits;
  rpath_words = c.rpath_words;
}

-- A change that keeps the settings keeps the budget, if the log and the packets are in order.
changed-Budget :
    (tx : TxCall → ℕ) (limit k j : ℕ) (s out : Link)
    → Budget tx limit k s
    → unsent out ≡ unsent s
    → IsValid out.trans_log
    → All IsHonest out.incoming
    → out.trans_log.pending + j ≤ s.trans_log.pending + k
    → Budget tx limit j out
changed-Budget tx limit k j s out b same v h fewer = record {
  configured = of_unsent out (subst IsConfigured (sym same) (to_unsent s b.configured));
  valid = v;
  honest = h;
  sends = ap (λ t. t.rmap_tx) same ∙ b.sends;
  left = omega (arith, b.left);
}

module _ (elapse : Link → Link) (arrivals : Arrivals elapse) (tx : TxCall → ℕ)
    (accepts : (call : TxCall) → tx call ≡ 0) (limit : ℕ) (slots : limit ≤ 64) where
  elapse-Budget : (k : ℕ) (s : Link) → Budget tx limit k s → Budget tx limit k (elapse s)
  elapse-Budget k s b =
      let same_log = arrivals.keeps_log s in
      changed-Budget tx limit k k s (elapse s) b (arrivals.keeps s)
        (subst IsValid (sym same_log) b.valid) (arrivals.honest s b.honest)
        (omega (arith, ap (λ l. l.pending) same_log))

  process_rx-Budget :
      (k : ℕ) (s : Link) → Budget tx limit k s → Budget tx limit k (smile_fee_process_rx s).1
  process_rx-Budget k s b =
      let r = smile_fee_process_rx-Settled s b.honest b.valid in
      changed-Budget tx limit k k s (smile_fee_process_rx s).1 b
        (ap no_sent (smile_fee_process_rx-settings s)) r.later.valid r.honest
        (omega (arith, r.later.fewer))

  free_to_send :
      (k : ℕ) (s : Link)
      → Budget tx limit (suc k) s
      → (i : ℕ) × (i < trans_log_size) × awaited s.trans_log i ≡ none
  free_to_send k s b =
      let r =
        free_slot s.trans_log.in_use (omega (arith, b.left, b.valid.flags, b.valid.counted)) in
      (r.0, omega (arith, r.1, b.valid.flags), rw r.2)

  can_send :
      (code k value n : ℕ) (s : Link)
      → Budget tx limit k s
      → is_read_code code || is_write_code code ≡ true
      → value < 2 ^ 32
      → n < 2 ^ 24
      → CanSend s tx code value n
  can_send code k value n s b known hv hn = record {
    configured = b.configured;
    request = record { known = known; id_fits = omega arith; addr_fits = hv; size_fits = hn };
    valid = b.valid;
    honest = b.honest;
    sends = b.sends;
  }

  -- A call of `smile_fee_sync_data` with budget for one more returns 0 and leaves the rest.
  call_sends :
      (code k remote bytes n : ℕ) (read : Bool) (s : Link)
      → Budget tx limit (suc k) s
      → is_read_code code || is_write_code code ≡ true
      → remote < 2 ^ 32
      → n < 2 ^ 24
      → ((smile_fee_sync_data (generator gen_ok code remote n) true bytes n read (elapse s)).0
          ≡ some (pos 0))
        × Budget tx limit k
            (smile_fee_sync_data (generator gen_ok code remote n) true bytes n read (elapse s)).1
  call_sends code k remote bytes n read s b known hr hn = (
    sent.result ∙ ap (λ (r : ℕ). some (if r == 0 then pos 0 else negsuc 0)) (accepts _),
    changed-Budget tx limit (suc k) k after _ ready sent.kept sent.later.valid sent.honest
        (omega (arith, sent.grabbed.one_more, sent.later.fewer)),
  )
    where
      before : Budget tx limit (suc k) (elapse s)
      before = elapse-Budget (suc k) s b

      after : Link
      after = (smile_fee_process_rx (elapse s)).1

      ready : Budget tx limit (suc k) after
      ready = process_rx-Budget (suc k) (elapse s) before

      sent :
          Sent tx
            (generator gen_ok code remote n)
            bytes
            (if read then 0 else bytes)
            (if read then 0 else n)
            after
            (smile_fee_sync_data (generator gen_ok code remote n) true bytes n read (elapse s))
      sent =
          let f = free_to_send k after ready in
          smile_fee_sync_data-Sent (elapse s) tx code remote n bytes n f.0 read
            (can_send code (suc k) remote n (elapse s) before known hr hn) f.1 f.2

  writer-Serves : (mirror : ℕ) → Serves (writer (caller mirror) elapse) at_once (Budget tx limit)
  unfolding fee_write_cmd_data fee_write_cmd_data_internal
  writer-Serves mirror = record {
    serves = λ k remote local n s b hr hn.
        let r = call_sends write_addr_inc_reply k remote local n false s b refl hr hn in
        (_, accepted s _ r.0 (record { rounds = 0; ends = λ fuel h. refl }), r.1);
  }

  reader-Serves : (mirror : ℕ) → Serves (reader (caller mirror) elapse) at_once (Budget tx limit)
  unfolding fee_read_cmd_data fee_read_cmd_data_internal
  reader-Serves mirror = record {
    serves = λ k remote local n s b hr hn.
        let r = call_sends read_addr_inc k remote local n true s b refl hr hn in
        (_, accepted s _ r.0 (record { rounds = 0; ends = λ fuel h. refl }), r.1);
  }

  -- Waiting ends in the first round while at most three transactions are pending.
  settle-few :
      (mirror k fuel : ℕ) (s : Link)
      → limit ≤ 3
      → Budget tx limit k s
      → 1 ≤ fuel
      → settle (reader (caller mirror) elapse) fuel s
        ≡ some (smile_fee_rmap_sync_status (elapse s)).1
  unfolding settle smile_fee_rmap_sync_status
  settle-few mirror k zero s h b le = absurd (omega arith)
  settle-few mirror k (suc fuel) s h b le =
      let c = process_rx-Budget k (elapse s) (elapse-Budget k s b) in
      let few : ltb 3 (smile_fee_process_rx (elapse s)).1.trans_log.pending ≡ false =
        ground (arith, c.left) in
      rw few refl

  settling-Serves :
      (mirror : ℕ)
      → limit ≤ 3
      → Serves
          (reader (caller mirror) elapse)
          (settle (reader (caller mirror) elapse))
          (Budget tx limit)
  unfolding fee_read_cmd_data fee_read_cmd_data_internal smile_fee_rmap_sync_status
  settling-Serves mirror h = record {
    serves = λ k remote local n s b hr hn.
        let r = call_sends read_addr_inc k remote local n true s b refl hr hn in
        (
          _,
          accepted s _ r.0
              (record { rounds = 1; ends = λ fuel le. settle-few mirror k fuel _ h r.1 le }),
          process_rx-Budget k _ (elapse-Budget k _ r.1),
        );
  }

-- With the functions of FEE/smile_fee_rmap.c on a link with its paths set as the setters allow, a
-- consistent log and honest packets only, allocations that succeed, a client whose `rmap_tx` accepts
-- every command, an accepted range of at most `k` transport units of at least one byte and less than
-- 2^24, and at most 64 transactions pending and `k` together: the transfer to the FEE ends and returns
-- 0, whatever honest packets arrive in between, or none, and the bytes of the range have been sent in
-- pieces, one behind the other, from the start to the end, none longer than the unit.
pub smile_fee_sync_mirror_to_sram-Exchanged :
    (elapse : Link → Link) (tx : TxCall → ℕ) (mirror area addr size mtu k : ℕ) (s : Link)
    → Arrivals elapse
    → ((call : TxCall) → tx call ≡ 0)
    → IsRange addr size
    → 0 < mtu
    → mtu < 2 ^ 24
    → size ≤ k * mtu
    → Budget tx 64 k s
    → Exchanged
        (writer (caller mirror) elapse)
        at_once
        addr
        (area + (addr - fee_sram_start))
        mtu
        0
        size
        s
        (λ fuel.
          smile_fee_sync_mirror_to_sram (writer (caller mirror) elapse) fuel area addr size mtu s)
smile_fee_sync_mirror_to_sram-Exchanged elapse tx mirror area addr size mtu k s arrivals accepts r
      some_bytes small few b =
    transfer-Exchanged (writer (caller mirror) elapse) at_once (Budget tx 64) area addr size mtu k s
      r some_bytes small few (writer-Serves elapse arrivals tx accepts 64 (omega arith) mirror)
      (writer-Serves elapse arrivals tx accepts 64 (omega arith) mirror) b

-- With the functions of FEE/smile_fee_rmap.c on a link with its paths set as the setters allow, a
-- consistent log and honest packets only, allocations that succeed, a client whose `rmap_tx` accepts
-- every command, an accepted range of at most `k` transport units of at least one byte and less than
-- 2^24, and at most 3 transactions pending and `k` together: the transfer from the FEE ends and returns
-- 0, whatever honest packets arrive in between, or none, and the bytes of the range have been
-- requested in pieces, one behind the other, from the start to the end, none longer than the unit.
pub smile_fee_sync_sram_to_mirror-Exchanged :
    (elapse : Link → Link) (tx : TxCall → ℕ) (mirror area addr size mtu k : ℕ) (s : Link)
    → Arrivals elapse
    → ((call : TxCall) → tx call ≡ 0)
    → IsRange addr size
    → 0 < mtu
    → mtu < 2 ^ 24
    → size ≤ k * mtu
    → Budget tx 3 k s
    → Exchanged
        (reader (caller mirror) elapse)
        (settle (reader (caller mirror) elapse))
        addr
        (area + (addr - fee_sram_start))
        mtu
        0
        size
        s
        (λ fuel.
          smile_fee_sync_sram_to_mirror (reader (caller mirror) elapse) fuel area addr size mtu s)
smile_fee_sync_sram_to_mirror-Exchanged elapse tx mirror area addr size mtu k s arrivals accepts r
      some_bytes small few b =
    transfer-Exchanged (reader (caller mirror) elapse) (settle (reader (caller mirror) elapse))
      (Budget tx 3) area addr size mtu k s r some_bytes small few
      (settling-Serves elapse arrivals tx accepts 3 (omega arith) mirror (omega arith))
      (reader-Serves elapse arrivals tx accepts 3 (omega arith) mirror) b
