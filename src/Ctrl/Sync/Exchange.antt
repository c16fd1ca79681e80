-- ===== src/Ctrl/Sync/Exchange.antt =====
-- What the synchronising functions of FEE/smile_fee_ctrl.c and the functions that read a value do
-- together: the value is requested, its register arrives, and it is read.
use smile_fee.Base.{ℕ, zero, suc, ◌+◌, ◌*◌, ◌^◌, ◌<◌, List, [], ◌∷◌, some, none, Bool, true}
use smile_fee.Base.{◌&&◌, ◌==◌, get_elem?, ◌≡◌, ◌≢◌, refl, sym, ap, ap₂, ◌∙◌, arith, subst}
use smile_fee.Base.{==_iff, both_true, some_inj, none_ne, length, get_or, IsByte}
use smile_fee.Bits.Fields.{extract}
use smile_fee.Rmap.Packet.{RmapPkt, copied, read_addr_inc, write_addr_inc_reply}
use smile_fee.Link.Log.{trans_log_size}
use smile_fee.Link.Log.Laws.{IsValid, awaited}
use smile_fee.Link.State.{Link, TxCall}
use smile_fee.Link.Receive.{process_response}
use smile_fee.Link.Receive.Laws.{Delivered, process_response-Delivered}
use smile_fee.Link.Receive.Loop.{NoneReady}
use smile_fee.Link.Command.{generator, fee_read_cmd_register_internal}
use smile_fee.Link.Command.{fee_write_cmd_register_internal}
use smile_fee.Link.Command.Laws.{gen_ok}
use smile_fee.Link.Submit.Sync.{Sent, CanSend, smile_fee_sync-Sent}
use smile_fee.Ctrl.Swap.{be32_to_cpu-load32}
use smile_fee.Ctrl.Mirror.{host, mirror_at}
use smile_fee.Ctrl.Field.{Checked}
use smile_fee.Ctrl.Table.{fields}
use smile_fee.Ctrl.Sync.Registers.{Caller, SyncDirection, fee2dpu, dpu2fee}
use smile_fee.Ctrl.Sync.Table.{Synced, sync_register, syncs}
use smile_fee.Ctrl.Sync.Table.{sync_adc_pwrdn_en, sync_pix_offset, sync_int_sync_period}
use smile_fee.Ctrl.Sync.Table.{sync_h_start}
use smile_fee.Ctrl.Sync.Values.{smile_fee_sync_adc_pwrdn_en, smile_fee_sync_pix_offset}
use smile_fee.Ctrl.Sync.Values.{smile_fee_sync_int_sync_period, smile_fee_sync_h_start}
use smile_fee.Link.Registers.Addresses.{cfg_reg_4, cfg_reg_6, cfg_reg_8, cfg_reg_21}

-- The registers of two lists agree up to the shorter one.
unfoldable matching : List Checked → List Synced → Bool
matching [] fs = true
matching (a ∷ as') [] = true
matching (a ∷ as') (f ∷ fs) = (a.entry.reg == f.reg) && matching as' fs

fields-match : matching fields syncs ≡ true
unfolding fields matching
fields-match = refl

matching-elems :
    (xs : List Checked) (fs : List Synced) (i : ℕ) (a : Checked) (f : Synced)
    → matching xs fs ≡ true
    → get_elem? xs i ≡ some a
    → get_elem? fs i ≡ some f
    → a.entry.reg ≡ f.reg
unfolding matching
matching-elems [] fs i a f h ea ef = absurd (none_ne ea)
matching-elems (x ∷ xs) [] i a f h ea ef = absurd (none_ne ef)
matching-elems (x ∷ xs) (g ∷ fs) zero a f h ea ef =
    ap (λ y. y.entry.reg) (sym (some_inj ea))
    ∙ (==_iff x.entry.reg g.reg).0 (both_true (x.entry.reg == g.reg) (matching xs fs) h).0
    ∙ ap (λ y. y.reg) (some_inj ef)
matching-elems (x ∷ xs) (g ∷ fs) (suc i) a f h ea ef =
    matching-elems xs fs i a f (both_true (x.entry.reg == g.reg) (matching xs fs) h).1 ea ef

listed-eq :
    (i : ℕ) (a : Checked) (f : Synced) (c : Caller) (dir : SyncDirection) (s : Link)
    → get_elem? fields i ≡ some a
    → get_elem? syncs i ≡ some f
    → f.sync c dir s ≡ sync_register a.entry.reg c dir s
listed-eq i a f c dir s ea ef =
    f.law c dir s
    ∙ ap (λ reg. sync_register reg c dir s)
        (sym (matching-elems fields syncs i a f fields-match ea ef))

-- The synchronising function at the place of a field does, in every direction, what is to be done
-- for the register that the field is read from and set in: a read or write command for it from or to
-- the mirror's copy, and -1 for a direction that is neither. The four values outside of the table of
-- fields are exchanged so with the configuration registers 4, 6, 8 and 21.
pub sync-eq :
    (i : ℕ) (a : Checked) (f : Synced) (c : Caller) (dir : SyncDirection) (s : Link)
    → get_elem? fields i ≡ some a
    → get_elem? syncs i ≡ some f
    → (f.sync c dir s ≡ sync_register a.entry.reg c dir s)
      × (smile_fee_sync_adc_pwrdn_en c dir s ≡ sync_register cfg_reg_4 c dir s)
      × (smile_fee_sync_pix_offset c dir s ≡ sync_register cfg_reg_6 c dir s)
      × (smile_fee_sync_int_sync_period c dir s ≡ sync_register cfg_reg_8 c dir s)
      × smile_fee_sync_h_start c dir s ≡ sync_register cfg_reg_21 c dir s
sync-eq i a f c dir s ea ef = (
  listed-eq i a f c dir s ea ef,
  sync_adc_pwrdn_en.law c dir s,
  sync_pix_offset.law c dir s,
  sync_int_sync_period.law c dir s,
  sync_h_start.law c dir s,
)

-- A caller whose allocations succeed.
abbrev pub caller : ℕ → Caller
caller mirror = record { allocs = gen_ok; malloc_ok = true; mirror = mirror }

module _ (i : ℕ) (a : Checked) (f : Synced) (ea : get_elem? fields i ≡ some a)
    (ef : get_elem? syncs i ≡ some f) (mirror : ℕ) (s : Link) (tx : TxCall → ℕ) (free : ℕ)
    (within : free < trans_log_size) (is_free : awaited s.trans_log free ≡ none) where
  -- A read command for the register is sent, and its response is awaited for the mirror's copy.
  pub sync-reads :
      CanSend s tx read_addr_inc a.entry.reg 4
      → Sent tx
          (generator gen_ok read_addr_inc a.entry.reg 4)
          (mirror + a.entry.reg)
          (mirror + a.entry.reg)
          0
          s
          (f.sync (caller mirror) fee2dpu s)
  unfolding fee_read_cmd_register_internal
  sync-reads c =
      subst
        (Sent tx (generator gen_ok read_addr_inc a.entry.reg 4) (mirror + a.entry.reg)
          (mirror + a.entry.reg) 0 s)
        (sym (listed-eq i a f (caller mirror) fee2dpu s ea ef))
        (smile_fee_sync-Sent s tx read_addr_inc a.entry.reg 4 (mirror + a.entry.reg) 0 free c refl
          within is_free)

  -- A write command for the register is sent with the four bytes of the mirror's copy.
  pub sync-writes :
      CanSend s tx write_addr_inc_reply a.entry.reg 4
      → Sent tx
          (generator gen_ok write_addr_inc_reply a.entry.reg 4)
          (mirror + a.entry.reg)
          (mirror + a.entry.reg)
          4
          s
          (f.sync (caller mirror) dpu2fee s)
  unfolding fee_write_cmd_register_internal
  sync-writes c =
      subst
        (Sent tx (generator gen_ok write_addr_inc_reply a.entry.reg 4) (mirror + a.entry.reg)
          (mirror + a.entry.reg) 4 s)
        (sym (listed-eq i a f (caller mirror) dpu2fee s ea ef))
        (smile_fee_sync-Sent s tx write_addr_inc_reply a.entry.reg 4 (mirror + a.entry.reg) 4 free c
          refl within is_free)

-- A reply of the FEE with the four bytes of a register.
pub record IsReply (rp : RmapPkt) (slot b0 b1 b2 b3 : ℕ) : Type 0 where
  pub for_slot : rp.tr_id ≡ slot
  pub length_is : rp.data_len ≡ 4
  pub bytes : rp.payload ≡ some (b0 ∷ b1 ∷ b2 ∷ b3 ∷ [])
  pub are_bytes : IsByte b0 × IsByte b1 × IsByte b2 × IsByte b3

-- A reply that is awaited for the mirror's copy of a register gives the register its value.
host-reply :
    (mirror area reg slot b0 b1 b2 b3 : ℕ) (rp : RmapPkt) (s : Link)
    → IsReply rp slot b0 b1 b2 b3
    → IsValid s.trans_log
    → awaited s.trans_log slot ≡ some (mirror + reg)
    → mirror + reg ≢ 0
    → host reg (mirror_at mirror area (process_response rp s).memory)
      ≡ b0 * 2 ^ 24 + b1 * 2 ^ 16 + b2 * 2 ^ 8 + b3
host-reply mirror area reg slot b0 b1 b2 b3 rp s r valid waits non_null =
    be32_to_cpu-load32 (process_response rp s).memory (mirror + reg) b0 b1 b2 b3
      (
        ap (process_response rp s).memory (omega arith) ∙ at 0 (omega arith),
        at 1 (omega arith),
        at 2 (omega arith),
        at 3 (omega arith),
      )
      r.are_bytes.0 r.are_bytes.1 r.are_bytes.2 r.are_bytes.3
  where
    d : Delivered rp (mirror + reg) s (process_response rp s)
    d =
        process_response-Delivered rp (mirror + reg) s valid
          (ap (awaited s.trans_log) r.for_slot ∙ waits) non_null

    whole : copied rp.payload rp.data_len ≡ b0 ∷ b1 ∷ b2 ∷ b3 ∷ []
    whole = ap₂ copied r.bytes r.length_is

    at :
        (k : ℕ)
        → k < 4
        → (process_response rp s).memory (mirror + reg + k) ≡ get_or (b0 ∷ b1 ∷ b2 ∷ b3 ∷ []) k 0
    at k h =
        d.stored k (subst (λ bytes. k < length bytes) (sym whole) h)
          (λ e. omega (arith, r.length_is))
        ∙ ap (λ bytes. get_or bytes k 0) whole

reply-frees :
    (dst slot b0 b1 b2 b3 : ℕ) (rp : RmapPkt) (s : Link)
    → IsReply rp slot b0 b1 b2 b3
    → IsValid s.trans_log
    → awaited s.trans_log slot ≡ some dst
    → dst ≢ 0
    → awaited (process_response rp s).trans_log slot ≡ none
reply-frees dst slot b0 b1 b2 b3 rp s r valid waits non_null =
    subst (λ (k : ℕ). awaited (process_response rp s).trans_log k ≡ none) r.for_slot
      (process_response-Delivered rp dst s valid (ap (awaited s.trans_log) r.for_slot ∙ waits)
        non_null).freed

-- Where the link can send, no packet is ready, a slot is free and the mirror's copy is not at the
-- null address: a read command for a value's register is sent, and once a reply for its slot with
-- the four bytes of the register has been processed, the function that reads the value returns its
-- field of these bytes, the most significant first; the transaction has ended.
pub sync-get :
    (i : ℕ) (a : Checked) (f : Synced) (mirror area : ℕ) (s : Link) (tx : TxCall → ℕ) (free : ℕ)
    (b0 b1 b2 b3 : ℕ) (reply : ℕ → RmapPkt)
    → get_elem? fields i ≡ some a
    → get_elem? syncs i ≡ some f
    → CanSend s tx read_addr_inc a.entry.reg 4
    → NoneReady s.incoming
    → free < trans_log_size
    → awaited s.trans_log free ≡ none
    → mirror + a.entry.reg ≢ 0
    → ((slot : ℕ) → IsReply (reply slot) slot b0 b1 b2 b3)
    → (sent : Sent tx
        (generator gen_ok read_addr_inc a.entry.reg 4)
        (mirror + a.entry.reg)
        (mirror + a.entry.reg)
        0
        s
        (f.sync (caller mirror) fee2dpu s))
      × (a.entry.get (
            mirror_at mirror area
              (process_response (reply sent.slot) (f.sync (caller mirror) fee2dpu s).1).memory)
          ≡ extract a.entry.shift a.entry.width (b0 * 2 ^ 24 + b1 * 2 ^ 16 + b2 * 2 ^ 8 + b3))
      × (awaited
            (process_response (reply sent.slot) (f.sync (caller mirror) fee2dpu s).1).trans_log
            sent.slot
          ≡ none)
sync-get i a f mirror area s tx free b0 b1 b2 b3 reply ea ef c quiet within is_free non_null r = (
  sent,
  a.law.reads (mirror_at mirror area (process_response (reply sent.slot) out).memory)
      ∙ ap (extract a.entry.shift a.entry.width) (
          host-reply mirror area a.entry.reg sent.slot b0 b1 b2 b3 (reply sent.slot) out
            (r sent.slot) sent.later.valid (sent.waiting quiet) non_null),
  reply-frees (mirror + a.entry.reg) sent.slot b0 b1 b2 b3 (reply sent.slot) out (r sent.slot)
      sent.later.valid (sent.waiting quiet) non_null,
)
  where
    out : Link
    out = (f.sync (caller mirror) fee2dpu s).1

    sent :
        Sent tx
          (generator gen_ok read_addr_inc a.entry.reg 4)
          (mirror + a.entry.reg)
          (mirror + a.entry.reg)
          0
          s
          (f.sync (caller mirror) fee2dpu s)
    sent = sync-reads i a f ea ef mirror s tx free within is_free c
