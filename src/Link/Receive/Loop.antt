-- ===== src/Link/Receive/Loop.antt =====
-- The loop of `smile_fee_process_rx` over all the packets that have arrived.
use smile_fee.Base.{ℕ, ◌+◌, ◌≤◌, List, [], ◌∷◌, Option, none, some, ◌==◌, length}
use smile_fee.Base.{◌≡◌, ◌≢◌, ◌⊎◌, inl, inr, refl, Bool-cases, Option-cases, All, ==_iff, subst}
use smile_fee.Rmap.Packet.{RmapPkt}
use smile_fee.Rmap.Parse.{Outcome, fault, null, done, rmap_pkt_from_buffer}
use smile_fee.Rmap.Parse.{read_header}
use smile_fee.Rmap.Parse.Bounds.{reads_behind}
use smile_fee.Rmap.Parse.Safe.{rmap_pkt_from_buffer-fault_iff}
use smile_fee.Base.{sym, ◌∙◌, true, false}
use smile_fee.Link.Log.Laws.{IsValid}
use smile_fee.Link.State.{Link, RxPkt}
use smile_fee.Link.Receive.{process_response, process_pkt, rx_loop, smile_fee_process_rx}
use smile_fee.Link.Receive.{RxResult, processed, error, undefined}
use smile_fee.Link.Receive.Laws.{IsLater, IsLater-refl, IsLater-trans, process_response-IsLater}

-- What is asked of a packet that `rmap_rx` delivers: as many bytes as it announced are in the buffer,
-- and if its header is accepted, then its checksums are in the buffer too.
pub record IsHonest (p : RxPkt) : Type 0 where
  pub announced_bytes : p.received ≤ length p.content
  pub has_checksums :
      (pkt : RmapPkt)
      → read_header p.allocs p.content p.received ≡ done pkt
      → reads_behind p.allocs.data_ok p.content p.received pkt ≡ false

true_ne_false : true ≢ false
true_ne_false e = cc

parse-not_fault :
    (p : RxPkt) (cnt : ℕ)
    → IsHonest p
    → (rmap_pkt_from_buffer p.allocs cnt (some p.content) p.received).1 ≢ fault
parse-not_fault p cnt h e =
    let read =
      (rmap_pkt_from_buffer-fault_iff p.allocs cnt p.content p.received h.announced_bytes).0 e in
    true_ne_false (sym read.4 ∙ h.has_checksums read.2 read.3)

-- No packet is ready: `rmap_rx` returns 0 for the next one.
abbrev pub NoneReady : List RxPkt → Type 0
NoneReady [] = Unit
NoneReady (p ∷ ps) = p.announced ≡ 0

-- The possible ends of the processing.
abbrev pub Ended : RxResult → Link → Type 0
Ended (processed n) out = (out.trans_log.pending ≡ 0) ⊎ NoneReady out.incoming
Ended error out = Unit
Ended undefined out = ⊥

pub record Settled (s : Link) (r : RxResult) (out : Link) : Type 0 where
  pub later : IsLater s.trans_log out.trans_log
  pub ended : Ended r out
  pub honest : All IsHonest out.incoming

abbrev Converted : Link → Option Link → Type 0
Converted s none = ⊥
Converted s (some out) = IsLater s.trans_log out.trans_log

process_pkt-Converted :
    (p : RxPkt) (s : Link) → IsHonest p → IsValid s.trans_log → Converted s (process_pkt p s)
unfolding process_pkt
process_pkt-Converted p s h v =
    go (rmap_pkt_from_buffer p.allocs s.non_rmap_pkt_err_cnt (some p.content) p.received)
      (parse-not_fault p s.non_rmap_pkt_err_cnt h)
  where
    counted : ℕ → Link
    counted cnt = record s { non_rmap_pkt_err_cnt = cnt }

    go :
        (parsed : ℕ × Outcome RmapPkt)
        → parsed.1 ≢ fault
        → Converted s (elim parsed.1 [
          | fault ↦ none
          | null ↦ some (counted parsed.0)
          | done rp ↦ some (process_response rp (counted parsed.0))
        ])
    go (cnt, fault) inside = absurd (inside refl)
    go (cnt, null) inside = IsLater-refl s.trans_log v
    go (cnt, done rp) inside = process_response-IsLater rp (counted cnt) v

rx_loop-Settled :
    (ps : List RxPkt) (cnt : ℕ) (s : Link)
    → All IsHonest ps
    → IsValid s.trans_log
    → Settled s (rx_loop ps cnt s).0 (rx_loop ps cnt s).1
unfolding rx_loop
rx_loop-Settled [] cnt s h v = record {
  later = IsLater-refl s.trans_log v;
  ended = inr tt;
  honest = h;
}
rx_loop-Settled (p ∷ ps) cnt s h v = elim (Bool-cases (p.announced == 0)) [
  | inl silent ↦
      simp (rx_loop, silent)
        (record { later = same; ended = inr ((==_iff _ _).0 silent); honest = h })
  | inr ready ↦ elim (Bool-cases (s.trans_log.pending == 0)) [
    | inl idle ↦
        simp (rx_loop, ready, idle)
          (record { later = same; ended = inl ((==_iff _ _).0 idle); honest = h })
    | inr busy ↦ elim (Bool-cases p.buffer_ok) [
      | inr full ↦
          simp (rx_loop, ready, busy, full) (record { later = same; ended = tt; honest = h })
      | inl space ↦ elim (Bool-cases (p.received == 0)) [
        | inl lost ↦
            simp (rx_loop, ready, busy, space, lost)
              (record { later = same; ended = tt; honest = h.1 })
        | inr read ↦ elim (Option-cases (process_pkt p s)) [
          | inl outside ↦ absurd (subst (Converted s) outside converted)
          | inr (s', next) ↦
              let first : IsLater s.trans_log s'.trans_log = subst (Converted s) next converted in
              let rest = rx_loop-Settled ps (cnt + 1) s' h.1 first.valid in
              simp (rx_loop, ready, busy, space, read, next)
                (record {
                  later = IsLater-trans s.trans_log s'.trans_log _ first rest.later;
                  ended = rest.ended;
                  honest = rest.honest;
                })
        ]
      ]
    ]
  ]
]
  where
    same : IsLater s.trans_log s.trans_log
    same = IsLater-refl s.trans_log v

    converted : Converted s (process_pkt p s)
    converted = process_pkt-Converted p s h.0 v

-- With a consistent transaction log and packets that hold as many bytes as `rmap_rx` announces, with
-- their checksums if their header is accepted, `smile_fee_process_rx` reads nothing outside of its
-- buffers; it ends with a consistent log in which transactions may have ended but none has been added; and if it reports success, then no
-- transaction is pending or no packet is ready.
pub smile_fee_process_rx-Settled :
    (s : Link)
    → All IsHonest s.incoming
    → IsValid s.trans_log
    → Settled s (smile_fee_process_rx s).0 (smile_fee_process_rx s).1
unfolding smile_fee_process_rx
smile_fee_process_rx-Settled s h v = elim (Bool-cases s.rmap_rx) [
  | inl ready ↦ simp ready (rx_loop-Settled s.incoming 0 s h v)
  | inr unset ↦ simp unset (record { later = IsLater-refl s.trans_log v; ended = tt; honest = h })
]
