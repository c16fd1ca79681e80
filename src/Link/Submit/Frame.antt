-- ===== src/Link/Submit/Frame.antt =====
-- What processing the received packets leaves alone: the settings of FEE/smile_fee_rmap.c and the
-- commands that have been handed over.
use smile_fee.Base.{ℕ, ◌+◌, List, [], ◌∷◌, Option, none, some, ◌==◌}
use smile_fee.Base.{◌≡◌, refl, ◌∙◌, ap, Bool-cases, Option-cases, inl, inr, pos, subst}
use smile_fee.Rmap.Packet.{RmapPkt}
use smile_fee.Rmap.Parse.{Outcome, fault, null, done, rmap_pkt_from_buffer}
use smile_fee.Link.Log.{trans_log_get_addr}
use smile_fee.Link.State.{Link, RxPkt}
use smile_fee.Link.Receive.{process_response, process_pkt, rx_loop, smile_fee_process_rx}
use smile_fee.Link.Receive.{RxResult, processed, error}
use smile_fee.Link.Receive.Loop.{NoneReady}
use smile_fee.Base.{Bool, true, if◌then◌else◌, ==_iff}

-- The state without what processing the received packets may change.
abbrev pub settings : Link → Link
settings s = record s {
  trans_log = record { in_use = []; local_addr = []; pending = 0 };
  memory = λ a. 0;
  incoming = [];
  non_rmap_pkt_err_cnt = 0;
}

process_response-settings :
    (rp : RmapPkt) (s : Link) → settings (process_response rp s) ≡ settings s
unfolding process_response
process_response-settings rp s =
    elim (Bool-cases (trans_log_get_addr (pos rp.tr_id) s.trans_log == 0)) [
      | inl nobody ↦ rw nobody
      | inr somebody ↦ rw somebody
    ]

abbrev Same : Link → Option Link → Type 0
Same s none = Unit
Same s (some out) = settings out ≡ settings s

process_pkt-Same : (p : RxPkt) (s : Link) → Same s (process_pkt p s)
unfolding process_pkt
process_pkt-Same p s =
    go (rmap_pkt_from_buffer p.allocs s.non_rmap_pkt_err_cnt (some p.content) p.received)
  where
    counted : ℕ → Link
    counted cnt = record s { non_rmap_pkt_err_cnt = cnt }

    go :
        (parsed : ℕ × Outcome RmapPkt)
        → Same s (elim parsed.1 [
          | fault ↦ none
          | null ↦ some (counted parsed.0)
          | done rp ↦ some (process_response rp (counted parsed.0))
        ])
    go (cnt, fault) = tt
    go (cnt, null) = refl
    go (cnt, done rp) = process_response-settings rp (counted cnt)

rx_loop-settings :
    (ps : List RxPkt) (cnt : ℕ) (s : Link) → settings (rx_loop ps cnt s).1 ≡ settings s
unfolding rx_loop
rx_loop-settings [] cnt s = refl
rx_loop-settings (p ∷ ps) cnt s = elim (Bool-cases (p.announced == 0)) [
  | inl silent ↦ simp (rx_loop, silent)
  | inr ready ↦ elim (Bool-cases (s.trans_log.pending == 0)) [
    | inl idle ↦ simp (rx_loop, ready, idle)
    | inr busy ↦ elim (Bool-cases p.buffer_ok) [
      | inr full ↦ simp (rx_loop, ready, busy, full)
      | inl space ↦ elim (Bool-cases (p.received == 0)) [
        | inl lost ↦ simp (rx_loop, ready, busy, space, lost)
        | inr read ↦ elim (Option-cases (process_pkt p s)) [
          | inl outside ↦ simp (rx_loop, ready, busy, space, read, outside)
          | inr (s', next) ↦
              simp (rx_loop, ready, busy, space, read, next)
                (rx_loop-settings ps (cnt + 1) s' ∙ subst (Same s) next (process_pkt-Same p s))
        ]
      ]
    ]
  ]
]

pub smile_fee_process_rx-settings : (s : Link) → settings (smile_fee_process_rx s).1 ≡ settings s
unfolding smile_fee_process_rx
smile_fee_process_rx-settings s = elim (Bool-cases s.rmap_rx) [
  | inl ready ↦ ap (λ b. settings (chosen b).1) ready ∙ rx_loop-settings s.incoming 0 s
  | inr unset ↦ ap (λ b. settings (chosen b).1) unset
]
  where
    chosen : Bool → RxResult × Link
    chosen ready = if ready then rx_loop s.incoming 0 s else (error, s)

rx_loop_quiet :
    (ps : List RxPkt) (cnt : ℕ) (s : Link)
    → NoneReady ps
    → rx_loop ps cnt s ≡ (processed cnt, record s { incoming = ps })
unfolding rx_loop
rx_loop_quiet [] cnt s h = refl
rx_loop_quiet (p ∷ ps) cnt s h =
    let silent : (p.announced == 0) ≡ true = (==_iff _ _).1 h in simp (rx_loop, silent)

-- Where no packet is ready, nothing changes.
pub process_rx_quiet : (s : Link) → NoneReady s.incoming → (smile_fee_process_rx s).1 ≡ s
unfolding smile_fee_process_rx
process_rx_quiet s h = elim (Bool-cases s.rmap_rx) [
  | inl ready ↦ ap (λ b. (chosen b).1) ready ∙ ap (λ r. r.1) (rx_loop_quiet s.incoming 0 s h)
  | inr unset ↦ ap (λ b. (chosen b).1) unset
]
  where
    chosen : Bool → RxResult × Link
    chosen ready = if ready then rx_loop s.incoming 0 s else (error, s)
