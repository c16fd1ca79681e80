-- ===== src/Link/Log/Release.antt =====
-- Releasing a slot, looking one up, and clearing the transaction log.
use smile_fee.Base.{ℕ, zero, suc, ◌+◌, ◌≤◌, ◌<◌, List, [], ◌∷◌, none, true, false}
use smile_fee.Base.{◌==◌, ltb, if◌then◌else◌, length, get_or, set, replicate, pos, ◌≡◌, ◌≢◌, refl}
use smile_fee.Base.{
  sym, ◌∙◌, arith, Bool-cases, inl, inr, length-set, get_or-set_self, get_or-set_ne,
}
use smile_fee.Base.{lt→ltb}
use smile_fee.Link.Log.{TransLog, trans_log_size, trans_log_release_slot, trans_log_get_addr}
use smile_fee.Link.Log.{smile_fee_rmap_reset_log}
use smile_fee.Link.Log.Laws.{IsValid, awaited, used, used-set_free, pending-le}
use mathlib.Core.Option
use native.Mathlib.Decide.{dec_lt}

-- What a call of `trans_log_release_slot` has done to the log.
pub record Released (slot : ℕ) (log out : TransLog) : Type 0 where
  pub freed : awaited out slot ≡ none
  pub others : (j : ℕ) → j ≢ slot → awaited out j ≡ awaited log j
  pub count : out.pending + (if get_or log.in_use slot 0 == 0 then 0 else 1) ≡ log.pending
  pub valid : IsValid out

get_or-beyond : (xs : List ℕ) (i : ℕ) → length xs ≤ i → get_or xs i 0 ≡ 0
get_or-beyond [] i h = refl
get_or-beyond (x ∷ xs) zero h = absurd (omega arith)
get_or-beyond (x ∷ xs) (suc i) h = get_or-beyond xs i (omega arith)

release-free :
    (slot : ℕ) (log : TransLog)
    → (get_or log.in_use slot 0 == 0) ≡ true
    → trans_log_release_slot (pos slot) log ≡ log
unfolding trans_log_release_slot
release-free slot log free = elim (Bool-cases (ltb slot trans_log_size)) [
  | inl within ↦ rw (within, free)
  | inr beyond ↦ rw beyond
]

slot_in_range :
    (slot : ℕ) (log : TransLog)
    → IsValid log
    → (get_or log.in_use slot 0 == 0) ≡ false
    → slot < trans_log_size
slot_in_range slot log v busy = elim (dec_lt slot trans_log_size) [
  | yes h ↦ h
  | no h ↦ ground (arith, v.flags, get_or-beyond log.in_use slot)
]

release-busy :
    (slot : ℕ) (log : TransLog)
    → IsValid log
    → (get_or log.in_use slot 0 == 0) ≡ false
    → Released slot log (trans_log_release_slot (pos slot) log)
unfolding trans_log_release_slot
release-busy slot log v busy =
    rw (lt→ltb _ _ h, busy)
      (record {
        freed = rw (get_or-set_self log.in_use slot 0 0 inside);
        others = λ j ne. rw (get_or-set_ne log.in_use slot j 0 0 (λ e. ne (sym e)));
        count = rw busy (omega (arith, one_less, v.counted, pending-le log v));
        valid = record {
          flags = length-set log.in_use slot 0 ∙ v.flags;
          addresses = v.addresses;
          counted = omega (arith, one_less, v.counted, pending-le log v);
        };
      })
  where
    h : slot < trans_log_size
    h = slot_in_range slot log v busy

    inside : slot < length log.in_use
    inside = omega (arith, h, v.flags)

    one_less : used (set log.in_use slot 0) + 1 ≡ used log.in_use
    one_less = used-set_free log.in_use slot inside (ground arith)

-- On a consistent log `trans_log_release_slot` frees the slot, counts one transaction less if it
-- was in use, changes no other slot and keeps the log consistent, also for a slot that is free or
-- out of range.
pub trans_log_release_slot-Released :
    (slot : ℕ) (log : TransLog)
    → IsValid log
    → Released slot log (trans_log_release_slot (pos slot) log)
trans_log_release_slot-Released slot log v = elim (Bool-cases (get_or log.in_use slot 0 == 0)) [
  | inr busy ↦ release-busy slot log v busy
  | inl free ↦
      rw (release-free slot log free) (record {
        freed = rw free;
        others = λ j ne. refl;
        count = rw free (omega arith);
        valid = v;
      })
]

-- On a consistent log `trans_log_get_addr` returns the local address that the transaction awaits
-- data at, and the null pointer for an identifier that is not in use or out of range.
pub trans_log_get_addr-eq-awaited :
    (slot : ℕ) (log : TransLog)
    → IsValid log
    → trans_log_get_addr (pos slot) log ≡ Option.get_or (awaited log slot) 0
unfolding trans_log_get_addr
trans_log_get_addr-eq-awaited slot log v = elim (Bool-cases (get_or log.in_use slot 0 == 0)) [
  | inr busy ↦ rw (lt→ltb _ _ (slot_in_range slot log v busy), busy)
  | inl free ↦ elim (Bool-cases (ltb slot trans_log_size)) [
    | inl within ↦ rw (within, free)
    | inr beyond ↦ rw (beyond, free)
  ]
]

get_or-replicate : (n i : ℕ) → get_or (replicate {A = ℕ} n 0) i 0 ≡ 0
get_or-replicate zero i = refl
get_or-replicate (suc n) zero = refl
get_or-replicate (suc n) (suc i) = get_or-replicate n i

-- After `smile_fee_rmap_reset_log` no transaction is awaited, none is counted, and the log is
-- consistent, whatever flags and count it held before.
pub smile_fee_rmap_reset_log-IsValid :
    (log : TransLog)
    → length log.local_addr ≡ trans_log_size
    → IsValid (smile_fee_rmap_reset_log log)
      × ((smile_fee_rmap_reset_log log).pending ≡ 0)
      × ((i : ℕ) → awaited (smile_fee_rmap_reset_log log) i ≡ none)
unfolding smile_fee_rmap_reset_log
smile_fee_rmap_reset_log-IsValid log h = (
  record { flags = refl; addresses = h; counted = refl },
  refl,
  λ i. rw (get_or-replicate trans_log_size i),
)
