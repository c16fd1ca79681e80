-- ===== src/Link/Log/Laws.antt =====
-- The transaction log as a map from the transaction identifiers in use to local addresses: each
-- operation keeps the log consistent and does to the map what its name says.
use smile_fee.Base.{ℕ, zero, suc, ◌+◌, ◌≤◌, ◌<◌, List, [], ◌∷◌, Option, none, some}
use smile_fee.Base.{true, false, ◌==◌, if◌then◌else◌, length, get_or, set}
use smile_fee.Base.{◌≡◌, ◌≢◌, refl, sym, ◌∙◌, arith, Bool-cases, inl, inr, length-set}
use smile_fee.Base.{get_or-set_self, get_or-set_ne, ==_iff}
use native.Mathlib.Decide.{dec_lt}
use smile_fee.Link.Log.{TransLog, trans_log_size, take_slot, grab_from, trans_log_grab_slot}

-- The number of slots in use.
abbrev pub used : List ℕ → ℕ
used [] = 0
used (x ∷ xs) = (if x == 0 then 0 else 1) + used xs

pub record IsValid (log : TransLog) : Type 0 where
  pub flags : length log.in_use ≡ trans_log_size
  pub addresses : length log.local_addr ≡ trans_log_size
  pub counted : log.pending ≡ used log.in_use

-- The local address of a transaction that awaits its response.
abbrev pub awaited : TransLog → ℕ → Option ℕ
awaited log i = if get_or log.in_use i 0 == 0 then none else some (get_or log.local_addr i 0)

used-le : (xs : List ℕ) → used xs ≤ length xs
used-le [] = omega arith
used-le (x ∷ xs) = ground (arith, used-le xs)

used-set_taken :
    (xs : List ℕ) (i : ℕ) → i < length xs → get_or xs i 0 ≡ 0 → used (set xs i 1) ≡ used xs + 1
used-set_taken [] i h e = elim h [ ]
used-set_taken (x ∷ xs) zero h e = ground arith
used-set_taken (x ∷ xs) (suc i) h e = omega (arith, used-set_taken xs i (omega arith) e)

pub used-set_free :
    (xs : List ℕ) (i : ℕ) → i < length xs → get_or xs i 0 ≢ 0 → used (set xs i 0) + 1 ≡ used xs
used-set_free [] i h e = elim h [ ]
used-set_free (x ∷ xs) zero h e = ground arith
used-set_free (x ∷ xs) (suc i) h e = omega (arith, used-set_free xs i (omega arith) e)

pub pending-le : (log : TransLog) → IsValid log → log.pending ≤ trans_log_size
pending-le log v = omega (arith, v.flags, v.counted, used-le log.in_use)

-- What a call of `trans_log_grab_slot` that yields slot `s` has done to the log.
pub record Grabbed (addr : ℕ) (log : TransLog) (s : ℕ) (out : TransLog) : Type 0 where
  pub in_range : s < trans_log_size
  pub was_free : awaited log s ≡ none
  pub first : (j : ℕ) → j < s → awaited log j ≢ none
  pub entered : awaited out s ≡ some addr
  pub others : (j : ℕ) → j ≢ s → awaited out j ≡ awaited log j
  pub one_more : out.pending ≡ log.pending + 1
  pub valid : IsValid out

-- The two outcomes of `trans_log_grab_slot`.
abbrev pub GrabResult : ℕ → TransLog → Option ℕ × TransLog → Type 0
GrabResult addr log (some s, out) = Grabbed addr log s out
GrabResult addr log (none, out) =
    (out ≡ log) × ((j : ℕ) → j < trans_log_size → awaited log j ≢ none)

take_slot-Grabbed :
    (addr : ℕ) (log : TransLog) (i : ℕ)
    → IsValid log
    → i < trans_log_size
    → (get_or log.in_use i 0 == 0) ≡ true
    → ((j : ℕ) → j < i → awaited log j ≢ none)
    → Grabbed addr log i (take_slot i addr log)
unfolding take_slot
take_slot-Grabbed addr log i v h free before = record {
  in_range = h;
  was_free = rw free;
  first = before;
  entered =
      rw (get_or-set_self log.in_use i 1 0 inside, get_or-set_self log.local_addr i addr 0 inside');
  others = λ j ne. rw (
    get_or-set_ne log.in_use i j 1 0 (λ e. ne (sym e)),
    get_or-set_ne log.local_addr i j addr 0 (λ e. ne (sym e)),
  );
  one_more = omega (arith, pending-le log v);
  valid = record {
    flags = length-set log.in_use i 1 ∙ v.flags;
    addresses = length-set log.local_addr i addr ∙ v.addresses;
    counted = omega (arith, pending-le log v, v.counted, used-set_taken log.in_use i inside empty);
  };
}
  where
    inside : i < length log.in_use
    inside = omega (arith, v.flags)

    inside' : i < length log.local_addr
    inside' = omega (arith, v.addresses)

    empty : get_or log.in_use i 0 ≡ 0
    empty = (==_iff _ _).0 free

grab_from-GrabResult :
    (left i addr : ℕ) (log : TransLog)
    → IsValid log
    → i + left ≡ trans_log_size
    → ((j : ℕ) → j < i → awaited log j ≢ none)
    → GrabResult addr log (grab_from left i addr log)
unfolding grab_from
grab_from-GrabResult zero i addr log v e before = (refl, λ j h. before j (omega arith))
grab_from-GrabResult (suc left) i addr log v e before =
    elim (Bool-cases (get_or log.in_use i 0 == 0)) [
      | inl free ↦ rw free (take_slot-Grabbed addr log i v (omega arith) free before)
      | inr busy ↦
          rw busy (grab_from-GrabResult left (i + 1) addr log v (omega arith) (further (busy)))
    ]
  where
    further : (get_or log.in_use i 0 == 0) ≡ false → (j : ℕ) → j < i + 1 → awaited log j ≢ none
    further busy j h = elim (dec_lt j i) [
      | yes below ↦ before j below
      | no here ↦ let same : j ≡ i = omega arith in rw (same, busy) (λ q. cc)
    ]

-- On a consistent log `trans_log_grab_slot` takes the first free slot for the given address,
-- counts it, changes no other slot and keeps the log consistent; it yields no slot, and changes
-- nothing, exactly when all 64 slots are in use.
pub trans_log_grab_slot-GrabResult :
    (addr : ℕ) (log : TransLog) → IsValid log → GrabResult addr log (trans_log_grab_slot addr log)
unfolding trans_log_grab_slot
trans_log_grab_slot-GrabResult addr log v =
    grab_from-GrabResult trans_log_size 0 addr log v refl (λ j h. absurd (omega arith))
