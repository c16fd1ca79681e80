-- ===== src/Link/Receive/Laws.antt =====
-- What processing the received packets does to the transaction log and to memory.
use smile_fee.Base.{ℕ, ◌+◌, ◌-◌, ◌≤◌, ◌<◌, List, none, some, false, ◌==◌}
use smile_fee.Base.{ltb, leb, length, get_or, pos, ◌≡◌, ◌≢◌, ◌⊎◌, inl, inr}
use smile_fee.Base.{refl, ap, ◌∙◌, arith, Bool-cases, le→leb, lt→ltb}
use mathlib.Core.Option
use native.Mathlib.Decide.{ℕ_discrete}
use smile_fee.Rmap.Packet.{RmapPkt, copied}
use smile_fee.Link.Log.{TransLog, trans_log_get_addr, trans_log_release_slot}
use smile_fee.Link.Log.Laws.{IsValid, awaited}
use smile_fee.Link.Log.Release.{Released, trans_log_release_slot-Released}
use smile_fee.Link.Log.Release.{trans_log_get_addr-eq-awaited}
use smile_fee.Link.State.{Link}
use smile_fee.Link.Receive.{memcpy, process_response}

-- No transaction is added: the log after is the log before with some transactions gone.
pub record IsLater (log out : TransLog) : Type 0 where
  pub valid : IsValid out
  pub fewer : out.pending ≤ log.pending
  pub kept_or_gone : (i : ℕ) → (awaited out i ≡ awaited log i) ⊎ (awaited out i ≡ none)

pub IsLater-refl : (log : TransLog) → IsValid log → IsLater log log
IsLater-refl log v = record { valid = v; fewer = omega arith; kept_or_gone = λ i. inl refl }

pub IsLater-trans : (a b c : TransLog) → IsLater a b → IsLater b c → IsLater a c
IsLater-trans a b c p q = record {
  valid = q.valid;
  fewer = omega (arith, p.fewer, q.fewer);
  kept_or_gone = λ i. elim (q.kept_or_gone i) [
    | inr gone ↦ inr gone
    | inl same ↦ elim (p.kept_or_gone i) [
      | inl before ↦ inl (same ∙ before)
      | inr gone ↦ inr (same ∙ gone)
    ]
  ];
}

if_false : (n : ℕ) → n ≢ 0 → (n == 0) ≡ false
if_false n h = ground arith

pub memcpy_inside :
    (dst : ℕ) (bytes : List ℕ) (memory : ℕ → ℕ) (k : ℕ)
    → k < length bytes
    → memcpy dst bytes memory (dst + k) ≡ get_or bytes k 0
unfolding memcpy
memcpy_inside dst bytes memory k h =
    rw (le→leb dst (dst + k) (omega arith), lt→ltb (dst + k) (dst + length bytes) (omega arith))
      (ap (λ i. get_or bytes i 0) place)
  where
    place : dst + k - dst ≡ k
    place = omega arith

pub memcpy_outside :
    (dst : ℕ) (bytes : List ℕ) (memory : ℕ → ℕ) (a : ℕ)
    → (a < dst) ⊎ (dst + length bytes ≤ a)
    → memcpy dst bytes memory a ≡ memory a
unfolding memcpy
memcpy_outside dst bytes memory a (inl h) = let below : leb dst a ≡ false = ground arith in rw below
memcpy_outside dst bytes memory a (inr h) =
    let above : ltb a (dst + length bytes) ≡ false = ground arith in
    elim (Bool-cases (leb dst a)) [ inl e ↦ rw (e, above) | inr e ↦ rw e ]

-- A response for a transaction that awaits data at the address `dst`.
pub record Delivered (rp : RmapPkt) (dst : ℕ) (s out : Link) : Type 0 where
  pub freed : awaited out.trans_log rp.tr_id ≡ none
  pub others : (j : ℕ) → j ≢ rp.tr_id → awaited out.trans_log j ≡ awaited s.trans_log j
  pub one_less : out.trans_log.pending + 1 ≡ s.trans_log.pending
  pub stored :
      (k : ℕ)
      → k < length (copied rp.payload rp.data_len)
      → rp.data_len ≢ 0
      → out.memory (dst + k) ≡ get_or (copied rp.payload rp.data_len) k 0
  pub untouched :
      (a : ℕ)
      → (a < dst) ⊎ (dst + length (copied rp.payload rp.data_len) ≤ a)
      → out.memory a ≡ s.memory a

-- A response packet whose transaction awaits data at a non-null address: its payload is stored
-- from that address on and nowhere else, and exactly this transaction ends.
pub process_response-Delivered :
    (rp : RmapPkt) (dst : ℕ) (s : Link)
    → IsValid s.trans_log
    → awaited s.trans_log rp.tr_id ≡ some dst
    → dst ≢ 0
    → Delivered rp dst s (process_response rp s)
unfolding process_response
process_response-Delivered rp dst s v waits ne =
    rw (found, non_null)
      (record {
        freed = r.freed;
        others = r.others;
        one_less = rw in_use at r.count;
        stored = λ k h some_data.
            rw (if_false _ some_data)
              (memcpy_inside dst (copied rp.payload rp.data_len) s.memory k h);
        untouched = λ a out. elim (Bool-cases (rp.data_len == 0)) [
          | inl empty ↦ rw empty
          | inr full ↦ rw full (memcpy_outside dst (copied rp.payload rp.data_len) s.memory a out)
        ];
      })
  where
    found : trans_log_get_addr (pos rp.tr_id) s.trans_log ≡ dst
    found = trans_log_get_addr-eq-awaited rp.tr_id s.trans_log v ∙ ap (λ o. Option.get_or o 0) waits

    non_null : (dst == 0) ≡ false
    non_null = ground arith

    r : Released rp.tr_id s.trans_log (trans_log_release_slot (pos rp.tr_id) s.trans_log)
    r = trans_log_release_slot-Released rp.tr_id s.trans_log v

    in_use : (get_or s.trans_log.in_use rp.tr_id 0 == 0) ≡ false
    in_use = ground (arith, waits)

pub process_response-IsLater :
    (rp : RmapPkt) (s : Link)
    → IsValid s.trans_log
    → IsLater s.trans_log (process_response rp s).trans_log
unfolding process_response
process_response-IsLater rp s v =
    elim (Bool-cases (trans_log_get_addr (pos rp.tr_id) s.trans_log == 0)) [
      | inl nobody ↦ rw nobody (IsLater-refl s.trans_log v)
      | inr somebody ↦
          rw somebody
            (record { valid = r.valid; fewer = omega (arith, r.count); kept_or_gone = kept })
    ]
  where
    r : Released rp.tr_id s.trans_log (trans_log_release_slot (pos rp.tr_id) s.trans_log)
    r = trans_log_release_slot-Released rp.tr_id s.trans_log v

    kept :
        (i : ℕ)
        → (awaited (trans_log_release_slot (pos rp.tr_id) s.trans_log) i ≡ awaited s.trans_log i)
          ⊎ (awaited (trans_log_release_slot (pos rp.tr_id) s.trans_log) i ≡ none)
    kept i = elim (ℕ_discrete i rp.tr_id) [
      | yes same ↦ inr (rw same r.freed)
      | no other ↦ inl (r.others i other)
    ]
