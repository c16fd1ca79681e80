-- ===== src/Fee/Event/Laws.antt =====
-- What the event functions of FEE/smile_fee.c decide.
use smile_fee.Base.{ℕ, ◌+◌, ◌^◌, ◌≤◌, ◌<◌, List, [], ◌∷◌, Bool, true, false, not, ltb}
use smile_fee.Base.{if◌then◌else◌, ◌≡◌, ◌↔◌, refl, arith, Bool-cases, inl, inr}
use smile_fee.Fee.Packet.{fee_pkt_is_event}
use smile_fee.Fee.Event.{FeeEventDetection, pixel, add_pixel, ring_sum, count_pixel, ring_count}
use smile_fee.Fee.Event.{fee_event_is_xray}

-- The eight pixels around the event pixel.
abbrev pub ring : List ℕ
ring = 6 ∷ 7 ∷ 8 ∷ 11 ∷ 13 ∷ 16 ∷ 17 ∷ 18 ∷ []

abbrev pub total : FeeEventDetection → List ℕ → ℕ
total ev [] = 0
total ev (i ∷ is) = pixel ev i + total ev is

abbrev pub above : FeeEventDetection → ℕ → List ℕ → ℕ
above ev th [] = 0
above ev th (i ∷ is) = (if ltb th (pixel ev i) then 1 else 0) + above ev th is

-- The pixels are 16 bit values.
abbrev pub IsWide : FeeEventDetection → Type 0
IsWide ev = (i : ℕ) → pixel ev i < 2 ^ 16

ring_sum-eq : (ev : FeeEventDetection) → IsWide ev → ring_sum ev ≡ total ev ring
unfolding ring_sum add_pixel
ring_sum-eq ev w = omega (arith, w 6, w 7, w 8, w 11, w 13, w 16, w 17, w 18)

count_pixel-eq :
    (ev : FeeEventDetection) (th i cnt : ℕ)
    → count_pixel ev th i cnt ≡ cnt + (if ltb th (pixel ev i) then 1 else 0)
unfolding count_pixel
count_pixel-eq ev th i cnt = elim (Bool-cases (ltb th (pixel ev i))) [
  | inl over ↦ rw over
  | inr under ↦ rw under (omega arith)
]

ring_count-eq : (ev : FeeEventDetection) (th : ℕ) → ring_count ev th ≡ above ev th ring
unfolding ring_count
ring_count-eq ev th =
    let add = count_pixel ev th in
    let c6 = add 6 0 in
    let c7 = add 7 c6 in
    let c8 = add 8 c7 in
    let c11 = add 11 c8 in
    let c13 = add 13 c11 in
    let c16 = add 16 c13 in
    let c17 = add 17 c16 in
    let e = count_pixel-eq ev th in
    omega (arith, e 6 0, e 7 c6, e 8 c7, e 11 c8, e 13 c11, e 16 c13, e 17 c16, e 18 c17)

verdict_iff :
    (event : Bool) (centre_th centre sum_th sum count : ℕ)
    → ((if not event
          then false
          else if ltb centre_th centre
          then false
          else if ltb sum_th sum
          then false
          else if ltb 4 count
          then false
          else true)
        ≡ true)
      ↔ ((event ≡ true) × (centre ≤ centre_th) × (sum ≤ sum_th) × (count ≤ 4))
verdict_iff false centre_th centre sum_th sum count = (λ e. cc, λ h. cc)
verdict_iff true centre_th centre sum_th sum count =
    (λ e. (refl, ground arith, ground arith, ground arith), λ h. ground arith)

-- For an event packet with 16 bit pixels, `fee_event_is_xray` accepts exactly the events whose
-- centre is at most `centre_th`, whose eight neighbours sum up to at most `sum_th`, and of whose
-- neighbours at most four are above `ring_th`; any other packet is no X-ray.
pub fee_event_is_xray_iff :
    (ev : FeeEventDetection) (centre_th sum_th ring_th : ℕ)
    → IsWide ev
    → (fee_event_is_xray ev centre_th sum_th ring_th ≡ true) ↔ (
        (fee_pkt_is_event ev.hdr ≡ true)
        × (pixel ev 12 ≤ centre_th)
        × (total ev ring ≤ sum_th)
        × (above ev ring_th ring ≤ 4))
unfolding fee_event_is_xray
fee_event_is_xray_iff ev centre_th sum_th ring_th w =
    rw (ring_sum-eq ev w, ring_count-eq ev ring_th)
      (verdict_iff (fee_pkt_is_event ev.hdr) centre_th (pixel ev 12) sum_th (total ev ring)
        (above ev ring_th ring))
