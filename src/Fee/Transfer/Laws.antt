-- ===== src/Fee/Transfer/Laws.antt =====
-- When `fee_ft_aggregate` of FEE/smile_fee.c reports a complete frame.
use smile_fee.Base.{
  ℕ, zero, suc, ◌+◌, ◌*◌, ◌/◌, ◌%◌, ◌^◌, ◌<◌, Bool, true, false, ◌==◌, if◌then◌else◌,
}
use smile_fee.Base.{
  pos, ◌≡◌, ◌≢◌, ◌↔◌, ap, refl, arith, all_below, all_below-true, ==_iff, Bool-cases, inl, inr, ◌∙◌,
}
use smile_fee.Fee.Packet.{FeeDataPkt}
use smile_fee.Fee.Transfer.{FeeFtData, clear_node, remaining, fee_ft_frame_complete}

-- The number of the bit of a readout node.
abbrev pub node_number : ℕ → ℕ → ℕ
node_number side ccd = 2 * ccd + side

abbrev pub node_bit : ℕ → ℕ → ℕ
node_bit readout k = readout / 2 ^ k % 2

abbrev cleared_table : ℕ → ℕ → ℕ → Bool
cleared_table k readout j =
    node_bit (clear_node readout (2 ^ k)) j == (if j == k then 0 else node_bit readout j)

clear_node-bit :
    (k j readout : ℕ)
    → k < 4
    → j < 4
    → readout < 16
    → node_bit (clear_node readout (2 ^ k)) j ≡ (if j == k then 0 else node_bit readout j)
clear_node-bit k j readout hk hj hr = (==_iff _ _).0 (
    all_below-true 4 (cleared_table k readout) j
      (all_below-true 16 (λ r. all_below 4 (cleared_table k r)) readout
        (all_below-true 4 (λ c. all_below 16 (λ r. all_below 4 (cleared_table c r))) k table hk) hr)
      hj)
  where
    table : all_below 4 (λ c. all_below 16 (λ r. all_below 4 (cleared_table c r))) ≡ true
    table = unfold all_below in refl

remaining-last :
    (side ccd readout : ℕ) (pkt : FeeDataPkt)
    → side < 2
    → ccd < 2
    → pkt.hdr.type_field.ccd_side ≡ side
    → pkt.hdr.type_field.ccd_id ≡ ccd
    → (pkt.hdr.type_field.last_pkt == 0) ≡ false
    → remaining readout pkt ≡ clear_node readout (2 ^ node_number side ccd)
unfolding remaining
remaining-last zero zero readout pkt hs hc es ec last = rw (remaining, es, ec, last)
remaining-last zero (suc zero) readout pkt hs hc es ec last = rw (remaining, es, ec, last)
remaining-last zero (suc (suc c)) readout pkt hs hc es ec last = absurd (omega arith)
remaining-last (suc zero) zero readout pkt hs hc es ec last = rw (remaining, es, ec, last)
remaining-last (suc zero) (suc zero) readout pkt hs hc es ec last = rw (remaining, es, ec, last)
remaining-last (suc zero) (suc (suc c)) readout pkt hs hc es ec last = absurd (omega arith)
remaining-last (suc (suc n)) ccd readout pkt hs hc es ec last = absurd (omega arith)

complete_iff : (r : ℕ) → ((if r == 0 then pos 1 else pos 0) ≡ pos 1) ↔ (r ≡ 0)
complete_iff r = elim (Bool-cases (r == 0)) [
  | inl done ↦ rw done (λ e. (==_iff r 0).0 done, λ e. refl)
  | inr left ↦ rw left (λ e. cc, λ e. ground (arith, left))
]

-- The last packet of a readout node, one of the sides F (0) and E (1) of CCD 2 (0) or CCD 4 (1),
-- clears the bit of this node in `readout` and leaves the bits of the three others; the frame is
-- reported complete exactly if no bit is left.
pub fee_ft_frame_complete-bits :
    (ft : FeeFtData) (pkt : FeeDataPkt) (j : ℕ)
    → pkt.hdr.type_field.ccd_side < 2
    → pkt.hdr.type_field.ccd_id < 2
    → pkt.hdr.type_field.last_pkt ≢ 0
    → ft.readout < 16
    → j < 4
    → (node_bit (fee_ft_frame_complete ft pkt).1.readout j ≡ (
        if j == node_number pkt.hdr.type_field.ccd_side pkt.hdr.type_field.ccd_id
        then 0
        else node_bit ft.readout j))
      × (((fee_ft_frame_complete ft pkt).0 ≡ pos 1)
          ↔ ((fee_ft_frame_complete ft pkt).1.readout ≡ 0))
unfolding fee_ft_frame_complete
fee_ft_frame_complete-bits ft pkt j hs hc last hr hj = (
  ap (λ r. node_bit r j) (remaining-last _ _ ft.readout pkt hs hc refl refl (ground arith))
      ∙ clear_node-bit (node_number pkt.hdr.type_field.ccd_side pkt.hdr.type_field.ccd_id) j
          ft.readout (omega arith) hj hr,
  complete_iff (remaining ft.readout pkt),
)
