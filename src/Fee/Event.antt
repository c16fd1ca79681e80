-- ===== src/Fee/Event.antt =====
-- Event packets in FEE/smile_fee.c: the classification as an X-ray and the test for bad pixels.
pub mod Laws
use smile_fee.Base.{
  ℕ, zero, ◌+◌, ◌*◌, ◌/◌, ◌%◌, List, Option, none, some, Bool, true, false, not, ◌==◌, ltb,
}
use smile_fee.Base.{if◌then◌else◌, get_or, get_elem?, u32, ◌>>>◌}
use smile_fee.Fee.Packet.{FeeDataHdr, fee_pkt_is_event, fee_ccd_id_2, fee_ccd_id_4}

abbrev pub fee_ev_pixel_idx : ℕ
fee_ev_pixel_idx = 12

abbrev pub fee_edu_frame_6x6_rows : ℕ
fee_edu_frame_6x6_rows = 639

abbrev pub fee_edu_frame_6x6_cols : ℕ
fee_edu_frame_6x6_cols = 384

-- `struct fee_event_detection` in the byte order of the processor; `pix` has 25 elements.
pub record FeeEventDetection : Type 0 where
  pub hdr : FeeDataHdr
  pub col : ℕ
  pub row : ℕ
  pub pix : List ℕ

abbrev pub pixel : FeeEventDetection → ℕ → ℕ
pixel ev i = get_or ev.pix i 0

-- One addition to `sum`, a `uint32_t`.
unfoldable pub add_pixel : FeeEventDetection → ℕ → ℕ → ℕ
add_pixel ev i sum = u32 (sum + pixel ev i)

unfoldable pub ring_sum : FeeEventDetection → ℕ
unfolding add_pixel
ring_sum ev = add_pixel ev 18 (
    add_pixel ev 17 (
      add_pixel ev 16
        (add_pixel ev 13 (add_pixel ev 11 (add_pixel ev 8 (add_pixel ev 7 (add_pixel ev 6 0)))))))

unfoldable pub count_pixel : FeeEventDetection → ℕ → ℕ → ℕ → ℕ
count_pixel ev ring_th i cnt = if ltb ring_th (pixel ev i) then cnt + 1 else cnt

unfoldable pub ring_count : FeeEventDetection → ℕ → ℕ
unfolding count_pixel
ring_count ev ring_th =
    let add = count_pixel ev ring_th in
    add 18 (add 17 (add 16 (add 13 (add 11 (add 8 (add 7 (add 6 0)))))))

unfoldable pub fee_event_is_xray : FeeEventDetection → ℕ → ℕ → ℕ → Bool
unfolding ring_sum ring_count fee_pkt_is_event
fee_event_is_xray ev centre_th sum_th ring_th =
    if not (fee_pkt_is_event ev.hdr)
    then false
    else if ltb centre_th (pixel ev fee_ev_pixel_idx)
    then false
    else if ltb sum_th (ring_sum ev)
    then false
    else if ltb 4 (ring_count ev ring_th)
    then false
    else true

-- Words of a table are 32 bits wide, but are indexed and shifted for words of `bits_per_long`
-- bits. A shift by 32 and more and a word behind the table are `none`.
unfoldable pub test_bit : ℕ → ℕ → List ℕ → Option ℕ
test_bit bits_per_long nr addr = elim (get_elem? addr (nr / bits_per_long)) [
  | none ↦ none
  | some word ↦
      if ltb (nr % bits_per_long) 32 then some ((word >>> (nr % bits_per_long)) % 2) else none
]

-- The two static tables, which no function assigns: null pointers.
abbrev pub fee_ccd2_bad_pixels : Option (List ℕ)
fee_ccd2_bad_pixels = none

abbrev pub fee_ccd4_bad_pixels : Option (List ℕ)
fee_ccd4_bad_pixels = none

-- The table of the CCD. The field `ccd_id` is one bit, so it is one of the two.
unfoldable pub bad_pixels : ℕ → Option (List ℕ)
bad_pixels ccd_id = if ccd_id == fee_ccd_id_4 then fee_ccd4_bad_pixels else fee_ccd2_bad_pixels

-- The result 1 or 0; `none` is the access of `test_bit` outside of the table.
unfoldable pub fee_event_pixel_is_bad : ℕ → FeeEventDetection → Option ℕ
unfolding bad_pixels test_bit fee_pkt_is_event
fee_event_pixel_is_bad bits_per_long ev =
    let idx = ev.row * fee_edu_frame_6x6_cols + ev.col in
    if not (fee_pkt_is_event ev.hdr)
    then some 1
    else if ltb (fee_edu_frame_6x6_cols * fee_edu_frame_6x6_rows) idx
    then some 1
    else elim (bad_pixels ev.hdr.type_field.ccd_id) [
      | none ↦ some 1
      | some tbl ↦ test_bit bits_per_long idx tbl
    ]
