-- ===== src/Fee/Create.antt =====
-- The two functions of FEE/smile_fee.c that create an aggregator from the register mirror. A pointer
-- into the allocated data is the index of its first element, `none` the null pointer.
pub mod Laws
use smile_fee.Base.{
  ℕ, zero, suc, ◌+◌, ◌*◌, ◌/◌, ◌%◌, List, Option, none, some, Bool, true, false, not, ◌==◌,
}
use smile_fee.Base.{if◌then◌else◌, bit_and, replicate}
use smile_fee.Fee.Packet.{fee_ccd_id_2, fee_ccd_id_4}
use smile_fee.Fee.Full.{FeeFfData, fee_hk_packet_data_len}
use smile_fee.Fee.Transfer.{
  fee_readout_node_e2, fee_readout_node_f2, fee_readout_node_e4, fee_readout_node_f4,
}
use smile_fee.Ctrl.Mirror.{Mirror}
use smile_fee.Ctrl.CfgReadout.{smile_fee_get_ccd_readout}
use smile_fee.Ctrl.CfgImage.{smile_fee_get_readout_node_sel}
use smile_fee.Ctrl.CfgDetector.{smile_fee_get_ccd_mode2_config}

abbrev pub fee_ccd_img_sec_rows : ℕ
fee_ccd_img_sec_rows = 3791

abbrev pub fee_ccd_img_sec_cols : ℕ
fee_ccd_img_sec_cols = 2255

abbrev pub fee_edu_frame_6x6_rows : ℕ
fee_edu_frame_6x6_rows = 639

abbrev pub fee_edu_frame_6x6_cols : ℕ
fee_edu_frame_6x6_cols = 384

abbrev pub fee_edu_frame_24x24_rows : ℕ
fee_edu_frame_24x24_rows = 160

abbrev pub fee_edu_frame_24x24_cols : ℕ
fee_edu_frame_24x24_cols = 99

abbrev pub fee_mode2_nobin : ℕ
fee_mode2_nobin = 1

abbrev pub fee_mode2_bin6 : ℕ
fee_mode2_bin6 = 2

abbrev pub fee_mode2_bin24 : ℕ
fee_mode2_bin24 = 3

-- `calloc_ok` tells whether the container can be allocated, the list is what malloc yields for the
-- buffer, with any content.
unfoldable pub fee_ff_aggregator_create : Bool → Option (List ℕ) → Mirror → Option FeeFfData
fee_ff_aggregator_create false content m = none
fee_ff_aggregator_create true none m = none
fee_ff_aggregator_create true (some content) m = some (record {
  hk = replicate fee_hk_packet_data_len 0;
  ccd_id = if smile_fee_get_ccd_readout 1 m == 0 then fee_ccd_id_4 else fee_ccd_id_2;
  buffer = content;
  n_elem = fee_ccd_img_sec_rows * fee_ccd_img_sec_cols;
  n = 0;
})

-- The size of a frame: the local variables `rows`, `cols` and `bins` of `fee_ft_aggregator_create`.
pub record FrameSize : Type 0 where
  pub rows : ℕ
  pub cols : ℕ
  pub bins : ℕ

unfoldable pub frame_size : ℕ → Option FrameSize
frame_size mode =
    if mode == fee_mode2_nobin
    then some (record { rows = fee_ccd_img_sec_rows; cols = fee_ccd_img_sec_cols; bins = 1 })
    else if mode == fee_mode2_bin6
    then some (record { rows = fee_edu_frame_6x6_rows; cols = fee_edu_frame_6x6_cols; bins = 6 })
    else if mode == fee_mode2_bin24
    then some
        (record { rows = fee_edu_frame_24x24_rows; cols = fee_edu_frame_24x24_cols; bins = 24 })
    else none

-- `struct fee_ft_data` as it is created; `allocated` is the number of elements of `data`.
pub record FtLayout : Type 0 where
  pub size : FrameSize
  pub n_elem : ℕ
  pub readout : ℕ
  pub allocated : ℕ
  pub e2 : Option ℕ
  pub f2 : Option ℕ
  pub e4 : Option ℕ
  pub f4 : Option ℕ

-- `__builtin_popcount` of a number of `w` bits.
unfoldable pub popcount : ℕ → ℕ → ℕ
popcount zero x = 0
popcount (suc w) x = x % 2 + popcount w (x / 2)

-- One of the four tests on `readout`: the pointer, and `off` after it.
unfoldable pub place : Bool → ℕ → ℕ → Option ℕ × ℕ
place true n off = (some off, off + n)
place false n off = (none, off)

abbrev pub selected : ℕ → ℕ → Bool
selected readout node = not (bit_and readout node == 0)

unfoldable pub lay_out : FrameSize → ℕ → FtLayout
unfolding place popcount
lay_out size readout =
    let n = size.rows * size.cols in
    let (e2, off_e2) = place (selected readout fee_readout_node_e2) n 0 in
    let (f2, off_f2) = place (selected readout fee_readout_node_f2) n off_e2 in
    let (e4, off_e4) = place (selected readout fee_readout_node_e4) n off_f2 in
    let (f4, off_f4) = place (selected readout fee_readout_node_f4) n off_e4 in
    record {
      size = size;
      n_elem = n;
      readout = readout;
      allocated = n * popcount 16 readout;
      e2 = e2;
      f2 = f2;
      e4 = e4;
      f4 = f4;
    }

unfoldable pub fee_ft_aggregator_create : Bool → Bool → Mirror → Option FtLayout
unfolding frame_size lay_out
fee_ft_aggregator_create calloc_ok malloc_ok m =
    elim (frame_size (smile_fee_get_ccd_mode2_config m)) [
      | none ↦ none
      | some size ↦
          if calloc_ok
          then (if malloc_ok then some (lay_out size (smile_fee_get_readout_node_sel m)) else none)
          else none
    ]
