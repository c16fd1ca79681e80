-- ===== src/Fee/Create/Laws.antt =====
-- How `fee_ft_aggregator_create` of FEE/smile_fee.c divides its buffer among the readout nodes.
use smile_fee.Base.{
  ℕ, zero, suc, ◌+◌, ◌*◌, ◌<◌, List, [], ◌∷◌, ◌++◌, Option, none, some, Bool, true, false, not,
  ◌==◌,
}
use smile_fee.Base.{◌≡◌, refl, ap, arith, all_below, all_below-true, ==_iff, ◌>>>◌}
use smile_fee.Base.{inl, inr, if◌then◌else◌}
use smile_fee.Rmap.Packet.{is_null}
use smile_fee.Fee.Transfer.{
  fee_readout_node_e2, fee_readout_node_f2, fee_readout_node_e4, fee_readout_node_f4,
}
use smile_fee.Base.{◌||◌, ◌⊎◌}
use smile_fee.Bits.{bit_and-ones}
use smile_fee.Ctrl.Mirror.{Mirror, host}
use smile_fee.Link.Registers.Addresses.{cfg_reg_5, cfg_reg_21}
use smile_fee.Ctrl.CfgImage.{smile_fee_get_readout_node_sel}
use smile_fee.Ctrl.CfgDetector.{smile_fee_get_ccd_mode2_config}
use smile_fee.Fee.Create.{FrameSize, FtLayout, frame_size, popcount, place, selected, lay_out}
use smile_fee.Fee.Create.{fee_ft_aggregator_create}

-- The element that the pointer of a node points to.
abbrev pub pointer : Option ℕ → List ℕ
pointer none = []
pointer (some off) = off ∷ []

-- The elements that the pointers point to, in the order of the source.
abbrev pub pointers : FtLayout → List ℕ
pointers ft = pointer ft.e2 ++ (pointer ft.f2 ++ (pointer ft.e4 ++ pointer ft.f4))

-- The starts of `k` pieces of `n` elements that follow each other from `off`.
unfoldable pub starts : ℕ → ℕ → ℕ → List ℕ
starts zero n off = []
starts (suc k) n off = off ∷ starts k n (off + n)

-- The buffer is divided among the nodes that are read out.
pub record Divided (readout : ℕ) (ft : FtLayout) : Type 0 where
  pub nodes : ℕ
  pub consecutive : pointers ft ≡ starts nodes ft.n_elem 0
  pub filled : ft.allocated ≡ ft.n_elem * nodes
  pub has_e2 : not (is_null ft.e2) ≡ selected readout fee_readout_node_e2
  pub has_f2 : not (is_null ft.f2) ≡ selected readout fee_readout_node_f2
  pub has_e4 : not (is_null ft.e4) ≡ selected readout fee_readout_node_e4
  pub has_f4 : not (is_null ft.f4) ≡ selected readout fee_readout_node_f4

-- No aggregator is created: the binning mode is unknown or an allocation fails.
abbrev pub refused : Bool → Bool → Mirror → Bool
refused calloc_ok malloc_ok m =
    smile_fee_get_ccd_mode2_config m == 0 || (not calloc_ok || not malloc_ok)

-- An aggregator with the frame size of the binning mode, and room for each node that is read out.
pub record Created (m : Mirror) (ft : FtLayout) : Type 0 where
  pub sized : frame_size (smile_fee_get_ccd_mode2_config m) ≡ some ft.size
  pub frame : ft.n_elem ≡ ft.size.rows * ft.size.cols
  pub divided : Divided (smile_fee_get_readout_node_sel m) ft

abbrev one_more : Bool → ℕ → ℕ
one_more true k = suc k
one_more false k = k

place-starts :
    (b : Bool) (n off k : ℕ) (rest : List ℕ)
    → rest ≡ starts k n (place b n off).1
    → pointer (place b n off).0 ++ rest ≡ starts (one_more b k) n off
unfolding place starts
place-starts true n off k rest h = ap (λ xs. off ∷ xs) h
place-starts false n off k rest h = h

place-pointer : (b : Bool) (n off : ℕ) → pointer (place b n off).0 ≡ starts (one_more b zero) n off
unfolding place starts
place-pointer true n off = refl
place-pointer false n off = refl

place-selected : (b : Bool) (n off : ℕ) → not (is_null (place b n off).0) ≡ b
unfolding place
place-selected true n off = refl
place-selected false n off = refl

abbrev count : ℕ → ℕ
count readout = one_more (selected readout fee_readout_node_e2) (
    one_more (selected readout fee_readout_node_f2) (
      one_more (selected readout fee_readout_node_e4)
        (one_more (selected readout fee_readout_node_f4) zero)))

popcount-count : (readout : ℕ) → readout < 16 → popcount 16 readout ≡ count readout
popcount-count readout h =
    (==_iff _ _).0 (all_below-true 16 (λ r. popcount 16 r == count r) readout table h)
  where
    table : all_below 16 (λ r. popcount 16 r == count r) ≡ true
    table = unfold all_below popcount in refl

lay_out-Divided :
    (size : FrameSize) (readout : ℕ) → readout < 16 → Divided readout (lay_out size readout)
unfolding lay_out
lay_out-Divided size readout h = record {
  nodes = count readout;
  consecutive = place-starts (selected readout fee_readout_node_e2) _ _ _ _ (
      place-starts (selected readout fee_readout_node_f2) _ _ _ _ (
        place-starts (selected readout fee_readout_node_e4) _ _ _ _
          (place-pointer (selected readout fee_readout_node_f4) _ _)));
  filled = ap (λ k. size.rows * size.cols * k) (popcount-count readout h);
  has_e2 = place-selected _ _ _;
  has_f2 = place-selected _ _ _;
  has_e4 = place-selected _ _ _;
  has_f4 = place-selected _ _ _;
}

frame_size_cases :
    (mode : ℕ)
    → mode < 4
    → ((mode == 0) ≡ true × (frame_size mode ≡ none))
      ⊎ (((mode == 0) ≡ false) × (size : FrameSize) × frame_size mode ≡ some size)
unfolding frame_size
frame_size_cases zero h = inl (refl, refl)
frame_size_cases (suc zero) h = inr (refl, _, refl)
frame_size_cases (suc (suc zero)) h = inr (refl, _, refl)
frame_size_cases (suc (suc (suc zero))) h = inr (refl, _, refl)
frame_size_cases (suc (suc (suc (suc n)))) h = absurd (omega arith)

mode-lt : (m : Mirror) → smile_fee_get_ccd_mode2_config m < 4
mode-lt m = omega (arith, bit_and-ones 2 (host cfg_reg_21 m >>> 28))

readout-lt : (m : Mirror) → smile_fee_get_readout_node_sel m < 16
readout-lt m = omega (arith, bit_and-ones 4 (host cfg_reg_5 m >>> 28))

create-eq :
    (calloc_ok malloc_ok : Bool) (m : Mirror) (found : Option FrameSize)
    → frame_size (smile_fee_get_ccd_mode2_config m) ≡ found
    → fee_ft_aggregator_create calloc_ok malloc_ok m ≡ elim found [
      | none ↦ none
      | some size ↦
          if calloc_ok
          then (if malloc_ok then some (lay_out size (smile_fee_get_readout_node_sel m)) else none)
          else none
    ]
unfolding fee_ft_aggregator_create
create-eq calloc_ok malloc_ok m found e =
    ap
      (λ r. elim r as (λ _. Option FtLayout) [
        | none ↦ none
        | some size ↦
            if calloc_ok
            then (if malloc_ok
                then some (lay_out size (smile_fee_get_readout_node_sel m))
                else none)
            else none
      ])
      e

-- `fee_ft_aggregator_create` returns NULL exactly if the binning mode is 0 or one of the allocations
-- fails. Otherwise the frame has the size of the binning mode, exactly the readout nodes that are
-- selected have a pointer, and these point to consecutive frames that fill the allocated buffer:
-- none overlaps another or exceeds it.
pub fee_ft_aggregator_create-Created :
    (calloc_ok malloc_ok : Bool) (m : Mirror)
    → ((fee_ft_aggregator_create calloc_ok malloc_ok m ≡ none)
        × refused calloc_ok malloc_ok m ≡ true)
      ⊎ ((refused calloc_ok malloc_ok m ≡ false)
          × (ft : FtLayout) × fee_ft_aggregator_create calloc_ok malloc_ok m ≡ some ft
          × Created m ft)
unfolding lay_out
fee_ft_aggregator_create-Created calloc_ok malloc_ok m =
    go calloc_ok malloc_ok (frame_size_cases (smile_fee_get_ccd_mode2_config m) (mode-lt m))
  where
    go :
        (c k : Bool)
        → ((smile_fee_get_ccd_mode2_config m == 0) ≡ true
            × (frame_size (smile_fee_get_ccd_mode2_config m) ≡ none))
          ⊎ (((smile_fee_get_ccd_mode2_config m == 0) ≡ false)
              × (size : FrameSize) × frame_size (smile_fee_get_ccd_mode2_config m) ≡ some size)
        → ((fee_ft_aggregator_create c k m ≡ none) × refused c k m ≡ true)
          ⊎ ((refused c k m ≡ false)
              × (ft : FtLayout) × fee_ft_aggregator_create c k m ≡ some ft
              × Created m ft)
    go c k (inl (zero_mode, no_size)) = inl (create-eq c k m none no_size, rw zero_mode refl)
    go false k (inr (mode, size, e)) = inl (create-eq _ _ m (some size) e, rw mode refl)
    go true false (inr (mode, size, e)) = inl (create-eq _ _ m (some size) e, rw mode refl)
    go true true (inr (mode, size, e)) = inr (
      rw mode refl,
      lay_out size (smile_fee_get_readout_node_sel m),
      create-eq true true m (some size) e,
      record { sized = e; frame = refl; divided = lay_out-Divided size _ (readout-lt m) },
    )
