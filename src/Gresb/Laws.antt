-- ===== src/Gresb/Laws.antt =====
-- Packets made by `gresb_create_host_data_pkt` of GRESB/gresb.c, and the ports.
use smile_fee.Base.{◌⊎◌, ◌≤◌, ◌<◌, ◌*◌, ◌+◌}
use smile_fee.Base.{ℕ, ◌+◌, ◌*◌, ◌^◌, ◌<◌, List, some, ltb}
use smile_fee.Base.{
  bit_and, bit_or, u8, ◌<<<◌, ◌>>>◌, ℤ, pos, negsuc, length, ◌≡◌, ◌≢◌, refl, ap, ap₂, ◌∙◌, arith,
}
use native.Mathlib.Nat.{one-le-pow}
use smile_fee.Bits.{bit_and-ones, bit_and-split}
use smile_fee.Rmap.RoundTrip.Fields.{join24}
use smile_fee.Link.Command.Laws.{read_bytes_all}
use smile_fee.Base.{Bool-cases, inl, inr}
use smile_fee.Gresb.{gresb_vlink_max, gresb_vlink_tx, gresb_vlink_rx}
use smile_fee.Gresb.{GresbPkt, gresb_create_host_data_pkt, gresb_get_host_data_pkt_size}
use smile_fee.Gresb.{gresb_get_spw_data_size, gresb_get_spw_data, gresb_pkt_get_data_size}
use smile_fee.Gresb.{gresb_host_pkt_get_data_size, gresb_host_pkt_set_data_size}
use smile_fee.Gresb.{gresb_host_pkt_set_protocol, gresb_get_virtual_link_tx_port}
use smile_fee.Gresb.{gresb_get_virtual_link_rx_port, gresb_from_host_data}

masked : (k b : ℕ) → b < 256 → bit_and (b <<< k) (0xff * 2 ^ k) ≡ b <<< k
masked k b h =
    ap₂ bit_and (omega arith) (omega arith)
    ∙ bit_and-split k b 0 0xff 0 (one-le-pow k 2 (omega arith)) (one-le-pow k 2 (omega arith))
    ∙ omega (arith, ap (λ (t : ℕ). t * 2 ^ k) same)
  where
    same : bit_and b 0xff ≡ b
    same = omega (arith, bit_and-ones 8 b)

-- The three bytes of a size, masked as they are written and as they are read.
size_bytes :
    (pkt : GresbPkt) (len : ℕ)
    → len < 2 ^ 24
    → pkt.size0 ≡ bit_and (len >>> 16) 0xff
    → pkt.size1 ≡ bit_and (len >>> 8) 0xff
    → pkt.size2 ≡ bit_and len 0xff
    → gresb_pkt_get_data_size pkt ≡ len
unfolding gresb_pkt_get_data_size
size_bytes pkt len h e0 e1 e2 =
    ap₂ bit_or (ap₂ bit_or (at0 ∙ ap (λ t. t <<< 16) s0) (at1 ∙ ap (λ t. t <<< 8) s1))
      (bit_and-ones 8 pkt.size2 ∙ omega (arith, s2))
    ∙ join24 len h
  where
    s0 : pkt.size0 ≡ u8 (len >>> 16)
    s0 = e0 ∙ bit_and-ones 8 (len >>> 16)

    s1 : pkt.size1 ≡ u8 (len >>> 8)
    s1 = e1 ∙ bit_and-ones 8 (len >>> 8)

    s2 : pkt.size2 ≡ u8 len
    s2 = e2 ∙ bit_and-ones 8 len

    at0 : bit_and (pkt.size0 <<< 16) 0xff0000 ≡ pkt.size0 <<< 16
    at0 = masked 16 pkt.size0 (omega (arith, s0))

    at1 : bit_and (pkt.size1 <<< 8) 0x00ff00 ≡ pkt.size1 <<< 8
    at1 = masked 8 pkt.size1 (omega (arith, s1))

-- A packet that `gresb_create_host_data_pkt` makes from `len` < 2^24 bytes in any memory `raw` has
-- the size field `len`, read in both directions of the protocol; its total size is four bytes more,
-- and its data is the given one.
pub gresb_create_host_data_pkt-sizes :
    (raw : GresbPkt) (bytes : List ℕ)
    → length bytes < 2 ^ 24
    → (pkt : GresbPkt) × gresb_create_host_data_pkt (some raw) (some bytes) (length bytes)
        ≡ some pkt
      × gresb_get_host_data_pkt_size (some pkt) ≡ 4 + length bytes
      × gresb_get_spw_data_size (some pkt) ≡ length bytes
      × gresb_get_spw_data (some pkt) ≡ some bytes
unfolding gresb_create_host_data_pkt gresb_get_host_data_pkt_size gresb_get_spw_data_size
    gresb_get_spw_data gresb_host_pkt_get_data_size gresb_host_pkt_set_data_size
    gresb_host_pkt_set_protocol
gresb_create_host_data_pkt-sizes raw bytes h = (
  made,
  rw (gresb_create_host_data_pkt, read_bytes_all bytes (length bytes) refl) refl,
  ap (λ n. 4 + n) size,
  size,
  refl,
)
  where
    made : GresbPkt
    made = record {
      protocol = gresb_from_host_data;
      size0 = bit_and (length bytes >>> 16) 0xff;
      size1 = bit_and (length bytes >>> 8) 0xff;
      size2 = bit_and (length bytes) 0xff;
      content = bytes;
    }

    size : gresb_pkt_get_data_size made ≡ length bytes
    size = size_bytes made (length bytes) h refl refl refl

-- For the links 0 to 5 `gresb_get_virtual_link_rx_port` returns the even port 3000 + 2 link, which
-- `gresb_get_virtual_link_tx_port` returns too, and not the odd one that GRESB/gresb.h calls the
-- receive port; for any other link both return -1.
pub gresb_get_virtual_link_rx_port-eq_tx :
    (link : ℕ)
    → ((link ≤ 5)
        × (gresb_get_virtual_link_rx_port link ≡ pos (3000 + 2 * link))
        × (gresb_get_virtual_link_tx_port link ≡ pos (3000 + 2 * link))
        × gresb_get_virtual_link_rx_port link ≢ pos (gresb_vlink_rx link))
      ⊎ ((5 < link)
          × (gresb_get_virtual_link_rx_port link ≡ negsuc 0)
          × gresb_get_virtual_link_tx_port link ≡ negsuc 0)
unfolding gresb_get_virtual_link_rx_port gresb_get_virtual_link_tx_port
gresb_get_virtual_link_rx_port-eq_tx link = elim (Bool-cases (ltb gresb_vlink_max link)) [
  | inl beyond ↦ inr (ground arith, rw beyond refl, rw beyond refl)
  | inr within ↦
      inl (ground arith, rw within refl, rw within refl, rw within (λ e. odd (ap magnitude e)))
]
  where
    magnitude : ℤ → ℕ
    magnitude (pos n) = n
    magnitude (negsuc n) = n

    odd : gresb_vlink_tx link ≢ gresb_vlink_rx link
    odd e = omega arith
