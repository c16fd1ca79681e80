-- ===== src/Rmap/RoundTrip/Fields.antt =====
-- How single fields of a header, written by `rmap_build_hdr`, are read back.
use smile_fee.Base.{ℕ, suc, ◌+◌, ◌*◌, ◌^◌, ◌<◌, List, ◌∷◌, ◌++◌, none, some}
use smile_fee.Base.{bit_or, u8, ◌<<<◌, ◌>>>◌, length}
use smile_fee.Base.{◌≡◌, ap, ◌∙◌, arith}
use smile_fee.Base.{get_elem?-append_right}
use smile_fee.Bits.{bit_or-fields}
use smile_fee.Rmap.Packet.{RmapInstruction, to_byte, of_byte}
use smile_fee.Rmap.Parse.{fault, done, byte}

-- Values put together again from the bytes that the header holds.
pub join16 : (x : ℕ) → x < 2 ^ 16 → bit_or (u8 (x >>> 8) <<< 8) (u8 x) ≡ x
join16 x h = bit_or-fields 8 (u8 (x >>> 8)) (u8 x) (omega arith) ∙ omega arith

pub join24 :
    (x : ℕ) → x < 2 ^ 24 → bit_or (bit_or (u8 (x >>> 16) <<< 16) (u8 (x >>> 8) <<< 8)) (u8 x) ≡ x
join24 x h = rw (bit_or-fields 16 (u8 (x >>> 16)) (u8 (x >>> 8) <<< 8) (omega arith)) (
    ap (λ t. bit_or t (u8 x)) high
    ∙ bit_or-fields 8 (u8 (x >>> 16) * 256 + u8 (x >>> 8)) (u8 x) (omega arith)
    ∙ omega arith)
  where
    high :
        u8 (x >>> 16) * 2 ^ 16 + (u8 (x >>> 8) <<< 8) ≡ (u8 (x >>> 16) * 256 + u8 (x >>> 8)) * 2 ^ 8
    high = omega arith

pub join32 :
    (x : ℕ)
    → x < 2 ^ 32
    → bit_or
        (bit_or (bit_or (u8 (x >>> 24) <<< 24) (u8 (x >>> 16) <<< 16)) (u8 (x >>> 8) <<< 8))
        (u8 x)
      ≡ x
join32 x h = rw (bit_or-fields 24 (u8 (x >>> 24)) (u8 (x >>> 16) <<< 16) (omega arith)) (
    ap (λ t. bit_or (bit_or t (u8 (x >>> 8) <<< 8)) (u8 x)) high
    ∙ ap (λ t. bit_or t (u8 x))
        (bit_or-fields 16 (u8 (x >>> 24) * 256 + u8 (x >>> 16)) (u8 (x >>> 8) <<< 8) (omega arith)
          ∙ middle)
    ∙ bit_or-fields 8 ((u8 (x >>> 24) * 256 + u8 (x >>> 16)) * 256 + u8 (x >>> 8)) (u8 x)
        (omega arith)
    ∙ omega arith)
  where
    high :
        u8 (x >>> 24) * 2 ^ 24 + (u8 (x >>> 16) <<< 16)
        ≡ (u8 (x >>> 24) * 256 + u8 (x >>> 16)) * 2 ^ 16
    high = omega arith

    middle :
        (u8 (x >>> 24) * 256 + u8 (x >>> 16)) * 2 ^ 16 + (u8 (x >>> 8) <<< 8)
        ≡ ((u8 (x >>> 24) * 256 + u8 (x >>> 16)) * 256 + u8 (x >>> 8)) * 2 ^ 8
    middle = omega arith

-- The bit field comes back from the byte.
pub record IsInstruction (ri : RmapInstruction) : Type 0 where
  pub reply_addr_len_bits : ri.reply_addr_len < 4
  pub cmd_bits : ri.cmd < 16
  pub cmd_resp_bits : ri.cmd_resp < 2
  pub reserved_bits : ri.reserved < 2

pub of_byte-to_byte : (ri : RmapInstruction) → IsInstruction ri → of_byte (to_byte ri) ≡ ri
unfolding of_byte to_byte
of_byte-to_byte ri v = ground arith

-- A byte behind the reply path of a packet without a destination path.
pub behind :
    (a b c d : ℕ) (rpath tail : List ℕ) (k n i : ℕ)
    → n ≡ length rpath
    → k ≡ 4 + i
    → byte (a ∷ b ∷ c ∷ d ∷ (rpath ++ tail)) (k + n) ≡ byte tail i
behind a b c d rpath tail k n i hn hk =
    ap (byte (a ∷ b ∷ c ∷ d ∷ (rpath ++ tail))) place
    ∙ ap (λ o. elim o [ none ↦ fault | some x ↦ done x ]) (get_elem?-append_right rpath tail i)
  where
    place : k + n ≡ suc (suc (suc (suc (length rpath + i))))
    place = omega arith
