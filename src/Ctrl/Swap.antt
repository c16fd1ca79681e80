-- ===== src/Ctrl/Swap.antt =====
-- The byte swaps of FEE/byteorder.h on a little-endian host, and what they do to the bytes.
use smile_fee.Base.{ℕ, ◌+◌, ◌*◌, ◌/◌, ◌%◌, ◌^◌, ◌<◌, ◌≡◌, refl, ap, ap₂, ◌∙◌, arith}
use smile_fee.Base.{u16, u32, IsByte, ◌<<<◌, ◌>>>◌, bit_and, bit_or}
use smile_fee.Bits.{bit_or-fields}
use smile_fee.Bits.Fields.{bit_and-mask}

unfoldable pub swab16 : ℕ → ℕ
swab16 x = u16 (bit_or (bit_and (u16 x) 0x00ff <<< 8) (bit_and (u16 x) 0xff00 >>> 8))

unfoldable pub swab32 : ℕ → ℕ
swab32 x = u32 (
    bit_or
      (bit_or (bit_or (bit_and (u32 x) 0x000000ff <<< 24) (bit_and (u32 x) 0x0000ff00 <<< 8))
        (bit_and (u32 x) 0x00ff0000 >>> 8))
      (bit_and (u32 x) 0xff000000 >>> 24))

abbrev pub be32_to_cpu : ℕ → ℕ
be32_to_cpu x = swab32 (u32 x)

abbrev pub cpu_to_be32 : ℕ → ℕ
cpu_to_be32 x = u32 (swab32 x)

abbrev pub be16_to_cpu : ℕ → ℕ
be16_to_cpu x = swab16 (u16 x)

abbrev pub cpu_to_be16 : ℕ → ℕ
cpu_to_be16 x = u16 (swab16 x)

pub swab16-eq : (x : ℕ) → swab16 x ≡ x % 256 * 256 + x / 256 % 256
unfolding swab16
swab16-eq x =
    ap u16 (ap₂ bit_or low high ∙ bit_or-fields 8 (x % 256) (x / 256 % 256) (omega arith))
    ∙ omega arith
  where
    low : bit_and (u16 x) 0x00ff <<< 8 ≡ x % 256 * 2 ^ 8
    low = omega (arith, bit_and-mask 0 8 0x00ff (u16 x) refl)

    high : bit_and (u16 x) 0xff00 >>> 8 ≡ x / 256 % 256
    high = omega (arith, bit_and-mask 8 8 0xff00 (u16 x) refl)

-- Bytes that are shifted apart are added.
bit_or-bytes :
    (a b c d : ℕ)
    → a < 256
    → b < 256
    → c < 256
    → d < 256
    → bit_or (bit_or (bit_or (a * 2 ^ 24) (b * 2 ^ 16)) (c * 2 ^ 8)) d
      ≡ a * 2 ^ 24 + b * 2 ^ 16 + c * 2 ^ 8 + d
bit_or-bytes a b c d ha hb hc hd =
    ap (λ (t : ℕ). bit_or (bit_or t (c * 2 ^ 8)) d)
      (bit_or-fields 24 a (b * 2 ^ 16) (omega arith) ∙ omega arith)
    ∙ ap (λ (t : ℕ). bit_or t d)
        (bit_or-fields 16 (a * 2 ^ 8 + b) (c * 2 ^ 8) (omega arith) ∙ regroup)
    ∙ bit_or-fields 8 (a * 2 ^ 16 + b * 2 ^ 8 + c) d (omega arith)
    ∙ omega arith
  where
    regroup : (a * 2 ^ 8 + b) * 2 ^ 16 + c * 2 ^ 8 ≡ (a * 2 ^ 16 + b * 2 ^ 8 + c) * 2 ^ 8
    regroup = omega arith

pub swab32-eq :
    (x : ℕ)
    → swab32 x
      ≡ x % 256 * 2 ^ 24 + x / 2 ^ 8 % 256 * 2 ^ 16 + x / 2 ^ 16 % 256 * 2 ^ 8 + x / 2 ^ 24 % 256
unfolding swab32
swab32-eq x =
    ap u32 (
      ap₂ bit_or (ap₂ bit_or (ap₂ bit_or lowest low) high) highest
      ∙ bit_or-bytes (x % 256) (x / 2 ^ 8 % 256) (x / 2 ^ 16 % 256) (x / 2 ^ 24 % 256) (omega arith)
          (omega arith) (omega arith) (omega arith))
    ∙ omega arith
  where
    lowest : bit_and (u32 x) 0x000000ff <<< 24 ≡ x % 256 * 2 ^ 24
    lowest = omega (arith, bit_and-mask 0 8 0x000000ff (u32 x) refl)

    low : bit_and (u32 x) 0x0000ff00 <<< 8 ≡ x / 2 ^ 8 % 256 * 2 ^ 16
    low = omega (arith, bit_and-mask 8 8 0x0000ff00 (u32 x) refl)

    high : bit_and (u32 x) 0x00ff0000 >>> 8 ≡ x / 2 ^ 16 % 256 * 2 ^ 8
    high = omega (arith, bit_and-mask 16 8 0x00ff0000 (u32 x) refl)

    highest : bit_and (u32 x) 0xff000000 >>> 24 ≡ x / 2 ^ 24 % 256
    highest = omega (arith, bit_and-mask 24 8 0xff000000 (u32 x) refl)

pub swab16-lt : (x : ℕ) → swab16 x < 2 ^ 16
swab16-lt x = omega (arith, swab16-eq x)

pub swab32-lt : (x : ℕ) → swab32 x < 2 ^ 32
swab32-lt x = omega (arith, swab32-eq x)

pub be32_to_cpu-lt : (x : ℕ) → be32_to_cpu x < 2 ^ 32
be32_to_cpu-lt x = swab32-lt (u32 x)

-- Either conversion undoes the other one.
pub be32_to_cpu-cpu_to_be32 : (x : ℕ) → x < 2 ^ 32 → be32_to_cpu (cpu_to_be32 x) ≡ x
be32_to_cpu-cpu_to_be32 x h = omega (arith, swab32-eq x, swab32-eq (u32 (u32 (swab32 x))))

pub be16_to_cpu-cpu_to_be16 : (x : ℕ) → x < 2 ^ 16 → be16_to_cpu (cpu_to_be16 x) ≡ x
be16_to_cpu-cpu_to_be16 x h = omega (arith, swab16-eq x, swab16-eq (u16 (u16 (swab16 x))))

-- The bytes of a word as they lie in the memory of a little-endian host.
abbrev pub load32 : (ℕ → ℕ) → ℕ → ℕ
load32 mem a = mem a + mem (a + 1) * 2 ^ 8 + mem (a + 2) * 2 ^ 16 + mem (a + 3) * 2 ^ 24

pub be32_to_cpu-load32 :
    (memory : ℕ → ℕ) (a b0 b1 b2 b3 : ℕ)
    → (memory a ≡ b0) × (memory (a + 1) ≡ b1) × (memory (a + 2) ≡ b2) × (memory (a + 3) ≡ b3)
    → IsByte b0
    → IsByte b1
    → IsByte b2
    → IsByte b3
    → be32_to_cpu (load32 memory a) ≡ b0 * 2 ^ 24 + b1 * 2 ^ 16 + b2 * 2 ^ 8 + b3
be32_to_cpu-load32 memory a b0 b1 b2 b3 e h0 h1 h2 h3 =
    omega (arith, e.0, e.1, e.2, e.3, swab32-eq (u32 (load32 memory a)))
