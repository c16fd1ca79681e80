-- ===== src/Ctrl/Readback.antt =====
-- The values of FEE/smile_fee_ctrl.c that are not read back the way they are set: their functions
-- stand outside of the table of fields.
use smile_fee.Base.{ℕ, ◌+◌, ◌*◌, ◌/◌, ◌%◌, ◌^◌, ◌<◌, ◌≡◌, refl, ap, sym, ◌∙◌, arith, pos, u16, u32}
use smile_fee.Base.{bit_and, bit_or, Bool, true, false, not, ◌&&◌, ◌==◌, if◌then◌else◌, subst}
use smile_fee.Bits.{bit_and-ones, ones-bit_and}
use smile_fee.Bits.Fields.{insert, clear-set, insert-lt}
use smile_fee.Link.Registers.Addresses.{cfg_reg_4, cfg_reg_6, cfg_reg_8, cfg_reg_21}
use smile_fee.Ctrl.Swap.{swab32-eq, be32_to_cpu, cpu_to_be32, be32_to_cpu-lt}
use smile_fee.Ctrl.Mirror.{Mirror, host, int16, as_flag, update, word-store_self, host-update_self}
use smile_fee.Ctrl.Field.{others}
use smile_fee.Ctrl.CfgReadout.{smile_fee_get_adc_pwrdn_en, smile_fee_set_adc_pwrdn_en}
use smile_fee.Ctrl.CfgImage.{smile_fee_get_pix_offset, smile_fee_set_pix_offset}
use smile_fee.Ctrl.CfgImage.{smile_fee_get_int_sync_period, smile_fee_set_int_sync_period}
use smile_fee.Ctrl.CfgDetector.{smile_fee_get_h_start, smile_fee_set_h_start}

-- A register whose field has been cleared and filled, as a number.
module _ (reg s w k u t : ℕ) (m : Mirror) (fits : 2 ^ 32 ≡ 2 ^ k * 2 ^ w * 2 ^ s)
    (small : u < 2 ^ w) (shifted : t ≡ u * 2 ^ s) where
  bound : host reg m < 2 ^ k * 2 ^ w * 2 ^ s
  bound = subst (λ (n : ℕ). host reg m < n) fits (be32_to_cpu-lt (m.word reg))

  filled : bit_or (bit_and (host reg m) (others s w k)) t ≡ insert s w u (host reg m)
  filled =
      ap (bit_or (bit_and (host reg m) (others s w k))) shifted
      ∙ clear-set s w k u (host reg m) small bound (others s w k) refl

  host-filled :
      host reg (update reg (λ r. bit_or (bit_and r (others s w k)) t) m) ≡ insert s w u (host reg m)
  host-filled =
      host-update_self reg (λ r. bit_or (bit_and r (others s w k)) t) m
        (subst (λ (x : ℕ). x < 2 ^ 32) (sym filled)
          (subst (λ (n : ℕ). insert s w u (host reg m) < n) (sym fits)
            (insert-lt s w k u (host reg m) small bound)))
      ∙ filled

-- The pixel offset is always read as zero.
get_pix_offset-zero : (m : Mirror) → m.word cfg_reg_6 < 2 ^ 32 → smile_fee_get_pix_offset m ≡ pos 0
get_pix_offset-zero m h = ap int16 low
  where
    low : u16 (bit_and (be32_to_cpu (m.word cfg_reg_6 / 2 ^ 16)) 0xFFFF) ≡ 0
    low = omega (
      arith,
      h,
      bit_and-ones 16 (be32_to_cpu (m.word cfg_reg_6 / 2 ^ 16)),
      swab32-eq (u32 (m.word cfg_reg_6 / 2 ^ 16)),
    )

-- Of the internal synchronisation period only the low 16 bits are read back.
int_sync_period-set :
    (v : ℕ) (m : Mirror)
    → smile_fee_get_int_sync_period (smile_fee_set_int_sync_period v m) ≡ v % 2 ^ 16
int_sync_period-set v m =
    omega (arith, stored, bit_and-ones 20 (host cfg_reg_8 (smile_fee_set_int_sync_period v m)))
  where
    stored :
        host cfg_reg_8 (smile_fee_set_int_sync_period v m)
        ≡ insert 0 20 (v % 2 ^ 20) (host cfg_reg_8 m)
    stored =
        host-filled cfg_reg_8 0 20 12 (v % 2 ^ 20) (bit_and 0xFFFFF v) m refl (omega arith)
          (omega (arith, ones-bit_and 20 v))

-- The start column comes back with its digits permuted, and with four digits of the field below it.
h_start-set :
    (v : ℕ) (m : Mirror)
    → smile_fee_get_h_start (smile_fee_set_h_start v m)
      ≡ v % 2 ^ 12 / 2 ^ 8 + v % 2 ^ 4 * 2 ^ 8 + host cfg_reg_21 m / 2 ^ 8 % 2 ^ 4 * 2 ^ 4
h_start-set v m = omega (
  arith,
  bit_and-ones 12 ((smile_fee_set_h_start v m).word cfg_reg_21 / 2 ^ 12),
  stored,
  swab32-eq (insert 12 12 (v % 2 ^ 12) (host cfg_reg_21 m)),
  be32_to_cpu-lt (m.word cfg_reg_21),
)
  where
    stored :
        (smile_fee_set_h_start v m).word cfg_reg_21
        ≡ cpu_to_be32 (insert 12 12 (v % 2 ^ 12) (host cfg_reg_21 m))
    stored =
        word-store_self cfg_reg_21 _ m
        ∙ ap cpu_to_be32 (
            filled cfg_reg_21 12 12 8 (v % 2 ^ 12) (bit_and 0xFFF v * 2 ^ 12) m refl (omega arith)
              (ap (λ (t : ℕ). t * 2 ^ 12) (ones-bit_and 12 v)))

-- The ADC power-down enable is read back as it was set while the three bits above it are clear;
-- else it is always read as zero.
adc_pwrdn_en-set :
    (mode : ℕ) (m : Mirror)
    → smile_fee_get_adc_pwrdn_en (smile_fee_set_adc_pwrdn_en mode m)
      ≡ (if (host cfg_reg_4 m / 2 ^ 29) == 0 then as_flag mode else 0)
adc_pwrdn_en-set mode m =
    ap (λ (x : ℕ). bit_and (if (x / 2 ^ 28) == 0 then 1 else 0) 0x1) stored
    ∙ ap (λ b. bit_and (if b then 1 else 0) 0x1) zero_iff
    ∙ cases ((host cfg_reg_4 m / 2 ^ 29) == 0) (mode == 0)
  where
    bit : ℕ
    bit = if mode == 0 then 1 else 0

    stored : host cfg_reg_4 (smile_fee_set_adc_pwrdn_en mode m) ≡ insert 28 1 bit (host cfg_reg_4 m)
    stored = host-filled cfg_reg_4 28 1 3 bit (bit * 2 ^ 28) m refl (ground arith) refl

    cases :
        (p q : Bool)
        → bit_and (if p && not q then 1 else 0) 0x1 ≡ (if p then (if q then 0 else 1) else 0)
    cases true true = refl
    cases true false = refl
    cases false q = refl

    zero_iff :
        ((insert 28 1 bit (host cfg_reg_4 m) / 2 ^ 28) == 0)
        ≡ ((host cfg_reg_4 m / 2 ^ 29) == 0 && not (mode == 0))
    zero_iff = ground arith

-- Four values are not read back the way they are set, whatever the mirror holds: the pixel offset
-- is always read as zero; of the internal synchronisation period the low 16 of its 20 bits are read;
-- the start column comes back with its digits permuted and with four digits of the field below it;
-- and the ADC power-down enable is read as it was set only while the three bits above it are clear,
-- else as zero.
pub get-set_irregular :
    (v : ℕ) (m : Mirror)
    → (smile_fee_get_pix_offset (smile_fee_set_pix_offset v m) ≡ pos 0)
      × ((smile_fee_get_int_sync_period (smile_fee_set_int_sync_period v m) ≡ v % 2 ^ 16)
          × ((smile_fee_get_h_start (smile_fee_set_h_start v m)
                ≡ v % 2 ^ 12 / 2 ^ 8
                  + v % 2 ^ 4 * 2 ^ 8
                  + host cfg_reg_21 m / 2 ^ 8 % 2 ^ 4 * 2 ^ 4)
              × (smile_fee_get_adc_pwrdn_en (smile_fee_set_adc_pwrdn_en v m)
                  ≡ (if (host cfg_reg_4 m / 2 ^ 29) == 0 then as_flag v else 0))))
get-set_irregular v m = (
  get_pix_offset-zero (smile_fee_set_pix_offset v m)
      (subst (λ (x : ℕ). x < 2 ^ 32) (sym (word-store_self cfg_reg_6 _ m)) (omega arith)),
  (int_sync_period-set v m, (h_start-set v m, adc_pwrdn_en-set v m)),
)
