-- ===== src/Bits/Fields.antt =====
-- A field of `w` digits from digit `s` on: how it is read and written as a number, the laws of the
-- two, and the mask and shift that stand for them in C.
use native.Mathlib.Nat.{one-le-pow, pow-suc, div-div-eq-div-mul, mul-add-div_right, div-eq_of_lt}
use native.Mathlib.Nat.{
  mul_assoc, mul_comm, mul-le-mul_right, div-lt_iff_lt-mul, mul-add-mod_self_right,
}
use smile_fee.Base.{ℕ, zero, suc, ◌+◌, ◌-◌, ◌*◌, ◌/◌, ◌%◌, ◌^◌, ◌≤◌, ◌<◌, ◌≡◌, sym, ap}
use smile_fee.Base.{arith, bit_and, bit_or, ap₂, ◌∙◌, subst}
use smile_fee.Bits.{
  bit_and-split, bit_or-split, bit_and_ones_of_lt, bit_and-ones, bit_and-zero, bit_or-zero,
}
use smile_fee.Bits.{bit_or-fields}

abbrev pub extract : ℕ → ℕ → ℕ → ℕ
extract s w x = x / 2 ^ s % 2 ^ w

abbrev pub insert : ℕ → ℕ → ℕ → ℕ → ℕ
insert s w v x = (x / 2 ^ s / 2 ^ w * 2 ^ w + v) * 2 ^ s + x % 2 ^ s

two_pow_pos : (k : ℕ) → 0 < 2 ^ k
two_pow_pos k = one-le-pow k 2 (omega arith)

pow_add : (a b : ℕ) → 2 ^ (a + b) ≡ 2 ^ a * 2 ^ b
pow_add a zero = let nil : a + 0 ≡ a = omega arith in rw nil (omega arith)
pow_add a (suc b) =
    let shift : a + suc b ≡ suc (a + b) = omega arith in
    ap (λ (t : ℕ). 2 ^ t) shift
    ∙ pow-suc 2 (a + b)
    ∙ ap (λ (t : ℕ). t * 2) (pow_add a b)
    ∙ mul_assoc (2 ^ a) (2 ^ b) 2
    ∙ ap (λ (t : ℕ). 2 ^ a * t) (sym (pow-suc 2 b))

pow_add_two : (a b c : ℕ) → 2 ^ (a + b + c) ≡ 2 ^ a * 2 ^ b * 2 ^ c
pow_add_two a b c = pow_add (a + b) c ∙ ap (λ (t : ℕ). t * 2 ^ c) (pow_add a b)

pub mod_lt_pow : (k x : ℕ) → x % 2 ^ k < 2 ^ k
mod_lt_pow k x = let pos = two_pow_pos k in omega arith

block-div : (a q r : ℕ) → 0 < a → r < a → (q * a + r) / a ≡ q
block-div a q r p h = omega (arith, mul-add-div_right p q r, div-eq_of_lt h)

block-mod : (a q r : ℕ) → 0 < a → r < a → (q * a + r) % a ≡ r
block-mod a q r p h = omega (arith, ap (λ (t : ℕ). t * a) (block-div a q r p h))

insert-high : (s w v x : ℕ) → insert s w v x / 2 ^ s ≡ x / 2 ^ s / 2 ^ w * 2 ^ w + v
insert-high s w v x =
    block-div (2 ^ s) (x / 2 ^ s / 2 ^ w * 2 ^ w + v) (x % 2 ^ s) (two_pow_pos s) (mod_lt_pow s x)

pub extract-insert_self : (s w v x : ℕ) → v < 2 ^ w → extract s w (insert s w v x) ≡ v
extract-insert_self s w v x h =
    ap (λ (t : ℕ). t % 2 ^ w) (insert-high s w v x)
    ∙ block-mod (2 ^ w) (x / 2 ^ s / 2 ^ w) v (two_pow_pos w) h

-- Digits above a field do not reach it.
extract-low : (s w d q r : ℕ) → extract s w (q * 2 ^ (s + w + d) + r) ≡ extract s w r
extract-low s w d q r =
    ap (λ (t : ℕ). (t + r) / 2 ^ s % 2 ^ w) shape
    ∙ ap (λ (t : ℕ). t % 2 ^ w) (mul-add-div_right (two_pow_pos s) (q * 2 ^ d * 2 ^ w) r)
    ∙ mul-add-mod_self_right (q * 2 ^ d) (2 ^ w) (r / 2 ^ s)
  where
    shape : q * 2 ^ (s + w + d) ≡ q * 2 ^ d * 2 ^ w * 2 ^ s
    shape = ap (λ (t : ℕ). q * t) (pow_add_two s w d) ∙ grind (arith, mul_assoc, mul_comm)

pub extract-insert_below :
    (s w s' w' v x : ℕ) → s' + w' ≤ s → extract s' w' (insert s w v x) ≡ extract s' w' x
extract-insert_below s w s' w' v x h =
    subst (λ (t : ℕ). extract s' w' (insert t w v x) ≡ extract s' w' x) total
      (extract-low s' w' d (x / 2 ^ (s' + w' + d) / 2 ^ w * 2 ^ w + v) (x % 2 ^ (s' + w' + d))
        ∙ sym (extract-low s' w' d (x / 2 ^ (s' + w' + d)) (x % 2 ^ (s' + w' + d)))
        ∙ ap (extract s' w') (omega arith))
  where
    d : ℕ
    d = s - (s' + w')

    total : s' + w' + d ≡ s
    total = omega arith

pub extract-insert_above :
    (s w s' w' v x : ℕ) → v < 2 ^ w → s + w ≤ s' → extract s' w' (insert s w v x) ≡ extract s' w' x
extract-insert_above s w s' w' v x hv h =
    subst (λ (t : ℕ). extract t w' (insert s w v x) ≡ extract t w' x) total
      (ap (λ (t : ℕ). t % 2 ^ w')
        (split_div (insert s w v x) ∙ ap (λ (t : ℕ). t / 2 ^ d) same ∙ sym (split_div x)))
  where
    d : ℕ
    d = s' - (s + w)

    total : s + w + d ≡ s'
    total = omega arith

    split_div : (y : ℕ) → y / 2 ^ (s + w + d) ≡ y / 2 ^ s / 2 ^ w / 2 ^ d
    split_div y =
        ap (λ (t : ℕ). y / t) (pow_add_two s w d)
        ∙ sym (div-div-eq-div-mul y (2 ^ s * 2 ^ w) (2 ^ d))
        ∙ ap (λ (t : ℕ). t / 2 ^ d) (sym (div-div-eq-div-mul y (2 ^ s) (2 ^ w)))

    same : insert s w v x / 2 ^ s / 2 ^ w ≡ x / 2 ^ s / 2 ^ w
    same =
        ap (λ (t : ℕ). t / 2 ^ w) (insert-high s w v x)
        ∙ block-div (2 ^ w) (x / 2 ^ s / 2 ^ w) v (two_pow_pos w) hv

block-lt : (a c q r : ℕ) → q < c → r < a → q * a + r < c * a
block-lt a c q r hq hr =
    let next : (q + 1) * a ≤ c * a = mul-le-mul_right a (omega arith) in
    let parts : (q + 1) * a ≡ q * a + a = omega arith in omega arith

pub insert-lt :
    (s w k v x : ℕ) → v < 2 ^ w → x < 2 ^ k * 2 ^ w * 2 ^ s → insert s w v x < 2 ^ k * 2 ^ w * 2 ^ s
insert-lt s w k v x hv hx =
    let high = (div-lt_iff_lt-mul (two_pow_pos s)).1 hx in
    block-lt (2 ^ s) (2 ^ k * 2 ^ w) (x / 2 ^ s / 2 ^ w * 2 ^ w + v) (x % 2 ^ s)
      (block-lt (2 ^ w) (2 ^ k) (x / 2 ^ s / 2 ^ w) v ((div-lt_iff_lt-mul (two_pow_pos w)).1 high)
        hv)
      (mod_lt_pow s x)

-- In C a field is cleared with a mask that has zeros there, and its value is shifted in.
module _ (s w k u x : ℕ) (u_fits : u < 2 ^ w) (x_fits : x < 2 ^ k * 2 ^ w * 2 ^ s) where
  cleared :
      bit_and x ((2 ^ k - 1) * 2 ^ w * 2 ^ s + (2 ^ s - 1))
      ≡ x / 2 ^ s / 2 ^ w * 2 ^ w * 2 ^ s + x % 2 ^ s
  cleared =
      ap (λ (t : ℕ). bit_and t ((2 ^ k - 1) * 2 ^ w * 2 ^ s + (2 ^ s - 1))) whole
      ∙ bit_and-split s (x / 2 ^ s) (x % 2 ^ s) ((2 ^ k - 1) * 2 ^ w) (2 ^ s - 1) (mod_lt_pow s x)
          (let pos = two_pow_pos s in omega arith)
      ∙ ap₂ (λ (q r : ℕ). q * 2 ^ s + r) upper (bit_and_ones_of_lt s (x % 2 ^ s) (mod_lt_pow s x))
    where
      whole : x ≡ x / 2 ^ s * 2 ^ s + x % 2 ^ s
      whole = omega arith

      h_fits : x / 2 ^ s / 2 ^ w < 2 ^ k
      h_fits = (div-lt_iff_lt-mul (two_pow_pos w)).1 ((div-lt_iff_lt-mul (two_pow_pos s)).1 x_fits)

      mid : ℕ
      mid = x / 2 ^ s % 2 ^ w

      upper : bit_and (x / 2 ^ s) ((2 ^ k - 1) * 2 ^ w) ≡ x / 2 ^ s / 2 ^ w * 2 ^ w
      upper =
          ap₂ bit_and (omega arith) (omega arith)
          ∙ bit_and-split w (x / 2 ^ s / 2 ^ w) mid (2 ^ k - 1) 0 (mod_lt_pow w (x / 2 ^ s))
              (two_pow_pos w)
          ∙ ap₂ (λ (q r : ℕ). q * 2 ^ w + r) (bit_and_ones_of_lt k (x / 2 ^ s / 2 ^ w) h_fits)
              (bit_and-zero mid)
          ∙ omega arith

  pub clear-set :
      (c : ℕ)
      → c ≡ (2 ^ k - 1) * 2 ^ w * 2 ^ s + (2 ^ s - 1)
      → bit_or (bit_and x c) (u * 2 ^ s) ≡ insert s w u x
  clear-set c e =
      ap (λ (t : ℕ). bit_or (bit_and x t) (u * 2 ^ s)) e
      ∙ ap (λ (t : ℕ). bit_or t (u * 2 ^ s)) cleared
      ∙ ap (λ (t : ℕ). bit_or (x / 2 ^ s / 2 ^ w * 2 ^ w * 2 ^ s + x % 2 ^ s) t) padded
      ∙ bit_or-split s (x / 2 ^ s / 2 ^ w * 2 ^ w) (x % 2 ^ s) u 0 (mod_lt_pow s x) (two_pow_pos s)
      ∙ ap₂ (λ (q r : ℕ). q * 2 ^ s + r) (bit_or-fields w (x / 2 ^ s / 2 ^ w) u u_fits)
          (bit_or-zero (x % 2 ^ s))
    where
      padded : u * 2 ^ s ≡ u * 2 ^ s + 0
      padded = omega arith

-- The mask of a field keeps the digits of the field in their place.
pub bit_and-mask : (s w m x : ℕ) → m ≡ (2 ^ w - 1) * 2 ^ s → bit_and x m ≡ extract s w x * 2 ^ s
bit_and-mask s w m x e =
    ap₂ bit_and whole (e ∙ omega arith)
    ∙ bit_and-split s (x / 2 ^ s) (x % 2 ^ s) (2 ^ w - 1) 0 (mod_lt_pow s x) (two_pow_pos s)
    ∙ ap₂ (λ (q r : ℕ). q * 2 ^ s + r) (bit_and-ones w (x / 2 ^ s)) (bit_and-zero (x % 2 ^ s))
    ∙ omega arith
  where
    whole : x ≡ x / 2 ^ s * 2 ^ s + x % 2 ^ s
    whole = omega arith
