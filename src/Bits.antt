-- ===== src/Bits.antt =====
-- Laws of `&`, `|` and `^` at every width: an operation splits at a digit boundary, stays within
-- its width, and masks and field updates are remainders and sums.
mod Step
pub mod Fields
use Step.{IsDigitwise, bit_and-IsDigitwise, bit_or-IsDigitwise, bit_xor-IsDigitwise}
use Step.{differ-cancel, differ_comm}
use mathlib.Core.WellFounded
use Prim.Native.Nat.{differ}
use native.Mathlib.Nat.{pow-suc, one-le-pow}
use smile_fee.Base.{ℕ, zero, suc, ◌+◌, ◌-◌, ◌*◌, ◌/◌, ◌%◌, ◌^◌, ◌≤◌, ◌<◌, min, max}
use smile_fee.Base.{bit_and, bit_or, bit_xor, ◌≡◌, refl, sym, ap, ap₂, ◌∙◌, arith, lt_wf}

double-pow : (q k : ℕ) → q * 2 ^ suc k ≡ q * 2 ^ k * 2
double-pow q k = omega (arith, ap (λ (t : ℕ). q * t) (pow-suc 2 k))

module _ {op f : ℕ → ℕ → ℕ} (d : IsDigitwise op f) where
  -- High and low digits do not interact.
  split :
      (k q r s t : ℕ)
      → r < 2 ^ k
      → t < 2 ^ k
      → op (q * 2 ^ k + r) (s * 2 ^ k + t) ≡ op q s * 2 ^ k + op r t
  split zero q r s t hr ht = ground (arith, d.at_zero)
  split (suc k) q r s t hr ht = ground (
    arith,
    double-pow q k,
    double-pow s k,
    double-pow (op q s) k,
    pow-suc 2 k,
    d.step (q * 2 ^ suc k + r) (s * 2 ^ suc k + t),
    d.step r t,
    split k q (r / 2) s (t / 2),
  )

  within : (k a b : ℕ) → a < 2 ^ k → b < 2 ^ k → op a b < 2 ^ k
  within zero a b ha hb = ground (arith, d.at_zero)
  within (suc k) a b ha hb = omega (
    arith,
    pow-suc 2 k,
    d.step a b,
    d.is_digit (a % 2) (b % 2) (omega arith) (omega arith),
    within k (a / 2) (b / 2) (omega (arith, pow-suc 2 k)) (omega (arith, pow-suc 2 k)),
  )

pub bit_and-split :
    (k q r s t : ℕ)
    → r < 2 ^ k
    → t < 2 ^ k
    → bit_and (q * 2 ^ k + r) (s * 2 ^ k + t) ≡ bit_and q s * 2 ^ k + bit_and r t
bit_and-split = split bit_and-IsDigitwise

pub bit_or-split :
    (k q r s t : ℕ)
    → r < 2 ^ k
    → t < 2 ^ k
    → bit_or (q * 2 ^ k + r) (s * 2 ^ k + t) ≡ bit_or q s * 2 ^ k + bit_or r t
bit_or-split = split bit_or-IsDigitwise

pub bit_or-lt : (k a b : ℕ) → a < 2 ^ k → b < 2 ^ k → bit_or a b < 2 ^ k
bit_or-lt = within bit_or-IsDigitwise

pub bit_xor-lt : (k a b : ℕ) → a < 2 ^ k → b < 2 ^ k → bit_xor a b < 2 ^ k
bit_xor-lt = within bit_xor-IsDigitwise

and_zero_upto : (bound x : ℕ) → x ≤ bound → bit_and x 0 ≡ 0
and_zero_upto zero x h = let nil : x ≡ 0 = omega arith in rw nil
and_zero_upto (suc bound) x h =
    omega (arith, bit_and-IsDigitwise.step x 0, and_zero_upto bound (x / 2) (omega arith))

pub bit_and-zero : (a : ℕ) → bit_and a 0 ≡ 0
bit_and-zero a = and_zero_upto a a (omega arith)

or_zero_upto : (bound x : ℕ) → x ≤ bound → (bit_or x 0 ≡ x) × (bit_or 0 x ≡ x)
or_zero_upto zero x h = let nil : x ≡ 0 = omega arith in rw nil (refl, refl)
or_zero_upto (suc bound) x h =
    let halves = or_zero_upto bound (x / 2) (omega arith) in
    (
      omega (arith, bit_or-IsDigitwise.step x 0, halves.0),
      omega (arith, bit_or-IsDigitwise.step 0 x, halves.1),
    )

pub bit_or-zero : (a : ℕ) → bit_or a 0 ≡ a
bit_or-zero a = (or_zero_upto a a (omega arith)).0

pub zero-bit_or : (a : ℕ) → bit_or 0 a ≡ a
zero-bit_or a = (or_zero_upto a a (omega arith)).1

-- Exclusive or by the same value twice gives the first value back.
pub bit_xor-cancel : (k a b : ℕ) → a < 2 ^ k → b < 2 ^ k → bit_xor (bit_xor a b) b ≡ a
bit_xor-cancel zero a b ha hb =
    let a0 : a ≡ 0 = omega arith in let b0 : b ≡ 0 = omega arith in rw (a0, b0)
bit_xor-cancel (suc k) a b ha hb = omega (
  arith,
  pow-suc 2 k,
  bit_xor-IsDigitwise.step (bit_xor a b) b,
  ap (λ (t : ℕ). bit_xor t (b / 2)) half,
  bit_xor-cancel k (a / 2) (b / 2) (omega (arith, pow-suc 2 k)) (omega (arith, pow-suc 2 k)),
  ap (λ (t : ℕ). differ t (b % 2)) digit,
  differ-cancel (a % 2) (b % 2) (omega arith) (omega arith),
)
  where
    small : differ (a % 2) (b % 2) ≤ 1
    small = bit_xor-IsDigitwise.is_digit (a % 2) (b % 2) (omega arith) (omega arith)

    half : bit_xor a b / 2 ≡ bit_xor (a / 2) (b / 2)
    half = omega (arith, small, bit_xor-IsDigitwise.step a b)

    digit : bit_xor a b % 2 ≡ differ (a % 2) (b % 2)
    digit = omega (arith, small, bit_xor-IsDigitwise.step a b)

pub zero-bit_xor : (k a : ℕ) → a < 2 ^ k → bit_xor 0 a ≡ a
zero-bit_xor zero a h = let a0 : a ≡ 0 = omega arith in rw a0
zero-bit_xor (suc k) a h =
    omega (arith, bit_xor-IsDigitwise.step 0 a, zero-bit_xor k (a / 2) (omega (arith, pow-suc 2 k)))

pub bit_xor_comm : (k a b : ℕ) → a < 2 ^ k → b < 2 ^ k → bit_xor a b ≡ bit_xor b a
bit_xor_comm zero a b ha hb =
    let a0 : a ≡ 0 = omega arith in let b0 : b ≡ 0 = omega arith in rw (a0, b0)
bit_xor_comm (suc k) a b ha hb = omega (
  arith,
  bit_xor-IsDigitwise.step a b,
  bit_xor-IsDigitwise.step b a,
  differ_comm (a % 2) (b % 2),
  bit_xor_comm k (a / 2) (b / 2) (omega (arith, pow-suc 2 k)) (omega (arith, pow-suc 2 k)),
)

-- The mask of `k` ones keeps a value of `k` digits.
pub bit_and_ones_of_lt : (k r : ℕ) → r < 2 ^ k → bit_and r (2 ^ k - 1) ≡ r
bit_and_ones_of_lt zero r h = let r0 : r ≡ 0 = omega arith in rw r0
bit_and_ones_of_lt (suc k) r h = omega (
  arith,
  pow-suc 2 k,
  one-le-pow k 2 (omega arith),
  bit_and-IsDigitwise.step r (2 ^ suc k - 1),
  ap (λ (t : ℕ). bit_and (r / 2) t) half,
  bit_and_ones_of_lt k (r / 2) (omega (arith, pow-suc 2 k)),
)
  where
    half : (2 ^ suc k - 1) / 2 ≡ 2 ^ k - 1
    half = omega (arith, pow-suc 2 k, one-le-pow k 2 (omega arith))

-- The mask of `k` ones keeps the low `k` digits.
pub bit_and-ones : (k a : ℕ) → bit_and a (2 ^ k - 1) ≡ a % 2 ^ k
bit_and-ones k a =
    let pos = one-le-pow k 2 (omega arith) in
    let r = a % 2 ^ k in
    ap₂ bit_and (omega arith) (omega arith)
    ∙ bit_and-split k (a / 2 ^ k) r 0 (2 ^ k - 1) (omega arith) (omega arith)
    ∙ omega (
      arith,
      ap (λ (t : ℕ). t * 2 ^ k) (bit_and-zero (a / 2 ^ k)),
      bit_and_ones_of_lt k r (omega arith),
    )

-- A value shifted over a free low field is a sum.
pub bit_or-fields : (k q r : ℕ) → r < 2 ^ k → bit_or (q * 2 ^ k) r ≡ q * 2 ^ k + r
bit_or-fields k q r h =
    ap₂ bit_or (omega arith) (omega arith)
    ∙ bit_or-split k q 0 0 r (one-le-pow k 2 (omega arith)) h
    ∙ omega (arith, ap (λ (t : ℕ). t * 2 ^ k) (bit_or-zero q), zero-bit_or r)

zero-bit_and : (bound x : ℕ) → x ≤ bound → bit_and 0 x ≡ 0
zero-bit_and zero x h = let nil : x ≡ 0 = omega arith in rw nil
zero-bit_and (suc bound) x h =
    omega (arith, bit_and-IsDigitwise.step 0 x, zero-bit_and bound (x / 2) (omega arith))

and_comm_upto : (bound x y : ℕ) → x ≤ bound → bit_and x y ≡ bit_and y x
and_comm_upto zero x y h =
    let nil : x ≡ 0 = omega arith in rw nil (zero-bit_and y y (omega arith) ∙ sym (bit_and-zero y))
and_comm_upto (suc bound) x y h = omega (
  arith,
  bit_and-IsDigitwise.step x y,
  bit_and-IsDigitwise.step y x,
  and_comm_upto bound (x / 2) (y / 2) (omega arith),
)

pub ones-bit_and : (k a : ℕ) → bit_and (2 ^ k - 1) a ≡ a % 2 ^ k
ones-bit_and k a = and_comm_upto (2 ^ k - 1) (2 ^ k - 1) a (omega arith) ∙ bit_and-ones k a

bit_or_zero_upto : (bound a b : ℕ) → a ≤ bound → bit_or a b ≡ 0 → (a ≡ 0) × (b ≡ 0)
bit_or_zero_upto zero a b h e =
    let nil : a ≡ 0 = omega arith in
    (nil, omega (arith, zero-bit_or b, ap (λ (t : ℕ). bit_or t b) nil))
bit_or_zero_upto (suc bound) a b h e =
    let digits = bit_or-IsDigitwise.step a b in
    let halves = bit_or_zero_upto bound (a / 2) (b / 2) (omega arith) (omega (arith, digits)) in
    (omega (arith, digits, halves.0), omega (arith, digits, halves.1))

pub bit_or-eq_zero : (a b : ℕ) → bit_or a b ≡ 0 → (a ≡ 0) × (b ≡ 0)
bit_or-eq_zero a b e = bit_or_zero_upto a a b (omega arith) e
