-- ===== src/Bits/Step.antt =====
-- `&`, `|` and `^` digit by digit: one equation for the lowest digit of each, without fuel.
use Prim.Native.Nat.{digits, differ, bit_and-bitwise, bit_or-bitwise, bit_xor-bitwise}
use smile_fee.Base.{ℕ, zero, suc, ◌+◌, ◌*◌, ◌/◌, ◌%◌, ◌≤◌, ◌≡◌, refl, arith, min, max}
use smile_fee.Base.{bit_and, bit_or, bit_xor}

-- The number of digits to go does not matter once it is enough.
module _ (z : ℕ → ℕ) (f : ℕ → ℕ → ℕ) where
  digits-enough : (n m a b : ℕ) → a ≤ n → a ≤ m → digits z f n a b ≡ digits z f m a b
  digits-enough zero zero a b p q = refl
  digits-enough zero (suc m) zero b p q = refl
  digits-enough zero (suc m) (suc a) b p q = absurd (omega arith)
  digits-enough (suc n) zero zero b p q = refl
  digits-enough (suc n) zero (suc a) b p q = absurd (omega arith)
  digits-enough (suc n) (suc m) zero b p q = refl
  digits-enough (suc n) (suc m) (suc a) b p q =
      omega (arith, digits-enough n m (suc a / 2) (b / 2) (omega arith) (omega arith))

-- The lowest digit of a result comes from the lowest digits, the others from the others.
abbrev DigitStep : (ℕ → ℕ → ℕ) → (ℕ → ℕ → ℕ) → Type 0
DigitStep op f = (x y : ℕ) → op x y ≡ op (x / 2) (y / 2) * 2 + f (x % 2) (y % 2)

-- An operation on numbers that works on each binary digit by `f`.
pub record IsDigitwise (op f : ℕ → ℕ → ℕ) : Type 0 where
  pub step : (a b : ℕ) → op a b ≡ op (a / 2) (b / 2) * 2 + f (a % 2) (b % 2)
  pub at_zero : op 0 0 ≡ 0
  pub is_digit : (a b : ℕ) → a ≤ 1 → b ≤ 1 → f a b ≤ 1

bit_and_step : DigitStep bit_and min
bit_and_step zero y = omega (arith, bit_and-bitwise 0 y, bit_and-bitwise 0 (y / 2))
bit_and_step (suc x) y = omega (
  arith,
  bit_and-bitwise (suc x) y,
  bit_and-bitwise (suc x / 2) (y / 2),
  digits-enough (λ d. 0) min x (suc x / 2) (suc x / 2) (y / 2) (omega arith) (omega arith),
)

bit_or_step : DigitStep bit_or max
bit_or_step zero y = omega (arith, bit_or-bitwise 0 y, bit_or-bitwise 0 (y / 2))
bit_or_step (suc x) y = omega (
  arith,
  bit_or-bitwise (suc x) y,
  bit_or-bitwise (suc x / 2) (y / 2),
  digits-enough (λ d. d) max x (suc x / 2) (suc x / 2) (y / 2) (omega arith) (omega arith),
)

bit_xor_step : DigitStep bit_xor differ
bit_xor_step zero y = omega (arith, bit_xor-bitwise 0 y, bit_xor-bitwise 0 (y / 2))
bit_xor_step (suc x) y = omega (
  arith,
  bit_xor-bitwise (suc x) y,
  bit_xor-bitwise (suc x / 2) (y / 2),
  digits-enough (λ d. d) differ x (suc x / 2) (suc x / 2) (y / 2) (omega arith) (omega arith),
)

differ-le : (a b : ℕ) → a ≤ 1 → b ≤ 1 → differ a b ≤ 1
differ-le zero b p q = q
differ-le (suc a) zero p q = p
differ-le (suc zero) (suc zero) p q = omega arith
differ-le (suc zero) (suc (suc b)) p q = absurd (omega arith)
differ-le (suc (suc a)) (suc b) p q = absurd (omega arith)

pub bit_and-IsDigitwise : IsDigitwise bit_and min
bit_and-IsDigitwise = record {
  step = bit_and_step;
  at_zero = refl;
  is_digit = λ a b p q. omega arith;
}

pub bit_or-IsDigitwise : IsDigitwise bit_or max
bit_or-IsDigitwise = record {
  step = bit_or_step;
  at_zero = refl;
  is_digit = λ a b p q. omega arith;
}

pub bit_xor-IsDigitwise : IsDigitwise bit_xor differ
bit_xor-IsDigitwise = record { step = bit_xor_step; at_zero = refl; is_digit = differ-le }

pub differ-cancel : (a b : ℕ) → a ≤ 1 → b ≤ 1 → differ (differ a b) b ≡ a
differ-cancel zero zero p q = refl
differ-cancel zero (suc zero) p q = refl
differ-cancel zero (suc (suc b)) p q = absurd (omega arith)
differ-cancel (suc zero) zero p q = refl
differ-cancel (suc zero) (suc zero) p q = refl
differ-cancel (suc zero) (suc (suc b)) p q = absurd (omega arith)
differ-cancel (suc (suc a)) b p q = absurd (omega arith)

pub differ_comm : (a b : ℕ) → differ a b ≡ differ b a
differ_comm zero zero = refl
differ_comm zero (suc b) = refl
differ_comm (suc a) zero = refl
differ_comm (suc a) (suc b) = differ_comm a b
