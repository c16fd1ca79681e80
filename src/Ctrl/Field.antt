-- ===== src/Ctrl/Field.antt =====
-- What a pair of functions of FEE/smile_fee_ctrl.c stands for that read and set one value of the
-- mirror: a field of a register. An entry says which one, independently of the masks in the code.
pub mod Apart
use smile_fee.Base.{ℕ, ◌+◌, ◌-◌, ◌*◌, ◌/◌, ◌%◌, ◌^◌, ◌≤◌, ◌<◌, ◌≡◌, refl, sym, ap, ap₂, ◌∙◌, arith}
use smile_fee.Base.{Bool, true, false, not, ◌==◌, if◌then◌else◌, bit_and, bit_or, subst}
use smile_fee.Bits.{bit_and-ones, ones-bit_and}
use smile_fee.Bits.Fields.{extract, insert, insert-lt, clear-set, mod_lt_pow}
use smile_fee.Ctrl.Swap.{cpu_to_be32, be32_to_cpu-lt, swab32-eq}
use smile_fee.Ctrl.Mirror.{Mirror, host, store, update, as_flag}

-- `encode` is what is stored for an argument of `put`, `admits` tells which arguments are stored.
pub record Entry : Type 0 where
  pub reg : ℕ
  pub shift : ℕ
  pub width : ℕ
  pub get : Mirror → ℕ
  pub put : ℕ → Mirror → Mirror
  pub encode : ℕ → ℕ
  pub admits : ℕ → Bool

-- The value modulo the width; one bit that tells whether the argument is zero; a value that must
-- not be zero.
abbrev pub value : ℕ → ℕ → ℕ → (Mirror → ℕ) → (ℕ → Mirror → Mirror) → Entry
value reg s w get put = record {
  reg = reg;
  shift = s;
  width = w;
  get = get;
  put = put;
  encode = λ v. v % 2 ^ w;
  admits = λ v. true;
}

abbrev pub flag : ℕ → ℕ → (Mirror → ℕ) → (ℕ → Mirror → Mirror) → Entry
flag reg s get put = record (value reg s 1 get put) { encode = as_flag }

abbrev pub nonzero : ℕ → ℕ → ℕ → (Mirror → ℕ) → (ℕ → Mirror → Mirror) → Entry
nonzero reg s w get put = record (value reg s w get put) { admits = λ v. not (v == 0) }

abbrev pub changed : Entry → ℕ → Mirror → Mirror
changed e v m = update e.reg (insert e.shift e.width (e.encode v)) m

-- An entry and the code agree: `room` digits of the register are above the field.
pub record IsField (e : Entry) : Type 0 where
  pub room : ℕ
  pub fits : 2 ^ 32 ≡ 2 ^ room * 2 ^ e.width * 2 ^ e.shift
  pub small : (v : ℕ) → e.encode v < 2 ^ e.width
  pub reads : (m : Mirror) → e.get m ≡ extract e.shift e.width (host e.reg m)
  pub writes : (v : ℕ) (m : Mirror) → e.put v m ≡ (if e.admits v then changed e v m else m)

-- An entry that the code agrees with.
pub record Checked : Type 0 where
  pub entry : Entry
  pub law : IsField entry

abbrev pub checked : {e : Entry} → IsField e → Checked
checked {e} law = record { entry = e; law = law }

-- The mask that clears a field.
abbrev pub others : ℕ → ℕ → ℕ → ℕ
others s w k = (2 ^ k - 1) * 2 ^ w * 2 ^ s + (2 ^ s - 1)

-- A register that is cleared in the field and filled with `u v` there.
abbrev pub masked : Entry → ℕ → (ℕ → ℕ) → ℕ → Mirror → Mirror
masked e k u v m = update e.reg (λ r. bit_or (bit_and r (others e.shift e.width k)) (u v)) m

module _ (e : Entry) (k : ℕ) (fits : 2 ^ 32 ≡ 2 ^ k * 2 ^ e.width * 2 ^ e.shift)
    (reads : (m : Mirror) → e.get m ≡ extract e.shift e.width (host e.reg m))
    (small : (v : ℕ) → e.encode v < 2 ^ e.width) where
  masked-changed :
      (u : ℕ → ℕ)
      → ((v : ℕ) → u v ≡ e.encode v * 2 ^ e.shift)
      → (v : ℕ) (m : Mirror) → masked e k u v m ≡ changed e v m
  masked-changed u shifted v m =
      ap (λ (x : ℕ). update e.reg (λ r. x) m)
        (ap (bit_or (bit_and (host e.reg m) (others e.shift e.width k))) (shifted v)
          ∙ clear-set e.shift e.width k (e.encode v) (host e.reg m) (small v)
              (subst (λ (n : ℕ). host e.reg m < n) fits (be32_to_cpu-lt (m.word e.reg)))
              (others e.shift e.width k) refl)

  pub masked-IsField :
      (u : ℕ → ℕ)
      → ((v : ℕ) → u v ≡ e.encode v * 2 ^ e.shift)
      → ((v : ℕ) (m : Mirror) → e.put v m ≡ (if e.admits v then masked e k u v m else m))
      → IsField e
  masked-IsField u shifted writes = record {
    room = k;
    fits = fits;
    small = small;
    reads = reads;
    writes =
        λ v m. writes v m ∙ ap (λ t. if e.admits v then t else m) (masked-changed u shifted v m);
  }

-- The forms that the code has: a masked value, with its shift or at the low end of the register.
module _ (reg w k : ℕ) (get : Mirror → ℕ) (put : ℕ → Mirror → Mirror) where
  pub high_value :
      (s : ℕ)
      → 2 ^ 32 ≡ 2 ^ k * 2 ^ w * 2 ^ s
      → ((m : Mirror) → get m ≡ extract s w (host reg m))
      → ((v : ℕ) (m : Mirror)
          → put v m ≡ masked (value reg s w get put) k (λ v. bit_and (2 ^ w - 1) v * 2 ^ s) v m)
      → IsField (value reg s w get put)
  high_value s fits reads writes =
      masked-IsField (value reg s w get put) k fits reads (λ v. mod_lt_pow w v)
        (λ v. bit_and (2 ^ w - 1) v * 2 ^ s) (λ v. ap (λ (t : ℕ). t * 2 ^ s) (ones-bit_and w v))
        writes

  pub low_value :
      2 ^ 32 ≡ 2 ^ k * 2 ^ w * 2 ^ 0
      → ((m : Mirror) → get m ≡ extract 0 w (host reg m))
      → ((v : ℕ) (m : Mirror)
          → put v m ≡ masked (value reg 0 w get put) k (λ v. bit_and (2 ^ w - 1) v) v m)
      → IsField (value reg 0 w get put)
  low_value fits reads writes =
      masked-IsField (value reg 0 w get put) k fits reads (λ v. mod_lt_pow w v)
        (λ v. bit_and (2 ^ w - 1) v) (λ v. omega (arith, ones-bit_and w v)) writes

  pub high_nonzero :
      (s : ℕ)
      → 2 ^ 32 ≡ 2 ^ k * 2 ^ w * 2 ^ s
      → ((m : Mirror) → get m ≡ extract s w (host reg m))
      → ((v : ℕ) (m : Mirror)
          → put v m ≡ (
              if not (v == 0)
              then masked (value reg s w get put) k (λ v. bit_and (2 ^ w - 1) v * 2 ^ s) v m
              else m))
      → IsField (nonzero reg s w get put)
  high_nonzero s fits reads writes =
      masked-IsField (nonzero reg s w get put) k fits reads (λ v. mod_lt_pow w v)
        (λ v. bit_and (2 ^ w - 1) v * 2 ^ s) (λ v. ap (λ (t : ℕ). t * 2 ^ s) (ones-bit_and w v))
        writes

pub as_flag-lt : (v : ℕ) → as_flag v < 2 ^ 1
as_flag-lt v = ground arith

module _ (reg k : ℕ) (get : Mirror → ℕ) (put : ℕ → Mirror → Mirror) where
  pub high_flag :
      (s : ℕ)
      → 2 ^ 32 ≡ 2 ^ k * 2 ^ 1 * 2 ^ s
      → ((m : Mirror) → get m ≡ extract s 1 (host reg m))
      → ((v : ℕ) (m : Mirror)
          → put v m ≡ masked (flag reg s get put) k (λ v. as_flag v * 2 ^ s) v m)
      → IsField (flag reg s get put)
  high_flag s fits reads writes =
      masked-IsField (flag reg s get put) k fits reads as_flag-lt (λ v. as_flag v * 2 ^ s)
        (λ v. refl) writes

  pub low_flag :
      2 ^ 32 ≡ 2 ^ k * 2 ^ 1 * 2 ^ 0
      → ((m : Mirror) → get m ≡ extract 0 1 (host reg m))
      → ((v : ℕ) (m : Mirror) → put v m ≡ masked (flag reg 0 get put) k as_flag v m)
      → IsField (flag reg 0 get put)
  low_flag fits reads writes =
      masked-IsField (flag reg 0 get put) k fits reads as_flag-lt as_flag (λ v. omega arith) writes

-- A whole register.
pub whole_value :
    (reg : ℕ) (get : Mirror → ℕ) (put : ℕ → Mirror → Mirror)
    → ((m : Mirror) → get m ≡ host reg m)
    → ((v : ℕ) (m : Mirror) → put v m ≡ update reg (λ r. v) m)
    → IsField (value reg 0 32 get put)
whole_value reg get put reads writes = record {
  room = 0;
  fits = refl;
  small = λ v. omega arith;
  reads = λ m. reads m ∙ omega (arith, be32_to_cpu-lt (m.word reg));
  writes = λ v m. writes v m ∙ ap (λ (t : ℕ). store reg t m) (same v m);
}
  where
    same :
        (v : ℕ) (m : Mirror) → cpu_to_be32 v ≡ cpu_to_be32 (insert 0 32 (v % 2 ^ 32) (host reg m))
    same v m = omega (
      arith,
      be32_to_cpu-lt (m.word reg),
      swab32-eq v,
      swab32-eq (insert 0 32 (v % 2 ^ 32) (host reg m)),
    )
