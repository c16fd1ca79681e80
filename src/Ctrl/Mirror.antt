-- ===== src/Ctrl/Mirror.antt =====
-- `struct smile_fee_mirror` of FEE/smile_fee_ctrl.h, and a register's change in host byte order.
use smile_fee.Base.{ℕ, ◌+◌, ◌^◌, ◌<◌, ◌≡◌, ◌≢◌, false, ap, ◌∙◌, arith, ◌==◌, ==_self}
use smile_fee.Base.{if◌then◌else◌, ltb, ◌-◌, ℤ, pos, negsuc}
use smile_fee.Ctrl.Swap.{load32, be32_to_cpu, cpu_to_be32, be32_to_cpu-cpu_to_be32}

-- The structure is laid out like the FEE's address space: a register is found at its address, in
-- big-endian order. The SRAM area is a block of its own.
pub record Mirror : Type 0 where
  pub word : ℕ → ℕ
  pub sram : ℕ → ℕ

-- The structure at the address `base` of the memory, its SRAM area at `area`.
abbrev pub mirror_at : ℕ → ℕ → (ℕ → ℕ) → Mirror
mirror_at base area memory = record {
  word = λ reg. load32 memory (base + reg);
  sram = λ i. memory (area + i);
}

-- The value of a register in host byte order.
abbrev pub host : ℕ → Mirror → ℕ
host reg m = be32_to_cpu (m.word reg)

unfoldable pub store : ℕ → ℕ → Mirror → Mirror
store reg x m = record m { word = λ a. if a == reg then x else m.word a }

-- `be32_to_cpus(&reg); reg = f(reg); cpu_to_be32s(&reg);`
abbrev pub update : ℕ → (ℕ → ℕ) → Mirror → Mirror
update reg f m = store reg (cpu_to_be32 (f (host reg m))) m

-- `if (mode) mode = 1;`
abbrev pub as_flag : ℕ → ℕ
as_flag v = if v == 0 then 0 else 1

-- The conversion to `int16_t`.
abbrev pub int16 : ℕ → ℤ
int16 x = if ltb x 0x8000 then pos x else negsuc (0xFFFF - x)

pub word-store_self : (reg x : ℕ) (m : Mirror) → (store reg x m).word reg ≡ x
unfolding store
word-store_self reg x m = ap (λ b. if b then x else m.word reg) (==_self reg)

pub word-store_ne : (reg a x : ℕ) (m : Mirror) → a ≢ reg → (store reg x m).word a ≡ m.word a
unfolding store
word-store_ne reg a x m h =
    let other : (a == reg) ≡ false = ground arith in ap (λ b. if b then x else m.word a) other

pub host-update_self :
    (reg : ℕ) (f : ℕ → ℕ) (m : Mirror)
    → f (host reg m) < 2 ^ 32
    → host reg (update reg f m) ≡ f (host reg m)
host-update_self reg f m h =
    ap be32_to_cpu (word-store_self reg (cpu_to_be32 (f (host reg m))) m)
    ∙ be32_to_cpu-cpu_to_be32 (f (host reg m)) h

pub host-update_ne :
    (reg a : ℕ) (f : ℕ → ℕ) (m : Mirror) → a ≢ reg → host a (update reg f m) ≡ host a m
host-update_ne reg a f m h = ap be32_to_cpu (word-store_ne reg a (cpu_to_be32 (f (host reg m))) m h)
