-- ===== src/Ctrl/Sync/Housekeeping.antt =====
-- `smile_fee_sync_hk_regs` of FEE/smile_fee_ctrl.c: the housekeeping registers are requested one
-- after the other, and the errors are collected with `|=`.
use smile_fee.Base.{ℕ, ◌+◌, ◌-◌, List, [], ◌∷◌, Option, none, some, Bool, ℤ, pos, negsuc, bit_and}
use smile_fee.Base.{some_inj, none_ne, bit_or, ◌≡◌, ◌↔◌, refl, ap, ◌∙◌}
use smile_fee.Bits.{bit_or-eq_zero}
use smile_fee.Link.State.{Link}
use smile_fee.Link.Command.{CmdGen}
use smile_fee.Link.Submit.{smile_fee_sync}
use smile_fee.Link.Registers.Addresses.{hk_reg_4, hk_reg_5, hk_reg_6, hk_reg_7, hk_reg_8, hk_reg_9}
use smile_fee.Link.Registers.Addresses.{
  hk_reg_10, hk_reg_11, hk_reg_12, hk_reg_13, hk_reg_14, hk_reg_15,
}
use smile_fee.Link.Registers.Addresses.{
  hk_reg_16, hk_reg_17, hk_reg_18, hk_reg_19, hk_reg_20, hk_reg_21,
}
use smile_fee.Link.Registers.Addresses.{
  hk_reg_22, hk_reg_23, hk_reg_32, hk_reg_33, hk_reg_34, hk_reg_35,
}
use smile_fee.Link.Registers.Addresses.{hk_reg_36, hk_reg_37}
use smile_fee.Link.Registers.HkReads.{
  fee_read_cmd_hk_reg_4, fee_read_cmd_hk_reg_5, fee_read_cmd_hk_reg_6, fee_read_cmd_hk_reg_7,
  fee_read_cmd_hk_reg_8, fee_read_cmd_hk_reg_9,
}
use smile_fee.Link.Registers.HkReads.{
  fee_read_cmd_hk_reg_10, fee_read_cmd_hk_reg_11, fee_read_cmd_hk_reg_12, fee_read_cmd_hk_reg_13,
  fee_read_cmd_hk_reg_14, fee_read_cmd_hk_reg_15,
}
use smile_fee.Link.Registers.HkReads.{
  fee_read_cmd_hk_reg_16, fee_read_cmd_hk_reg_17, fee_read_cmd_hk_reg_18, fee_read_cmd_hk_reg_19,
  fee_read_cmd_hk_reg_20, fee_read_cmd_hk_reg_21,
}
use smile_fee.Link.Registers.HkReads.{
  fee_read_cmd_hk_reg_22, fee_read_cmd_hk_reg_23, fee_read_cmd_hk_reg_32, fee_read_cmd_hk_reg_33,
  fee_read_cmd_hk_reg_34, fee_read_cmd_hk_reg_35,
}
use smile_fee.Link.Registers.HkReads.{fee_read_cmd_hk_reg_36, fee_read_cmd_hk_reg_37}
use smile_fee.Ctrl.Sync.Registers.{Caller}

-- `|` on `int`: the complement of `negsuc a` is `a`.
abbrev pub int_or : ℤ → ℤ → ℤ
int_or (pos a) (pos b) = pos (bit_or a b)
int_or (pos a) (negsuc b) = negsuc (b - bit_and b a)
int_or (negsuc a) (pos b) = negsuc (a - bit_and a b)
int_or (negsuc a) (negsuc b) = negsuc (bit_and a b)

-- The commands and the places in the mirror, in the order of the calls.
abbrev pub hk_commands : Caller → List (CmdGen × ℕ)
hk_commands c =
    (fee_read_cmd_hk_reg_4 c.allocs, c.mirror + hk_reg_4)
    ∷ (fee_read_cmd_hk_reg_5 c.allocs, c.mirror + hk_reg_5)
    ∷ (fee_read_cmd_hk_reg_6 c.allocs, c.mirror + hk_reg_6)
    ∷ (fee_read_cmd_hk_reg_7 c.allocs, c.mirror + hk_reg_7)
    ∷ (fee_read_cmd_hk_reg_8 c.allocs, c.mirror + hk_reg_8)
    ∷ (fee_read_cmd_hk_reg_9 c.allocs, c.mirror + hk_reg_9)
    ∷ (fee_read_cmd_hk_reg_10 c.allocs, c.mirror + hk_reg_10)
    ∷ (fee_read_cmd_hk_reg_11 c.allocs, c.mirror + hk_reg_11)
    ∷ (fee_read_cmd_hk_reg_12 c.allocs, c.mirror + hk_reg_12)
    ∷ (fee_read_cmd_hk_reg_13 c.allocs, c.mirror + hk_reg_13)
    ∷ (fee_read_cmd_hk_reg_14 c.allocs, c.mirror + hk_reg_14)
    ∷ (fee_read_cmd_hk_reg_15 c.allocs, c.mirror + hk_reg_15)
    ∷ (fee_read_cmd_hk_reg_16 c.allocs, c.mirror + hk_reg_16)
    ∷ (fee_read_cmd_hk_reg_17 c.allocs, c.mirror + hk_reg_17)
    ∷ (fee_read_cmd_hk_reg_18 c.allocs, c.mirror + hk_reg_18)
    ∷ (fee_read_cmd_hk_reg_19 c.allocs, c.mirror + hk_reg_19)
    ∷ (fee_read_cmd_hk_reg_20 c.allocs, c.mirror + hk_reg_20)
    ∷ (fee_read_cmd_hk_reg_21 c.allocs, c.mirror + hk_reg_21)
    ∷ (fee_read_cmd_hk_reg_22 c.allocs, c.mirror + hk_reg_22)
    ∷ (fee_read_cmd_hk_reg_23 c.allocs, c.mirror + hk_reg_23)
    ∷ (fee_read_cmd_hk_reg_32 c.allocs, c.mirror + hk_reg_32)
    ∷ (fee_read_cmd_hk_reg_33 c.allocs, c.mirror + hk_reg_33)
    ∷ (fee_read_cmd_hk_reg_34 c.allocs, c.mirror + hk_reg_34)
    ∷ (fee_read_cmd_hk_reg_35 c.allocs, c.mirror + hk_reg_35)
    ∷ (fee_read_cmd_hk_reg_36 c.allocs, c.mirror + hk_reg_36)
    ∷ (fee_read_cmd_hk_reg_37 c.allocs, c.mirror + hk_reg_37)
    ∷ []

-- The calls of `smile_fee_sync` with their results collected; `none` is an access outside of a
-- buffer.
unfoldable pub sync_each : List (CmdGen × ℕ) → Bool → ℤ → Link → Option ℤ × Link
sync_each [] malloc_ok err s = (some err, s)
sync_each (cmd ∷ cmds) malloc_ok err s =
    let called = smile_fee_sync cmd.0 malloc_ok cmd.1 0 s in
    elim called.0 [
      | none ↦ (none, called.1)
      | some ret ↦ sync_each cmds malloc_ok (int_or err ret) called.1
    ]

abbrev pub smile_fee_sync_hk_regs : Caller → Link → Option ℤ × Link
smile_fee_sync_hk_regs c s = sync_each (hk_commands c) c.malloc_ok (pos 0) s

-- Each of the calls, made one after the other, returns 0.
unfoldable pub AllSent : List (CmdGen × ℕ) → Bool → Link → Type 0
AllSent [] malloc_ok s = Unit
AllSent (cmd ∷ cmds) malloc_ok s =
    ((smile_fee_sync cmd.0 malloc_ok cmd.1 0 s).0 ≡ some (pos 0))
    × AllSent cmds malloc_ok (smile_fee_sync cmd.0 malloc_ok cmd.1 0 s).1

pos_inj : {a b : ℕ} → pos a ≡ pos b → a ≡ b
pos_inj {a} {b} h = ap (λ z. elim z as (λ x. ℕ) [ pos n ↦ n | negsuc n ↦ 0 ]) h

int_or-zero : (e r : ℤ) → int_or e r ≡ pos 0 → (e ≡ pos 0) × (r ≡ pos 0)
int_or-zero (pos a) (pos b) h =
    let none_set = bit_or-eq_zero a b (pos_inj h) in (ap pos none_set.0, ap pos none_set.1)
int_or-zero (pos a) (negsuc b) h = absurd cc
int_or-zero (negsuc a) (pos b) h = absurd cc
int_or-zero (negsuc a) (negsuc b) h = absurd cc

sync_each-zero :
    (cmds : List (CmdGen × ℕ)) (ok : Bool) (err : ℤ) (s : Link)
    → (sync_each cmds ok err s).0 ≡ some (pos 0)
    → (err ≡ pos 0) × AllSent cmds ok s
unfolding sync_each AllSent
sync_each-zero [] ok err s h = (some_inj h, tt)
sync_each-zero (cmd ∷ cmds) ok err s h =
    go (smile_fee_sync cmd.0 ok cmd.1 0 s) (sync_each-zero cmds ok) h
  where
    go :
        (r : Option ℤ × Link)
        → ((e : ℤ) (s' : Link)
            → (sync_each cmds ok e s').0 ≡ some (pos 0)
            → (e ≡ pos 0) × AllSent cmds ok s')
        → (elim r.0 as (λ x. Option ℤ × Link) [
          | none ↦ (none, r.1)
          | some ret ↦ sync_each cmds ok (int_or err ret) r.1
        ]).0
          ≡ some (pos 0)
        → (err ≡ pos 0) × ((r.0 ≡ some (pos 0)) × AllSent cmds ok r.1)
    go (none, s') rest h = absurd (none_ne h)
    go (some ret, s') rest h =
        let after = rest (int_or err ret) s' h in
        let both = int_or-zero err ret after.0 in (both.0, (ap some both.1, after.1))

zero-sync_each :
    (cmds : List (CmdGen × ℕ)) (ok : Bool) (s : Link)
    → AllSent cmds ok s
    → (sync_each cmds ok (pos 0) s).0 ≡ some (pos 0)
unfolding sync_each AllSent
zero-sync_each [] ok s h = refl
zero-sync_each (cmd ∷ cmds) ok s h =
    ap
      (λ (o : Option ℤ).
        (elim o as (λ x. Option ℤ × Link) [
          | none ↦ (none, (smile_fee_sync cmd.0 ok cmd.1 0 s).1)
          | some ret ↦ sync_each cmds ok (int_or (pos 0) ret) (smile_fee_sync cmd.0 ok cmd.1 0 s).1
        ]).0)
      h.0
    ∙ zero-sync_each cmds ok (smile_fee_sync cmd.0 ok cmd.1 0 s).1 h.1

-- `smile_fee_sync_hk_regs` returns 0 exactly when each of its 26 calls, made one after the other,
-- returns 0.
pub smile_fee_sync_hk_regs-zero_iff :
    (c : Caller) (s : Link)
    → ((smile_fee_sync_hk_regs c s).0 ≡ some (pos 0)) ↔ AllSent (hk_commands c) c.malloc_ok s
smile_fee_sync_hk_regs-zero_iff c s = (
  λ h. (sync_each-zero (hk_commands c) c.malloc_ok (pos 0) s h).1,
  zero-sync_each (hk_commands c) c.malloc_ok s,
)
