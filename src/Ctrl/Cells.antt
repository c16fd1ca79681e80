-- ===== src/Ctrl/Cells.antt =====
-- The mirror of FEE/smile_fee_ctrl.c as a table of independent cells: what its functions return
-- after any of them has set a value.
use smile_fee.Base.{ℕ, Bool, true, false, ◌&&◌, ◌==◌, if◌then◌else◌, get_elem?, some}
use smile_fee.Base.{◌≡◌, ◌≢◌, refl, sym, ap, ◌∙◌, arith, inl, inr, subst, Bool-cases, ==_iff}
use smile_fee.Ctrl.Mirror.{Mirror}
use smile_fee.Ctrl.Field.{Checked, changed}
use smile_fee.Ctrl.Field.Apart.{Apart, Apart-sym, apart-Apart, get-changed, get-changed-Apart}
use smile_fee.Ctrl.Table.{fields, fields_apart, all_apart-elems}

and_true : (p q : Bool) → q ≡ true → (p && q) ≡ p
and_true true q h = h
and_true false q h = refl

and_false : (p q : Bool) → q ≡ false → (p && q) ≡ false
and_false true q h = h
and_false false q h = refl

module _ (i j : ℕ) (a b : Checked) (ei : get_elem? fields i ≡ some a)
    (ej : get_elem? fields j ≡ some b) where
  different : i ≢ j → Apart a.entry b.entry
  different ne = elim (all_apart-elems fields i j a b fields_apart ei ej ne) [
    | inl h ↦ apart-Apart a.entry b.entry h
    | inr h ↦ Apart-sym b.entry a.entry (apart-Apart b.entry a.entry h)
  ]

  one_place : i ≡ j → a ≡ b
  one_place e = cc

  get_changed :
      (v : ℕ) (m : Mirror)
      → a.entry.get (changed b.entry v m) ≡ (if i == j then b.entry.encode v else a.entry.get m)
  get_changed v m = elim (Bool-cases (i == j)) [
    | inl same ↦
        let ab : a ≡ b = one_place ((==_iff i j).0 same) in
        subst
          (λ t.
            t.entry.get (changed b.entry v m)
            ≡ (if i == j then b.entry.encode v else t.entry.get m))
          (sym ab) (get-changed b.entry b.law v m ∙ rw same)
    | inr other ↦
        get-changed-Apart b.entry b.law v m a.entry a.law (different (λ (q : i ≡ j). ground arith))
        ∙ rw other
  ]

  -- For any two of the fields, reading the one after setting the other: where they are the same field
  -- and it takes the argument, what is stored for it is read, else the value is the one before.
  pub get-put :
      (v : ℕ) (m : Mirror)
      → a.entry.get (b.entry.put v m)
        ≡ (if (i == j) && b.entry.admits v then b.entry.encode v else a.entry.get m)
  get-put v m = elim (Bool-cases (b.entry.admits v)) [
    | inl stored ↦
        ap a.entry.get (b.law.writes v m ∙ ap (λ t. if t then changed b.entry v m else m) stored)
        ∙ get_changed v m
        ∙ ap (λ t. if t then b.entry.encode v else a.entry.get m)
            (sym (and_true (i == j) (b.entry.admits v) stored))
    | inr kept ↦
        ap a.entry.get (b.law.writes v m ∙ ap (λ t. if t then changed b.entry v m else m) kept)
        ∙ ap (λ t. if t then b.entry.encode v else a.entry.get m)
            (sym (and_false (i == j) (b.entry.admits v) kept))
  ]
