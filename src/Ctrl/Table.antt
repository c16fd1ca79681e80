-- ===== src/Ctrl/Table.antt =====
-- All fields of the mirror that a pair of functions of FEE/smile_fee_ctrl.c reads and sets.
mod CfgReadout
mod CfgImage
mod CfgDetector
mod HkTemperatures
mod HkVoltages
mod HkLink
mod HkErrors
use CfgReadout.{readout_fields, clock_fields}
use CfgImage.{control_fields, counter_fields}
use CfgDetector.{voltage_fields, event_fields}
use HkTemperatures.{temperature_fields, monitor_fields}
use HkVoltages.{bias_fields, supply_fields}
use HkLink.{link_fields}
use HkErrors.{error_fields, version_fields}
use smile_fee.Base.{ℕ, zero, suc, ◌+◌, ◌*◌, ◌^◌, ◌≤◌, ◌<◌, List, [], ◌∷◌, ◌++◌, Option, some}
use smile_fee.Base.{Bool, true, false, not, ◌&&◌, ◌||◌, ◌==◌, leb, if◌then◌else◌, get_elem?}
use smile_fee.Base.{◌≡◌, ◌≢◌, ◌⊎◌, refl, sym, ap, ◌∙◌, arith, Bool-cases, inl, inr, subst}
use smile_fee.Base.{==_iff, leb→le, both_true, some_inj, none_ne}
use smile_fee.Bits.Fields.{extract, insert, insert-lt, mod_lt_pow, extract-insert_self}
use smile_fee.Bits.Fields.{extract-insert_below, extract-insert_above}
use smile_fee.Ctrl.Swap.{be32_to_cpu-lt}
use smile_fee.Ctrl.Mirror.{Mirror, host, host-update_self, host-update_ne}
use smile_fee.Ctrl.Field.{Entry, Checked}
use smile_fee.Ctrl.Field.Apart.{apart}

unfoldable pub fields : List Checked
fields =
    readout_fields ++ clock_fields ++ control_fields ++ counter_fields ++ voltage_fields
    ++ event_fields ++ temperature_fields ++ monitor_fields ++ bias_fields ++ supply_fields
    ++ link_fields ++ error_fields ++ version_fields

unfoldable pub apart_from : Entry → List Checked → Bool
apart_from a [] = true
apart_from a (b ∷ bs) = apart a b.entry && apart_from a bs

unfoldable pub all_apart : List Checked → Bool
all_apart [] = true
all_apart (a ∷ rest) = apart_from a.entry rest && all_apart rest

pub fields_apart : all_apart fields ≡ true
unfolding fields all_apart apart_from apart
fields_apart = refl

apart_from-elem :
    (a : Entry) (bs : List Checked) (i : ℕ) (b : Checked)
    → apart_from a bs ≡ true
    → get_elem? bs i ≡ some b
    → apart a b.entry ≡ true
unfolding apart_from
apart_from-elem a [] i b h e = absurd (none_ne e)
apart_from-elem a (x ∷ xs) zero b h e =
    let same : x ≡ b = some_inj e in
    subst (λ y. apart a y.entry ≡ true) same (both_true (apart a x.entry) (apart_from a xs) h).0
apart_from-elem a (x ∷ xs) (suc i) b h e =
    apart_from-elem a xs i b (both_true (apart a x.entry) (apart_from a xs) h).1 e

-- Two different places of a list whose entries are all apart.
pub all_apart-elems :
    (xs : List Checked) (i j : ℕ) (a b : Checked)
    → all_apart xs ≡ true
    → get_elem? xs i ≡ some a
    → get_elem? xs j ≡ some b
    → i ≢ j
    → (apart a.entry b.entry ≡ true) ⊎ (apart b.entry a.entry ≡ true)
unfolding all_apart
all_apart-elems [] i j a b h ei ej ne = absurd (none_ne ei)
all_apart-elems (x ∷ xs) zero zero a b h ei ej ne = absurd (ne refl)
all_apart-elems (x ∷ xs) zero (suc j) a b h ei ej ne =
    let same : x ≡ a = some_inj ei in
    inl (
      subst (λ y. apart y.entry b.entry ≡ true) same
        (apart_from-elem x.entry xs j b (both_true (apart_from x.entry xs) (all_apart xs) h).0 ej))
all_apart-elems (x ∷ xs) (suc i) zero a b h ei ej ne =
    let same : x ≡ b = some_inj ej in
    inr (
      subst (λ y. apart y.entry a.entry ≡ true) same
        (apart_from-elem x.entry xs i a (both_true (apart_from x.entry xs) (all_apart xs) h).0 ei))
all_apart-elems (x ∷ xs) (suc i) (suc j) a b h ei ej ne =
    all_apart-elems xs i j a b (both_true (apart_from x.entry xs) (all_apart xs) h).1 ei ej
      (λ e. ne (ap suc e))
