-- ===== src/Ctrl/Field/Apart.antt =====
-- Two fields of the mirror that have no digit of a register in common do not disturb each other.
use smile_fee.Base.{ℕ, ◌+◌, ◌^◌, ◌≤◌, ◌<◌, Bool, true, not, ◌||◌, ◌==◌, leb}
use smile_fee.Base.{◌≡◌, ◌≢◌, ◌⊎◌, sym, ap, ◌∙◌, arith, inl, inr, subst, ==_iff, Bool-cases}
use smile_fee.Bits.Fields.{extract, insert, insert-lt, extract-insert_self}
use smile_fee.Bits.Fields.{extract-insert_below, extract-insert_above}
use smile_fee.Ctrl.Swap.{be32_to_cpu-lt}
use smile_fee.Ctrl.Mirror.{Mirror, host, host-update_self, host-update_ne}
use smile_fee.Ctrl.Field.{Entry, IsField, changed}

-- In different registers, or one below the other.
unfoldable pub apart : Entry → Entry → Bool
apart a b =
    not (a.reg == b.reg) || leb (a.shift + a.width) b.shift || leb (b.shift + b.width) a.shift

abbrev pub Apart : Entry → Entry → Type 0
Apart a b = (a.reg ≢ b.reg) ⊎ ((a.shift + a.width ≤ b.shift) ⊎ (b.shift + b.width ≤ a.shift))

pub apart-Apart : (a b : Entry) → apart a b ≡ true → Apart a b
unfolding apart
apart-Apart a b h = ground arith

pub Apart-sym : (a b : Entry) → Apart a b → Apart b a
Apart-sym a b (inl ne) = inl (λ e. ne (sym e))
Apart-sym a b (inr (inl le)) = inr (inr le)
Apart-sym a b (inr (inr le)) = inr (inl le)

module _ (e : Entry) (law : IsField e) (v : ℕ) (m : Mirror) where
  insert_fits : insert e.shift e.width (e.encode v) (host e.reg m) < 2 ^ 32
  insert_fits =
      subst (λ (n : ℕ). insert e.shift e.width (e.encode v) (host e.reg m) < n) (sym law.fits)
        (insert-lt e.shift e.width law.room (e.encode v) (host e.reg m) (law.small v)
          (subst (λ (n : ℕ). host e.reg m < n) law.fits (be32_to_cpu-lt (m.word e.reg))))

  host-changed : host e.reg (changed e v m) ≡ insert e.shift e.width (e.encode v) (host e.reg m)
  host-changed = host-update_self e.reg (insert e.shift e.width (e.encode v)) m insert_fits

  -- A field keeps what has been stored in it.
  pub get-changed : e.get (changed e v m) ≡ e.encode v
  get-changed =
      law.reads (changed e v m)
      ∙ ap (extract e.shift e.width) host-changed
      ∙ extract-insert_self e.shift e.width (e.encode v) (host e.reg m) (law.small v)

  module _ (a : Entry) (a_law : IsField a) where
    elsewhere : a.reg ≢ e.reg → a.get (changed e v m) ≡ a.get m
    elsewhere ne =
        a_law.reads (changed e v m)
        ∙ ap (extract a.shift a.width)
            (host-update_ne e.reg a.reg (insert e.shift e.width (e.encode v)) m ne)
        ∙ sym (a_law.reads m)

    beside :
        a.reg ≡ e.reg
        → (extract a.shift a.width (insert e.shift e.width (e.encode v) (host e.reg m))
            ≡ extract a.shift a.width (host e.reg m))
        → a.get (changed e v m) ≡ a.get m
    beside same kept =
        a_law.reads (changed e v m)
        ∙ subst
            (λ (r : ℕ).
              extract a.shift a.width (host r (changed e v m)) ≡ extract a.shift a.width (host r m))
            (sym same) (ap (extract a.shift a.width) host-changed ∙ kept)
        ∙ sym (a_law.reads m)

    kept :
        (a.shift + a.width ≤ e.shift) ⊎ (e.shift + e.width ≤ a.shift)
        → extract a.shift a.width (insert e.shift e.width (e.encode v) (host e.reg m))
          ≡ extract a.shift a.width (host e.reg m)
    kept (inl below) =
        extract-insert_below e.shift e.width a.shift a.width (e.encode v) (host e.reg m) below
    kept (inr above) =
        extract-insert_above e.shift e.width a.shift a.width (e.encode v) (host e.reg m)
          (law.small v) above

    -- It does not disturb another one.
    pub get-changed-Apart : Apart a e → a.get (changed e v m) ≡ a.get m
    get-changed-Apart (inl ne) = elsewhere ne
    get-changed-Apart (inr sides) = elim (Bool-cases (a.reg == e.reg)) [
      | inl same ↦ beside ((==_iff a.reg e.reg).0 same) (kept sides)
      | inr other ↦ elsewhere (λ (q : a.reg ≡ e.reg). ground arith)
    ]
