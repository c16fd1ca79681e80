-- ===== src/Ctrl/Sram/Termination.antt =====
-- The transfers between the mirror of the SRAM and the FEE come to an end, and what they exchange.
use smile_fee.Base.{ℕ, zero, suc, ◌+◌, ◌-◌, ◌≤◌, ◌<◌, List, [], ◌∷◌, Option, some}
use smile_fee.Base.{true, false, ◌==◌, leb, ℤ, pos}
use smile_fee.Base.{some_inj, ◌≡◌, refl, ap, ◌∙◌, arith}
use smile_fee.Ctrl.Sram.Transfer.{Sender, Progress, returned, react}
use smile_fee.Ctrl.Sram.Transfer.{rest_loop, chunk_loop}

-- Pieces with an offset and a length that cover the bytes from `from` to `to`, one behind the
-- other, none empty and none longer than `most`.
pub data Cover (most : ℕ) : List (ℕ × ℕ) → ℕ → ℕ → Type 0 where
  complete : (at : ℕ) → Cover most [] at at
  piece :
      (n from to : ℕ) (ps : List (ℕ × ℕ))
      → 0 < n
      → n ≤ most
      → Cover most ps (from + n) to
      → Cover most ((from, n) ∷ ps) from to

module _ {S : Type 0} (x : Sender S) (settled : ℕ → S → Option S) where
  -- From some number of rounds on, waiting ends in the state `out`.
  pub record Settles (s out : S) : Type 0 where
    pub rounds : ℕ
    pub ends : (fuel : ℕ) → rounds ≤ fuel → settled fuel s ≡ some out

  -- A call that is made until it is accepted; in between the slots are busy.
  pub data Accepted (remote local n : ℕ) : S → S → Type 0 where
    accepted :
        (s s' : S)
        → (x.sync_data remote local n s).0 ≡ some (pos 0)
        → Settles (x.sync_data remote local n s).1 s'
        → Accepted remote local n s s'
    busy :
        (s s' s'' : S) (k : ℕ)
        → (x.sync_data remote local n s).0 ≡ some (pos (suc k))
        → Settles (x.sync_data remote local n s).1 s'
        → Accepted remote local n s' s''
        → Accepted remote local n s s''

-- From some amount of fuel on, the result is `r`.
abbrev pub Eventually : {S : Type 0} → (ℕ → Progress × S) → Progress × S → Type 0
Eventually g r = (enough : ℕ) × ((fuel : ℕ) → enough ≤ fuel → g fuel ≡ r)

abbrev pub at_once : {S : Type 0} → ℕ → S → Option S
at_once fuel s = some s

module _ {S : Type 0} (x : Sender S) where
  after_react :
      (o : Option ℤ) (p : ℤ) (again next : S → Progress × S) (s : S)
      → o ≡ some p
      → react x o again next s ≡ react x (some p) again next s
  after_react o p again next s e = ap (λ t. react x t again next s) e

  pub rest_loop-nothing :
      (remote local : ℕ) (s : S) (fuel : ℕ)
      → 1 ≤ fuel
      → rest_loop x fuel remote local 0 s ≡ (returned (pos 0), s)
  unfolding rest_loop
  rest_loop-nothing remote local s zero h = absurd (omega arith)
  rest_loop-nothing remote local s (suc fuel) h = refl

  rest_loop-step :
      (remote local n fuel : ℕ) (s : S)
      → 0 < n
      → rest_loop x (suc fuel) remote local n s
        ≡ react x
            (x.sync_data remote local n s).0
            (rest_loop x fuel remote local n)
            (rest_loop x fuel remote local 0)
            (x.sync_data remote local n s).1
  unfolding rest_loop
  rest_loop-step remote local n fuel s h =
      let some_bytes : (n == 0) ≡ false = ground arith in rw (rest_loop, some_bytes)

  same_state : (s s' : S) → Settles x at_once s s' → s ≡ s'
  same_state s s' w = some_inj (w.ends w.rounds (omega arith))

  pub rest_loop-ends :
      (remote local n : ℕ) (s out : S)
      → 0 < n
      → Accepted x at_once remote local n s out
      → Eventually (λ fuel. rest_loop x fuel remote local n s) (returned (pos 0), out)
  rest_loop-ends remote local n _ _ h (accepted s out e w) = (2, go)
    where
      go : (fuel : ℕ) → 2 ≤ fuel → rest_loop x fuel remote local n s ≡ (returned (pos 0), out)
      go zero le = absurd (omega arith)
      go (suc fuel) le =
          rest_loop-step remote local n fuel s h
          ∙ after_react _ _ _ _ _ e
          ∙ rest_loop-nothing remote local _ fuel (omega arith)
          ∙ ap (λ t. (returned (pos 0), t)) (same_state _ out w)
  rest_loop-ends remote local n _ _ h (busy s s' out k e w more) =
      let rest = rest_loop-ends remote local n s' out h more in (suc rest.0, go rest.0 rest.1)
    where
      go :
          (enough : ℕ)
          → ((fuel : ℕ)
              → enough ≤ fuel
              → rest_loop x fuel remote local n s' ≡ (returned (pos 0), out))
          → (fuel : ℕ) → suc enough ≤ fuel
          → rest_loop x fuel remote local n s ≡ (returned (pos 0), out)
      go enough rest zero le = absurd (omega arith)
      go enough rest (suc fuel) le =
          rest_loop-step remote local n fuel s h
          ∙ after_react _ _ _ _ _ e
          ∙ ap (rest_loop x fuel remote local n) (same_state _ s' w)
          ∙ rest fuel (omega arith)

  module _ (settled : ℕ → S → Option S) (mtu addr local : ℕ) where
    -- The loop for full pieces, its round written out.
    pub chunk_loop-step :
        (sent tx fuel : ℕ) (s s' : S)
        → mtu ≤ tx
        → settled fuel (x.sync_data (addr + sent) (local + sent) mtu s).1 ≡ some s'
        → chunk_loop x settled mtu addr local (suc fuel) sent tx s
          ≡ react x
              (x.sync_data (addr + sent) (local + sent) mtu s).0
              (chunk_loop x settled mtu addr local fuel sent tx)
              (chunk_loop x settled mtu addr local fuel (sent + mtu) (tx - mtu))
              s'
    unfolding chunk_loop
    chunk_loop-step sent tx fuel s s' h e =
        let full : leb mtu tx ≡ true = ground arith in rw (chunk_loop, full, e)

    chunk_loop-rest :
        (sent tx fuel : ℕ) (s : S)
        → tx < mtu
        → chunk_loop x settled mtu addr local (suc fuel) sent tx s
          ≡ rest_loop x (suc fuel) (addr + sent) (local + sent) tx s
    unfolding chunk_loop
    chunk_loop-rest sent tx fuel s h =
        let part : leb mtu tx ≡ false = ground arith in rw (chunk_loop, part)

    -- A full piece that is accepted at last is followed by the others.
    pub chunk_loop-piece :
        (sent tx : ℕ) (s out : S) (r : Progress × S)
        → mtu ≤ tx
        → Accepted x settled (addr + sent) (local + sent) mtu s out
        → Eventually
            (λ fuel. chunk_loop x settled mtu addr local fuel (sent + mtu) (tx - mtu) out)
            r
        → Eventually (λ fuel. chunk_loop x settled mtu addr local fuel sent tx s) r
    chunk_loop-piece sent tx _ _ r h (accepted s out e w) rest = (suc (rest.0 + w.rounds), go)
      where
        go :
            (fuel : ℕ)
            → suc (rest.0 + w.rounds) ≤ fuel
            → chunk_loop x settled mtu addr local fuel sent tx s ≡ r
        go zero le = absurd (omega arith)
        go (suc fuel) le =
            chunk_loop-step sent tx fuel s out h (w.ends fuel (omega arith))
            ∙ after_react _ _ _ _ _ e
            ∙ rest.1 fuel (omega arith)
    chunk_loop-piece sent tx _ _ r h (busy s s' out k e w more) rest =
        let later = chunk_loop-piece sent tx s' out r h more rest in
        (suc (later.0 + w.rounds), go later.0 later.1)
      where
        go :
            (enough : ℕ)
            → ((fuel : ℕ) → enough ≤ fuel → chunk_loop x settled mtu addr local fuel sent tx s' ≡ r)
            → (fuel : ℕ) → suc (enough + w.rounds) ≤ fuel
            → chunk_loop x settled mtu addr local fuel sent tx s ≡ r
        go enough later zero le = absurd (omega arith)
        go enough later (suc fuel) le =
            chunk_loop-step sent tx fuel s s' h (w.ends fuel (omega arith))
            ∙ after_react _ _ _ _ _ e
            ∙ later fuel (omega arith)

    pub chunk_loop-ends :
        (sent tx : ℕ) (s : S) (r : Progress × S)
        → tx < mtu
        → Eventually (λ fuel. rest_loop x fuel (addr + sent) (local + sent) tx s) r
        → Eventually (λ fuel. chunk_loop x settled mtu addr local fuel sent tx s) r
    chunk_loop-ends sent tx s r h rest = (suc rest.0, go)
      where
        go : (fuel : ℕ) → suc rest.0 ≤ fuel → chunk_loop x settled mtu addr local fuel sent tx s ≡ r
        go zero le = absurd (omega arith)
        go (suc fuel) le = chunk_loop-rest sent tx fuel s h ∙ rest.1 (suc fuel) (omega arith)
