-- ===== src/Ctrl/Sram/Bytes.antt =====
-- The elements that FEE/smile_fee_ctrl.c writes to the mirror of the SRAM, as big-endian bytes.
use smile_fee.Base.{ℕ, zero, suc, ◌+◌, ◌-◌, ◌*◌, ◌/◌, ◌%◌, ◌^◌, ◌≤◌, ◌<◌, List, [], ◌∷◌, ◌++◌, All}
use smile_fee.Base.{ltb, Bool-cases, length, get_or, length-append}
use smile_fee.Base.{◌≡◌, inl, inr, refl, sym, ap, ap₂, ◌∙◌, arith, u16}
use smile_fee.Link.Receive.{memcpy}
use smile_fee.Link.Receive.Laws.{memcpy_inside, memcpy_outside}
use smile_fee.Ctrl.Swap.{cpu_to_be16, cpu_to_be32, swab16-eq, swab32-eq}
use smile_fee.Ctrl.Sram.Local.{read_elements, write_elements_16, write_elements_32}
use smile_fee.Ctrl.Sram.Local.{stored16, stored32}

-- The most significant byte first.
abbrev pub big_endian_16 : List ℕ → List ℕ
big_endian_16 [] = []
big_endian_16 (v ∷ vs) = v / 2 ^ 8 % 2 ^ 8 ∷ v % 2 ^ 8 ∷ big_endian_16 vs

abbrev pub big_endian_32 : List ℕ → List ℕ
big_endian_32 [] = []
big_endian_32 (v ∷ vs) =
    v / 2 ^ 24 % 2 ^ 8 ∷ v / 2 ^ 16 % 2 ^ 8 ∷ v / 2 ^ 8 % 2 ^ 8 ∷ v % 2 ^ 8 ∷ big_endian_32 vs

pub length-big_endian_16 : (vs : List ℕ) → length (big_endian_16 vs) ≡ 2 * length vs
length-big_endian_16 [] = refl
length-big_endian_16 (v ∷ vs) = omega (arith, length-big_endian_16 vs)

pub length-big_endian_32 : (vs : List ℕ) → length (big_endian_32 vs) ≡ 4 * length vs
length-big_endian_32 [] = refl
length-big_endian_32 (v ∷ vs) = omega (arith, length-big_endian_32 vs)

stored16-swapped : (v : ℕ) → stored16 (cpu_to_be16 v) ≡ v / 2 ^ 8 % 2 ^ 8 ∷ v % 2 ^ 8 ∷ []
stored16-swapped v =
    ap₂ (λ (a b : ℕ). a ∷ b ∷ []) (omega (arith, swab16-eq v)) (omega (arith, swab16-eq v))

get_or-append_left :
    (xs ys : List ℕ) (k : ℕ) → k < length xs → get_or (xs ++ ys) k 0 ≡ get_or xs k 0
get_or-append_left [] ys k h = absurd (omega arith)
get_or-append_left (x ∷ xs) ys zero h = refl
get_or-append_left (x ∷ xs) ys (suc k) h = get_or-append_left xs ys k (omega arith)

get_or-append_right :
    (xs ys : List ℕ) (k : ℕ) → length xs ≤ k → get_or (xs ++ ys) k 0 ≡ get_or ys (k - length xs) 0
get_or-append_right [] ys k h = ap (λ i. get_or ys i 0) (omega arith)
get_or-append_right (x ∷ xs) ys zero h = absurd (omega arith)
get_or-append_right (x ∷ xs) ys (suc k) h =
    get_or-append_right xs ys k (omega arith) ∙ ap (λ i. get_or ys i 0) (omega arith)

-- What `memcpy` stores at an address, or leaves there.
memcpy-at :
    (dst : ℕ) (bytes : List ℕ) (memory : ℕ → ℕ) (a : ℕ)
    → dst ≤ a
    → a < dst + length bytes
    → memcpy dst bytes memory a ≡ get_or bytes (a - dst) 0
memcpy-at dst bytes memory a low high =
    ap (memcpy dst bytes memory) (omega arith)
    ∙ memcpy_inside dst bytes memory (a - dst) (omega arith)

-- Two blocks one behind the other are one block.
memcpy-append :
    (dst : ℕ) (xs ys : List ℕ) (memory : ℕ → ℕ) (a : ℕ)
    → memcpy (dst + length xs) ys (memcpy dst xs memory) a ≡ memcpy dst (xs ++ ys) memory a
memcpy-append dst xs ys memory a = elim (Bool-cases (ltb a dst)) [
  | inl below ↦
      memcpy_outside (dst + length xs) ys inner a (inl (ground arith))
      ∙ memcpy_outside dst xs memory a (inl (ground arith))
      ∙ sym (memcpy_outside dst (xs ++ ys) memory a (inl (ground arith)))
  | inr from ↦ elim (Bool-cases (ltb a (dst + length xs))) [
    | inl first ↦
        memcpy_outside (dst + length xs) ys inner a (inl (ground arith))
        ∙ memcpy-at dst xs memory a (ground arith) (ground arith)
        ∙ sym (get_or-append_left xs ys (a - dst) (ground arith))
        ∙ sym (memcpy-at dst (xs ++ ys) memory a (ground arith) (ground (arith, total)))
    | inr behind ↦ elim (Bool-cases (ltb a (dst + length xs + length ys))) [
      | inl second ↦
          memcpy-at (dst + length xs) ys inner a (ground arith) (ground arith)
          ∙ ap (λ i. get_or ys i 0) (omega arith)
          ∙ sym (get_or-append_right xs ys (a - dst) (ground arith))
          ∙ sym (memcpy-at dst (xs ++ ys) memory a (ground arith) (ground (arith, total)))
      | inr above ↦
          memcpy_outside (dst + length xs) ys inner a (inr (ground arith))
          ∙ memcpy_outside dst xs memory a (inr (ground arith))
          ∙ sym (memcpy_outside dst (xs ++ ys) memory a (inr (ground (arith, total))))
    ]
  ]
]
  where
    inner : ℕ → ℕ
    inner = memcpy dst xs memory

    total : length (xs ++ ys) ≡ length xs + length ys
    total = length-append xs ys

memcpy-nil : (dst : ℕ) (memory : ℕ → ℕ) (a : ℕ) → memcpy dst [] memory a ≡ memory a
memcpy-nil dst memory a = memcpy_outside dst [] memory a (elim (Bool-cases (ltb a dst)) [
  | inl below ↦ inl (ground arith)
  | inr from ↦ inr (ground arith)
])

pub write_elements_16-eq :
    (vs : List ℕ) (dst : ℕ) (memory : ℕ → ℕ) (a : ℕ)
    → write_elements_16 vs dst memory a ≡ memcpy dst (big_endian_16 vs) memory a
unfolding write_elements_16
write_elements_16-eq [] dst memory a = sym (memcpy-nil dst memory a)
write_elements_16-eq (v ∷ vs) dst memory a =
    write_elements_16-eq vs (dst + 2) (memcpy dst (stored16 (cpu_to_be16 v)) memory) a
    ∙ ap (λ bytes. memcpy (dst + 2) (big_endian_16 vs) (memcpy dst bytes memory) a)
        (stored16-swapped v)
    ∙ memcpy-append dst (v / 2 ^ 8 % 2 ^ 8 ∷ v % 2 ^ 8 ∷ []) (big_endian_16 vs) memory a

stored32-swapped :
    (v : ℕ)
    → stored32 (cpu_to_be32 v)
      ≡ v / 2 ^ 24 % 2 ^ 8 ∷ v / 2 ^ 16 % 2 ^ 8 ∷ v / 2 ^ 8 % 2 ^ 8 ∷ v % 2 ^ 8 ∷ []
stored32-swapped v =
    ap₂ (λ (a : ℕ) (bs : List ℕ). a ∷ bs) (omega (arith, swab32-eq v))
      (ap₂ (λ (a : ℕ) (bs : List ℕ). a ∷ bs) (omega (arith, swab32-eq v))
        (ap₂ (λ (a b : ℕ). a ∷ b ∷ []) (omega (arith, swab32-eq v)) (omega (arith, swab32-eq v))))

pub write_elements_32-eq :
    (vs : List ℕ) (dst : ℕ) (memory : ℕ → ℕ) (a : ℕ)
    → write_elements_32 vs dst memory a ≡ memcpy dst (big_endian_32 vs) memory a
unfolding write_elements_32
write_elements_32-eq [] dst memory a = sym (memcpy-nil dst memory a)
write_elements_32-eq (v ∷ vs) dst memory a =
    write_elements_32-eq vs (dst + 4) (memcpy dst (stored32 (cpu_to_be32 v)) memory) a
    ∙ ap (λ bytes. memcpy (dst + 4) (big_endian_32 vs) (memcpy dst bytes memory) a)
        (stored32-swapped v)
    ∙ memcpy-append dst
        (v / 2 ^ 24 % 2 ^ 8 ∷ v / 2 ^ 16 % 2 ^ 8 ∷ v / 2 ^ 8 % 2 ^ 8 ∷ v % 2 ^ 8 ∷ [])
        (big_endian_32 vs) memory a

-- Elements that lie in the memory as big-endian bytes are read back.
pub read_elements-eq :
    (vs : List ℕ) (memory : ℕ → ℕ) (a : ℕ)
    → All (λ v. v < 2 ^ 16) vs
    → ((k : ℕ) → k < 2 * length vs → memory (a + k) ≡ get_or (big_endian_16 vs) k 0)
    → read_elements memory a (length vs) ≡ vs
unfolding read_elements
read_elements-eq [] memory a small h = refl
read_elements-eq (v ∷ vs) memory a small h =
    ap₂ (λ (x : ℕ) (xs : List ℕ). x ∷ xs)
      (omega (
        arith,
        small.0,
        ap memory first,
        h 0 (omega arith),
        h 1 (omega arith),
        swab16-eq (u16 (memory a + memory (a + 1) * 2 ^ 8)),
      ))
      (read_elements-eq vs memory (a + 2) small.1
        (λ k lt. ap memory (omega arith) ∙ h (suc (suc k)) (omega arith)))
  where
    first : a + 0 ≡ a
    first = omega arith
