-- ===== src/Rmap/Crc/Laws.antt =====
-- What the checksum of FEE/rmap.c computes and detects.
use smile_fee.Base.{ℕ, zero, suc, ◌+◌, ◌*◌, ◌/◌, ◌%◌, bit_xor, List, [], ◌∷◌, ◌++◌}
use smile_fee.Base.{true, some, ◌≡◌, ◌≢◌, refl, ap, ◌∙◌, sym, arith}
use smile_fee.Base.{◌==◌, ==_iff, if◌then◌else◌, get_or, All, IsByte}
use smile_fee.Base.{all_below, all_below-true}
use smile_fee.Bits.{zero-bit_xor, bit_xor-lt, bit_xor-cancel, bit_xor_comm}
use smile_fee.Rmap.Crc.{crc8_lt, crc8_next, crc8_loop, rmap_crc8}

-- A division step of the reflected polynomial x^8 + x^2 + x + 1.
abbrev pub shift_out : ℕ → ℕ
shift_out c = if c % 2 == 1 then bit_xor (c / 2) 0xe0 else c / 2

abbrev pub shift_out_bits : ℕ → ℕ → ℕ
shift_out_bits zero c = c
shift_out_bits (suc n) c = shift_out_bits n (shift_out c)

-- The checksum without a table, bit by bit.
pub crc8_bitwise : ℕ → List ℕ → ℕ
crc8_bitwise c [] = c
crc8_bitwise c (x ∷ xs) = crc8_bitwise (shift_out_bits 8 (bit_xor c x)) xs

-- A division step can be undone: the top bit tells whether the polynomial was subtracted.
abbrev shift_in : ℕ → ℕ
shift_in c = if c / 128 == 1 then bit_xor c 0xe0 * 2 + 1 else c * 2

abbrev shift_in_bits : ℕ → ℕ → ℕ
shift_in_bits zero c = c
shift_in_bits (suc n) c = shift_in_bits n (shift_in c)

table : all_below 256 (λ c. get_or crc8_lt c 0 == shift_out_bits 8 c) ≡ true
unfolding all_below crc8_lt
table = refl

table_bounds : all_below 256 (λ c. get_or crc8_lt c 0 / 256 == 0) ≡ true
unfolding all_below crc8_lt
table_bounds = refl

table_inverse : all_below 256 (λ c. shift_in_bits 8 (get_or crc8_lt c 0) == c) ≡ true
unfolding all_below crc8_lt
table_inverse = refl

next-eq-bits : (c x : ℕ) → IsByte c → IsByte x → crc8_next c x ≡ shift_out_bits 8 (bit_xor c x)
unfolding crc8_next
next-eq-bits c x hc hx =
    (==_iff _ _).0 (all_below-true 256 _ (bit_xor c x) table (bit_xor-lt 8 c x hc hx))

next-IsByte : (c x : ℕ) → IsByte c → IsByte x → IsByte (crc8_next c x)
unfolding crc8_next
next-IsByte c x hc hx =
    let fits =
      (==_iff _ _).0 (all_below-true 256 _ (bit_xor c x) table_bounds (bit_xor-lt 8 c x hc hx)) in
    omega arith

-- The index of a table entry can be had back from the entry.
next-inverse : (c x : ℕ) → IsByte c → IsByte x → shift_in_bits 8 (crc8_next c x) ≡ bit_xor c x
unfolding crc8_next
next-inverse c x hc hx =
    (==_iff _ _).0 (all_below-true 256 _ (bit_xor c x) table_inverse (bit_xor-lt 8 c x hc hx))

pub loop-IsByte : (c : ℕ) (xs : List ℕ) → IsByte c → All IsByte xs → IsByte (crc8_loop c xs)
unfolding crc8_loop
loop-IsByte c [] hc hs = hc
loop-IsByte c (x ∷ xs) hc hs = loop-IsByte (crc8_next c x) xs (next-IsByte c x hc hs.0) hs.1

-- On bytes, the loop over the table is the bitwise division by the polynomial.
loop-eq-bitwise :
    (c : ℕ) (xs : List ℕ) → IsByte c → All IsByte xs → crc8_loop c xs ≡ crc8_bitwise c xs
unfolding crc8_loop crc8_bitwise
loop-eq-bitwise c [] hc hs = refl
loop-eq-bitwise c (x ∷ xs) hc hs =
    loop-eq-bitwise (crc8_next c x) xs (next-IsByte c x hc hs.0) hs.1
    ∙ ap (λ t. crc8_bitwise t xs) (next-eq-bits c x hc hs.0)

-- For a buffer of bytes `rmap_crc8`, which reads a table, returns the remainder that the
-- bit-by-bit division by the reflected polynomial x^8 + x^2 + x + 1 (0xE0) leaves.
pub rmap_crc8-eq-bitwise :
    (buf : List ℕ) → All IsByte buf → rmap_crc8 (some buf) ≡ crc8_bitwise 0 buf
unfolding rmap_crc8
rmap_crc8-eq-bitwise buf hs = loop-eq-bitwise 0 buf (omega arith) hs

pub loop-append : (c : ℕ) (xs ys : List ℕ) → crc8_loop c (xs ++ ys) ≡ crc8_loop (crc8_loop c xs) ys
unfolding crc8_loop
loop-append c [] ys = refl
loop-append c (x ∷ xs) ys = loop-append (crc8_next c x) xs ys

next_self : (c : ℕ) → IsByte c → crc8_next c c ≡ 0
unfolding crc8_next crc8_lt
next_self c hc = rw same
  where
    same : bit_xor c c ≡ 0
    same = ap (λ t. bit_xor t c) (sym (zero-bit_xor 8 c hc)) ∙ bit_xor-cancel 8 0 c (omega arith) hc

-- A buffer of bytes that is followed by its own checksum has the checksum 0.
pub rmap_crc8-append_self :
    (buf : List ℕ) → All IsByte buf → rmap_crc8 (some (buf ++ rmap_crc8 (some buf) ∷ [])) ≡ 0
unfolding rmap_crc8
rmap_crc8-append_self buf hs =
    loop-append 0 buf (crc8_loop 0 buf ∷ [])
    ∙ unfold crc8_loop in next_self (crc8_loop 0 buf) (loop-IsByte 0 buf (omega arith) hs)

xor-left_injective :
    (c x y : ℕ) → IsByte c → IsByte x → IsByte y → bit_xor c x ≡ bit_xor c y → x ≡ y
xor-left_injective c x y hc hx hy e =
    sym (bit_xor-cancel 8 x c hx hc)
    ∙ ap (λ t. bit_xor t c) (bit_xor_comm 8 x c hx hc ∙ e ∙ bit_xor_comm 8 c y hc hy)
    ∙ bit_xor-cancel 8 y c hy hc

next-byte_injective :
    (c x y : ℕ) → IsByte c → IsByte x → IsByte y → crc8_next c x ≡ crc8_next c y → x ≡ y
next-byte_injective c x y hc hx hy e =
    xor-left_injective c x y hc hx hy
      (sym (next-inverse c x hc hx) ∙ ap (shift_in_bits 8) e ∙ next-inverse c y hc hy)

next-state_injective :
    (c d x : ℕ) → IsByte c → IsByte d → IsByte x → crc8_next c x ≡ crc8_next d x → c ≡ d
next-state_injective c d x hc hd hx e =
    sym (bit_xor-cancel 8 c x hc hx)
    ∙ ap (λ t. bit_xor t x)
        (sym (next-inverse c x hc hx) ∙ ap (shift_in_bits 8) e ∙ next-inverse d x hd hx)
    ∙ bit_xor-cancel 8 d x hd hx

loop-state_injective :
    (c d : ℕ) (xs : List ℕ)
    → IsByte c
    → IsByte d
    → All IsByte xs
    → crc8_loop c xs ≡ crc8_loop d xs
    → c ≡ d
unfolding crc8_loop
loop-state_injective c d [] hc hd hs e = e
loop-state_injective c d (x ∷ xs) hc hd hs e = next-state_injective c d x hc hd hs.0 (
    loop-state_injective (crc8_next c x) (crc8_next d x) xs (next-IsByte c x hc hs.0)
      (next-IsByte d x hd hs.0) hs.1 e)

-- Two buffers of bytes that differ in exactly one byte have different checksums: every error
-- confined to a single byte is detected, wherever it stands.
pub rmap_crc8_single_byte :
    (before after : List ℕ) (x y : ℕ)
    → All IsByte before
    → All IsByte after
    → IsByte x
    → IsByte y
    → x ≢ y
    → rmap_crc8 (some (before ++ x ∷ after)) ≢ rmap_crc8 (some (before ++ y ∷ after))
unfolding rmap_crc8
rmap_crc8_single_byte before after x y hb ha hx hy ne e = ne (
    next-byte_injective c x y hc hx hy (
      loop-state_injective (crc8_next c x) (crc8_next c y) after (next-IsByte c x hc hx)
        (next-IsByte c y hc hy) ha (rest x ∙ e ∙ sym (rest y))))
  where
    c : ℕ
    c = crc8_loop 0 before

    hc : IsByte c
    hc = loop-IsByte 0 before (omega arith) hb

    rest : (z : ℕ) → crc8_loop (crc8_next c z) after ≡ crc8_loop 0 (before ++ z ∷ after)
    rest z = (unfold crc8_loop in refl) ∙ sym (loop-append 0 before (z ∷ after))
