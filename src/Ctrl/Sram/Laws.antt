-- ===== src/Ctrl/Sram/Laws.antt =====
-- What the functions of FEE/smile_fee_ctrl.c do to the mirror of the SRAM.
use smile_fee.Base.{ℕ, ◌+◌, ◌-◌, ◌*◌, ◌%◌, ◌^◌, ◌≤◌, ◌<◌, List, [], Option, none, some, Bool, true}
use smile_fee.Base.{if◌then◌else◌, length, take, take_all, length-take, get_or, All}
use smile_fee.Base.{◌≡◌, inl, inr, refl, sym, ap, ap₂, ◌∙◌, arith, u32, ℤ, pos, negsuc}
use smile_fee.Base.{Bool-cases}
use mathlib.Core.Path.{fun_ext}
use smile_fee.Link.Receive.{memcpy}
use smile_fee.Link.Receive.Laws.{memcpy_inside, memcpy_outside}
use smile_fee.Ctrl.Mirror.{Mirror}
use smile_fee.Ctrl.Sram.Local.{fee_sram_start, fee_sram_end, fee_sram_size, in_sram}
use smile_fee.Ctrl.Sram.Local.{smile_fee_write_sram, smile_fee_write_sram_16}
use smile_fee.Ctrl.Sram.Local.{smile_fee_write_sram_32, smile_fee_read_sram_16, write_elements_16}
use smile_fee.Ctrl.Sram.Local.{write_elements_32, read_elements}
use smile_fee.Ctrl.Sram.Bytes.{big_endian_16, length-big_endian_16, write_elements_16-eq}
use smile_fee.Ctrl.Sram.Bytes.{big_endian_32, length-big_endian_32, write_elements_32-eq}
use smile_fee.Ctrl.Sram.Bytes.{read_elements-eq}

-- Where the other checks hold, the sum does not wrap.
in_sram-sum :
    (addr size : ℕ)
    → in_sram addr size ((addr + size) % 2 ^ 64) ≡ in_sram addr size (u32 (addr + size))
in_sram-sum addr size = ground arith

-- For a buffer of 16 bit numbers, `smile_fee_write_sram_16` does what `smile_fee_write_sram` does
-- for their big-endian bytes, whether the range is accepted or not.
pub smile_fee_write_sram_16-eq :
    (vs : List ℕ) (addr nmemb : ℕ) (m : Mirror)
    → length vs ≡ nmemb
    → nmemb < 2 ^ 63
    → smile_fee_write_sram_16 (some vs) addr nmemb m
      ≡ smile_fee_write_sram (some (big_endian_16 vs)) addr (2 * nmemb) m
unfolding smile_fee_write_sram_16 smile_fee_write_sram
smile_fee_write_sram_16-eq vs addr nmemb m e small =
    ap₂ (λ (b : Bool) (p : ℤ × Mirror). if b then p else (negsuc 0, m))
      (ap (λ z. in_sram addr z ((addr + z) % 2 ^ 64)) no_wrap ∙ in_sram-sum addr (2 * nmemb))
      (ap₂ (λ (z : ℕ) (f : ℕ → ℕ). (pos z, record m { sram = f })) no_wrap
        (fun_ext (λ i.
          ap (λ ws. write_elements_16 ws (addr - fee_sram_start) m.sram i)
            (take_all nmemb vs (omega arith))
          ∙ write_elements_16-eq vs (addr - fee_sram_start) m.sram i
          ∙ ap (λ bytes. memcpy (addr - fee_sram_start) bytes m.sram i)
              (sym (
                take_all (2 * nmemb) (big_endian_16 vs)
                  (omega (arith, e, length-big_endian_16 vs)))))))
  where
    no_wrap : 2 * nmemb % 2 ^ 64 ≡ 2 * nmemb
    no_wrap = omega arith

accepted :
    (addr size : ℕ)
    → fee_sram_start ≤ addr
    → addr + size ≤ fee_sram_end
    → in_sram addr size ((addr + size) % 2 ^ 64) ≡ true
accepted addr size low high = ground arith

within :
    (addr size : ℕ)
    → in_sram addr size (u32 (addr + size)) ≡ true
    → (fee_sram_start ≤ addr) × (addr + size ≤ fee_sram_end)
within addr size h = (ground arith, ground arith)

-- Whatever buffer, address and size it is given, `smile_fee_write_sram` changes no byte behind the
-- area of the SRAM's mirror.
pub smile_fee_write_sram-within :
    (buf : Option (List ℕ)) (addr size : ℕ) (m : Mirror) (i : ℕ)
    → fee_sram_size ≤ i
    → (smile_fee_write_sram buf addr size m).1.sram i ≡ m.sram i
unfolding smile_fee_write_sram
smile_fee_write_sram-within none addr size m i behind = refl
smile_fee_write_sram-within (some buf) addr size m i behind =
    elim (Bool-cases (in_sram addr size (u32 (addr + size)))) [
      | inr refused ↦ ap (λ b. (chosen b).1.sram i) refused
      | inl fits ↦
          ap (λ b. (chosen b).1.sram i) fits
          ∙ memcpy_outside (addr - fee_sram_start) (take size buf) m.sram i (
              inr (
                let range = within addr size fits in
                omega (arith, range.0, range.1, length-take size buf)))
    ]
  where
    chosen : Bool → ℤ × Mirror
    chosen b =
        if b
        then (pos size, record m { sram = memcpy (addr - fee_sram_start) (take size buf) m.sram })
        else (negsuc 0, m)

-- The three functions for elements in a range that is accepted.
module _ (vs : List ℕ) (addr : ℕ) (m : Mirror) (low : fee_sram_start ≤ addr)
    (high : addr + 2 * length vs ≤ fee_sram_end) where
  no_wrap : 2 * length vs % 2 ^ 64 ≡ 2 * length vs
  no_wrap = omega arith

  passes : in_sram addr (2 * length vs % 2 ^ 64) ((addr + 2 * length vs % 2 ^ 64) % 2 ^ 64) ≡ true
  passes =
      ap (λ z. in_sram addr z ((addr + z) % 2 ^ 64)) no_wrap
      ∙ accepted addr (2 * length vs) low high

  written_16 : smile_fee_write_sram_16 (some vs) addr (length vs) m ≡ (
    pos (2 * length vs),
    record m { sram = memcpy (addr - fee_sram_start) (big_endian_16 vs) m.sram },
  )
  unfolding smile_fee_write_sram_16
  written_16 =
      ap₂ (λ (b : Bool) (p : ℤ × Mirror). if b then p else (negsuc 0, m)) passes
        (ap₂ (λ (z : ℕ) (f : ℕ → ℕ). (pos z, record m { sram = f })) no_wrap
          (fun_ext (λ i.
            ap (λ ws. write_elements_16 ws (addr - fee_sram_start) m.sram i)
              (take_all (length vs) vs (omega arith))
            ∙ write_elements_16-eq vs (addr - fee_sram_start) m.sram i)))

  written_32 : smile_fee_write_sram_32 (some vs) addr (length vs) m ≡ (
    pos (2 * length vs),
    record m { sram = memcpy (addr - fee_sram_start) (big_endian_32 vs) m.sram },
  )
  unfolding smile_fee_write_sram_32
  written_32 =
      ap₂ (λ (b : Bool) (p : ℤ × Mirror). if b then p else (negsuc 0, m)) passes
        (ap₂ (λ (z : ℕ) (f : ℕ → ℕ). (pos z, record m { sram = f })) no_wrap
          (fun_ext (λ i.
            ap (λ ws. write_elements_32 ws (addr - fee_sram_start) m.sram i)
              (take_all (length vs) vs (omega arith))
            ∙ write_elements_32-eq vs (addr - fee_sram_start) m.sram i)))

  read_16 :
      smile_fee_read_sram_16 addr (length vs) m
      ≡ (pos (2 * length vs), read_elements m.sram (addr - fee_sram_start) (length vs))
  unfolding smile_fee_read_sram_16
  read_16 =
      ap₂
        (λ (b : Bool) (z : ℕ).
          (if b
            then (pos z, read_elements m.sram (addr - fee_sram_start) (length vs))
            else (negsuc 0, [])))
        passes no_wrap

-- What has been written to an accepted range as 16 bit numbers is read back.
pub read_sram_16-write_sram_16 :
    (vs : List ℕ) (addr : ℕ) (m : Mirror)
    → All (λ v. v < 2 ^ 16) vs
    → fee_sram_start ≤ addr
    → addr + 2 * length vs ≤ fee_sram_end
    → ((smile_fee_write_sram_16 (some vs) addr (length vs) m).0 ≡ pos (2 * length vs))
      × (smile_fee_read_sram_16 addr
            (length vs)
            (smile_fee_write_sram_16 (some vs) addr (length vs) m).1
          ≡ (pos (2 * length vs), vs))
read_sram_16-write_sram_16 vs addr m small low high =
    let place = addr - fee_sram_start in
    (
      ap (λ p. p.0) (written_16 vs addr m low high),
      ap (λ p. smile_fee_read_sram_16 addr (length vs) p.1) (written_16 vs addr m low high)
          ∙ read_16 vs addr (record m { sram = memcpy place (big_endian_16 vs) m.sram }) low high
          ∙ ap (λ ws. (pos (2 * length vs), ws))
              (read_elements-eq vs (memcpy place (big_endian_16 vs) m.sram) place small (λ k h.
                memcpy_inside place (big_endian_16 vs) m.sram k
                  (omega (arith, length-big_endian_16 vs)))),
    )

-- For 32 bit numbers the checks and the result count two bytes for each of them: in a range that is
-- accepted all four bytes of each number are written, also behind the area, and half of them are
-- reported.
pub smile_fee_write_sram_32-doubled :
    (vs : List ℕ) (addr : ℕ) (m : Mirror) (k : ℕ)
    → fee_sram_start ≤ addr
    → addr + 2 * length vs ≤ fee_sram_end
    → k < 4 * length vs
    → ((smile_fee_write_sram_32 (some vs) addr (length vs) m).0 ≡ pos (2 * length vs))
      × ((smile_fee_write_sram_32 (some vs) addr (length vs) m).1.sram (addr - fee_sram_start + k)
          ≡ get_or (big_endian_32 vs) k 0)
smile_fee_write_sram_32-doubled vs addr m k low high h = (
  ap (λ p. p.0) (written_32 vs addr m low high),
  ap (λ p. p.1.sram (addr - fee_sram_start + k)) (written_32 vs addr m low high)
      ∙ memcpy_inside (addr - fee_sram_start) (big_endian_32 vs) m.sram k
          (omega (arith, length-big_endian_32 vs)),
)
