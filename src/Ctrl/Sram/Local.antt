-- ===== src/Ctrl/Sram/Local.antt =====
-- Reading and writing the local mirror of the SRAM, FEE/smile_fee_ctrl.c, on a little-endian host.
use smile_fee.Base.{ℕ, zero, suc, ◌+◌, ◌-◌, ◌*◌, ◌/◌, ◌%◌, ◌^◌, List, [], ◌∷◌, Option, none}
use smile_fee.Base.{some, Bool, not, ◌&&◌, ltb, if◌then◌else◌, take, u32, ℤ, pos, negsuc}
use smile_fee.Link.Receive.{memcpy}
use smile_fee.Ctrl.Swap.{be16_to_cpu, cpu_to_be16, cpu_to_be32}
use smile_fee.Ctrl.Mirror.{Mirror}

-- The addresses of FEE/smile_fee.h.
abbrev pub fee_sram_start : ℕ
fee_sram_start = 0x00800000

abbrev pub fee_sram_end : ℕ
fee_sram_end = 0x00BFFFFC + 1

abbrev pub fee_sram_size : ℕ
fee_sram_size = fee_sram_end - fee_sram_start

-- The checks of the range that all five functions make; `sum` is `addr + size` in the type that it
-- is computed in.
abbrev pub in_sram : ℕ → ℕ → ℕ → Bool
in_sram addr size sum =
    not (ltb addr fee_sram_start)
    && not (ltb fee_sram_end addr)
    && not (ltb fee_sram_size size)
    && not (ltb fee_sram_end sum)

unfoldable pub sram_bytes : (ℕ → ℕ) → ℕ → ℕ → List ℕ
sram_bytes memory a zero = []
sram_bytes memory a (suc n) = memory a ∷ sram_bytes memory (a + 1) n

-- The result, and what is copied into the buffer if there is one.
unfoldable pub smile_fee_read_sram : Bool → ℕ → ℕ → Mirror → ℤ × Option (List ℕ)
smile_fee_read_sram buf addr size m =
    if in_sram addr size (u32 (addr + size))
    then (pos size, if buf then some (sram_bytes m.sram (addr - fee_sram_start) size) else none)
    else (negsuc 0, none)

-- `memcpy` of the first `size` bytes of the buffer, which holds as many.
unfoldable pub smile_fee_write_sram : Option (List ℕ) → ℕ → ℕ → Mirror → ℤ × Mirror
smile_fee_write_sram none addr size m = (pos 0, m)
smile_fee_write_sram (some buf) addr size m =
    if in_sram addr size (u32 (addr + size))
    then (pos size, record m { sram = memcpy (addr - fee_sram_start) (take size buf) m.sram })
    else (negsuc 0, m)

-- `nmemb` elements from the address `a` on, each swapped.
unfoldable pub read_elements : (ℕ → ℕ) → ℕ → ℕ → List ℕ
read_elements memory a zero = []
read_elements memory a (suc n) =
    be16_to_cpu (memory a + memory (a + 1) * 2 ^ 8) ∷ read_elements memory (a + 2) n

-- `size` is a 64 bit number.
unfoldable pub smile_fee_read_sram_16 : ℕ → ℕ → Mirror → ℤ × List ℕ
smile_fee_read_sram_16 addr nmemb m =
    let size = 2 * nmemb % 2 ^ 64 in
    if in_sram addr size ((addr + size) % 2 ^ 64)
    then (pos size, read_elements m.sram (addr - fee_sram_start) nmemb)
    else (negsuc 0, [])

-- The bytes of a stored number of 16 and of 32 bits.
abbrev pub stored16 : ℕ → List ℕ
stored16 x = x % 2 ^ 8 ∷ x / 2 ^ 8 ∷ []

abbrev pub stored32 : ℕ → List ℕ
stored32 x = x % 2 ^ 8 ∷ x / 2 ^ 8 % 2 ^ 8 ∷ x / 2 ^ 16 % 2 ^ 8 ∷ x / 2 ^ 24 ∷ []

unfoldable pub write_elements_16 : List ℕ → ℕ → (ℕ → ℕ) → ℕ → ℕ
write_elements_16 [] a memory = memory
write_elements_16 (v ∷ vs) a memory =
    write_elements_16 vs (a + 2) (memcpy a (stored16 (cpu_to_be16 v)) memory)

unfoldable pub write_elements_32 : List ℕ → ℕ → (ℕ → ℕ) → ℕ → ℕ
write_elements_32 [] a memory = memory
write_elements_32 (v ∷ vs) a memory =
    write_elements_32 vs (a + 4) (memcpy a (stored32 (cpu_to_be32 v)) memory)

unfoldable pub smile_fee_write_sram_16 : Option (List ℕ) → ℕ → ℕ → Mirror → ℤ × Mirror
smile_fee_write_sram_16 none addr nmemb m = (pos 0, m)
smile_fee_write_sram_16 (some buf) addr nmemb m =
    let size = 2 * nmemb % 2 ^ 64 in
    if in_sram addr size ((addr + size) % 2 ^ 64)
    then (
      pos size,
      record m { sram = write_elements_16 (take nmemb buf) (addr - fee_sram_start) m.sram },
    )
    else (negsuc 0, m)

-- The size is computed for elements of 16 bits.
unfoldable pub smile_fee_write_sram_32 : Option (List ℕ) → ℕ → ℕ → Mirror → ℤ × Mirror
smile_fee_write_sram_32 none addr nmemb m = (pos 0, m)
smile_fee_write_sram_32 (some buf) addr nmemb m =
    let size = 2 * nmemb % 2 ^ 64 in
    if in_sram addr size ((addr + size) % 2 ^ 64)
    then (
      pos size,
      record m { sram = write_elements_32 (take nmemb buf) (addr - fee_sram_start) m.sram },
    )
    else (negsuc 0, m)

-- The registers with the SRAM area, if it could be allocated.
abbrev pub init_area : (ℕ → ℕ) → Bool → Option ((ℕ → ℕ) × Option (ℕ → ℕ))
init_area word malloc_ok = some (word, if malloc_ok then some (λ i. 0) else none)

-- The mirror after the call: the given registers, or cleared ones that are allocated.
unfoldable pub smile_fee_ctrl_init :
    Option (ℕ → ℕ) → Bool → Bool → Option ((ℕ → ℕ) × Option (ℕ → ℕ))
smile_fee_ctrl_init (some word) calloc_ok malloc_ok = init_area word malloc_ok
smile_fee_ctrl_init none calloc_ok malloc_ok =
    if calloc_ok then init_area (λ a. 0) malloc_ok else none
