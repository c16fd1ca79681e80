-- ===== src/Link/Package/Laws.antt =====
-- The size and the content of the blob that `smile_fee_package` of FEE/smile_fee_rmap.c writes.
use smile_fee.Base.{ℕ, ◌+◌, ◌<◌, List, [], ◌∷◌, ◌++◌, Option, none, some, false}
use smile_fee.Base.{◌==◌, if◌then◌else◌, length, get_elem?, drop, ◌≡◌, ap, sym, ◌∙◌, arith}
use smile_fee.Base.{Bool-cases, Option-cases, inl, inr, length-append}
use mathlib.Core.Option
use smile_fee.Rmap.Crc.{rmap_crc8}
use smile_fee.Rmap.Packet.{of_byte, is_null}
use smile_fee.Rmap.Header.{read_bytes}
use smile_fee.Rmap.Header.Laws.{length-read_bytes}
use smile_fee.Link.Package.{has_data_crc, smile_fee_package_size, package_data, smile_fee_package}

-- The bytes that are written behind the announced size.
abbrev pub overrun : ℕ → Option (List ℕ) → ℕ
overrun cmd none = 0
overrun cmd (some bytes) = if has_data_crc cmd then 0 else 1

length-package_data :
    (cmd : ℕ) (bytes : Option (List ℕ)) (data_size : ℕ) (rest : List ℕ)
    → package_data cmd bytes data_size ≡ some rest
    → length rest
      ≡ (if has_data_crc cmd then 1 else 0)
        + (if is_null bytes then 0 else data_size)
        + overrun cmd bytes
unfolding package_data
length-package_data cmd none data_size rest e = elim (Bool-cases (has_data_crc cmd)) [
  | inl has ↦ rw has (sym (size_of (rw has at e)))
  | inr without ↦ rw without (sym (size_of (rw without at e)))
]
  where
    size_of : {xs ys : List ℕ} → some xs ≡ some ys → length xs ≡ length ys
    size_of h = ap (λ o. length (Option.get_or o [])) h
length-package_data cmd (some bytes) data_size rest e =
    elim (Option-cases (read_bytes (some bytes) data_size)) [
      | inl short ↦ cc (rw (package_data, short) at e)
      | inr (read, whole) ↦ elim (Bool-cases (has_data_crc cmd)) [
        | inl has ↦ rw has (omega (arith, sizes read whole))
        | inr without ↦ rw without (omega (arith, sizes read whole))
      ]
    ]
  where
    sizes :
        (read : List ℕ)
        → read_bytes (some bytes) data_size ≡ some read
        → length rest ≡ data_size + 1
    sizes read whole =
        sym (ap (λ o. length (Option.get_or o [])) (rw (whole, package_data) at e))
        ∙ omega (
          arith,
          length-append read (rmap_crc8 (some read) ∷ []),
          length-read_bytes (some bytes) data_size read whole,
        )

-- What a call with a non-empty command has written.
pub record Packaged (cmd : List ℕ) (non_crc_bytes : ℕ) (bytes : Option (List ℕ)) (data_size : ℕ)
    (blob : List ℕ) : Type 0 where
  pub instruction : ℕ
  pub found : get_elem? cmd (non_crc_bytes + 2) ≡ some instruction
  pub rest : List ℕ
  pub read : package_data (of_byte instruction).cmd bytes data_size ≡ some rest
  pub written : cmd ++ (rmap_crc8 (some (drop non_crc_bytes cmd)) ∷ rest) ≡ blob

package-Packaged :
    (cmd : List ℕ) (non_crc_bytes : ℕ) (bytes : Option (List ℕ)) (data_size : ℕ) (blob : List ℕ)
    → 0 < length cmd
    → smile_fee_package cmd non_crc_bytes bytes data_size ≡ some blob
    → Packaged cmd non_crc_bytes bytes data_size blob
unfolding smile_fee_package
package-Packaged cmd non_crc_bytes bytes data_size blob some_bytes e =
    elim (Option-cases (get_elem? cmd (non_crc_bytes + 2))) [
      | inl outside ↦ cc (rw (smile_fee_package, filled, outside) at e)
      | inr (instruction, found) ↦
          elim (Option-cases (package_data (of_byte instruction).cmd bytes data_size)) [
            | inl short ↦ cc (rw (smile_fee_package, filled, found, short) at e)
            | inr (rest, read) ↦ record {
              instruction = instruction;
              found = found;
              rest = rest;
              read = read;
              written =
                  ap (λ o. Option.get_or o []) (rw (smile_fee_package, filled, found, read) at e);
            }
          ]
    ]
  where
    filled : (length cmd == 0) ≡ false
    filled = ground arith

-- For a non-empty command, the number of bytes that `smile_fee_package` writes is the size that it
-- announces for a null blob, except where it is given data for a command whose code is not in its
-- list of commands with a data checksum: then it writes one byte more, behind the blob.
pub smile_fee_package-length :
    (cmd : List ℕ) (non_crc_bytes : ℕ) (bytes : Option (List ℕ)) (data_size : ℕ) (blob : List ℕ)
    (instruction : ℕ)
    → 0 < length cmd
    → get_elem? cmd (non_crc_bytes + 2) ≡ some instruction
    → smile_fee_package cmd non_crc_bytes bytes data_size ≡ some blob
    → Option.map
        (λ n. n + overrun (of_byte instruction).cmd bytes)
        (smile_fee_package_size cmd non_crc_bytes bytes data_size)
      ≡ some (length blob)
unfolding smile_fee_package_size
smile_fee_package-length cmd non_crc_bytes bytes data_size blob instruction some_bytes found e =
    rw (smile_fee_package_size, filled, found) (ap some sizes)
  where
    filled : (length cmd == 0) ≡ false
    filled = ground arith

    b : Packaged cmd non_crc_bytes bytes data_size blob
    b = package-Packaged cmd non_crc_bytes bytes data_size blob some_bytes e

    same : b.instruction ≡ instruction
    same = cc (b.found, found)

    sizes :
        length cmd
          + 1
          + (if has_data_crc (of_byte instruction).cmd then 1 else 0)
          + (if is_null bytes then 0 else data_size)
          + overrun (of_byte instruction).cmd bytes
        ≡ length blob
    sizes = omega (
      arith,
      ap length b.written,
      length-append cmd (rmap_crc8 (some (drop non_crc_bytes cmd)) ∷ b.rest),
      length-package_data (of_byte instruction).cmd bytes data_size b.rest
          (ap (λ i. package_data (of_byte i).cmd bytes data_size) (sym same) ∙ b.read),
    )
