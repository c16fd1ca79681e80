-- ===== src/Link/Package.antt =====
-- `smile_fee_package` of FEE/smile_fee_rmap.c: a command and its data as one blob with checksums.
pub mod Laws
pub mod Arrives
use smile_fee.Base.{ℕ, ◌+◌, List, [], ◌∷◌, ◌++◌, Option, none, some, Bool, true, false, ◌||◌}
use smile_fee.Base.{◌==◌, if◌then◌else◌, length, get_elem?, drop}
use smile_fee.Rmap.Crc.{rmap_crc8}
use smile_fee.Rmap.Packet.{of_byte, is_null}
use smile_fee.Rmap.Header.{read_bytes}

-- The command codes of the `switch`.
unfoldable pub has_data_crc : ℕ → Bool
has_data_crc cmd =
    cmd == 0x7
    || (cmd == 0x8
        || (cmd == 0x9
            || (cmd == 0xc || (cmd == 0xd || (cmd == 0xe || (cmd == 0xf || cmd == 0xb))))))

-- The result for a null blob; `none` is a read outside of the command.
unfoldable pub smile_fee_package_size : List ℕ → ℕ → Option (List ℕ) → ℕ → Option ℕ
unfolding has_data_crc
smile_fee_package_size cmd non_crc_bytes bytes data_size =
    if length cmd == 0 then some 0 else elim (get_elem? cmd (non_crc_bytes + 2)) [
      | none ↦ none
      | some instruction ↦ some (
          length cmd
          + 1
          + (if has_data_crc (of_byte instruction).cmd then 1 else 0)
          + (if is_null bytes then 0 else data_size))
    ]

-- What follows the header checksum.
unfoldable pub package_data : ℕ → Option (List ℕ) → ℕ → Option (List ℕ)
unfolding has_data_crc read_bytes
package_data cmd none data_size = some (if has_data_crc cmd then 0x0 ∷ [] else [])
package_data cmd (some bytes) data_size = elim (read_bytes (some bytes) data_size) [
  | none ↦ none
  | some read ↦ some (read ++ (rmap_crc8 (some read) ∷ []))
]

-- The bytes written from the start of the blob on; `none` is a read outside of the command or the
-- data.
unfoldable pub smile_fee_package : List ℕ → ℕ → Option (List ℕ) → ℕ → Option (List ℕ)
unfolding package_data
smile_fee_package cmd non_crc_bytes bytes data_size =
    if length cmd == 0 then some [] else elim (get_elem? cmd (non_crc_bytes + 2)) [
      | none ↦ none
      | some instruction ↦ elim (package_data (of_byte instruction).cmd bytes data_size) [
        | none ↦ none
        | some rest ↦ some (cmd ++ (rmap_crc8 (some (drop non_crc_bytes cmd)) ∷ rest))
      ]
    ]
