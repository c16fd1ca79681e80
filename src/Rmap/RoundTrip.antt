-- ===== src/Rmap/RoundTrip.antt =====
-- `rmap_pkt_from_buffer` after `rmap_build_hdr`: which commands arrive, and what they carry.
pub mod Fields
pub mod Stages
pub mod Payload
use smile_fee.Base.{
  ℕ, ◌+◌, ◌≤◌, ◌<◌, List, [], ◌∷◌, ◌++◌, none, some, true, false, length, get_elem?,
}
use smile_fee.Base.{subst, sym}
use smile_fee.Base.{◌≡◌, refl, ap, ◌∙◌, arith, length-append, leb, ◌==◌}
use smile_fee.Rmap.Packet.{RmapPkt}
use smile_fee.Rmap.Header.{rmap_build_hdr}
use smile_fee.Rmap.Parse.{Outcome, fault, null, done, parse_data, rmap_pkt_from_buffer}
use smile_fee.Rmap.Parse.Bounds.{parse_data-cut}
use smile_fee.Rmap.RoundTrip.Stages.{command_bytes, measured, length-buffer}
use smile_fee.Rmap.RoundTrip.Payload.{IsCommand, all_ok, build-command_bytes, from_command}
use smile_fee.Rmap.RoundTrip.Payload.{payload_stage}

-- A command with a payload, as it stands in a buffer without a destination path: the header that
-- `rmap_build_hdr` wrote, any header checksum, the `data_len` bytes and whatever follows them. If
-- the allocations succeed, `rmap_pkt_from_buffer` returns a packet with every field of the
-- original, the payload, and the byte behind it as the payload's checksum; if no byte is behind it,
-- the checksum is read outside of the buffer. (Its header checksum is byte 11 of the buffer.) The
-- counter of packets of other protocols stays.
pub rmap_pkt_from_buffer-build_command :
    (pkt : RmapPkt) (rpath hdr bytes after : List ℕ) (crc cnt : ℕ)
    → IsCommand pkt rpath
    → rmap_build_hdr pkt ≡ some hdr
    → length bytes ≡ pkt.data_len
    → 0 < pkt.data_len
    → rmap_pkt_from_buffer all_ok cnt
        (some (hdr ++ (crc ∷ (bytes ++ after))))
        (length (hdr ++ (crc ∷ (bytes ++ after))))
      ≡ (
        cnt,
        elim (get_elem? after 0) [
          | none ↦ fault
          | some data_crc ↦ done (record pkt {
            rpath = some rpath;
            path = none;
            path_len = 0;
            payload = some bytes;
            hdr_crc = get_elem? (hdr ++ (crc ∷ (bytes ++ after))) 11;
            data_crc = some data_crc;
          })
        ],
      )
rmap_pkt_from_buffer-build_command pkt rpath hdr bytes after crc cnt c e filled some_data =
    subst
      (λ buf. rmap_pkt_from_buffer all_ok cnt (some buf) (length buf) ≡ (
        cnt,
        elim (get_elem? after 0) [
          | none ↦ fault
          | some data_crc ↦ done (record pkt {
            rpath = some rpath;
            path = none;
            path_len = 0;
            payload = some bytes;
            hdr_crc = get_elem? buf 11;
            data_crc = some data_crc;
          })
        ],
      ))
      (sym (build-command_bytes pkt rpath hdr (crc ∷ (bytes ++ after)) c e))
      (from_command pkt rpath (crc ∷ (bytes ++ after)) true cnt c
        ∙ ap (λ o. (cnt, o)) (payload_stage pkt rpath bytes after crc c filled some_data))

-- A command whose buffer holds no more bytes behind the header than `data_len` is rejected: the
-- null pointer is returned. As `data_len` of a read command is the number of bytes to read, and
-- only the header checksum follows the header, every read of at least one byte is among them.
pub rmap_pkt_from_buffer-build_short :
    (pkt : RmapPkt) (rpath hdr rest : List ℕ) (cnt : ℕ)
    → IsCommand pkt rpath
    → rmap_build_hdr pkt ≡ some hdr
    → length rest ≤ pkt.data_len
    → 0 < pkt.data_len
    → rmap_pkt_from_buffer all_ok cnt (some (hdr ++ rest)) (length (hdr ++ rest)) ≡ (cnt, null)
rmap_pkt_from_buffer-build_short pkt rpath hdr rest cnt c e short some_data =
    rw (build-command_bytes pkt rpath hdr rest c e) (
      from_command pkt rpath rest true cnt c
      ∙ ap (λ o. (cnt, o))
          (parse_data-cut true _ _ (measured pkt rpath) (omega (arith, size)) not_empty
            (rw not_reply cut)))
  where
    not_empty : (pkt.data_len == 0) ≡ false
    not_empty = ground arith

    not_reply : (pkt.ri.cmd_resp == 0) ≡ false
    not_reply = rw c.command

    size : length (command_bytes pkt rpath rest) ≡ 15 + pkt.rpath_len + length rest
    size = length-buffer pkt rpath rest c.wire (rw c.command) c.counted c.words

    cut :
        leb (12 + (pkt.rpath_len + 4) + pkt.data_len) (length (command_bytes pkt rpath rest))
        ≡ false
    cut = ground (arith, size)
