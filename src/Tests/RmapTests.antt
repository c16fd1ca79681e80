-- ===== src/Tests/RmapTests.antt =====
-- The theorems on FEE/rmap.c at concrete packets.
use smile_fee.Base.{pos}
use smile_fee.Rmap.Header.{rmap_hdr_size}
use smile_fee.Rmap.Header.Laws.{rmap_hdr_size-eq-length}
use smile_fee.Base.{ℕ, List, [], ◌∷◌, ◌++◌, none, some, ◌≡◌, ◌≢◌, refl, arith, length}
use smile_fee.Base.{get_elem?, All, IsByte}
use smile_fee.Rmap.Crc.{rmap_crc8}
use smile_fee.Rmap.Crc.Laws.{crc8_bitwise, rmap_crc8-eq-bitwise, rmap_crc8-append_self}
use smile_fee.Rmap.Crc.Laws.{rmap_crc8_single_byte}
use smile_fee.Rmap.Header.{read_bytes, rmap_build_hdr}
use smile_fee.Rmap.Parse.{null, done, fault, rmap_pkt_from_buffer}
use smile_fee.Rmap.Parse.Safe.{rmap_pkt_from_buffer-fault_iff}
use smile_fee.Rmap.Parse.Bounds.{reads_behind}
use smile_fee.Rmap.Parse.{read_header, parse_start, parse_rpath, parse_ids, parse_addr, parse_len}
use smile_fee.Rmap.Packet.{rmap_get_min_hdr_size, of_byte, rmap_protocol_id, RmapPkt}
use smile_fee.Base.{get_or, ◌↔◌, ◌≤◌, true}
use smile_fee.Rmap.RoundTrip.{rmap_pkt_from_buffer-build_command, rmap_pkt_from_buffer-build_short}
use smile_fee.Rmap.RoundTrip.Payload.{IsCommand, all_ok}
use smile_fee.Tests.Packets.{all_bytes, write_pkt, read_pkt}

bytes_small : All IsByte all_bytes
bytes_small = (omega arith, (omega arith, (omega arith, (omega arith, tt))))

rmap_crc8-eq-bitwise_example : rmap_crc8 (some all_bytes) ≡ crc8_bitwise 0 all_bytes
rmap_crc8-eq-bitwise_example = rmap_crc8-eq-bitwise all_bytes bytes_small

rmap_crc8-append_self_example : rmap_crc8 (some (all_bytes ++ rmap_crc8 (some all_bytes) ∷ [])) ≡ 0
rmap_crc8-append_self_example = rmap_crc8-append_self all_bytes bytes_small

rmap_crc8_single_byte_example :
    rmap_crc8 (some (all_bytes ++ 1 ∷ all_bytes)) ≢ rmap_crc8 (some (all_bytes ++ 2 ∷ all_bytes))
rmap_crc8_single_byte_example =
    rmap_crc8_single_byte all_bytes all_bytes 1 2 bytes_small bytes_small (omega arith)
      (omega arith) (omega arith)

abbrev return_path : List ℕ
return_path = 0 ∷ 0 ∷ 0 ∷ 3 ∷ []

abbrev write_header : List ℕ
write_header =
    0x51 ∷ 1 ∷ 0x6d ∷ 0xd1 ∷ 0 ∷ 0 ∷ 0 ∷ 3 ∷ 0x50 ∷ 0 ∷ 7 ∷ 0 ∷ 0 ∷ 0x80 ∷ 0x18 ∷ 0 ∷ 0 ∷ 0 ∷ 4 ∷ []

abbrev read_cmd_header : List ℕ
read_cmd_header =
    0x51 ∷ 1 ∷ 0x4d ∷ 0xd1 ∷ 0 ∷ 0 ∷ 0 ∷ 3 ∷ 0x50 ∷ 0 ∷ 7 ∷ 0 ∷ 0 ∷ 0x80 ∷ 0x18 ∷ 0 ∷ 0 ∷ 0 ∷ 4 ∷ []

write-IsCommand : IsCommand write_pkt return_path
write-IsCommand = record {
  wire = record {
    bits = record {
      reply_addr_len_bits = omega arith;
      cmd_bits = omega arith;
      cmd_resp_bits = omega arith;
      reserved_bits = omega arith;
    };
    known = refl;
    protocol = refl;
    tr_id_fits = omega arith;
    addr_fits = omega arith;
    data_len_fits = omega arith;
  };
  command = refl;
  no_path = refl;
  replies_by = unfold read_bytes in refl;
  counted = refl;
  words = refl;
}

read-IsCommand : IsCommand read_pkt return_path
read-IsCommand = record {
  wire = record {
    bits = record {
      reply_addr_len_bits = omega arith;
      cmd_bits = omega arith;
      cmd_resp_bits = omega arith;
      reserved_bits = omega arith;
    };
    known = refl;
    protocol = refl;
    tr_id_fits = omega arith;
    addr_fits = omega arith;
    data_len_fits = omega arith;
  };
  command = refl;
  no_path = refl;
  replies_by = unfold read_bytes in refl;
  counted = refl;
  words = refl;
}

write_built : rmap_build_hdr write_pkt ≡ some write_header
unfolding rmap_build_hdr
write_built = refl

read_built : rmap_build_hdr read_pkt ≡ some read_cmd_header
unfolding rmap_build_hdr
read_built = refl

-- A reply to a write, with its header checksum: the parser reads byte 11 of 8.
abbrev write_reply : List ℕ
write_reply = 0x50 ∷ 1 ∷ 0x2c ∷ 0 ∷ 0x51 ∷ 0 ∷ 7 ∷ 0x33 ∷ []

rmap_pkt_from_buffer-fault_iff_example :
    ((rmap_pkt_from_buffer all_ok 0 (some write_reply) 8).1 ≡ fault) ↔ (
      (7 ≤ 8)
      × (get_or write_reply 1 0 ≡ rmap_protocol_id)
      × (pkt : RmapPkt) × (read_header all_ok write_reply 8 ≡ done pkt)
      × reads_behind true write_reply 8 pkt ≡ true)
rmap_pkt_from_buffer-fault_iff_example =
    rmap_pkt_from_buffer-fault_iff all_ok 0 write_reply 8 (omega arith)

write_reply-fault : (rmap_pkt_from_buffer all_ok 0 (some write_reply) 8).1 ≡ fault
unfolding read_header parse_start parse_rpath parse_ids parse_addr parse_len of_byte
    rmap_get_min_hdr_size
write_reply-fault =
    (rmap_pkt_from_buffer-fault_iff all_ok 0 write_reply 8 (omega arith)).1
      (omega arith, refl, _, refl, refl)

rmap_hdr_size-eq-length_example : rmap_hdr_size (some write_pkt) ≡ pos (length write_header)
rmap_hdr_size-eq-length_example = rmap_hdr_size-eq-length write_pkt write_header refl write_built

rmap_pkt_from_buffer-build_command_example :
    rmap_pkt_from_buffer all_ok 0
      (some (write_header ++ (0x1c ∷ (all_bytes ++ (0x5e ∷ [])))))
      (length (write_header ++ (0x1c ∷ (all_bytes ++ (0x5e ∷ [])))))
    ≡ (
      0,
      done (
          let pkt = write_pkt in
          record pkt {
            rpath = some return_path;
            path = none;
            path_len = 0;
            payload = some all_bytes;
            hdr_crc = get_elem? (write_header ++ (0x1c ∷ (all_bytes ++ (0x5e ∷ [])))) 11;
            data_crc = some 0x5e;
          }),
    )
rmap_pkt_from_buffer-build_command_example =
    rmap_pkt_from_buffer-build_command write_pkt return_path write_header all_bytes (0x5e ∷ []) 0x1c
      0 write-IsCommand write_built refl (omega arith)

rmap_pkt_from_buffer-build_short_example :
    rmap_pkt_from_buffer all_ok 0
      (some (read_cmd_header ++ (0x1c ∷ [])))
      (length (read_cmd_header ++ (0x1c ∷ [])))
    ≡ (0, null)
rmap_pkt_from_buffer-build_short_example =
    rmap_pkt_from_buffer-build_short read_pkt return_path read_cmd_header (0x1c ∷ []) 0
      read-IsCommand read_built (omega arith) (omega arith)
