-- ===== src/Rmap/RoundTrip/Stages.antt =====
-- The stages of `rmap_pkt_from_buffer` on the header of a command.
use mathlib.Core.List.{append_assoc}
use smile_fee.Base.{ℕ, ◌+◌, ◌*◌, ◌^◌, ◌≤◌, ◌<◌, List, [], ◌∷◌, ◌++◌, some}
use smile_fee.Base.{Bool, true, false, ◌||◌, ◌==◌, u8, ◌>>>◌, pos, length}
use smile_fee.Base.{take, ◌≡◌, refl, ap, ◌∙◌, arith}
use smile_fee.Base.{length-append, le→leb, take-append}
use smile_fee.Rmap.Packet.{RmapPkt, to_byte, cleared_pkt}
use smile_fee.Rmap.Packet.{is_read_code, is_write_code, rmap_get_min_hdr_size, rmap_protocol_id}
use smile_fee.Rmap.Header.{hdr_tail, hdr_bytes}
use smile_fee.Rmap.Header.Laws.{min_hdr_size-eq}
use smile_fee.Rmap.Parse.{read_header}
use smile_fee.Rmap.Parse.{done, byte, bytes_at}
use smile_fee.Rmap.Parse.{parse_start, parse_rpath, parse_ids, parse_addr, parse_len, parse_data}
use smile_fee.Rmap.Parse.{decode}
use smile_fee.Rmap.Parse.Bounds.{bytes_at-done}
use smile_fee.Rmap.RoundTrip.Fields.{join16, join24, join32, IsInstruction, of_byte-to_byte, behind}

-- What a header carries, as the parser sees it before the reply path.
abbrev pub started : RmapPkt → RmapPkt
started pkt =
    let fresh = cleared_pkt in
    record fresh { dst = pkt.dst; proto_id = pkt.proto_id; ri = pkt.ri; key = pkt.key }

-- The fields of `pkt` fit the widths of the header.
pub record IsWire (pkt : RmapPkt) : Type 0 where
  pub bits : IsInstruction pkt.ri
  pub known : is_read_code pkt.ri.cmd || is_write_code pkt.ri.cmd ≡ true
  pub protocol : pkt.proto_id ≡ rmap_protocol_id
  pub tr_id_fits : pkt.tr_id < 2 ^ 16
  pub addr_fits : pkt.addr < 2 ^ 32
  pub data_len_fits : pkt.data_len < 2 ^ 24

-- A command as it stands in a buffer: header, header checksum and payload with its checksum.
abbrev pub command_tail : RmapPkt → List ℕ → List ℕ
command_tail pkt rest =
    pkt.src
    ∷ u8 (pkt.tr_id >>> 8)
    ∷ u8 pkt.tr_id
    ∷ 0
    ∷ u8 (pkt.addr >>> 24)
    ∷ u8 (pkt.addr >>> 16)
    ∷ u8 (pkt.addr >>> 8)
    ∷ u8 pkt.addr
    ∷ u8 (pkt.data_len >>> 16)
    ∷ u8 (pkt.data_len >>> 8)
    ∷ u8 pkt.data_len
    ∷ rest

abbrev pub command_bytes : RmapPkt → List ℕ → List ℕ → List ℕ
command_bytes pkt rpath rest =
    pkt.dst ∷ pkt.proto_id ∷ to_byte pkt.ri ∷ pkt.key ∷ (rpath ++ command_tail pkt rest)

pub hdr_bytes-command :
    (pkt : RmapPkt) (rpath rest : List ℕ)
    → (pkt.ri.cmd_resp == 0) ≡ false
    → hdr_bytes pkt [] rpath ++ rest ≡ command_bytes pkt rpath rest
unfolding hdr_bytes hdr_tail
hdr_bytes-command pkt rpath rest command =
    rw command
      (ap (λ t. pkt.dst ∷ pkt.proto_id ∷ to_byte pkt.ri ∷ pkt.key ∷ t) (append_assoc rpath _ rest))

-- The packet after each stage.
abbrev pub routed : RmapPkt → List ℕ → RmapPkt
routed pkt rpath = let s = started pkt in record s { rpath_len = pkt.rpath_len; rpath = some rpath }

abbrev pub identified : RmapPkt → List ℕ → RmapPkt
identified pkt rpath = let r = routed pkt rpath in record r { src = pkt.src; tr_id = pkt.tr_id }

abbrev pub addressed : RmapPkt → List ℕ → RmapPkt
addressed pkt rpath = let i = identified pkt rpath in record i { addr = pkt.addr }

abbrev pub measured : RmapPkt → List ℕ → RmapPkt
measured pkt rpath = let a = addressed pkt rpath in record a { data_len = pkt.data_len }

module _ (pkt : RmapPkt) (rpath rest : List ℕ) (wire : IsWire pkt)
    (command : (pkt.ri.cmd_resp == 0) ≡ false) (counted : pkt.rpath_len ≡ length rpath)
    (words : pkt.ri.reply_addr_len * 4 ≡ pkt.rpath_len) where
  abbrev pub buffer : List ℕ
  buffer = command_bytes pkt rpath rest

  at : (k i : ℕ) → k ≡ 4 + i → byte buffer (k + pkt.rpath_len) ≡ byte (command_tail pkt rest) i
  at k i hk =
      behind pkt.dst pkt.proto_id (to_byte pkt.ri) pkt.key rpath (command_tail pkt rest) k
        pkt.rpath_len i counted hk

  -- Four bytes further, behind the address.
  at_skipped :
      (k i : ℕ)
      → k + 4 ≡ 4 + i
      → byte buffer (k + (pkt.rpath_len + 4)) ≡ byte (command_tail pkt rest) i
  at_skipped k i hk = ap (byte buffer) place ∙ at (k + 4) i hk
    where
      place : k + (pkt.rpath_len + 4) ≡ k + 4 + pkt.rpath_len
      place = omega arith

  pub length-buffer : length buffer ≡ 15 + pkt.rpath_len + length rest
  length-buffer = omega (arith, length-append rpath (command_tail pkt rest), counted)

  start_stage : parse_start buffer ≡ done (started pkt)
  unfolding parse_start
  start_stage = rw (of_byte-to_byte pkt.ri wire.bits)

  rpath_read : bytes_at buffer 4 pkt.rpath_len ≡ done rpath
  rpath_read =
      bytes_at-done buffer 4 pkt.rpath_len (omega (arith, length-buffer))
      ∙ ap (λ k. done (take k (rpath ++ command_tail pkt rest))) counted
      ∙ ap done (take-append rpath (command_tail pkt rest))

  rpath_stage :
      (len : ℕ)
      → 15 + pkt.rpath_len ≤ len
      → parse_rpath true buffer len 15 (started pkt) ≡ done (routed pkt rpath)
  unfolding parse_rpath
  rpath_stage len fits = rw (command, words, le→leb _ _ fits, rpath_read)

  ids_stage : parse_ids buffer (routed pkt rpath) ≡ done (identified pkt rpath)
  unfolding parse_ids
  ids_stage = rw (at 4 0 refl, at 5 1 refl, at 6 2 refl, join16 pkt.tr_id wire.tr_id_fits)

  addr_stage : parse_addr buffer (identified pkt rpath) ≡ done (addressed pkt rpath)
  unfolding parse_addr
  addr_stage = rw (
    command,
    at 8 4 refl,
    at 9 5 refl,
    at 10 6 refl,
    at 11 7 refl,
    join32 pkt.addr wire.addr_fits,
  )

  len_stage : parse_len buffer (addressed pkt rpath) ≡ done (measured pkt rpath)
  unfolding parse_len
  len_stage = rw (
    command,
    at_skipped 8 8 refl,
    at_skipped 9 9 refl,
    at_skipped 10 10 refl,
    join24 pkt.data_len wire.data_len_fits,
  )

  size_stage : rmap_get_min_hdr_size (started pkt) ≡ pos 15
  size_stage = min_hdr_size-eq (started pkt) wire.known ∙ rw command

  -- All but the payload.
  pub header_stage :
      (data_ok : Bool) (len : ℕ)
      → 15 + pkt.rpath_len ≤ len
      → decode (record { pkt_ok = true; rpath_ok = true; data_ok = data_ok }) buffer len
        ≡ parse_data data_ok buffer len (measured pkt rpath)
  unfolding decode read_header
  header_stage data_ok len fits = rw (
    start_stage,
    size_stage,
    le→leb 15 len (omega arith),
    rpath_stage len fits,
    ids_stage,
    addr_stage,
    len_stage,
  )
