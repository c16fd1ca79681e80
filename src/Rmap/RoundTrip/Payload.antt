-- ===== src/Rmap/RoundTrip/Payload.antt =====
-- The payload of a command in `rmap_pkt_from_buffer`, behind the header that `rmap_build_hdr` wrote.
use smile_fee.Base.{ℕ, suc, ◌+◌, ◌*◌, ◌<◌, List, [], ◌∷◌, ◌++◌, none, some}
use smile_fee.Base.{Bool, true, false, ◌==◌, length, take, drop, get_elem?}
use smile_fee.Base.{◌≡◌, ap, ap₂, sym, ◌∙◌, arith, length-append, leb, ltb}
use smile_fee.Base.{get_elem?-append_right, take-append, drop-append_add, le→leb, ==_iff}
use smile_fee.Rmap.Packet.{RmapPkt, rmap_protocol_id}
use smile_fee.Rmap.Header.{rmap_build_hdr, hdr_bytes, read_bytes}
use smile_fee.Rmap.Header.Laws.{Built, build-Built, length-read_bytes}
use smile_fee.Base.{Option}
use smile_fee.Rmap.Parse.{Outcome, fault, done, Allocs, bytes_at, parse_data}
use smile_fee.Rmap.Parse.{decode, rmap_pkt_from_buffer}
use smile_fee.Rmap.Parse.Bounds.{bytes_at-done, parse_data-done}
use smile_fee.Rmap.RoundTrip.Stages.{IsWire, command_tail, command_bytes, hdr_bytes-command}
use smile_fee.Rmap.RoundTrip.Stages.{measured, length-buffer, header_stage}

-- A command without a destination path, whose reply path is `rpath`.
pub record IsCommand (pkt : RmapPkt) (rpath : List ℕ) : Type 0 where
  pub wire : IsWire pkt
  pub command : pkt.ri.cmd_resp ≡ 1
  pub no_path : pkt.path_len ≡ 0
  pub replies_by : read_bytes pkt.rpath pkt.rpath_len ≡ some rpath
  pub counted : pkt.rpath_len ≡ length rpath
  pub words : pkt.ri.reply_addr_len * 4 ≡ pkt.rpath_len

abbrev pub all_ok : Allocs
all_ok = record { pkt_ok = true; rpath_ok = true; data_ok = true }

-- The header of a command is what the stages read.
pub build-command_bytes :
    (pkt : RmapPkt) (rpath hdr rest : List ℕ)
    → IsCommand pkt rpath
    → rmap_build_hdr pkt ≡ some hdr
    → hdr ++ rest ≡ command_bytes pkt rpath rest
build-command_bytes pkt rpath hdr rest c e =
    sym (ap (λ h. h ++ rest) same) ∙ hdr_bytes-command pkt rpath rest (rw c.command)
  where
    b : Built pkt hdr
    b = build-Built pkt hdr e

    path_nil : b.path ≡ []
    path_nil = ground (arith, length-read_bytes pkt.path pkt.path_len b.path b.path_read, c.no_path)

    rpath_same : b.rpath ≡ rpath
    rpath_same = cc (b.rpath_read, c.replies_by)

    same : hdr_bytes pkt [] rpath ≡ hdr
    same = ap₂ (hdr_bytes pkt) (sym path_nil) (sym rpath_same) ∙ b.bytes

accepted :
    (a : Allocs) (cnt len x y : ℕ) (buf : List ℕ)
    → ltb len 7 ≡ false
    → y ≡ rmap_protocol_id
    → rmap_pkt_from_buffer a cnt (some (x ∷ y ∷ buf)) len ≡ (cnt, decode a (x ∷ y ∷ buf) len)
unfolding rmap_pkt_from_buffer
accepted a cnt len x y buf enough rmap = rw (enough, (==_iff y rmap_protocol_id).1 rmap)

-- Where the fixed part of a command is long enough, the parser reaches the payload.
pub from_command :
    (pkt : RmapPkt) (rpath rest : List ℕ) (data_ok : Bool) (cnt : ℕ) (c : IsCommand pkt rpath)
    → rmap_pkt_from_buffer
        (record { pkt_ok = true; rpath_ok = true; data_ok = data_ok })
        cnt
        (some (command_bytes pkt rpath rest))
        (length (command_bytes pkt rpath rest))
      ≡ (
        cnt,
        parse_data data_ok
            (command_bytes pkt rpath rest)
            (length (command_bytes pkt rpath rest))
            (measured pkt rpath),
      )
from_command pkt rpath rest data_ok cnt c =
    accepted _ cnt _ _ _ _ ltb_false c.wire.protocol
    ∙ (ap (λ o. (cnt, o))
        (header_stage pkt rpath rest c.wire (rw c.command) c.counted c.words data_ok
          (length (command_bytes pkt rpath rest)) (omega (arith, size))))
  where
    size : length (command_bytes pkt rpath rest) ≡ 15 + pkt.rpath_len + length rest
    size = length-buffer pkt rpath rest c.wire (rw c.command) c.counted c.words

    ltb_false : ltb (length (command_bytes pkt rpath rest)) 7 ≡ false
    ltb_false = ground (arith, size)

-- The payload and the two checksums.
module _ (pkt : RmapPkt) (rpath bytes after : List ℕ) (crc : ℕ) (c : IsCommand pkt rpath)
    (filled : length bytes ≡ pkt.data_len) where
  abbrev pub packed : List ℕ
  packed = command_bytes pkt rpath (crc ∷ (bytes ++ after))

  pub length-packed : length packed ≡ 16 + pkt.rpath_len + pkt.data_len + length after
  length-packed = omega (
    arith,
    length-buffer pkt rpath (crc ∷ (bytes ++ after)) c.wire (rw c.command) c.counted c.words,
    length-append bytes after,
    filled,
  )

  payload_read : bytes_at packed (12 + (pkt.rpath_len + 4)) pkt.data_len ≡ done bytes
  payload_read =
      bytes_at-done packed (12 + (pkt.rpath_len + 4)) pkt.data_len (omega (arith, length-packed))
      ∙ ap (λ k. done (take pkt.data_len (drop k packed))) place
      ∙ ap (λ t. done (take pkt.data_len t))
          (drop-append_add rpath (command_tail pkt (crc ∷ (bytes ++ after))) 12)
      ∙ ap (λ k. done (take k (bytes ++ after))) (sym filled)
      ∙ ap done (take-append bytes after)
    where
      place : 12 + (pkt.rpath_len + 4) ≡ suc (suc (suc (suc (length rpath + 12))))
      place = omega (arith, c.counted)

  data_crc_read : get_elem? packed (12 + (pkt.rpath_len + 4) + pkt.data_len) ≡ get_elem? after 0
  data_crc_read =
      ap (get_elem? packed) place
      ∙ get_elem?-append_right rpath (command_tail pkt (crc ∷ (bytes ++ after))) _
      ∙ get_elem?-append_right bytes after 0
    where
      place :
          12 + (pkt.rpath_len + 4) + pkt.data_len
          ≡ suc (
              suc (
                suc (
                  suc (
                    length rpath
                    + suc (
                        suc (
                          suc (
                            suc (
                              suc
                                (suc (suc (suc (suc (suc (suc (suc (length bytes + 0))))))))))))))))
      place = omega (arith, c.counted, filled)

  pub payload_stage :
      0 < pkt.data_len
      → parse_data true packed (length packed) (measured pkt rpath) ≡ elim (get_elem? after 0) [
        | none ↦ fault
        | some data_crc ↦ done (record pkt {
          path = none;
          path_len = 0;
          rpath = some rpath;
          payload = some bytes;
          hdr_crc = get_elem? packed 11;
          data_crc = some data_crc;
        })
      ]
  payload_stage some_data =
      parse_data-done packed (length packed) (measured pkt rpath) bytes
        (omega (arith, length-packed)) (ground arith) (rw not_reply fits)
        (rw not_reply payload_read)
      ∙ ap
          (λ (o : Option ℕ). elim o as (λ _. Outcome RmapPkt) [
            | none ↦ fault
            | some data_crc ↦ done (record pkt {
              path = none;
              path_len = 0;
              rpath = some rpath;
              payload = some bytes;
              hdr_crc = get_elem? packed 11;
              data_crc = some data_crc;
            })
          ])
          (rw not_reply data_crc_read)
    where
      not_reply : (pkt.ri.cmd_resp == 0) ≡ false
      not_reply = rw c.command

      fits : leb (12 + (pkt.rpath_len + 4) + pkt.data_len) (length packed) ≡ true
      fits = le→leb _ _ (omega (arith, length-packed))
