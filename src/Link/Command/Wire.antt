-- ===== src/Link/Command/Wire.antt =====
-- The bytes that `smile_fee_gen_cmd` of FEE/smile_fee_rmap.c writes.
use smile_fee.Base.{ℕ, ◌^◌, ◌<◌, List, [], ◌∷◌, ◌++◌, some, true}
use smile_fee.Base.{◌||◌, length, get_elem?, pos, ◌≡◌, refl, arith}
use smile_fee.Rmap.Packet.{is_read_code, is_write_code}
use smile_fee.Rmap.Header.{read_bytes, rmap_build_hdr, hdr_bytes}
use smile_fee.Rmap.Packet.Setters.{known_code-lt}
use smile_fee.Rmap.Header.Laws.{rmap_hdr_size-eq-length, length-hdr_bytes}
use smile_fee.Base.{length-append, none}
use smile_fee.Rmap.Parse.{fault, done, rmap_pkt_from_buffer}
use smile_fee.Rmap.RoundTrip.{rmap_pkt_from_buffer-build_command}
use smile_fee.Rmap.RoundTrip.Payload.{IsCommand, all_ok}
use smile_fee.Link.State.{Link}
use smile_fee.Link.Command.{smile_fee_gen_cmd_size, smile_fee_gen_cmd}
use smile_fee.Link.Command.Laws.{IsConfigured, gen_ok, command_pkt, routed_pkt, gen_pkt-eq}
use smile_fee.Link.Command.Laws.{dpath_bytes, rpath_bytes, path_read, rpath_read, length-copied}

-- The arguments of a generator that fit the fields of a header.
pub record IsRequest (trans_id code value size : ℕ) : Type 0 where
  pub known : is_read_code code || is_write_code code ≡ true
  pub id_fits : trans_id < 2 ^ 16
  pub addr_fits : value < 2 ^ 32
  pub size_fits : size < 2 ^ 24

module _ (s : Link) (trans_id code value size : ℕ) (c : IsConfigured s)
    (q : IsRequest trans_id code value size) where
  -- The command behind the destination path.
  abbrev pub routed_bytes : List ℕ
  routed_bytes = hdr_bytes (routed_pkt s trans_id code value size) [] (rpath_bytes s)

  pub build-routed : rmap_build_hdr (routed_pkt s trans_id code value size) ≡ some routed_bytes
  unfolding rmap_build_hdr read_bytes
  build-routed = rw (rmap_build_hdr, rpath_read s c)

  build-command :
      rmap_build_hdr (command_pkt s trans_id code value size) ≡ some (dpath_bytes s ++ routed_bytes)
  unfolding rmap_build_hdr hdr_bytes
  build-command = rw (path_read s c, rpath_read s c)

  pub written :
      smile_fee_gen_cmd gen_ok s trans_id code value size ≡ some (dpath_bytes s ++ routed_bytes)
  unfolding smile_fee_gen_cmd
  written =
      rw (smile_fee_gen_cmd, gen_pkt-eq s trans_id code value size c q.known q.size_fits)
        build-command

  announced :
      smile_fee_gen_cmd_size gen_ok s trans_id code value size
      ≡ pos (length (dpath_bytes s ++ routed_bytes))
  unfolding smile_fee_gen_cmd_size
  announced =
      rw (smile_fee_gen_cmd_size, gen_pkt-eq s trans_id code value size c q.known q.size_fits)
        (rmap_hdr_size-eq-length (command_pkt s trans_id code value size) _ q.known build-command)

  pub routed-IsCommand : IsCommand (routed_pkt s trans_id code value size) (rpath_bytes s)
  routed-IsCommand = record {
    wire = record {
      bits = record {
        reply_addr_len_bits = omega arith;
        cmd_bits = known_code-lt code q.known;
        cmd_resp_bits = omega arith;
        reserved_bits = omega arith;
      };
      known = q.known;
      protocol = refl;
      tr_id_fits = q.id_fits;
      addr_fits = q.addr_fits;
      data_len_fits = q.size_fits;
    };
    command = refl;
    no_path = refl;
    replies_by = rpath_read s c;
    counted = omega (arith, c.rpath_holds, length-copied s.rpath s.rpath_len);
    words = omega (arith, c.rpath_words, c.rpath_fits);
  }

-- Where the destination path and the return path are set as the setters allow, the command code is
-- known, the arguments fit the header's fields and the allocations succeed, the size that
-- `smile_fee_gen_cmd` returns for a null buffer is the number of bytes that it then
-- writes, and it is positive.
pub smile_fee_gen_cmd-fits :
    (s : Link) (trans_id code value size : ℕ)
    → IsConfigured s
    → IsRequest trans_id code value size
    → (cmd : List ℕ) × smile_fee_gen_cmd gen_ok s trans_id code value size ≡ some cmd
      × smile_fee_gen_cmd_size gen_ok s trans_id code value size ≡ pos (length cmd)
      × 0 < length cmd
smile_fee_gen_cmd-fits s trans_id code value size c q = (
  _,
  written s trans_id code value size c q,
  announced s trans_id code value size c q,
  omega (arith, length-written),
)
  where
    length-written : 0 < length (dpath_bytes s ++ routed_bytes s trans_id code value size c q)
    length-written = omega (
      arith,
      length-append (dpath_bytes s) (routed_bytes s trans_id code value size c q),
      length-hdr_bytes (routed_pkt s trans_id code value size) [] (rpath_bytes s),
    )

-- Under the same conditions the command is the destination path followed by a header. With a
-- checksum byte and `size` > 0 payload bytes behind it, and the destination path taken off as
-- routers do, `rmap_pkt_from_buffer` reads the configured logical addresses, key and return path
-- and the given identifier, command code, address, size and payload, if a byte is behind the payload:
-- it is read as its checksum.
pub smile_fee_gen_cmd-arrives :
    (s : Link) (trans_id code value size : ℕ) (bytes after : List ℕ) (crc cnt : ℕ)
    → IsConfigured s
    → IsRequest trans_id code value size
    → length bytes ≡ size
    → 0 < size
    → (hdr : List ℕ) × smile_fee_gen_cmd gen_ok s trans_id code value size
        ≡ some (dpath_bytes s ++ hdr)
      × rmap_pkt_from_buffer all_ok cnt
          (some (hdr ++ (crc ∷ (bytes ++ after))))
          (length (hdr ++ (crc ∷ (bytes ++ after))))
        ≡ (
          cnt,
          elim (get_elem? after 0) [
            | none ↦ fault
            | some data_crc ↦ done (
                let pkt = routed_pkt s trans_id code value size in
                record pkt {
                  rpath = some (rpath_bytes s);
                  payload = some bytes;
                  hdr_crc = get_elem? (hdr ++ (crc ∷ (bytes ++ after))) 11;
                  data_crc = some data_crc;
                })
          ],
        )
smile_fee_gen_cmd-arrives s trans_id code value size bytes after crc cnt c q filled some_data = (
  routed_bytes s trans_id code value size c q,
  written s trans_id code value size c q,
  rmap_pkt_from_buffer-build_command (routed_pkt s trans_id code value size) (rpath_bytes s) _ bytes
      after crc cnt (routed-IsCommand s trans_id code value size c q)
      (build-routed s trans_id code value size c q) filled some_data,
)
