-- ===== src/Link/Package/Arrives.antt =====
-- A write command from `smile_fee_gen_cmd` of FEE/smile_fee_rmap.c, packed by `smile_fee_package`
-- and read by `rmap_pkt_from_buffer` of FEE/rmap.c.
use smile_fee.Base.{ℕ, ◌+◌, ◌<◌, List, [], ◌∷◌, ◌++◌, some, false}
use smile_fee.Base.{
  ◌==◌, length, get_elem?, drop, ◌≡◌, refl, ap, sym, ◌∙◌, arith, length-append, subst,
}
use mathlib.Core.List.{append_assoc}
use smile_fee.Base.{drop-append, get_elem?-append_right}
use smile_fee.Rmap.Crc.{rmap_crc8}
use smile_fee.Rmap.Header.{hdr_bytes}
use smile_fee.Rmap.Parse.{done, rmap_pkt_from_buffer}
use smile_fee.Rmap.RoundTrip.Payload.{all_ok}
use smile_fee.Link.State.{Link}
use smile_fee.Link.Command.{smile_fee_gen_cmd}
use smile_fee.Link.Command.Laws.{IsConfigured, gen_ok, dpath_bytes, rpath_bytes, routed_pkt}
use smile_fee.Link.Command.Laws.{read_bytes_all, length-copied}
use smile_fee.Link.Command.Wire.{IsRequest, routed_bytes, written, build-routed, routed-IsCommand}
use smile_fee.Rmap.RoundTrip.{rmap_pkt_from_buffer-build_command}
use smile_fee.Link.Package.{package_data, smile_fee_package}

-- The instruction byte stands two bytes behind the path.
instruction_at :
    (path : List ℕ) (a b i : ℕ) (rest : List ℕ) (n : ℕ)
    → length path ≡ n
    → get_elem? (path ++ (a ∷ b ∷ i ∷ rest)) (n + 2) ≡ some i
instruction_at path a b i rest n e =
    ap (get_elem? (path ++ (a ∷ b ∷ i ∷ rest))) (omega (arith, e))
    ∙ get_elem?-append_right path (a ∷ b ∷ i ∷ rest) 2

package-eq :
    (path hdr bytes : List ℕ) (n : ℕ) (a b i : ℕ) (rest : List ℕ)
    → hdr ≡ a ∷ b ∷ i ∷ rest
    → length path ≡ n
    → smile_fee_package (path ++ hdr) n (some bytes) (length bytes)
      ≡ some ((path ++ hdr) ++ (rmap_crc8 (some hdr) ∷ (bytes ++ (rmap_crc8 (some bytes) ∷ []))))
unfolding smile_fee_package package_data
package-eq path hdr bytes n a b i rest shape e =
    rw (smile_fee_package, filled, found, read_bytes_all bytes (length bytes) refl, behind) refl
  where
    filled : (length (path ++ hdr) == 0) ≡ false
    filled = ground (arith, length-append path hdr, ap length shape)

    found : get_elem? (path ++ hdr) (n + 2) ≡ some i
    found = ap (λ h. get_elem? (path ++ h) (n + 2)) shape ∙ instruction_at path a b i rest n e

    behind : drop n (path ++ hdr) ≡ hdr
    behind = ap (λ k. drop k (path ++ hdr)) (sym e) ∙ drop-append path hdr

-- With the paths set as the setters allow, a known command code, arguments that fit the header and
-- a payload of at least one byte, the command that `smile_fee_gen_cmd` makes and the blob that
-- `smile_fee_package` writes for it exist; and `rmap_pkt_from_buffer` reads from the blob, once the
-- destination path is taken off, the configured addresses, key and return path, the given
-- identifier, code, address and payload, and the checksum of the payload. Its header checksum is
-- byte 11 of the rest.
pub smile_fee_package-arrives :
    (s : Link) (trans_id code value : ℕ) (bytes : List ℕ) (cnt : ℕ)
    → IsConfigured s
    → IsRequest trans_id code value (length bytes)
    → 0 < length bytes
    → (cmd : List ℕ) × (blob : List ℕ) × smile_fee_gen_cmd gen_ok s trans_id code value
          (length bytes)
        ≡ some cmd
      × smile_fee_package cmd s.dpath_len (some bytes) (length bytes) ≡ some blob
      × rmap_pkt_from_buffer all_ok cnt
          (some (drop s.dpath_len blob))
          (length (drop s.dpath_len blob))
        ≡ (
          cnt,
          done (
              let pkt = routed_pkt s trans_id code value (length bytes) in
              record pkt {
                rpath = some (rpath_bytes s);
                payload = some bytes;
                hdr_crc = get_elem? (drop s.dpath_len blob) 11;
                data_crc = some (rmap_crc8 (some bytes));
              }),
        )
unfolding hdr_bytes
smile_fee_package-arrives s trans_id code value bytes cnt c q some_data = (
  dpath_bytes s ++ hdr,
  (dpath_bytes s ++ hdr) ++ rest,
  written s trans_id code value (length bytes) c q,
  package-eq (dpath_bytes s) hdr bytes s.dpath_len _ _ _ _ refl path_len,
  subst
      (λ buf. rmap_pkt_from_buffer all_ok cnt (some buf) (length buf) ≡ (
        cnt,
        done (
            let pkt = routed_pkt s trans_id code value (length bytes) in
            record pkt {
              rpath = some (rpath_bytes s);
              payload = some bytes;
              hdr_crc = get_elem? buf 11;
              data_crc = some (rmap_crc8 (some bytes));
            }),
      ))
      (sym routed)
      (rmap_pkt_from_buffer-build_command (routed_pkt s trans_id code value (length bytes))
        (rpath_bytes s) hdr bytes (rmap_crc8 (some bytes) ∷ []) (rmap_crc8 (some hdr)) cnt
        (routed-IsCommand s trans_id code value (length bytes) c q)
        (build-routed s trans_id code value (length bytes) c q) refl some_data),
)
  where
    hdr : List ℕ
    hdr = routed_bytes s trans_id code value (length bytes) c q

    rest : List ℕ
    rest = rmap_crc8 (some hdr) ∷ (bytes ++ (rmap_crc8 (some bytes) ∷ []))

    path_len : length (dpath_bytes s) ≡ s.dpath_len
    path_len = omega (arith, c.dpath_holds, length-copied s.dpath s.dpath_len)

    routed : drop s.dpath_len ((dpath_bytes s ++ hdr) ++ rest) ≡ hdr ++ rest
    routed =
        ap (drop s.dpath_len) (append_assoc (dpath_bytes s) hdr rest)
        ∙ ap (λ k. drop k (dpath_bytes s ++ (hdr ++ rest))) (sym path_len)
        ∙ drop-append (dpath_bytes s) (hdr ++ rest)
