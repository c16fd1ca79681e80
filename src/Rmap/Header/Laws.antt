-- ===== src/Rmap/Header/Laws.antt =====
-- The size that `rmap_build_hdr` announces is the number of bytes that it writes.
use smile_fee.Base.{ℕ, zero, suc, ◌+◌, ◌<◌, List, [], ◌∷◌, Option, none, some}
use smile_fee.Base.{true, ◌||◌, bit_and, ◌==◌, u8, ◌>>>◌, pos, length}
use smile_fee.Base.{◌≡◌, refl, ap, arith, length-append, Bool-cases, inl, inr}
use smile_fee.Base.{Option-cases, all_below, all_below-true, not, if◌then◌else◌}
use smile_fee.Rmap.Packet.{RmapPkt, is_read_code, is_write_code, rmap_get_min_hdr_size}
use smile_fee.Rmap.Header.{read_bytes, rmap_hdr_size, hdr_tail, hdr_bytes, rmap_build_hdr}
use smile_fee.Rmap.Parse.Safe.{write_bit}

pub length-read_bytes :
    (bytes : Option (List ℕ)) (len : ℕ) (xs : List ℕ)
    → read_bytes bytes len ≡ some xs
    → length xs ≡ len
unfolding read_bytes
length-read_bytes bytes zero xs e = ground arith
length-read_bytes none (suc len) xs e = cc
length-read_bytes (some []) (suc len) xs e = cc
length-read_bytes (some (y ∷ ys)) (suc len) xs e = elim (Option-cases (read_bytes (some ys) len)) [
  | inl short ↦ cc (rw short at e)
  | inr (zs, whole) ↦ ground (arith, rw whole at e, length-read_bytes (some ys) len zs whole)
]

-- No read code has the write bit.
read_bit : (c : ℕ) → is_read_code c ≡ true → (bit_and c 0x8 == 0) ≡ true
read_bit c h = ground (arith, all_below-true 16 _ c table (in_table h), h)
  where
    in_table : is_read_code c ≡ true → c < 16
    in_table e = ground arith

    table : all_below 16 (λ d. not (is_read_code d) || bit_and d 0x8 == 0) ≡ true
    table = unfold all_below in refl

-- The length of what follows the transaction identifier.
abbrev pub tail_size : RmapPkt → ℕ
tail_size pkt = if pkt.ri.cmd_resp == 0 then (if is_read_code pkt.ri.cmd then 4 else 0) else 8

length-hdr_tail :
    (pkt : RmapPkt)
    → is_read_code pkt.ri.cmd || is_write_code pkt.ri.cmd ≡ true
    → length (hdr_tail pkt) ≡ tail_size pkt
unfolding hdr_tail
length-hdr_tail pkt h = elim (Bool-cases (pkt.ri.cmd_resp == 0)) [
  | inr command ↦ rw command
  | inl reply ↦ elim (Bool-cases (is_read_code pkt.ri.cmd)) [
    | inl r ↦ rw (reply, r, read_bit pkt.ri.cmd r)
    | inr w ↦ rw (reply, w, write_bit pkt.ri.cmd (rw w at h))
  ]
]

pub length-hdr_bytes :
    (pkt : RmapPkt) (path rpath : List ℕ)
    → length (hdr_bytes pkt path rpath)
      ≡ length path + (4 + (length rpath + (3 + length (hdr_tail pkt))))
unfolding hdr_bytes
length-hdr_bytes pkt path rpath = omega (
  arith,
  length-append path _,
  length-append rpath (pkt.src ∷ u8 (pkt.tr_id >>> 8) ∷ u8 pkt.tr_id ∷ hdr_tail pkt),
)

pub min_hdr_size-eq :
    (pkt : RmapPkt)
    → is_read_code pkt.ri.cmd || is_write_code pkt.ri.cmd ≡ true
    → rmap_get_min_hdr_size pkt ≡ pos (7 + tail_size pkt)
unfolding rmap_get_min_hdr_size
min_hdr_size-eq pkt h = elim (Bool-cases (pkt.ri.cmd_resp == 0)) [
  | inr command ↦ elim (Bool-cases (is_read_code pkt.ri.cmd)) [
    | inl r ↦ rw (command, r)
    | inr w ↦ rw (command, w, rw w at h)
  ]
  | inl reply ↦ elim (Bool-cases (is_read_code pkt.ri.cmd)) [
    | inl r ↦ rw (reply, r)
    | inr w ↦ rw (reply, w, rw w at h)
  ]
]

-- The paths that a header was built from.
pub record Built (pkt : RmapPkt) (hdr : List ℕ) : Type 0 where
  pub path : List ℕ
  pub rpath : List ℕ
  pub path_read : read_bytes pkt.path pkt.path_len ≡ some path
  pub rpath_read : read_bytes pkt.rpath pkt.rpath_len ≡ some rpath
  pub bytes : hdr_bytes pkt path rpath ≡ hdr

pub build-Built : (pkt : RmapPkt) (hdr : List ℕ) → rmap_build_hdr pkt ≡ some hdr → Built pkt hdr
unfolding rmap_build_hdr
build-Built pkt hdr e = elim (Option-cases (read_bytes pkt.path pkt.path_len)) [
  | inl short ↦ cc (rw (short, rmap_build_hdr) at e)
  | inr (path, p) ↦ elim (Option-cases (read_bytes pkt.rpath pkt.rpath_len)) [
    | inl short ↦ cc (rw (rmap_build_hdr, p, short) at e)
    | inr (rpath, r) ↦ record {
      path = path;
      rpath = rpath;
      path_read = p;
      rpath_read = r;
      bytes = cc (rw (rmap_build_hdr, p, r) at e);
    }
  ]
]

-- For a known command code, the size that `rmap_build_hdr` returns for a null buffer is the number
-- of bytes that it writes into a buffer, for commands and replies and with any paths.
pub rmap_hdr_size-eq-length :
    (pkt : RmapPkt) (hdr : List ℕ)
    → is_read_code pkt.ri.cmd || is_write_code pkt.ri.cmd ≡ true
    → rmap_build_hdr pkt ≡ some hdr
    → rmap_hdr_size (some pkt) ≡ pos (length hdr)
unfolding rmap_hdr_size
rmap_hdr_size-eq-length pkt hdr known e = rw (min_hdr_size-eq pkt known) (ap pos sizes)
  where
    b : Built pkt hdr
    b = build-Built pkt hdr e

    sizes : 7 + tail_size pkt + pkt.path_len + pkt.rpath_len ≡ length hdr
    sizes = omega (
      arith,
      ap length b.bytes,
      length-hdr_bytes pkt b.path b.rpath,
      length-hdr_tail pkt known,
      length-read_bytes pkt.path pkt.path_len b.path b.path_read,
      length-read_bytes pkt.rpath pkt.rpath_len b.rpath b.rpath_read,
    )
