-- ===== src/Rmap/Header.antt =====
-- `rmap_build_hdr` of FEE/rmap.c. Called with a null buffer it returns a size; called with a buffer
-- it returns the number of bytes that it wrote from the start of that buffer.
pub mod Laws
use smile_fee.Base.{ℕ, zero, suc, List, [], ◌∷◌, ◌++◌, Option, none, some}
use smile_fee.Base.{bit_and, ◌==◌, if◌then◌else◌, u8, ◌>>>◌, ℤ, negsuc}
use smile_fee.Base.{◌+ℤ◌}
use smile_fee.Rmap.Packet.{RmapPkt, to_byte, rmap_get_min_hdr_size}

-- The first `len` bytes at a pointer; `none` is a read that C leaves undefined.
unfoldable pub read_bytes : Option (List ℕ) → ℕ → Option (List ℕ)
read_bytes bytes zero = some []
read_bytes none (suc len) = none
read_bytes (some []) (suc len) = none
read_bytes (some (x ∷ xs)) (suc len) = elim (read_bytes (some xs) len) [
  | none ↦ none
  | some ys ↦ some (x ∷ ys)
]

unfoldable pub rmap_hdr_size : Option RmapPkt → ℤ
unfolding rmap_get_min_hdr_size
rmap_hdr_size none = negsuc 0
rmap_hdr_size (some pkt) = rmap_get_min_hdr_size pkt +ℤ pkt.path_len +ℤ pkt.rpath_len

abbrev pub len_bytes : RmapPkt → List ℕ
len_bytes pkt = u8 (pkt.data_len >>> 16) ∷ u8 (pkt.data_len >>> 8) ∷ u8 pkt.data_len ∷ []

-- What follows the transaction identifier: the address only in a command, no length in the reply
-- to a write.
unfoldable pub hdr_tail : RmapPkt → List ℕ
hdr_tail pkt =
    if pkt.ri.cmd_resp == 0
    then (if bit_and pkt.ri.cmd 0x8 == 0 then 0x0 ∷ len_bytes pkt else [])
    else (0x0
        ∷ u8 (pkt.addr >>> 24)
        ∷ u8 (pkt.addr >>> 16)
        ∷ u8 (pkt.addr >>> 8)
        ∷ u8 pkt.addr
        ∷ len_bytes pkt)

unfoldable pub hdr_bytes : RmapPkt → List ℕ → List ℕ → List ℕ
unfolding hdr_tail to_byte
hdr_bytes pkt path rpath =
    path
    ++ (pkt.dst
        ∷ pkt.proto_id
        ∷ to_byte pkt.ri
        ∷ pkt.key
        ∷ (rpath ++ (pkt.src ∷ u8 (pkt.tr_id >>> 8) ∷ u8 pkt.tr_id ∷ hdr_tail pkt)))

-- The bytes written, or `none` where a path is shorter than its length. The value that the
-- function returns is their number.
unfoldable pub rmap_build_hdr : RmapPkt → Option (List ℕ)
unfolding read_bytes hdr_bytes
rmap_build_hdr pkt = elim (read_bytes pkt.path pkt.path_len) [
  | none ↦ none
  | some path ↦ elim (read_bytes pkt.rpath pkt.rpath_len) [
    | none ↦ none
    | some rpath ↦ some (hdr_bytes pkt path rpath)
  ]
]
