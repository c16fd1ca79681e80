-- ===== src/Rmap/Parse.antt =====
-- `rmap_pkt_from_buffer` of FEE/rmap.c, with the counter of packets of other protocols.
pub mod Safe
pub mod Bounds
use smile_fee.Base.{
  ℕ, zero, suc, ◌+◌, ◌*◌, ◌%◌, ◌^◌, List, [], ◌∷◌, Option, none, some, Bool, true, false,
}
use smile_fee.Base.{not, ◌&&◌, bit_and, bit_or, ltb, leb, ◌==◌, if◌then◌else◌, ◌<<<◌}
use smile_fee.Base.{get_elem?, ℤ, pos, negsuc}
use smile_fee.Rmap.Packet.{RmapPkt, of_byte, rmap_get_min_hdr_size}
use smile_fee.Rmap.Packet.{cleared_pkt, rmap_protocol_id}

-- `fault` is a read outside the buffer; `null` is the null pointer that the function returns on an
-- error.
pub data Outcome {ℓ} (A : Type ℓ) : Type ℓ where
  fault null : Outcome A
  done : A → Outcome A

infixl 5 ◌>>=◌ ◌>>◌
abbrev pub ◌>>=◌ {ℓ κ} : {A : Type ℓ} {B : Type κ} → Outcome A → (A → Outcome B) → Outcome B
fault >>= f = fault
null >>= f = null
done a >>= f = f a

abbrev pub ◌>>◌ {ℓ} : {B : Type ℓ} → Outcome (Unit {0}) → Outcome B → Outcome B
m >> k = m >>= λ _. k

-- `if (!test) goto error`.
abbrev pub require : Bool → Outcome (Unit {0})
require true = done tt
require false = null

-- `buf[i]`.
abbrev pub byte : List ℕ → ℕ → Outcome ℕ
byte buf i = elim (get_elem? buf i) [ none ↦ fault | some x ↦ done x ]

-- Which of the allocations of one call succeed.
pub record Allocs : Type 0 where
  pub pkt_ok : Bool
  pub rpath_ok : Bool
  pub data_ok : Bool

-- The bytes `buf[start]` to `buf[start + n - 1]`.
unfoldable pub bytes_at : List ℕ → ℕ → ℕ → Outcome (List ℕ)
bytes_at buf start zero = done []
bytes_at buf start (suc n) = do x ← byte buf start; xs ← bytes_at buf (start + 1) n; done (x ∷ xs)

-- The header fields before the reply path.
unfoldable pub parse_start : List ℕ → Outcome RmapPkt
unfolding of_byte
parse_start buf = do
  dst ← byte buf 0x00
  proto ← byte buf 0x01
  instruction ← byte buf 0x02
  key ← byte buf 0x03
  done (
      let pkt = cleared_pkt in
      record pkt { dst = dst; proto_id = proto; ri = of_byte instruction; key = key })

abbrev pub known_size : ℤ → Outcome ℕ
known_size (pos n) = done n
known_size (negsuc n) = null

-- Only a command has a reply path.
unfoldable pub parse_rpath : Bool → List ℕ → ℕ → ℕ → RmapPkt → Outcome RmapPkt
unfolding bytes_at
parse_rpath allocated buf len min_hdr_size pkt = if pkt.ri.cmd_resp == 0 then done pkt else do
  let n = pkt.ri.reply_addr_len * 4
  require (leb (min_hdr_size + n) len)
  require allocated
  rpath ← bytes_at buf 0x04 n
  done (record pkt { rpath_len = n; rpath = some rpath })

unfoldable pub parse_ids : List ℕ → RmapPkt → Outcome RmapPkt
parse_ids buf pkt = do
  src ← byte buf (0x04 + pkt.rpath_len)
  id1 ← byte buf (0x05 + pkt.rpath_len)
  id0 ← byte buf (0x06 + pkt.rpath_len)
  done (record pkt { src = src; tr_id = bit_or (id1 <<< 8) id0 })

unfoldable pub parse_addr : List ℕ → RmapPkt → Outcome RmapPkt
parse_addr buf pkt = if pkt.ri.cmd_resp == 0 then done pkt else do
  a3 ← byte buf (0x08 + pkt.rpath_len)
  a2 ← byte buf (0x09 + pkt.rpath_len)
  a1 ← byte buf (0x0a + pkt.rpath_len)
  a0 ← byte buf (0x0b + pkt.rpath_len)
  done (record pkt { addr = bit_or (bit_or (bit_or (a3 <<< 24) (a2 <<< 16)) (a1 <<< 8)) a0 })

-- The value of `n` after the address: 4 more in a command.
abbrev pub skipped : RmapPkt → ℕ
skipped pkt = if pkt.ri.cmd_resp == 0 then pkt.rpath_len else pkt.rpath_len + 4

abbrev pub is_write_reply : RmapPkt → Bool
is_write_reply pkt = pkt.ri.cmd_resp == 0 && not (bit_and pkt.ri.cmd 0x8 == 0)

unfoldable pub parse_len : List ℕ → RmapPkt → Outcome RmapPkt
parse_len buf pkt = if is_write_reply pkt then done pkt else do
  l2 ← byte buf (0x08 + skipped pkt)
  l1 ← byte buf (0x09 + skipped pkt)
  l0 ← byte buf (0x0a + skipped pkt)
  done (record pkt { data_len = bit_or (bit_or (l2 <<< 16) (l1 <<< 8)) l0 })

-- The two checksums are the only reads that no test guards.
unfoldable pub parse_data : Bool → List ℕ → ℕ → RmapPkt → Outcome RmapPkt
unfolding bytes_at
parse_data allocated buf len pkt = do
  hdr_crc ← byte buf 0x0b
  if pkt.data_len == 0 then done (record pkt { hdr_crc = some hdr_crc }) else do
    let start = 0x0c + skipped pkt
    require (leb (start + pkt.data_len) len)
    require allocated
    bytes ← bytes_at buf start pkt.data_len
    data_crc ← byte buf (start + pkt.data_len)
    done (record pkt { hdr_crc = some hdr_crc; payload = some bytes; data_crc = some data_crc })

-- From the creation of the packet to the last test before its checksums and its data.
unfoldable pub read_header : Allocs → List ℕ → ℕ → Outcome RmapPkt
read_header a buf len = do
  require a.pkt_ok
  started ← parse_start buf
  min_hdr_size ← known_size (rmap_get_min_hdr_size started)
  require (leb min_hdr_size len)
  routed ← parse_rpath a.rpath_ok buf len min_hdr_size started
  identified ← parse_ids buf routed
  addressed ← parse_addr buf identified
  parse_len buf addressed

-- From the creation of the packet on.
unfoldable pub decode : Allocs → List ℕ → ℕ → Outcome RmapPkt
unfolding read_header
decode a buf len = do measured ← read_header a buf len; parse_data a.data_ok buf len measured

-- `non_rmap_pkt_err_cnt`, a `size_t`.
abbrev pub count_error : ℕ → ℕ
count_error cnt = (cnt + 1) % 2 ^ 64

-- The new value of the counter, and the packet.
unfoldable pub rmap_pkt_from_buffer : Allocs → ℕ → Option (List ℕ) → ℕ → ℕ × Outcome RmapPkt
rmap_pkt_from_buffer a cnt none len = (cnt, null)
rmap_pkt_from_buffer a cnt (some buf) len =
    if ltb len 7 then (cnt, null) else elim (get_elem? buf 0x01) [
      | none ↦ (cnt, fault)
      | some proto ↦
          if proto == rmap_protocol_id then (cnt, decode a buf len) else (count_error cnt, null)
    ]
