-- ===== src/Rmap/Packet.antt =====
-- FEE/rmap.h and the setters of FEE/rmap.c: `struct rmap_pkt`, its instruction bit field and the
-- functions that fill it. A pointer is an option; the flag `allocated` of a function says whether
-- its call of malloc or calloc returns memory.
pub mod Setters
use smile_fee.Base.{ℕ, ◌+◌, ◌*◌, ◌/◌, ◌%◌, bit_and, List, [], Option, none, some, Bool}
use smile_fee.Base.{
  true, false, not, ◌&&◌, ◌||◌, ltb, ◌==◌, if◌then◌else◌, ◌>>>◌, take, ℤ, pos, negsuc,
}

abbrev pub rmap_protocol_id : ℕ
rmap_protocol_id = 0x01

abbrev pub rmap_max_path_len : ℕ
rmap_max_path_len = 15

abbrev pub rmap_max_reply_path_len : ℕ
rmap_max_reply_path_len = 12

abbrev pub rmap_max_data_len : ℕ
rmap_max_data_len = 0xffffff

-- The command codes of Table 5-1.
abbrev pub read_addr_single : ℕ
read_addr_single = 0x2

abbrev pub read_addr_inc : ℕ
read_addr_inc = 0x3

abbrev pub read_modify_write_addr_inc : ℕ
read_modify_write_addr_inc = 0x7

abbrev pub write_addr_inc_reply : ℕ
write_addr_inc_reply = 0xb

abbrev pub write_addr_inc_verify_reply : ℕ
write_addr_inc_verify_reply = 0xf

-- `struct rmap_instruction`: 2, 4, 1 and 1 bits, the lowest first.
pub record RmapInstruction : Type 0 where
  pub reply_addr_len : ℕ
  pub cmd : ℕ
  pub cmd_resp : ℕ
  pub reserved : ℕ

-- The two views of the union of `ri` and `instruction`.
unfoldable pub to_byte : RmapInstruction → ℕ
to_byte ri = ri.reserved * 128 + ri.cmd_resp * 64 + ri.cmd * 4 + ri.reply_addr_len

unfoldable pub of_byte : ℕ → RmapInstruction
of_byte b = record {
  reply_addr_len = b % 4;
  cmd = b / 4 % 16;
  cmd_resp = b / 64 % 2;
  reserved = b / 128 % 2;
}

-- `struct rmap_pkt`. The union of `key` and `status` is the field `key`. A checksum is `none` if
-- it was read past the end of a buffer, and so is not determined by the packet.
pub record RmapPkt : Type 0 where
  pub path : Option (List ℕ)
  pub path_len : ℕ
  pub dst : ℕ
  pub proto_id : ℕ
  pub ri : RmapInstruction
  pub key : ℕ
  pub src : ℕ
  pub rpath : Option (List ℕ)
  pub rpath_len : ℕ
  pub tr_id : ℕ
  pub addr : ℕ
  pub payload : Option (List ℕ)
  pub data_len : ℕ
  pub hdr_crc : Option ℕ
  pub data_crc : Option ℕ

-- What an `int` function that returns 0 or -1 reports.
pub data Status : Type 0 where
  success failure : Status

abbrev pub is_read_code : ℕ → Bool
is_read_code cmd = cmd == 0x2 || cmd == 0x3 || cmd == 0x7

abbrev pub is_write_code : ℕ → Bool
is_write_code cmd =
    cmd == 0x8
    || cmd == 0x9
    || cmd == 0xa
    || cmd == 0xb
    || cmd == 0xc
    || cmd == 0xd
    || cmd == 0xe
    || cmd == 0xf

unfoldable pub rmap_validate_cmd_code : ℕ → Status
rmap_validate_cmd_code cmd = if is_read_code cmd || is_write_code cmd then success else failure

-- -1 for an unknown command code.
unfoldable pub rmap_get_min_hdr_size : RmapPkt → ℤ
rmap_get_min_hdr_size pkt =
    if is_read_code pkt.ri.cmd
    then (if pkt.ri.cmd_resp == 0 then pos 11 else pos 15)
    else (if is_write_code pkt.ri.cmd
        then (if pkt.ri.cmd_resp == 0 then pos 7 else pos 15)
        else negsuc 0)

abbrev pub cleared_pkt : RmapPkt
cleared_pkt = record {
  path = none;
  path_len = 0;
  dst = 0;
  proto_id = rmap_protocol_id;
  ri = record { reply_addr_len = 0; cmd = 0; cmd_resp = 0; reserved = 0 };
  key = 0;
  src = 0;
  rpath = none;
  rpath_len = 0;
  tr_id = 0;
  addr = 0;
  payload = none;
  data_len = 0;
  hdr_crc = some 0;
  data_crc = some 0;
}

unfoldable pub rmap_create_packet : Bool → Option RmapPkt
rmap_create_packet allocated = if allocated then some cleared_pkt else none

unfoldable pub rmap_set_dst : Option RmapPkt → ℕ → Option RmapPkt
rmap_set_dst none value = none
rmap_set_dst (some pkt) value = some (record pkt { dst = value })

unfoldable pub rmap_set_src : Option RmapPkt → ℕ → Option RmapPkt
rmap_set_src none value = none
rmap_set_src (some pkt) value = some (record pkt { src = value })

unfoldable pub rmap_set_key : Option RmapPkt → ℕ → Option RmapPkt
rmap_set_key none value = none
rmap_set_key (some pkt) value = some (record pkt { key = value })

unfoldable pub rmap_set_tr_id : Option RmapPkt → ℕ → Option RmapPkt
rmap_set_tr_id none id = none
rmap_set_tr_id (some pkt) id = some (record pkt { tr_id = id })

unfoldable pub rmap_set_data_addr : Option RmapPkt → ℕ → Option RmapPkt
rmap_set_data_addr none value = none
rmap_set_data_addr (some pkt) value = some (record pkt { addr = value })

abbrev pub is_null {ℓ} : {A : Type ℓ} → Option A → Bool
is_null none = true
is_null (some _) = false

-- What `memcpy` copies from a pointer, which is null only where `len` is 0.
abbrev pub copied : Option (List ℕ) → ℕ → List ℕ
copied none len = []
copied (some bytes) len = take len bytes

-- The number of 32 bit words that hold the path, in the 2 bits of the instruction.
abbrev pub with_reply_words : RmapInstruction → ℕ → RmapInstruction
with_reply_words ri len = record ri { reply_addr_len = (len >>> 2) % 4 }

-- On a failed allocation `rpath_len` is set already, and the packet has no reply path.
unfoldable pub rmap_set_reply_path :
    Bool → Option RmapPkt → Option (List ℕ) → ℕ → Status × Option RmapPkt
rmap_set_reply_path allocated none bytes len = (failure, none)
rmap_set_reply_path allocated (some pkt) bytes len =
    if is_null bytes && not (len == 0)
    then (failure, some pkt)
    else if ltb rmap_max_reply_path_len len
    then (failure, some pkt)
    else if not (bit_and len 0x3 == 0)
    then (failure, some pkt)
    else if len == 0
    then (success, some (record pkt { rpath_len = len; ri = with_reply_words pkt.ri len }))
    else if allocated
    then (
      success,
      some (record pkt {
        rpath_len = len;
        rpath = some (copied bytes len);
        ri = with_reply_words pkt.ri len;
      }),
    )
    else (failure, some (record pkt { rpath_len = len; rpath = none }))

unfoldable pub rmap_set_dest_path :
    Bool → Option RmapPkt → Option (List ℕ) → ℕ → Status × Option RmapPkt
rmap_set_dest_path allocated none bytes len = (failure, none)
rmap_set_dest_path allocated (some pkt) bytes len =
    if is_null bytes && not (len == 0)
    then (failure, some pkt)
    else if ltb rmap_max_path_len len
    then (failure, some pkt)
    else if allocated
    then (success, some (record pkt { path_len = len; path = some (copied bytes len) }))
    else (failure, some (record pkt { path_len = len; path = none }))

abbrev pub as_command : RmapInstruction → ℕ → RmapInstruction
as_command ri code = record ri { cmd = bit_and code 0xf; cmd_resp = 1 }

unfoldable pub rmap_set_cmd : Option RmapPkt → ℕ → Status × Option RmapPkt
rmap_set_cmd none cmd = (failure, none)
rmap_set_cmd (some pkt) code = elim (rmap_validate_cmd_code code) [
  | failure ↦ (failure, some pkt)
  | success ↦ (success, some (record pkt { ri = as_command pkt.ri code }))
]

unfoldable pub rmap_set_data_len : Option RmapPkt → ℕ → Status × Option RmapPkt
rmap_set_data_len none len = (failure, none)
rmap_set_data_len (some pkt) len =
    if ltb rmap_max_data_len len
    then (failure, some pkt)
    else (success, some (record pkt { data_len = len }))
