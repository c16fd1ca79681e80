-- ===== src/Tests/Packets.antt =====
-- A link with a destination path of one byte and a return path of four, and commands for it.
use smile_fee.Base.{ℕ, List, [], ◌∷◌, none, some, true, replicate}
use smile_fee.Rmap.Packet.{RmapPkt}
use smile_fee.Link.Log.{TransLog}
use smile_fee.Link.State.{Link, TxCall, RxPkt}

abbrev pub all_bytes : List ℕ
all_bytes = 0x12 ∷ 0x34 ∷ 0x56 ∷ 0x78 ∷ []

abbrev pub idle_log : TransLog
idle_log = record { in_use = replicate 64 0; local_addr = replicate 64 0; pending = 0 }

-- Every slot is in use.
abbrev pub full_log : TransLog
full_log = record { in_use = replicate 64 1; local_addr = replicate 64 4096; pending = 64 }

-- Only slot 0 is in use, for the address 4096.
abbrev pub one_log : TransLog
one_log = record { in_use = 1 ∷ replicate 63 0; local_addr = replicate 64 4096; pending = 1 }

-- The client accepts every command.
abbrev pub accept : TxCall → ℕ
accept call = 0

abbrev pub idle_link : Link
idle_link = record {
  smile_fee_addr = 0x51;
  icu_addr = 0x50;
  dpath = some (2 ∷ []);
  rpath = some (0 ∷ 0 ∷ 0 ∷ 3 ∷ []);
  dpath_len = 1;
  rpath_len = 4;
  dst_key = 0xd1;
  rmap_tx = some accept;
  rmap_rx = true;
  data_mtu = 4096;
  trans_log = idle_log;
  non_rmap_pkt_err_cnt = 0;
  memory = λ a. 0;
  incoming = [];
  sent = [];
}

-- A reply to a read with the identifier 0.
abbrev pub reply_bytes : List ℕ
reply_bytes = 0x50 ∷ 1 ∷ 0x0c ∷ 0 ∷ 0x51 ∷ 0 ∷ 0 ∷ 0 ∷ 0 ∷ 0 ∷ 4 ∷ 0 ∷ 1 ∷ 2 ∷ 3 ∷ 4 ∷ 0 ∷ []

abbrev pub reply_rx : RxPkt
reply_rx = record {
  announced = 17;
  received = 17;
  content = reply_bytes;
  buffer_ok = true;
  allocs = record { pkt_ok = true; rpath_ok = true; data_ok = true };
}

abbrev pub waiting_link : Link
waiting_link = let s = idle_link in record s { trans_log = one_log; incoming = reply_rx ∷ [] }

abbrev pub full_link : Link
full_link = let s = idle_link in record s { trans_log = full_log }

-- A command to write four bytes.
abbrev pub write_pkt : RmapPkt
write_pkt = record {
  path = none;
  path_len = 0;
  dst = 0x51;
  proto_id = 1;
  ri = record { reply_addr_len = 1; cmd = 0xb; cmd_resp = 1; reserved = 0 };
  key = 0xd1;
  src = 0x50;
  rpath = some (0 ∷ 0 ∷ 0 ∷ 3 ∷ []);
  rpath_len = 4;
  tr_id = 7;
  addr = 0x00801800;
  payload = none;
  data_len = 4;
  hdr_crc = some 0;
  data_crc = some 0;
}

-- A command to read four bytes.
abbrev pub read_pkt : RmapPkt
read_pkt =
    let p = write_pkt in
    record p { ri = record { reply_addr_len = 1; cmd = 0x3; cmd_resp = 1; reserved = 0 } }

abbrev pub response_pkt : RmapPkt
response_pkt =
    let p = write_pkt in
    record p {
      ri = record { reply_addr_len = 1; cmd = 0x3; cmd_resp = 0; reserved = 0 };
      tr_id = 0;
      payload = some all_bytes;
    }
