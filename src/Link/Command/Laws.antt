-- ===== src/Link/Command/Laws.antt =====
-- The packet that `smile_fee_gen_cmd` of FEE/smile_fee_rmap.c makes, and its paths.
use smile_fee.Base.{
  ℕ, zero, suc, ◌%◌, ◌/◌, ◌^◌, ◌≤◌, ◌<◌, List, [], ◌∷◌, Option, none, some, true, false,
}
use smile_fee.Base.{◌||◌, ◌==◌, length, ◌≡◌, refl, ap}
use smile_fee.Base.{◌∙◌, arith, if◌then◌else◌, length-take}
use smile_fee.Rmap.Packet.{RmapPkt, cleared_pkt, copied, is_read_code, is_write_code}
use smile_fee.Rmap.Packet.{rmap_create_packet, rmap_set_dst, rmap_set_src}
use smile_fee.Rmap.Packet.{rmap_set_reply_path, rmap_set_key, rmap_set_cmd, rmap_set_tr_id}
use smile_fee.Rmap.Packet.{rmap_set_data_addr, rmap_set_data_len}
use smile_fee.Rmap.Header.{read_bytes}
use smile_fee.Rmap.Packet.Setters.{rmap_set_dest_path-success, rmap_set_reply_path-success}
use smile_fee.Rmap.Packet.Setters.{rmap_set_cmd-success, rmap_set_data_len-success}
use smile_fee.Link.State.{Link}
use smile_fee.Link.Command.{CallAllocs, GenAllocs, gen_pkt}

-- The configured paths are such that the setters of FEE/smile_fee_rmap.c accept.
pub record IsConfigured (s : Link) : Type 0 where
  pub dpath_holds : s.dpath_len ≤ length (copied s.dpath s.dpath_len)
  pub dpath_fits : s.dpath_len ≤ 15
  pub rpath_holds : s.rpath_len ≤ length (copied s.rpath s.rpath_len)
  pub rpath_fits : s.rpath_len ≤ 12
  pub rpath_words : s.rpath_len % 4 ≡ 0

abbrev pub call_ok : CallAllocs
call_ok = record { pkt_ok = true; path_ok = true; rpath_ok = true }

abbrev pub gen_ok : GenAllocs
gen_ok = record { sizing = call_ok; filling = call_ok }

-- The packet of a command of type `code`.
abbrev pub command_pkt : Link → ℕ → ℕ → ℕ → ℕ → RmapPkt
command_pkt s trans_id code value size =
    let fresh = cleared_pkt in
    record fresh {
      path = some (copied s.dpath s.dpath_len);
      path_len = s.dpath_len;
      dst = s.smile_fee_addr;
      ri = record { reply_addr_len = s.rpath_len / 4 % 4; cmd = code; cmd_resp = 1; reserved = 0 };
      key = s.dst_key;
      src = s.icu_addr;
      rpath = if s.rpath_len == 0 then none else some (copied s.rpath s.rpath_len);
      rpath_len = s.rpath_len;
      tr_id = trans_id;
      addr = value;
      data_len = size;
    }

pub gen_pkt-eq :
    (s : Link) (trans_id code value size : ℕ)
    → IsConfigured s
    → is_read_code code || is_write_code code ≡ true
    → size < 2 ^ 24
    → gen_pkt call_ok s trans_id code value size ≡ some (command_pkt s trans_id code value size)
unfolding gen_pkt rmap_create_packet rmap_set_dst rmap_set_src rmap_set_key rmap_set_tr_id
    rmap_set_data_addr
gen_pkt-eq s trans_id code value size c known fits =
    ap (λ o. after_path o.1)
      (rmap_set_dest_path-success _ s.dpath s.dpath_len c.dpath_holds c.dpath_fits)
    ∙ ap (λ o. after_rpath o.1)
        (rmap_set_reply_path-success _ s.rpath s.rpath_len c.rpath_holds c.rpath_fits c.rpath_words)
    ∙ ap (λ o. after_cmd o.1) (rmap_set_cmd-success _ code known)
    ∙ ap (λ o. o.1) (rmap_set_data_len-success _ size fits)
  where
    after_cmd : Option RmapPkt → Option RmapPkt
    after_cmd p = (rmap_set_data_len (rmap_set_data_addr (rmap_set_tr_id p trans_id) value) size).1

    after_rpath : Option RmapPkt → Option RmapPkt
    after_rpath p = after_cmd (rmap_set_cmd (rmap_set_key p s.dst_key) code).1

    after_path : Option RmapPkt → Option RmapPkt
    after_path p = after_rpath (rmap_set_reply_path true p s.rpath s.rpath_len).1

pub read_bytes_all : (xs : List ℕ) (n : ℕ) → length xs ≡ n → read_bytes (some xs) n ≡ some xs
unfolding read_bytes
read_bytes_all [] zero e = refl
read_bytes_all [] (suc n) e = absurd (omega arith)
read_bytes_all (x ∷ xs) zero e = absurd (omega arith)
read_bytes_all (x ∷ xs) (suc n) e = rw (read_bytes_all xs n (omega arith))

pub length-copied : (bytes : Option (List ℕ)) (n : ℕ) → length (copied bytes n) ≤ n
length-copied none n = omega arith
length-copied (some xs) n = omega (arith, length-take n xs)

-- The configured paths as byte strings.
abbrev pub dpath_bytes : Link → List ℕ
dpath_bytes s = copied s.dpath s.dpath_len

abbrev pub rpath_bytes : Link → List ℕ
rpath_bytes s = copied s.rpath s.rpath_len

pub path_read :
    (s : Link)
    → IsConfigured s
    → read_bytes (some (dpath_bytes s)) s.dpath_len ≡ some (dpath_bytes s)
path_read s c =
    read_bytes_all (dpath_bytes s) s.dpath_len
      (omega (arith, c.dpath_holds, length-copied s.dpath s.dpath_len))

optional_read :
    (bytes : List ℕ) (n : ℕ)
    → length bytes ≡ n
    → read_bytes (if n == 0 then none else some bytes) n ≡ some bytes
unfolding read_bytes
optional_read [] zero e = refl
optional_read (x ∷ xs) zero e = absurd (omega arith)
optional_read bytes (suc n) e =
    let something : (suc n == 0) ≡ false = ground arith in
    rw something (read_bytes_all bytes (suc n) e)

pub rpath_read :
    (s : Link)
    → IsConfigured s
    → read_bytes (if s.rpath_len == 0 then none else some (rpath_bytes s)) s.rpath_len
      ≡ some (rpath_bytes s)
rpath_read s c =
    optional_read (rpath_bytes s) s.rpath_len
      (omega (arith, c.rpath_holds, length-copied s.rpath s.rpath_len))

-- The header without the destination path, which routers take off.
abbrev pub routed_pkt : Link → ℕ → ℕ → ℕ → ℕ → RmapPkt
routed_pkt s trans_id code value size =
    let pkt = command_pkt s trans_id code value size in record pkt { path = none; path_len = 0 }
