-- ===== src/Rmap/Packet/Setters.antt =====
-- When the setters of FEE/rmap.c that can fail succeed, and what they then set.
use smile_fee.Base.{ℕ, ◌%◌, ◌^◌, ◌≤◌, ◌<◌, List, Option, none, some, true, false}
use smile_fee.Base.{
  ◌||◌, ◌&&◌, not, ◌==◌, ltb, if◌then◌else◌, length, bit_and, ◌≡◌, refl, ◌∙◌, arith,
}
use smile_fee.Base.{Bool-cases, inl, inr, ==_iff}
use smile_fee.Bits.{bit_and-ones}
use smile_fee.Rmap.Packet.{RmapPkt, copied, is_null, is_read_code, is_write_code, with_reply_words}
use smile_fee.Rmap.Packet.{rmap_set_dest_path, rmap_set_reply_path, rmap_set_cmd, rmap_set_data_len}
use smile_fee.Rmap.Packet.{rmap_validate_cmd_code, success}

-- A null pointer holds no bytes.
not_null :
    (bytes : Option (List ℕ)) (len : ℕ)
    → len ≤ length (copied bytes len)
    → (is_null bytes && not (len == 0)) ≡ false
not_null none len h = let nothing : (len == 0) ≡ true = ground arith in rw nothing
not_null (some xs) len h = refl

pub rmap_set_dest_path-success :
    (pkt : RmapPkt) (bytes : Option (List ℕ)) (len : ℕ)
    → len ≤ length (copied bytes len)
    → len ≤ 15
    → rmap_set_dest_path true (some pkt) bytes len
      ≡ (success, some (record pkt { path_len = len; path = some (copied bytes len) }))
unfolding rmap_set_dest_path
rmap_set_dest_path-success pkt bytes len h fits =
    let short : ltb 15 len ≡ false = ground arith in rw (not_null bytes len h, short)

pub rmap_set_reply_path-success :
    (pkt : RmapPkt) (bytes : Option (List ℕ)) (len : ℕ)
    → len ≤ length (copied bytes len)
    → len ≤ 12
    → len % 4 ≡ 0
    → rmap_set_reply_path true (some pkt) bytes len ≡ (
      success,
      some (record pkt {
        rpath_len = len;
        rpath = if len == 0 then pkt.rpath else some (copied bytes len);
        ri = with_reply_words pkt.ri len;
      }),
    )
unfolding rmap_set_reply_path
rmap_set_reply_path-success pkt bytes len h fits words = elim (Bool-cases (len == 0)) [
  | inl nothing ↦ rw (not_null bytes len h) (simp (short, multiple, nothing))
  | inr something ↦ rw (not_null bytes len h) (simp (short, multiple, something))
]
  where
    short : ltb 12 len ≡ false
    short = ground arith

    multiple : (bit_and len 0x3 == 0) ≡ true
    multiple = (==_iff _ _).1 (bit_and-ones 2 len ∙ words)

pub known_code-lt : (code : ℕ) → is_read_code code || is_write_code code ≡ true → code < 16
known_code-lt code known = ground arith

pub rmap_set_cmd-success :
    (pkt : RmapPkt) (code : ℕ)
    → is_read_code code || is_write_code code ≡ true
    → rmap_set_cmd (some pkt) code ≡ (
      success,
      some (let ri = pkt.ri in record pkt { ri = record ri { cmd = code; cmd_resp = 1 } }),
    )
unfolding rmap_set_cmd
rmap_set_cmd-success pkt code known = rw (rmap_set_cmd, valid, bits)
  where
    valid : rmap_validate_cmd_code code ≡ success
    valid = unfold rmap_validate_cmd_code in rw known

    bits : bit_and code 0xf ≡ code
    bits = omega (arith, bit_and-ones 4 code, known_code-lt code known)

pub rmap_set_data_len-success :
    (pkt : RmapPkt) (len : ℕ)
    → len < 2 ^ 24
    → rmap_set_data_len (some pkt) len ≡ (success, some (record pkt { data_len = len }))
unfolding rmap_set_data_len
rmap_set_data_len-success pkt len h = let fits : ltb 0xffffff len ≡ false = ground arith in rw fits
