-- ===== src/Rmap/Parse/Safe.antt =====
-- `rmap_pkt_from_buffer` as a whole: when it reads outside of its buffer.
use smile_fee.Base.{ℕ, ◌+◌, ◌≤◌, ◌<◌, List, some, true, false, not, bit_and, ltb, leb, ◌==◌, ◌≡◌}
use smile_fee.Base.{refl, arith, length, get_or, leb→le, get_elem?-eq-get_or, Bool-cases, inl, inr}
use smile_fee.Base.{◌↔◌, ==_iff, sym, subst}
use smile_fee.Base.{all_below, all_below-true, ◌||◌}
use smile_fee.Rmap.Packet.{
  RmapPkt, rmap_protocol_id, rmap_get_min_hdr_size, is_write_code, is_read_code,
}
use smile_fee.Rmap.Parse.{
  Outcome, fault, null, done, require, ◌>>=◌, Allocs, skipped, is_write_reply,
}
use smile_fee.Rmap.Parse.{
  parse_start, parse_rpath, parse_ids, parse_addr, parse_len, read_header, parse_data,
}
use smile_fee.Rmap.Parse.{decode, rmap_pkt_from_buffer, known_size}
use smile_fee.Rmap.Parse.Bounds.{Ensures, bind-Ensures, require-Ensures, Any, Keeps}
use smile_fee.Rmap.Parse.Bounds.{parse_start-Ensures, parse_rpath-Ensures, parse_ids-Ensures}
use smile_fee.Rmap.Parse.Bounds.{
  parse_addr-Ensures, parse_len-Ensures, reads_behind, parse_data-fault_iff,
}

pub done_inj : {x y : RmapPkt} → done x ≡ done y → x ≡ y
done_inj e = cc

-- Each write code has the write bit.
pub write_bit : (c : ℕ) → is_write_code c ≡ true → (bit_and c 0x8 == 0) ≡ false
write_bit c h = ground (arith, all_below-true 16 _ c table (in_table h), h)
  where
    in_table : is_write_code c ≡ true → c < 16
    in_table e = ground arith

    table : all_below 16 (λ d. not (is_write_code d) || not (bit_and d 0x8 == 0)) ≡ true
    table = unfold all_below in refl

-- What the minimum size of a header says of its fields.
record Sized (pkt : RmapPkt) (m : ℕ) : Type 0 where
  least : 7 ≤ m
  command : (pkt.ri.cmd_resp == 0) ≡ false → m ≡ 15
  lengthy : is_write_reply pkt ≡ false → 11 ≤ m

known_size-Ensures : (pkt : RmapPkt) → Ensures (Sized pkt) (known_size (rmap_get_min_hdr_size pkt))
unfolding rmap_get_min_hdr_size
known_size-Ensures pkt = elim (Bool-cases (is_read_code pkt.ri.cmd)) [
  | inl r ↦ elim (Bool-cases (pkt.ri.cmd_resp == 0)) [
    | inl reply ↦
        rw (r, reply)
          (record { least = omega arith; command = λ e. cc; lengthy = λ e. omega arith })
    | inr command ↦
        rw (r, command)
          (record { least = omega arith; command = λ e. refl; lengthy = λ e. omega arith })
  ]
  | inr nr ↦ elim (Bool-cases (is_write_code pkt.ri.cmd)) [
    | inr nw ↦ rw (nr, nw) tt
    | inl w ↦ elim (Bool-cases (pkt.ri.cmd_resp == 0)) [
      | inl reply ↦
          rw (nr, w, reply)
            (record {
              least = omega arith;
              command = λ e. cc;
              lengthy = λ e. ground (arith, write_bit pkt.ri.cmd w, e);
            })
      | inr command ↦
          rw (nr, w, command)
            (record { least = omega arith; command = λ e. refl; lengthy = λ e. omega arith })
    ]
  ]
]

-- The header of `pkt` lies within `len` bytes.
record Room (len : ℕ) (pkt : RmapPkt) : Type 0 where
  ids_room : 7 + pkt.rpath_len ≤ len
  addr_room : (pkt.ri.cmd_resp == 0) ≡ false → 15 + pkt.rpath_len ≤ len
  len_room : is_write_reply pkt ≡ false → 11 + skipped pkt ≤ len

Sized-Room :
    (started pkt : RmapPkt) (m len : ℕ)
    → Sized started m
    → pkt.ri ≡ started.ri
    → m + pkt.rpath_len ≤ len
    → Room len pkt
Sized-Room started pkt m len sized same fit = record {
  ids_room = omega (arith, sized.least);
  addr_room = λ e. omega (arith, sized.command (rw (← same) e));
  len_room = λ e. elim (Bool-cases (pkt.ri.cmd_resp == 0)) [
    | inl reply ↦ rw reply (omega (arith, sized.lengthy (rw (← same) e)))
    | inr command ↦ rw command (omega (arith, sized.command (rw (← same) command)))
  ];
}

Keeps-Room : (pkt out : RmapPkt) (len : ℕ) → Room len pkt → Keeps pkt out → Room len out
Keeps-Room pkt out len room (same, length) = record {
  ids_room = rw length room.ids_room;
  addr_room = λ e. rw length (room.addr_room (rw (← same) e));
  len_room = λ e. rw (same, length) (room.len_room (rw (← same) e));
}

-- The fields after the reply path.
rest-Ensures :
    (buf : List ℕ) (len : ℕ) (routed : RmapPkt)
    → len ≤ length buf
    → Room len routed
    → Ensures Any (
        parse_ids buf routed >>= λ identified.
        parse_addr buf identified >>= λ addressed. parse_len buf addressed)
rest-Ensures buf len routed h room =
    bind-Ensures (Keeps routed) Any (parse_ids buf routed) _
      (parse_ids-Ensures buf routed (omega (arith, room.ids_room)))
      λ identified k1.
        let room1 = Keeps-Room routed identified len room k1 in
        bind-Ensures (Keeps identified) Any (parse_addr buf identified) _
          (parse_addr-Ensures buf identified (λ e. omega (arith, room1.addr_room e)))
          λ addressed k2.
            let room2 = Keeps-Room identified addressed len room1 k2 in
            parse_len-Ensures buf addressed (λ e. omega (arith, room2.len_room e))

read_header-Ensures :
    (a : Allocs) (buf : List ℕ) (len : ℕ)
    → len ≤ length buf
    → 7 ≤ len
    → Ensures Any (read_header a buf len)
unfolding read_header
read_header-Ensures a buf len h h7 =
    bind-Ensures _ _ (require a.pkt_ok) _ (require-Ensures _) λ _ _.
      bind-Ensures _ _ (parse_start buf) _ (parse_start-Ensures buf (omega arith)) λ started fresh.
        bind-Ensures _ _ (known_size (rmap_get_min_hdr_size started)) _ (known_size-Ensures started)
          λ m sized. bind-Ensures _ _ (require (leb m len)) _ (require-Ensures _) λ _ fits.
            let m7 : 7 ≤ m = sized.least in
            let room : m ≤ len = leb→le m len fits in
            bind-Ensures _ _ (parse_rpath a.rpath_ok buf len m started) _
              (parse_rpath-Ensures a.rpath_ok buf len m started h (omega arith) room fresh)
              λ routed (same, fit).
                rest-Ensures buf len routed h (Sized-Room started routed m len sized same fit)

-- The data is reached by the packet that the header describes, and by no other.
decode-fault_iff :
    (a : Allocs) (buf : List ℕ) (len : ℕ)
    → len ≤ length buf
    → 7 ≤ len
    → (decode a buf len ≡ fault) ↔ (
        (pkt : RmapPkt) × (read_header a buf len ≡ done pkt)
        × reads_behind a.data_ok buf len pkt ≡ true)
unfolding decode
decode-fault_iff a buf len h h7 = go (read_header a buf len) (read_header-Ensures a buf len h h7)
  where
    go :
        (m : Outcome RmapPkt)
        → Ensures Any m
        → ((m >>= parse_data a.data_ok buf len) ≡ fault)
          ↔ ((pkt : RmapPkt) × (m ≡ done pkt) × reads_behind a.data_ok buf len pkt ≡ true)
    go fault inside = absurd inside
    go null inside = (λ e. cc, λ (pkt, e, r). cc)
    go (done m) inside =
        let iff = parse_data-fault_iff a.data_ok buf len m h in
        (
          λ e. (m, refl, iff.0 e),
          λ (pkt, e, r).
              iff.1 (subst (λ p. reads_behind a.data_ok buf len p ≡ true) (sym (done_inj e)) r),
        )

-- If the buffer holds the `len` bytes that the caller announces, `rmap_pkt_from_buffer` reads
-- outside of it in one case only: `len` is at least 7, the protocol is RMAP, the header is accepted,
-- and the checksum of the header, byte 11, or that of the data, the byte behind the data of an
-- accepted length whose copy can be allocated, lies behind the buffer. No other read, of the header,
-- the reply path or the data, leaves the buffer, whatever the bytes are.
pub rmap_pkt_from_buffer-fault_iff :
    (a : Allocs) (cnt : ℕ) (buf : List ℕ) (len : ℕ)
    → len ≤ length buf
    → ((rmap_pkt_from_buffer a cnt (some buf) len).1 ≡ fault) ↔ (
        (7 ≤ len)
        × (get_or buf 1 0 ≡ rmap_protocol_id)
        × (pkt : RmapPkt) × (read_header a buf len ≡ done pkt)
        × reads_behind a.data_ok buf len pkt ≡ true)
unfolding rmap_pkt_from_buffer
rmap_pkt_from_buffer-fault_iff a cnt buf len h = elim (Bool-cases (ltb len 7)) [
  | inl short ↦
      let not_short : 7 ≤ len → ⊥ = λ long. ground (arith, long) in
      rw short (λ e. cc, λ r. absurd (not_short r.0))
  | inr enough ↦
      let size : 7 ≤ len = ground arith in
      elim (Bool-cases (get_or buf 1 0 == rmap_protocol_id)) [
        | inl rmap ↦
            let iff = decode-fault_iff a buf len h size in
            rw (enough, get_elem?-eq-get_or buf 1 0 (omega arith), rmap)
              (
                λ e. let f = iff.0 e in (size, (==_iff _ _).0 rmap, f.0, f.1, f.2),
                λ r. iff.1 (r.2, r.3, r.4),
              )
        | inr other ↦
            let not_rmap : get_or buf 1 0 ≡ rmap_protocol_id → ⊥ = λ e. ground (arith, e) in
            rw (enough, get_elem?-eq-get_or buf 1 0 (omega arith), other)
              (λ e. cc, λ r. absurd (not_rmap r.1))
      ]
]
