-- ===== src/Fee/Full/Laws.antt =====
-- A full frame that is put together from data packets by `fee_ff_aggregate` of FEE/smile_fee.c.
use smile_fee.Base.{
  ℕ, ◌+◌, ◌*◌, ◌/◌, ◌%◌, ◌≤◌, ◌<◌, List, [], ◌∷◌, ◌++◌, Option, none, some, true, false,
}
use smile_fee.Base.{
  ◌==◌, ltb, leb, if◌then◌else◌, length, take, drop, ℤ, pos, ◌≡◌, refl, ap, sym, ◌∙◌, arith, All,
}
use smile_fee.Base.{length-append, take-append, le→leb, lt→ltb, subst, length-drop}
use mathlib.Core.List.{append_assoc, append-nil}
use smile_fee.Rmap.Header.{read_bytes}
use smile_fee.Link.Command.Laws.{read_bytes_all}
use smile_fee.Fee.Packet.{FeeDataPkt, fee_pkt_type_data}
use smile_fee.Fee.Full.{FeeFfData, overwrite, ff_data, ff_packet, fee_ff_aggregate}

-- The frame holds the bytes `acc` so far.
pub record Holds (ff : FeeFfData) (acc : List ℕ) : Type 0 where
  pub stored : take (length acc) ff.buffer ≡ acc
  pub counted : length acc ≡ 2 * ff.n
  pub size : length ff.buffer ≡ 2 * ff.n_elem

-- A data packet with at least one element, whose length field is right and even.
pub record IsData (pkt : FeeDataPkt) : Type 0 where
  pub of_type : pkt.hdr.type_field.pkt_type ≡ fee_pkt_type_data
  pub filled : length pkt.payload ≡ pkt.hdr.data_len
  pub even : pkt.hdr.data_len % 2 ≡ 0
  pub some_data : 0 < pkt.hdr.data_len

overwrite-fits :
    (buffer : List ℕ) (at : ℕ) (bytes : List ℕ)
    → at + length bytes ≤ length buffer
    → overwrite buffer at bytes
      ≡ some (take at buffer ++ (bytes ++ drop (at + length bytes) buffer))
unfolding overwrite
overwrite-fits buffer at bytes h = rw (le→leb _ _ h)

overwrite-behind :
    (buffer : List ℕ) (at : ℕ) (bytes : List ℕ)
    → length buffer < at + length bytes
    → overwrite buffer at bytes ≡ none
unfolding overwrite
overwrite-behind buffer at bytes h =
    let behind : leb (at + length bytes) (length buffer) ≡ false = ground arith in rw behind

abbrev answer : FeeDataPkt → ℤ
answer pkt = if pkt.hdr.type_field.last_pkt == 0 then pos 0 else pos 1

module _ (ff : FeeFfData) (pkt : FeeDataPkt) (d : IsData pkt) where
  payload_read : read_bytes (some pkt.payload) pkt.hdr.data_len ≡ some pkt.payload
  payload_read = read_bytes_all pkt.payload pkt.hdr.data_len d.filled

  pub ff_data-appends :
      (acc : List ℕ)
      → Holds ff acc
      → length acc + pkt.hdr.data_len ≤ 2 * ff.n_elem
      → (ff' : FeeFfData) × ff_data pkt ff ≡ some (answer pkt, ff')
        × Holds ff' (acc ++ pkt.payload)
        × ff'.n_elem ≡ ff.n_elem
  unfolding ff_data
  ff_data-appends acc h fits = (
    record ff { buffer = acc ++ (pkt.payload ++ rest); n = ff.n + pkt.hdr.data_len / 2 },
    rw (ff_data, within, payload_read, overwritten) refl,
    record {
      stored =
          ap (take (length (acc ++ pkt.payload))) (sym (append_assoc acc pkt.payload rest))
          ∙ take-append (acc ++ pkt.payload) rest;
      counted = omega (arith, length-append acc pkt.payload, h.counted, d.filled, d.even);
      size = omega (
        arith,
        length-append acc (pkt.payload ++ rest),
        length-append pkt.payload rest,
        length-drop (2 * ff.n + length pkt.payload) ff.buffer,
        h.size,
        h.counted,
        d.filled,
      );
    },
    refl,
  )
    where
      rest : List ℕ
      rest = drop (2 * ff.n + length pkt.payload) ff.buffer

      within : ltb ff.n (ff.n_elem + pkt.hdr.data_len / 2) ≡ true
      within = lt→ltb _ _ (omega (arith, h.counted, d.even, d.some_data))

      overwritten : overwrite ff.buffer (2 * ff.n) pkt.payload ≡ some (acc ++ (pkt.payload ++ rest))
      overwritten =
          overwrite-fits ff.buffer (2 * ff.n) pkt.payload
            (omega (arith, h.counted, h.size, d.filled))
          ∙ ap (λ t. some (t ++ (pkt.payload ++ rest)))
              (ap (λ k. take k ff.buffer) (sym h.counted) ∙ h.stored)

  packet-data : ff_packet pkt ff ≡ ff_data pkt ff
  unfolding ff_packet
  packet-data = rw (ff_packet, d.of_type) refl

  appended :
      (acc : List ℕ) (ff' : FeeFfData)
      → ff_data pkt ff ≡ some (answer pkt, ff')
      → fee_ff_aggregate (some ff) (some pkt) ≡ some (answer pkt, some ff')
  unfolding fee_ff_aggregate
  appended acc ff' e = rw (fee_ff_aggregate, packet-data, e) refl

  overrun :
      (acc : List ℕ)
      → Holds ff acc
      → length acc ≤ 2 * ff.n_elem
      → 2 * ff.n_elem < length acc + pkt.hdr.data_len
      → ff_data pkt ff ≡ none
  unfolding ff_data
  overrun acc h inside too_much =
      rw (ff_data, within, payload_read, overwrite-behind ff.buffer (2 * ff.n) pkt.payload behind)
        refl
    where
      within : ltb ff.n (ff.n_elem + pkt.hdr.data_len / 2) ≡ true
      within = lt→ltb _ _ (omega (arith, h.counted, d.even, d.some_data))

      behind : length ff.buffer < 2 * ff.n + length pkt.payload
      behind = omega (arith, h.counted, h.size, d.filled)

-- The aggregator fed with a list of packets, as long as no access is out of bounds.
abbrev pub feed : FeeFfData → List FeeDataPkt → Option FeeFfData
feed ff [] = some ff
feed ff (pkt ∷ pkts) = elim (fee_ff_aggregate (some ff) (some pkt)) [
  | none ↦ none
  | some (ret, none) ↦ none
  | some (ret, some ff') ↦ feed ff' pkts
]

abbrev continued : List FeeDataPkt → Option (ℤ × Option FeeFfData) → Option FeeFfData
continued pkts none = none
continued pkts (some (ret, none)) = none
continued pkts (some (ret, some ff)) = feed ff pkts

abbrev pub payloads : List FeeDataPkt → List ℕ
payloads [] = []
payloads (pkt ∷ pkts) = pkt.payload ++ payloads pkts

-- Data packets that together fit the frame are put one behind the other: after any number of them
-- the frame holds what it held before, followed by the payloads in the order of the packets.
pub fee_ff_aggregate-payloads :
    (ff : FeeFfData) (acc : List ℕ) (pkts : List FeeDataPkt)
    → Holds ff acc
    → All IsData pkts
    → length acc + length (payloads pkts) ≤ 2 * ff.n_elem
    → (ff' : FeeFfData) × feed ff pkts ≡ some ff' × Holds ff' (acc ++ payloads pkts)
fee_ff_aggregate-payloads ff acc [] h d fits = (ff, refl, subst (Holds ff) (sym (append-nil acc)) h)
fee_ff_aggregate-payloads ff acc (pkt ∷ pkts) h d fits =
    let one =
      ff_data-appends ff pkt d.0 acc h
        (omega (arith, length-append pkt.payload (payloads pkts), d.0.filled)) in
    let rest = fee_ff_aggregate-payloads one.0 (acc ++ pkt.payload) pkts one.2 d.1 (
      omega
        (arith, length-append pkt.payload (payloads pkts), length-append acc pkt.payload, one.3)) in
    (
      rest.0,
      ap (continued pkts) (appended ff pkt d.0 acc one.0 one.1) ∙ rest.1,
      subst (Holds rest.0) (append_assoc acc pkt.payload (payloads pkts)) rest.2,
    )

-- A data packet that does not fit the rest of the frame is never rejected with -1: as long as the
-- frame has not been overrun before, the packet is copied behind the end of the buffer.
pub fee_ff_aggregate-overrun :
    (ff : FeeFfData) (acc : List ℕ) (pkt : FeeDataPkt)
    → Holds ff acc
    → IsData pkt
    → length acc ≤ 2 * ff.n_elem
    → 2 * ff.n_elem < length acc + pkt.hdr.data_len
    → fee_ff_aggregate (some ff) (some pkt) ≡ none
unfolding fee_ff_aggregate
fee_ff_aggregate-overrun ff acc pkt h d inside too_much =
    rw (fee_ff_aggregate, packet-data ff pkt d, overrun ff pkt d acc h inside too_much) refl
