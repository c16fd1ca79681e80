-- ===== src/Rmap/Parse/Bounds.antt =====
-- Where `rmap_pkt_from_buffer` reads.
use smile_fee.Base.{ℕ, zero, suc, ◌+◌, ◌*◌, ◌≤◌, ◌<◌, List, [], ◌∷◌, Bool, true, false}
use smile_fee.Base.{
  ◌↔◌, not, ◌&&◌, ◌||◌, ltb, none, some, get_elem?-of_le, Option-cases, get_elem?, Option, sym,
}
use smile_fee.Base.{bit_or, ◌==◌, ◌<<<◌, ◌≡◌, refl, arith, length, get_or, take, drop}
use smile_fee.Base.{get_elem?-eq-get_or, leb→le, ap, inl, inr, Bool-cases, leb}
use smile_fee.Rmap.Packet.{RmapPkt, of_byte, cleared_pkt}
use smile_fee.Rmap.Parse.{
  Outcome, fault, null, done, require, ◌>>=◌, byte, bytes_at, skipped, is_write_reply,
}
use smile_fee.Rmap.Parse.{parse_start, parse_rpath, parse_ids, parse_addr, parse_len, parse_data}

pub byte-done : (buf : List ℕ) (i : ℕ) → i < length buf → byte buf i ≡ done (get_or buf i 0)
byte-done buf i h = rw (get_elem?-eq-get_or buf i 0 h, byte)

drop-get_or :
    (buf : List ℕ) (i : ℕ) → i < length buf → drop i buf ≡ get_or buf i 0 ∷ drop (suc i) buf
drop-get_or [] i h = elim h [ ]
drop-get_or (x ∷ xs) zero h = refl
drop-get_or (x ∷ xs) (suc i) h = drop-get_or xs i (omega arith)

pub bytes_at-done :
    (buf : List ℕ) (start n : ℕ)
    → start + n ≤ length buf
    → bytes_at buf start n ≡ done (take n (drop start buf))
unfolding bytes_at
bytes_at-done buf start zero h = refl
bytes_at-done buf start (suc n) h =
    rw
      (
        byte-done buf start (omega arith),
        bytes_at-done buf (start + 1) n (omega arith),
        drop-get_or buf start (omega arith),
      )
      (ap (λ k. done (get_or buf start 0 ∷ take n (drop k buf))) next)
  where
    next : start + 1 ≡ suc start
    next = omega arith

parse_start-done :
    (buf : List ℕ)
    → 4 ≤ length buf
    → parse_start buf
      ≡ done (
          let pkt = cleared_pkt in
          record pkt {
            dst = get_or buf 0 0;
            proto_id = get_or buf 1 0;
            ri = of_byte (get_or buf 2 0);
            key = get_or buf 3 0;
          })
unfolding parse_start
parse_start-done buf h = rw (
  byte-done buf 0 (omega arith),
  byte-done buf 1 (omega arith),
  byte-done buf 2 (omega arith),
  byte-done buf 3 (omega arith),
)

parse_ids-done :
    (buf : List ℕ) (pkt : RmapPkt)
    → 7 + pkt.rpath_len ≤ length buf
    → parse_ids buf pkt
      ≡ done (record pkt {
        src = get_or buf (4 + pkt.rpath_len) 0;
        tr_id = bit_or (get_or buf (5 + pkt.rpath_len) 0 <<< 8) (get_or buf (6 + pkt.rpath_len) 0);
      })
unfolding parse_ids
parse_ids-done buf pkt h = rw (
  byte-done buf (4 + pkt.rpath_len) (omega arith),
  byte-done buf (5 + pkt.rpath_len) (omega arith),
  byte-done buf (6 + pkt.rpath_len) (omega arith),
)

-- No read outside the buffer, and `P` of the packet that is returned, if one is.
abbrev pub Ensures {ℓ} : {A : Type ℓ} → (A → Type 0) → Outcome A → Type 0
Ensures P fault = ⊥
Ensures P null = Unit
Ensures P (done a) = P a

pub bind-Ensures {ℓ κ} :
    {A : Type ℓ} {B : Type κ} (P : A → Type 0) (Q : B → Type 0) (m : Outcome A) (f : A → Outcome B)
    → Ensures P m
    → ((a : A) → P a → Ensures Q (f a))
    → Ensures Q (m >>= f)
bind-Ensures P Q fault f h k = h
bind-Ensures P Q null f h k = tt
bind-Ensures P Q (done a) f h k = k a h

pub require-Ensures : (b : Bool) → Ensures (λ _. b ≡ true) (require b)
require-Ensures true = refl
require-Ensures false = tt

abbrev pub Any {ℓ} : {A : Type ℓ} → A → Type 0
Any _ = Unit

byte-Ensures : (buf : List ℕ) (i : ℕ) → i < length buf → Ensures Any (byte buf i)
byte-Ensures buf i h = rw (byte-done buf i h) tt

bytes_at-Ensures :
    (buf : List ℕ) (start n : ℕ) → start + n ≤ length buf → Ensures Any (bytes_at buf start n)
bytes_at-Ensures buf start n h = rw (bytes_at-done buf start n h) tt

-- The instruction and the length of the reply path are those of `pkt`.
abbrev pub Keeps : RmapPkt → RmapPkt → Type 0
Keeps pkt out = (out.ri ≡ pkt.ri) × (out.rpath_len ≡ pkt.rpath_len)

pub parse_start-Ensures :
    (buf : List ℕ) → 4 ≤ length buf → Ensures (λ out. out.rpath_len ≡ 0) (parse_start buf)
parse_start-Ensures buf h = rw (parse_start-done buf h) refl

pub parse_rpath-Ensures :
    (allocated : Bool) (buf : List ℕ) (len m : ℕ) (pkt : RmapPkt)
    → len ≤ length buf
    → 4 ≤ m
    → m ≤ len
    → pkt.rpath_len ≡ 0
    → Ensures
        (λ out. (out.ri ≡ pkt.ri) × (m + out.rpath_len ≤ len))
        (parse_rpath allocated buf len m pkt)
unfolding parse_rpath
parse_rpath-Ensures allocated buf len m pkt h m4 hm none_yet =
    elim (Bool-cases (pkt.ri.cmd_resp == 0)) [
      | inl reply ↦ rw reply (refl, omega arith)
      | inr command ↦ rw command (
          bind-Ensures _ _ (require (leb (m + n) len)) _ (require-Ensures _) λ _ fits.
            bind-Ensures _ _ (require allocated) _ (require-Ensures _) λ _ _.
              bind-Ensures Any _ (bytes_at buf 4 n) _
                (bytes_at-Ensures buf 4 n (omega (arith, leb→le (m + n) len fits)))
                λ _ _. (refl, leb→le (m + n) len fits))
    ]
  where
    n : ℕ
    n = pkt.ri.reply_addr_len * 4

pub parse_ids-Ensures :
    (buf : List ℕ) (pkt : RmapPkt)
    → 7 + pkt.rpath_len ≤ length buf
    → Ensures (Keeps pkt) (parse_ids buf pkt)
parse_ids-Ensures buf pkt h = rw (parse_ids-done buf pkt h) (refl, refl)

pub parse_addr-Ensures :
    (buf : List ℕ) (pkt : RmapPkt)
    → ((pkt.ri.cmd_resp == 0) ≡ false → 12 + pkt.rpath_len ≤ length buf)
    → Ensures (Keeps pkt) (parse_addr buf pkt)
unfolding parse_addr
parse_addr-Ensures buf pkt h = elim (Bool-cases (pkt.ri.cmd_resp == 0)) [
  | inl reply ↦ rw reply (refl, refl)
  | inr command ↦
      let room = h command in
      rw command (
        bind-Ensures Any _ (byte buf (8 + r)) _ (byte-Ensures buf (8 + r) (omega arith)) λ _ _.
          bind-Ensures Any _ (byte buf (9 + r)) _ (byte-Ensures buf (9 + r) (omega arith)) λ _ _.
            bind-Ensures Any _ (byte buf (10 + r)) _ (byte-Ensures buf (10 + r) (omega arith))
              λ _ _.
                bind-Ensures Any _ (byte buf (11 + r)) _ (byte-Ensures buf (11 + r) (omega arith))
                  λ _ _. (refl, refl))
]
  where
    r : ℕ
    r = pkt.rpath_len

pub parse_len-Ensures :
    (buf : List ℕ) (pkt : RmapPkt)
    → (is_write_reply pkt ≡ false → 11 + skipped pkt ≤ length buf)
    → Ensures Any (parse_len buf pkt)
unfolding parse_len
parse_len-Ensures buf pkt h = elim (Bool-cases (is_write_reply pkt)) [
  | inl short ↦ rw short tt
  | inr long ↦
      let room = h long in
      rw long (
        bind-Ensures Any _ (byte buf (8 + r)) _ (byte-Ensures buf (8 + r) (omega arith)) λ _ _.
          bind-Ensures Any _ (byte buf (9 + r)) _ (byte-Ensures buf (9 + r) (omega arith)) λ _ _.
            bind-Ensures Any _ (byte buf (10 + r)) _ (byte-Ensures buf (10 + r) (omega arith))
              λ _ _. tt)
]
  where
    r : ℕ
    r = skipped pkt

-- The first byte behind the data of a packet: its checksum.
abbrev pub data_end : RmapPkt → ℕ
data_end pkt = 12 + skipped pkt + pkt.data_len

-- The checksum of the header, byte 11, or that of the data, if the data is copied, lies behind the
-- buffer.
abbrev pub reads_behind : Bool → List ℕ → ℕ → RmapPkt → Bool
reads_behind allocated buf len pkt =
    ltb (length buf) 12
    || ((not (pkt.data_len == 0) && leb (data_end pkt) len)
        && (allocated && leb (length buf) (data_end pkt)))

byte-behind : (buf : List ℕ) (i : ℕ) → length buf ≤ i → byte buf i ≡ fault
byte-behind buf i h = rw (byte, get_elem?-of_le buf i h)

pub parse_data-fault_iff :
    (allocated : Bool) (buf : List ℕ) (len : ℕ) (pkt : RmapPkt)
    → len ≤ length buf
    → (parse_data allocated buf len pkt ≡ fault) ↔ (reads_behind allocated buf len pkt ≡ true)
unfolding parse_data
parse_data-fault_iff allocated buf len pkt h = elim (Bool-cases (ltb (length buf) 12)) [
  | inl short ↦ rw (short, byte-behind buf 11 (ground arith)) (λ _. refl, λ _. refl)
  | inr long ↦
      rw (long, byte-done buf 11 (ground arith))
        (elim (Bool-cases (pkt.data_len == 0)) [
          | inl empty ↦ rw empty (λ e. cc, λ e. cc)
          | inr full ↦ rw full (elim (Bool-cases (leb (data_end pkt) len)) [
            | inr cut ↦ rw cut (λ e. cc, λ e. cc)
            | inl fits ↦ rw fits (copied allocated (leb→le _ _ fits))
          ])
        ])
]
  where
    copied :
        (ok : Bool)
        → data_end pkt ≤ len
        → ((require ok >>= λ _. bytes_at buf (12 + skipped pkt) pkt.data_len >>= λ bytes.
              byte buf (data_end pkt) >>= λ data_crc. done (record pkt {
                hdr_crc = some (get_or buf 11 0);
                payload = some bytes;
                data_crc = some data_crc;
              }))
            ≡ fault)
          ↔ ((ok && leb (length buf) (data_end pkt)) ≡ true)
    copied false fits = (λ e. cc, λ e. cc)
    copied true fits =
        rw (bytes_at-done buf (12 + skipped pkt) pkt.data_len (omega (arith, fits, h)))
          (elim (Bool-cases (leb (length buf) (data_end pkt))) [
            | inl behind ↦
                rw (behind, byte-behind buf (data_end pkt) (leb→le _ _ behind))
                  (λ _. refl, λ _. refl)
            | inr within ↦
                rw (within, byte-done buf (data_end pkt) (ground arith)) (λ e. cc, λ e. cc)
          ])

-- The data and its checksum, where the header and the data lie in the buffer.
pub parse_data-done :
    (buf : List ℕ) (len : ℕ) (pkt : RmapPkt) (bytes : List ℕ)
    → 12 ≤ length buf
    → (pkt.data_len == 0) ≡ false
    → leb (data_end pkt) len ≡ true
    → bytes_at buf (12 + skipped pkt) pkt.data_len ≡ done bytes
    → parse_data true buf len pkt ≡ elim (get_elem? buf (data_end pkt)) [
      | none ↦ fault
      | some data_crc ↦ done (record pkt {
        hdr_crc = get_elem? buf 11;
        payload = some bytes;
        data_crc = some data_crc;
      })
    ]
unfolding parse_data
parse_data-done buf len pkt bytes long full fits read = rw (byte-done buf 11 (omega arith)) (
    rw full (
      rw fits (
        rw read (elim (Option-cases (get_elem? buf (data_end pkt))) [
          | inl missing ↦
              let r : byte buf (data_end pkt) ≡ fault = rw (byte, missing) in rw (r, missing) refl
          | inr (data_crc, found) ↦
              let r : byte buf (data_end pkt) ≡ done data_crc = rw (byte, found) in
              rw (r, found)
                (ap
                  (λ (h : Option ℕ).
                    done
                      (record pkt { hdr_crc = h; payload = some bytes; data_crc = some data_crc }))
                  (sym (get_elem?-eq-get_or buf 11 0 (omega arith))))
        ]))))

-- The buffer holds the header and not the data.
pub parse_data-cut :
    (allocated : Bool) (buf : List ℕ) (len : ℕ) (pkt : RmapPkt)
    → 12 ≤ length buf
    → (pkt.data_len == 0) ≡ false
    → leb (data_end pkt) len ≡ false
    → parse_data allocated buf len pkt ≡ null
unfolding parse_data
parse_data-cut allocated buf len pkt long full cut =
    rw (byte-done buf 11 (omega arith)) (rw full (rw cut refl))
