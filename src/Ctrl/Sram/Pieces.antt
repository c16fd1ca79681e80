-- ===== src/Ctrl/Sram/Pieces.antt =====
-- The pieces in which the mirror of the SRAM is exchanged: which they are, that the exchange ends,
-- and when it is refused or does not end.
use smile_fee.Base.{ℕ, zero, suc, ◌+◌, ◌-◌, ◌%◌, ◌≤◌, ◌<◌, List, [], ◌∷◌, Option}
use smile_fee.Base.{false, ltb, leb, bit_and, u32, pos}
use smile_fee.Base.{◌≡◌, inl, inr, ==_iff, ◌∙◌, arith, subst, Bool-cases}
use smile_fee.Base.{◌*◌, ◌^◌, ap}
use smile_fee.Bits.{bit_and-ones}
use smile_fee.Ctrl.Sram.Local.{fee_sram_start, fee_sram_end, fee_sram_size}
use smile_fee.Ctrl.Sram.Transfer.{Sender, Progress, returned, chunk_loop, transfer}
use smile_fee.Ctrl.Sram.Termination.{Cover, complete, piece, Accepted, Eventually, at_once}
use smile_fee.Ctrl.Sram.Termination.{rest_loop-ends, rest_loop-nothing, chunk_loop-ends}
use smile_fee.Ctrl.Sram.Termination.{chunk_loop-piece}

module _ {S : Type 0} (x : Sender S) (settled : ℕ → S → Option S) (addr local : ℕ) where
  -- The pieces are accepted one after the other.
  pub data Served : List (ℕ × ℕ) → S → S → Type 0 where
    all_served : (s : S) → Served [] s s
    full :
        (at n : ℕ) (ps : List (ℕ × ℕ)) (s s' s'' : S)
        → Accepted x settled (addr + at) (local + at) n s s'
        → Served ps s' s''
        → Served ((at, n) ∷ ps) s s''
    last :
        (at n : ℕ) (s s' : S)
        → Accepted x at_once (addr + at) (local + at) n s s'
        → Served ((at, n) ∷ []) s s'

  -- The bytes from `sent` on are exchanged in pieces, and the loops `g` return 0.
  pub record Exchanged (mtu sent tx : ℕ) (s : S) (g : ℕ → Progress × S) : Type 0 where
    pub pieces : List (ℕ × ℕ)
    pub out : S
    pub cover : Cover mtu pieces sent (sent + tx)
    pub served : Served pieces s out
    pub ends : Eventually g (returned (pos 0), out)

-- Calls for data are accepted in the end where the state allows one call more, `I (suc k)`, and leave
-- a state that allows `k` more.
pub record Serves {S : Type 0} (x : Sender S) (settled : ℕ → S → Option S) (I : ℕ → S → Type 0)
    : Type 0 where
  pub serves :
      (k remote local n : ℕ) (s : S)
      → I (suc k) s
      → remote < 2 ^ 32
      → n < 2 ^ 24
      → (out : S) × Accepted x settled remote local n s out × I k out

-- The bytes that `k` pieces of `mtu` bytes hold.
abbrev room : ℕ → ℕ → ℕ
room mtu zero = 0
room mtu (suc k) = mtu + room mtu k

room-eq : (mtu k : ℕ) → room mtu k ≡ k * mtu
room-eq mtu zero = omega arith
room-eq mtu (suc k) = ap (λ (t : ℕ). mtu + t) (room-eq mtu k) ∙ grind arith

module _ {S : Type 0} (x : Sender S) (settled : ℕ → S → Option S) (I : ℕ → S → Type 0)
    (mtu addr local : ℕ) (some_bytes : 0 < mtu) (small : mtu < 2 ^ 24) (fulls : Serves x settled I)
    (rests : Serves x at_once I) where
  abbrev loops : ℕ → ℕ → S → ℕ → Progress × S
  loops sent tx s fuel = chunk_loop x settled mtu addr local fuel sent tx s

  -- Less than a piece is left.
  rest-Exchanged :
      (k sent tx : ℕ) (s : S)
      → tx < mtu
      → tx ≤ room mtu k
      → addr + sent + tx ≤ 2 ^ 32
      → I k s
      → Exchanged x settled addr local mtu sent tx s (loops sent tx s)
  rest-Exchanged k sent zero s h few range i = record {
    pieces = [];
    out = s;
    cover = subst (Cover mtu [] sent) (omega arith) (complete sent);
    served = all_served s;
    ends =
        chunk_loop-ends x settled mtu addr local sent 0 s (returned (pos 0), s) h
          (1, rest_loop-nothing x (addr + sent) (local + sent) s);
  }
  rest-Exchanged zero sent (suc tx) s h few range i = absurd (omega (arith, few))
  rest-Exchanged (suc k) sent (suc tx) s h few range i =
      let r =
        rests.serves k (addr + sent) (local + sent) (suc tx) s i (omega arith) (omega arith) in
      record {
        pieces = (sent, suc tx) ∷ [];
        out = r.0;
        cover =
            piece (suc tx) sent (sent + suc tx) [] (omega arith) (omega arith)
              (complete (sent + suc tx));
        served = last sent (suc tx) s r.0 r.1;
        ends =
            chunk_loop-ends x settled mtu addr local sent (suc tx) s (returned (pos 0), r.0) h
              (rest_loop-ends x (addr + sent) (local + sent) (suc tx) s r.0 (omega arith) r.1);
      }

  piece-Exchanged :
      (k sent tx : ℕ) (s : S)
      → mtu ≤ tx
      → addr + sent + tx ≤ 2 ^ 32
      → I (suc k) s
      → ((out : S)
          → I k out
          → Exchanged x settled addr local mtu
              (sent + mtu)
              (tx - mtu)
              out
              (loops (sent + mtu) (tx - mtu) out))
      → Exchanged x settled addr local mtu sent tx s (loops sent tx s)
  piece-Exchanged k sent tx s fits range i others =
      let r = fulls.serves k (addr + sent) (local + sent) mtu s i (omega arith) small in
      let e = others r.0 r.2 in
      record {
        pieces = (sent, mtu) ∷ e.pieces;
        out = e.out;
        cover =
            piece mtu sent (sent + tx) e.pieces some_bytes (omega arith)
              (subst (Cover mtu e.pieces (sent + mtu)) (omega arith) e.cover);
        served = full sent mtu e.pieces s r.0 e.out r.1 e.served;
        ends = chunk_loop-piece x settled mtu addr local sent tx s r.0 _ fits r.1 e.ends;
      }

  loops-Exchanged :
      (k sent tx : ℕ) (s : S)
      → tx ≤ room mtu k
      → addr + sent + tx ≤ 2 ^ 32
      → I k s
      → Exchanged x settled addr local mtu sent tx s (loops sent tx s)
  loops-Exchanged zero sent tx s few range i =
      rest-Exchanged zero sent tx s (omega arith) few range i
  loops-Exchanged (suc k) sent tx s few range i = elim (Bool-cases (leb mtu tx)) [
    | inr part ↦ rest-Exchanged (suc k) sent tx s (ground arith) few range i
    | inl whole ↦
        let fits : mtu ≤ tx = ground arith in
        piece-Exchanged k sent tx s fits range i
          (λ out j. loops-Exchanged k (sent + mtu) (tx - mtu) out (omega arith) (omega arith) j)
  ]

-- The ranges that the functions accept.
pub record IsRange (addr size : ℕ) : Type 0 where
  pub aligned : addr % 4 ≡ 0
  pub from_start : fee_sram_start ≤ addr
  pub in_area : addr ≤ fee_sram_end
  pub fits : size ≤ fee_sram_size
  pub to_end : addr + size ≤ fee_sram_end + 1

pub transfer-eq :
    {S : Type 0} (x : Sender S) (settled : ℕ → S → Option S) (fuel area addr size mtu : ℕ) (s : S)
    → IsRange addr size
    → transfer x settled fuel area addr size mtu s
      ≡ chunk_loop x settled mtu addr (area + (addr - fee_sram_start)) fuel 0 size s
unfolding transfer
transfer-eq x settled fuel area addr size mtu s r =
    let aligned = (==_iff (bit_and addr 0x3) 0).1 (bit_and-ones 2 addr ∙ r.aligned) in
    let from_start : ltb addr fee_sram_start ≡ false = ground (arith, r.from_start) in
    let in_area : ltb fee_sram_end addr ≡ false = ground (arith, r.in_area) in
    let fits : ltb fee_sram_size size ≡ false = ground (arith, r.fits) in
    let to_end : ltb (fee_sram_end + 1) (u32 (addr + size)) ≡ false = ground (arith, r.to_end) in
    rw (transfer, aligned, from_start, in_area, fits, to_end)

pub transfer-Exchanged :
    {S : Type 0} (x : Sender S) (settled : ℕ → S → Option S) (I : ℕ → S → Type 0)
    (area addr size mtu k : ℕ) (s : S)
    → IsRange addr size
    → 0 < mtu
    → mtu < 2 ^ 24
    → size ≤ k * mtu
    → Serves x settled I
    → Serves x at_once I
    → I k s
    → Exchanged x settled addr
        (area + (addr - fee_sram_start))
        mtu
        0
        size
        s
        (λ fuel. transfer x settled fuel area addr size mtu s)
transfer-Exchanged x settled I area addr size mtu k s r some_bytes small few fulls rests i =
    let local = area + (addr - fee_sram_start) in
    let e =
      loops-Exchanged x settled I mtu addr local some_bytes small fulls rests k 0 size s
        (omega (arith, room-eq mtu k)) (omega (arith, r.to_end)) i in
    record {
      pieces = e.pieces;
      out = e.out;
      cover = e.cover;
      served = e.served;
      ends =
          (e.ends.0, λ fuel h. transfer-eq x settled fuel area addr size mtu s r ∙ e.ends.1 fuel h);
    }
