-- ===== src/Ctrl/Sram/Transfer.antt =====
-- `smile_fee_sync_mirror_to_sram` and `smile_fee_sync_sram_to_mirror` of FEE/smile_fee_ctrl.c. Their
-- loops run on fuel, one unit for a round; what they call is an interface.
use smile_fee.Base.{ℕ, zero, suc, ◌+◌, ◌-◌, Option, none, some, true, false, not, ◌==◌}
use smile_fee.Base.{ltb, leb, if◌then◌else◌, bit_and, u32, ℤ, pos, negsuc}
use smile_fee.Link.State.{Link}
use smile_fee.Link.Receive.{smile_fee_rmap_sync_status}
use smile_fee.Link.Registers.{fee_write_cmd_data, fee_read_cmd_data}
use smile_fee.Link.Submit.{smile_fee_sync_data}
use smile_fee.Ctrl.Sram.Local.{fee_sram_start, fee_sram_end, fee_sram_size}
use smile_fee.Ctrl.Sync.Registers.{Caller}

-- `smile_fee_sync_data` for a remote address, a local address and a length, and
-- `smile_fee_rmap_sync_status`; `none` is an access outside of a buffer.
pub record Sender (S : Type 0) : Type 0 where
  pub sync_data : ℕ → ℕ → ℕ → S → Option ℤ × S
  pub sync_status : S → ℕ × S

-- The functions of FEE/smile_fee_rmap.c; `elapse` is what happens between two calls.
abbrev pub writer : Caller → (Link → Link) → Sender Link
writer c elapse = record {
  sync_data = λ addr bytes len s.
      smile_fee_sync_data (fee_write_cmd_data c.allocs addr len) c.malloc_ok bytes len false
        (elapse s);
  sync_status = λ s. smile_fee_rmap_sync_status (elapse s);
}

abbrev pub reader : Caller → (Link → Link) → Sender Link
reader c elapse = record {
  sync_data = λ addr bytes len s.
      smile_fee_sync_data (fee_read_cmd_data c.allocs addr len) c.malloc_ok bytes len true
        (elapse s);
  sync_status = λ s. smile_fee_rmap_sync_status (elapse s);
}

-- A loop that has returned, has accessed a byte outside of a buffer, or is still running.
pub data Progress : Type 0 where
  returned : ℤ → Progress
  undefined running : Progress

module _ {S : Type 0} (x : Sender S) where
  -- `while (smile_fee_rmap_sync_status() > 3);`
  unfoldable pub settle : ℕ → S → Option S
  settle zero s = none
  settle (suc fuel) s =
      let rest = settle fuel (x.sync_status s).1 in
      if ltb 3 (x.sync_status s).0 then rest else some (x.sync_status s).1

  -- `if (ret > 0) continue; if (ret < 0) return -1;` and what follows.
  abbrev pub react : Option ℤ → (S → Progress × S) → (S → Progress × S) → S → Progress × S
  react none again next s = (undefined, s)
  react (some (pos zero)) again next s = next s
  react (some (pos (suc n))) again next s = again s
  react (some (negsuc n)) again next s = (returned (negsuc 0), s)

  -- `while (tx_bytes)`; the addresses are those of the next byte.
  unfoldable pub rest_loop : ℕ → ℕ → ℕ → ℕ → S → Progress × S
  rest_loop zero remote local tx_bytes s = (running, s)
  rest_loop (suc fuel) remote local tx_bytes s = elim (tx_bytes == 0) [
    | true ↦ (returned (pos 0), s)
    | false ↦
        react (x.sync_data remote local tx_bytes s).0 (rest_loop fuel remote local tx_bytes)
          (rest_loop fuel remote local 0) (x.sync_data remote local tx_bytes s).1
  ]

  -- `while (tx_bytes >= mtu)` with `settled` between a call and the test of its result, then the
  -- loop for the rest. No sum exceeds 32 bits where the range has been checked.
  unfoldable pub chunk_loop : (ℕ → S → Option S) → ℕ → ℕ → ℕ → ℕ → ℕ → ℕ → S → Progress × S
  chunk_loop settled mtu addr local zero sent tx_bytes s = (running, s)
  chunk_loop settled mtu addr local (suc fuel) sent tx_bytes s =
      let called = x.sync_data (addr + sent) (local + sent) mtu s in
      elim (leb mtu tx_bytes) [
        | false ↦ rest_loop (suc fuel) (addr + sent) (local + sent) tx_bytes s
        | true ↦ elim (settled fuel called.1) [
          | none ↦ (running, called.1)
          | some s' ↦
              react called.0 (chunk_loop settled mtu addr local fuel sent tx_bytes)
                (chunk_loop settled mtu addr local fuel (sent + mtu) (tx_bytes - mtu)) s'
        ]
      ]

  -- The checks that both functions begin with; `area` is the address of the mirror's SRAM.
  unfoldable pub transfer : (ℕ → S → Option S) → ℕ → ℕ → ℕ → ℕ → ℕ → S → Progress × S
  transfer settled fuel area addr size mtu s =
      if not (bit_and addr 0x3 == 0)
      then (returned (negsuc 0), s)
      else if ltb addr fee_sram_start
      then (returned (negsuc 0), s)
      else if ltb fee_sram_end addr
      then (returned (negsuc 0), s)
      else if ltb fee_sram_size size
      then (returned (negsuc 0), s)
      else if ltb (fee_sram_end + 1) (u32 (addr + size))
      then (returned (negsuc 0), s)
      else chunk_loop settled mtu addr (area + (addr - fee_sram_start)) fuel 0 size s

  abbrev pub smile_fee_sync_mirror_to_sram : ℕ → ℕ → ℕ → ℕ → ℕ → S → Progress × S
  smile_fee_sync_mirror_to_sram fuel area addr size mtu s =
      transfer (λ n s'. some s') fuel area addr size mtu s

  abbrev pub smile_fee_sync_sram_to_mirror : ℕ → ℕ → ℕ → ℕ → ℕ → S → Progress × S
  smile_fee_sync_sram_to_mirror fuel area addr size mtu s =
      transfer settle fuel area addr size mtu s
