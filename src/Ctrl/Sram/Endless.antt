-- ===== src/Ctrl/Sram/Endless.antt =====
-- The transport unit that the transfers of the SRAM's mirror cannot use.
use smile_fee.Base.{ℕ, zero, suc, ◌+◌, ◌-◌, Option, some, ℤ, pos, ◌≡◌, refl, ap, ◌∙◌, arith}
use smile_fee.Ctrl.Sram.Local.{fee_sram_start}
use smile_fee.Ctrl.Sram.Transfer.{Sender, Progress, running, chunk_loop, react}
use smile_fee.Ctrl.Sram.Transfer.{smile_fee_sync_mirror_to_sram}
use smile_fee.Ctrl.Sram.Termination.{at_once, chunk_loop-step}
use smile_fee.Ctrl.Sram.Pieces.{IsRange, transfer-eq}

module _ {S : Type 0} (x : Sender S) (addr local : ℕ)
    (never_fails : (remote local : ℕ) (s : S)
      → (n : ℕ) × ((x.sync_data remote local 0 s).0 ≡ some (pos n))) where
  react-runs :
      (o : Option ℤ) (again next : S → Progress × S) (s : S)
      → ((n : ℕ) × (o ≡ some (pos n)))
      → (again s).0 ≡ running
      → (next s).0 ≡ running
      → (react x o again next s).0 ≡ running
  react-runs o again next s (zero, e) ha hn = ap (λ t. (react x t again next s).0) e ∙ hn
  react-runs o again next s (suc n, e) ha hn = ap (λ t. (react x t again next s).0) e ∙ ha

  loop-runs :
      (fuel sent tx : ℕ) (s : S) → (chunk_loop x at_once 0 addr local fuel sent tx s).0 ≡ running
  unfolding chunk_loop
  loop-runs zero sent tx s = refl
  loop-runs (suc fuel) sent tx s =
      let out = (x.sync_data (addr + sent) (local + sent) 0 s).1 in
      ap (λ r. r.0) (chunk_loop-step x at_once 0 addr local sent tx fuel s out (omega arith) refl)
      ∙ react-runs _ _ _ out (never_fails (addr + sent) (local + sent) s)
          (loop-runs fuel sent tx out) (loop-runs fuel (sent + 0) (tx - 0) out)

-- With a transport unit of 0 the loop goes on for ever where no call for data fails: with any fuel
-- it is still running.
pub smile_fee_sync_mirror_to_sram-at_zero :
    {S : Type 0} (x : Sender S) (fuel area addr size : ℕ) (s : S)
    → IsRange addr size
    → ((remote local : ℕ) (s : S) → (n : ℕ) × ((x.sync_data remote local 0 s).0 ≡ some (pos n)))
    → (smile_fee_sync_mirror_to_sram x fuel area addr size 0 s).0 ≡ running
smile_fee_sync_mirror_to_sram-at_zero x fuel area addr size s r never_fails =
    ap (λ p. p.0) (transfer-eq x at_once fuel area addr size 0 s r)
    ∙ loop-runs x addr (area + (addr - fee_sram_start)) never_fails fuel 0 size s
