-- ===== src/Tests/LinkTests.antt =====
-- The theorems on FEE/smile_fee_rmap.c at concrete links.
use smile_fee.Base.{
  ℕ, zero, suc, ◌+◌, ◌<◌, List, [], ◌∷◌, ◌++◌, none, some, true, false, ◌≡◌, ◌≢◌, refl,
}
use smile_fee.Base.{pos, negsuc, arith, length, get_elem?, drop, get_or, replicate}
use mathlib.Core.Option
use smile_fee.Rmap.Crc.{rmap_crc8}
use smile_fee.Rmap.Packet.{of_byte}
use smile_fee.Rmap.Parse.{done, rmap_pkt_from_buffer}
use smile_fee.Rmap.RoundTrip.Payload.{all_ok}
use smile_fee.Link.Log.{trans_log_size, trans_log_grab_slot, trans_log_release_slot}
use smile_fee.Link.Log.Laws.{IsValid, awaited, GrabResult, trans_log_grab_slot-GrabResult}
use smile_fee.Link.Log.Release.{Released, trans_log_release_slot-Released}
use smile_fee.Link.Reach.{Reach, start, later, sync, arrives, Reach-IsValid}
use smile_fee.Link.Receive.{process_response, smile_fee_process_rx, rx_loop}
use smile_fee.Link.Receive.Laws.{Delivered, process_response-Delivered}
use smile_fee.Base.{subst}
use smile_fee.Rmap.Packet.{rmap_get_min_hdr_size}
use smile_fee.Rmap.Parse.{read_header, parse_start, parse_rpath, parse_ids, parse_addr, parse_len}
use smile_fee.Rmap.Parse.Bounds.{reads_behind}
use smile_fee.Rmap.Parse.Safe.{done_inj}
use smile_fee.Tests.Packets.{reply_bytes}
use smile_fee.Link.Receive.Loop.{IsHonest, Settled, smile_fee_process_rx-Settled}
use smile_fee.Link.Command.{generator, smile_fee_gen_cmd, smile_fee_gen_cmd_size}
use smile_fee.Link.Command.Laws.{IsConfigured, gen_ok, dpath_bytes, rpath_bytes, routed_pkt}
use smile_fee.Link.Command.Wire.{IsRequest, smile_fee_gen_cmd-fits, smile_fee_gen_cmd-arrives}
use smile_fee.Link.Submit.{smile_fee_sync, smile_fee_sync_data}
use smile_fee.Link.Submit.Sync.{Sent, CanSend, smile_fee_sync-Sent}
use smile_fee.Link.Submit.SyncData.{smile_fee_sync_data-Sent, smile_fee_sync-full}
use smile_fee.Link.Package.{smile_fee_package, smile_fee_package_size}
use smile_fee.Link.Package.Laws.{overrun, smile_fee_package-length}
use smile_fee.Link.Package.Arrives.{smile_fee_package-arrives}
use smile_fee.Base.{◌≤◌}
use smile_fee.Link.State.{Link}
use smile_fee.Tests.Packets.{reply_rx}
use smile_fee.Tests.Packets.{
  all_bytes, idle_log, full_log, one_log, accept, idle_link, waiting_link,
}
use smile_fee.Tests.Packets.{full_link, response_pkt}

pub idle-IsValid : IsValid idle_log
idle-IsValid = record { flags = refl; addresses = refl; counted = refl }

one-IsValid : IsValid one_log
one-IsValid = record { flags = refl; addresses = refl; counted = refl }

full-IsValid : IsValid full_log
full-IsValid = record { flags = refl; addresses = refl; counted = refl }

trans_log_grab_slot-GrabResult_example : GrabResult 8192 one_log (trans_log_grab_slot 8192 one_log)
trans_log_grab_slot-GrabResult_example = trans_log_grab_slot-GrabResult 8192 one_log one-IsValid

trans_log_release_slot-Released_example :
    Released 0 one_log (trans_log_release_slot (pos 0) one_log)
trans_log_release_slot-Released_example = trans_log_release_slot-Released 0 one_log one-IsValid

process_response-Delivered_example :
    Delivered response_pkt 4096 waiting_link (process_response response_pkt waiting_link)
process_response-Delivered_example =
    process_response-Delivered response_pkt 4096 waiting_link one-IsValid refl (omega arith)

reply-IsHonest : IsHonest reply_rx
unfolding read_header parse_start parse_rpath parse_ids parse_addr parse_len of_byte
    rmap_get_min_hdr_size
reply-IsHonest = record {
  announced_bytes = omega arith;
  has_checksums =
      λ pkt e. subst (λ p. reads_behind true reply_bytes 17 p ≡ false) (done_inj e) refl;
}

smile_fee_process_rx-Settled_example :
    Settled waiting_link (smile_fee_process_rx waiting_link).0 (smile_fee_process_rx waiting_link).1
smile_fee_process_rx-Settled_example =
    smile_fee_process_rx-Settled waiting_link (reply-IsHonest, tt) one-IsValid

pub configured : IsConfigured idle_link
configured = record {
  dpath_holds = omega arith;
  dpath_fits = omega arith;
  rpath_holds = omega arith;
  rpath_fits = omega arith;
  rpath_words = refl;
}

request : (id : ℕ) → id < 64 → IsRequest id 0xb 0x00801800 4
request id h = record {
  known = refl;
  id_fits = omega arith;
  addr_fits = omega arith;
  size_fits = omega arith;
}

smile_fee_gen_cmd-fits_example :
    (cmd : List ℕ) × smile_fee_gen_cmd gen_ok idle_link 7 0xb 0x00801800 4 ≡ some cmd
    × smile_fee_gen_cmd_size gen_ok idle_link 7 0xb 0x00801800 4 ≡ pos (length cmd)
    × 0 < length cmd
smile_fee_gen_cmd-fits_example =
    smile_fee_gen_cmd-fits idle_link 7 0xb 0x00801800 4 configured (request 7 (omega arith))

smile_fee_gen_cmd-arrives_example :
    (hdr : List ℕ) × smile_fee_gen_cmd gen_ok idle_link 7 0xb 0x00801800 4
      ≡ some (dpath_bytes idle_link ++ hdr)
    × rmap_pkt_from_buffer all_ok 0
        (some (hdr ++ (0x1c ∷ (all_bytes ++ (0x5e ∷ [])))))
        (length (hdr ++ (0x1c ∷ (all_bytes ++ (0x5e ∷ [])))))
      ≡ (
        0,
        done (
            let pkt = routed_pkt idle_link 7 0xb 0x00801800 4 in
            record pkt {
              rpath = some (rpath_bytes idle_link);
              payload = some all_bytes;
              hdr_crc = get_elem? (hdr ++ (0x1c ∷ (all_bytes ++ (0x5e ∷ [])))) 11;
              data_crc = some 0x5e;
            }),
      )
smile_fee_gen_cmd-arrives_example =
    smile_fee_gen_cmd-arrives idle_link 7 0xb 0x00801800 4 all_bytes (0x5e ∷ []) 0x1c 0 configured
      (request 7 (omega arith)) refl (omega arith)

smile_fee_package-arrives_example :
    (cmd : List ℕ) × (blob : List ℕ) × smile_fee_gen_cmd gen_ok idle_link 7 0xb 0x00801800
        (length all_bytes)
      ≡ some cmd
    × smile_fee_package cmd 1 (some all_bytes) (length all_bytes) ≡ some blob
    × rmap_pkt_from_buffer all_ok 0 (some (drop 1 blob)) (length (drop 1 blob)) ≡ (
      0,
      done (
          let pkt = routed_pkt idle_link 7 0xb 0x00801800 (length all_bytes) in
          record pkt {
            rpath = some (rpath_bytes idle_link);
            payload = some all_bytes;
            hdr_crc = get_elem? (drop 1 blob) 11;
            data_crc = some (rmap_crc8 (some all_bytes));
          }),
    )
smile_fee_package-arrives_example =
    smile_fee_package-arrives idle_link 7 0xb 0x00801800 all_bytes 0 configured
      (request 7 (omega arith)) (omega arith)

-- A command to read, packed with data that it does not carry.
abbrev read_cmd : List ℕ
read_cmd = 0x51 ∷ 1 ∷ 0x4c ∷ 0xd1 ∷ 0x50 ∷ 0 ∷ 7 ∷ 0 ∷ 0 ∷ 0 ∷ 0 ∷ 4 ∷ 0 ∷ 0 ∷ 4 ∷ []

abbrev read_blob : List ℕ
read_blob =
    read_cmd ++ (rmap_crc8 (some read_cmd) ∷ (all_bytes ++ (rmap_crc8 (some all_bytes) ∷ [])))

packed : smile_fee_package read_cmd 0 (some all_bytes) 4 ≡ some read_blob
unfolding smile_fee_package
packed = refl

smile_fee_package-length_example :
    Option.map
      (λ n. n + overrun (of_byte 0x4c).cmd (some all_bytes))
      (smile_fee_package_size read_cmd 0 (some all_bytes) 4)
    ≡ some (length read_blob)
smile_fee_package-length_example =
    smile_fee_package-length read_cmd 0 (some all_bytes) 4 read_blob 0x4c (omega arith) refl packed

can_send : CanSend idle_link accept 0xb 0x00801800 4
can_send = record {
  configured = configured;
  request = request 0 (omega arith);
  valid = idle-IsValid;
  honest = tt;
  sends = refl;
}

smile_fee_sync-Sent_example :
    Sent accept
      (generator gen_ok 0xb 0x00801800 4)
      8192
      8192
      4
      idle_link
      (smile_fee_sync (generator gen_ok 0xb 0x00801800 4) true 8192 4 idle_link)
smile_fee_sync-Sent_example =
    smile_fee_sync-Sent idle_link accept 0xb 0x00801800 4 8192 4 3 can_send refl (omega arith) refl

-- The link after a command whose reply has arrived.
abbrev answered_link : Link
answered_link =
    let s = (smile_fee_sync (generator gen_ok 0xb 0x00801800 4) true 8192 4 idle_link).1 in
    record s { incoming = s.incoming ++ (reply_rx ∷ []) }

answered-Reach : Reach answered_link
answered-Reach =
    later
      (later (start refl) (
        sync (generator gen_ok 0xb 0x00801800 4) true 8192 4 (pos 0)
          (smile_fee_sync-Sent idle_link accept 0xb 0x00801800 4 8192 4 3 can_send refl
            (omega arith) refl).result))
      (arrives reply_rx)

Reach-IsValid_example :
    IsValid answered_link.trans_log × (answered_link.trans_log.pending ≤ trans_log_size)
Reach-IsValid_example = Reach-IsValid answered-Reach

still_free : awaited (smile_fee_process_rx idle_link).1.trans_log 3 ≡ none
unfolding smile_fee_process_rx rx_loop
still_free = refl

smile_fee_sync_data-Sent_example :
    Sent accept
      (generator gen_ok 0xb 0x00801800 4)
      8192
      8192
      4
      (smile_fee_process_rx idle_link).1
      (smile_fee_sync_data (generator gen_ok 0xb 0x00801800 4) true 8192 4 false idle_link)
smile_fee_sync_data-Sent_example =
    smile_fee_sync_data-Sent idle_link accept 0xb 0x00801800 4 8192 4 3 false can_send (omega arith)
      still_free

replicate_taken : (n j : ℕ) → j < n → get_or (replicate {A = ℕ} n 1) j 0 ≡ 1
replicate_taken zero j h = elim h [ ]
replicate_taken (suc n) zero h = refl
replicate_taken (suc n) (suc j) h = replicate_taken n j (omega arith)

none_free : (j : ℕ) → j < trans_log_size → awaited full_log j ≢ none
none_free j h = rw (replicate_taken 64 j h) (λ e. cc)

smile_fee_sync-full_example :
    (smile_fee_sync (generator gen_ok 0xb 0x00801800 4) true 8192 4 full_link
      ≡ (some (negsuc 0), full_link))
    × (smile_fee_sync_data (generator gen_ok 0xb 0x00801800 4) true 8192 4 false full_link
        ≡ (some (pos 1), full_link))
smile_fee_sync-full_example =
    smile_fee_sync-full (generator gen_ok 0xb 0x00801800 4) 8192 4 false full_link full-IsValid tt
      tt none_free
