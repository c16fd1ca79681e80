-- ===== src/Link/Command.antt =====
-- `smile_fee_gen_cmd` of FEE/smile_fee_rmap.c and the two register commands and two data commands
-- of FEE/smile_fee_cmd.c. A call with a null buffer returns a size; a call with a buffer fills it.
pub mod Laws
pub mod Wire
use smile_fee.Base.{ℕ, List, [], Option, none, some, Bool, ℤ, pos}
use smile_fee.Rmap.Packet.{RmapPkt, rmap_create_packet, rmap_set_dst, rmap_set_src}
use smile_fee.Rmap.Packet.{rmap_set_dest_path, rmap_set_reply_path, rmap_set_key, rmap_set_cmd}
use smile_fee.Rmap.Packet.{rmap_set_tr_id, rmap_set_data_addr, rmap_set_data_len}
use smile_fee.Rmap.Packet.{read_addr_inc, write_addr_inc_reply}
use smile_fee.Rmap.Header.{rmap_hdr_size, rmap_build_hdr}
use smile_fee.Link.State.{Link}

-- Which of the allocations of one call succeed.
pub record CallAllocs : Type 0 where
  pub pkt_ok : Bool
  pub path_ok : Bool
  pub rpath_ok : Bool

-- Those of the call for the size, and those of the call that fills the buffer.
pub record GenAllocs : Type 0 where
  pub sizing : CallAllocs
  pub filling : CallAllocs

-- The packet that the setters fill in; what they return is ignored, as in the source.
unfoldable pub gen_pkt : CallAllocs → Link → ℕ → ℕ → ℕ → ℕ → Option RmapPkt
gen_pkt a s trans_id rmap_cmd_type addr size =
    let created = rmap_create_packet a.pkt_ok in
    let addressed = rmap_set_src (rmap_set_dst created s.smile_fee_addr) s.icu_addr in
    let routed = (rmap_set_dest_path a.path_ok addressed s.dpath s.dpath_len).1 in
    let returning = (rmap_set_reply_path a.rpath_ok routed s.rpath s.rpath_len).1 in
    let keyed = rmap_set_key returning s.dst_key in
    let commanded = (rmap_set_cmd keyed rmap_cmd_type).1 in
    let identified = rmap_set_tr_id commanded trans_id in
    (rmap_set_data_len (rmap_set_data_addr identified addr) size).1

-- The result for a null buffer.
unfoldable pub smile_fee_gen_cmd_size : GenAllocs → Link → ℕ → ℕ → ℕ → ℕ → ℤ
smile_fee_gen_cmd_size a s trans_id rmap_cmd_type addr size =
    elim (gen_pkt a.sizing s trans_id rmap_cmd_type addr size) [
      | none ↦ pos 0
      | some pkt ↦ rmap_hdr_size (some pkt)
    ]

-- The bytes written into a buffer, whose number is the result; `none` is a read outside of a path.
unfoldable pub smile_fee_gen_cmd : GenAllocs → Link → ℕ → ℕ → ℕ → ℕ → Option (List ℕ)
smile_fee_gen_cmd a s trans_id rmap_cmd_type addr size =
    elim (gen_pkt a.filling s trans_id rmap_cmd_type addr size) [
      | none ↦ some []
      | some pkt ↦ rmap_build_hdr pkt
    ]

-- A command generator is called twice: for the size, and to fill the buffer.
pub record CmdGen : Type 0 where
  pub needed : Link → ℕ → ℤ
  pub fill : Link → ℕ → Option (List ℕ)

abbrev pub generator : GenAllocs → ℕ → ℕ → ℕ → CmdGen
generator a rmap_cmd_type addr size = record {
  needed = λ s trans_id. smile_fee_gen_cmd_size a s trans_id rmap_cmd_type addr size;
  fill = λ s trans_id. smile_fee_gen_cmd a s trans_id rmap_cmd_type addr size;
}

unfoldable pub fee_read_cmd_register_internal : GenAllocs → ℕ → CmdGen
fee_read_cmd_register_internal a addr = generator a read_addr_inc addr 4

unfoldable pub fee_write_cmd_register_internal : GenAllocs → ℕ → CmdGen
fee_write_cmd_register_internal a addr = generator a write_addr_inc_reply addr 4

unfoldable pub fee_write_cmd_data_internal : GenAllocs → ℕ → ℕ → CmdGen
fee_write_cmd_data_internal a addr size = generator a write_addr_inc_reply addr size

unfoldable pub fee_read_cmd_data_internal : GenAllocs → ℕ → ℕ → CmdGen
fee_read_cmd_data_internal a addr size = generator a read_addr_inc addr size
