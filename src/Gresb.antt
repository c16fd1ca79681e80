-- ===== src/Gresb.antt =====
-- GRESB/gresb.c and GRESB/gresb.h: packets between a host and the SpaceWire bridge, and the ports of
-- the virtual links.
pub mod Laws
use smile_fee.Base.{
  ℕ, ◌+◌, ◌*◌, ◌/◌, ◌%◌, List, [], ◌++◌, Option, none, some, Bool, ◌||◌, ◌==◌, ltb, if◌then◌else◌,
}
use smile_fee.Base.{bit_and, bit_or, u8, ◌<<<◌, ◌>>>◌, ℤ, pos, negsuc}
use smile_fee.Rmap.Packet.{Status, success, failure}
use smile_fee.Rmap.Header.{read_bytes}

abbrev pub gresb_vlink_max : ℕ
gresb_vlink_max = 5

abbrev pub gresb_vlink_port_base : ℕ
gresb_vlink_port_base = 3000

abbrev pub gresb_vlink_tx : ℕ → ℕ
gresb_vlink_tx link = gresb_vlink_port_base + 2 * link

abbrev pub gresb_vlink_rx : ℕ → ℕ
gresb_vlink_rx link = gresb_vlink_port_base + (2 * link + 1)

abbrev pub gresb_from_host_data : ℕ
gresb_from_host_data = 0

-- `struct host_to_gresb_pkt`, and `struct gresb_to_host_pkt` whose first byte is a bit field.
pub record GresbPkt : Type 0 where
  pub protocol : ℕ
  pub size0 : ℕ
  pub size1 : ℕ
  pub size2 : ℕ
  pub content : List ℕ

unfoldable pub gresb_host_pkt_set_protocol : Option GresbPkt → ℕ → Status × Option GresbPkt
gresb_host_pkt_set_protocol none protocol = (failure, none)
gresb_host_pkt_set_protocol (some pkt) protocol =
    if protocol == 0 || (protocol == 1 || (protocol == 2 || protocol == 3))
    then (success, some (record pkt { protocol = protocol }))
    else (failure, some pkt)

unfoldable pub gresb_host_pkt_set_data_size : Option GresbPkt → ℕ → Status × Option GresbPkt
gresb_host_pkt_set_data_size none size = (failure, none)
gresb_host_pkt_set_data_size (some pkt) size =
    if pkt.protocol == gresb_from_host_data
    then (
      success,
      some (record pkt {
        size0 = bit_and (size >>> 16) 0xff;
        size1 = bit_and (size >>> 8) 0xff;
        size2 = bit_and size 0xff;
      }),
    )
    else (failure, some pkt)

unfoldable pub gresb_pkt_get_data_size : GresbPkt → ℕ
gresb_pkt_get_data_size pkt =
    bit_or (bit_or (bit_and (pkt.size0 <<< 16) 0xff0000) (bit_and (pkt.size1 <<< 8) 0x00ff00))
      (bit_and pkt.size2 0x0000ff)

unfoldable pub gresb_host_pkt_get_data_size : GresbPkt → ℕ
unfolding gresb_pkt_get_data_size
gresb_host_pkt_get_data_size pkt =
    if pkt.protocol == gresb_from_host_data then gresb_pkt_get_data_size pkt else 0

-- The packet in the allocated memory, whose content before was `raw`: the data replaces as much of
-- it as `len` says. A failed allocation is `none`; so is a read behind the end of the data.
unfoldable pub gresb_create_host_data_pkt : Option GresbPkt → Option (List ℕ) → ℕ → Option GresbPkt
gresb_create_host_data_pkt none bytes len = none
gresb_create_host_data_pkt (some raw) bytes len =
    let named = (gresb_host_pkt_set_protocol (some raw) gresb_from_host_data).1 in
    let sized = (gresb_host_pkt_set_data_size named len).1 in
    elim bytes [
      | none ↦ sized
      | some xs ↦ elim (read_bytes (some xs) len) [
        | none ↦ none
        | some copied ↦ elim sized [
          | none ↦ none
          | some pkt ↦ some (record pkt { content = copied })
        ]
      ]
    ]

-- The four bytes of the header and the data.
unfoldable pub gresb_get_host_data_pkt_size : Option GresbPkt → ℕ
gresb_get_host_data_pkt_size none = 0
gresb_get_host_data_pkt_size (some pkt) = 4 + gresb_host_pkt_get_data_size pkt

unfoldable pub gresb_get_spw_data : Option GresbPkt → Option (List ℕ)
gresb_get_spw_data none = none
gresb_get_spw_data (some pkt) = some pkt.content

unfoldable pub gresb_get_spw_data_size : Option GresbPkt → ℕ
gresb_get_spw_data_size none = 0
gresb_get_spw_data_size (some pkt) = gresb_pkt_get_data_size pkt

-- Bits 6 and 7 of the first byte.
unfoldable pub gresb_get_spw_pkt_truncated : Option GresbPkt → ℕ
gresb_get_spw_pkt_truncated none = 0
gresb_get_spw_pkt_truncated (some pkt) = pkt.protocol / 64 % 2

unfoldable pub gresb_get_spw_pkt_eeop : Option GresbPkt → ℕ
gresb_get_spw_pkt_eeop none = 0
gresb_get_spw_pkt_eeop (some pkt) = pkt.protocol / 128 % 2

unfoldable pub gresb_get_virtual_link_tx_port : ℕ → ℤ
gresb_get_virtual_link_tx_port link =
    if ltb gresb_vlink_max link then negsuc 0 else pos (gresb_vlink_tx link)

-- The source uses the transmit port here, too.
unfoldable pub gresb_get_virtual_link_rx_port : ℕ → ℤ
gresb_get_virtual_link_rx_port link =
    if ltb gresb_vlink_max link then negsuc 0 else pos (gresb_vlink_tx link)
