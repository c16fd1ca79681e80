-- ===== src/Tests/GresbTests.antt =====
-- The theorems on GRESB/gresb.c at concrete packets.
use smile_fee.Base.{◌⊎◌, ◌≤◌, ◌<◌, ◌*◌, negsuc}
use smile_fee.Base.{◌+◌, some, ◌≡◌, ◌≢◌, arith, length, pos}
use smile_fee.Gresb.{GresbPkt, gresb_create_host_data_pkt, gresb_get_host_data_pkt_size}
use smile_fee.Gresb.{gresb_get_spw_data_size, gresb_get_spw_data, gresb_vlink_rx}
use smile_fee.Gresb.{gresb_get_virtual_link_tx_port, gresb_get_virtual_link_rx_port}
use smile_fee.Gresb.Laws.{gresb_create_host_data_pkt-sizes, gresb_get_virtual_link_rx_port-eq_tx}
use smile_fee.Tests.Packets.{all_bytes}

abbrev garbage : GresbPkt
garbage = record { protocol = 0xff; size0 = 1; size1 = 2; size2 = 3; content = all_bytes }

gresb_create_host_data_pkt-sizes_example :
    (pkt : GresbPkt) × gresb_create_host_data_pkt (some garbage) (some all_bytes) (length all_bytes)
      ≡ some pkt
    × gresb_get_host_data_pkt_size (some pkt) ≡ 4 + length all_bytes
    × gresb_get_spw_data_size (some pkt) ≡ length all_bytes
    × gresb_get_spw_data (some pkt) ≡ some all_bytes
gresb_create_host_data_pkt-sizes_example =
    gresb_create_host_data_pkt-sizes garbage all_bytes (omega arith)

gresb_get_virtual_link_rx_port-eq_tx_example :
    ((2 ≤ 5)
      × (gresb_get_virtual_link_rx_port 2 ≡ pos (3000 + 2 * 2))
      × (gresb_get_virtual_link_tx_port 2 ≡ pos (3000 + 2 * 2))
      × gresb_get_virtual_link_rx_port 2 ≢ pos (gresb_vlink_rx 2))
    ⊎ ((5 < 2)
        × (gresb_get_virtual_link_rx_port 2 ≡ negsuc 0)
        × gresb_get_virtual_link_tx_port 2 ≡ negsuc 0)
gresb_get_virtual_link_rx_port-eq_tx_example = gresb_get_virtual_link_rx_port-eq_tx 2
