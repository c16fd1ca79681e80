-- ===== src/Lib.antt =====
-- A model of the SMILE FEE library: RMAP packets over SpaceWire, the transactions that read and
-- write the registers and the memory of the front-end electronics (FEE), the local mirror of both, the
-- data packets of the FEE, and the packets of the GRESB bridge. Paths are from the root of the repository.
--
-- Rmap is FEE/rmap.c. `Rmap.Packet` holds `struct rmap_pkt` and its setters, `Rmap.Crc` the
-- checksum, `Rmap.Header` the two calls of `rmap_build_hdr` (with a null buffer `rmap_hdr_size`, with
-- a buffer `rmap_build_hdr`), and `Rmap.Parse` the stages of `rmap_pkt_from_buffer` in the order of
-- the source. A pointer is an option; a read outside of a buffer is the outcome `fault`, or `none`
-- where a checksum that nothing depends on is read. Whether a call of malloc succeeds is an argument.
--
-- Link is FEE/smile_fee_rmap.c with the command generators of FEE/smile_fee_cmd.c. `Link.Log` is the
-- transaction log, `Link.State` the static variables. The two functions that the client provides are
-- part of the state: `rmap_tx` is a function of the call, with its calls recorded in `sent`, and
-- `rmap_rx` delivers the packets of the list `incoming`. Memory is a function from addresses.
-- `Link.Receive` is `smile_fee_process_rx`, a recursion on `incoming`. `Link.Command` generates
-- commands, `Link.Submit` sends them through the log and `rmap_tx`, `Link.Package` is
-- `smile_fee_package`, and `Link.Registers` has one command for each register. Local addresses are
-- numbers, and the payload of a sent command is given by its address. `Link.Reach` has the client's
-- calls and the changes between them as a step relation.
--
-- Fee is FEE/smile_fee.c: `Fee.Packet` the packet header of FEE/smile_fee.h, `Fee.Event` the event
-- classification and the bad pixel test, `Fee.Full` and `Fee.Transfer` the aggregators of full frames
-- and of frame transfer data, `Fee.Create` their creation from the register mirror. Buffers are lists of bytes, and a write behind the end is `none`.
--
-- Ctrl is FEE/smile_fee_ctrl.c with FEE/byteorder.h, on a little-endian host. `Ctrl.Swap` has the byte
-- swaps, `Ctrl.Mirror` the `struct smile_fee_mirror`: a function from register addresses to the words
-- that are stored there in big-endian order, since a register stands in the structure at its address.
-- `Ctrl.CfgReadout`, `Ctrl.CfgImage`, `Ctrl.CfgDetector`, `Ctrl.HkTemperatures`, `Ctrl.HkVoltages`,
-- `Ctrl.HkLink` and `Ctrl.HkErrors` hold the functions that read and set a value, by register.
-- `Ctrl.Field` says what such a pair of functions stands for, `Ctrl.Table` lists all fields,
-- `Ctrl.Cells` has their laws, `Ctrl.Readback` the four pairs outside of the table. `Ctrl.Sync` holds
-- the functions that exchange registers with the FEE: they call `smile_fee_sync` of Link with the
-- commands of `Link.Registers`. `Ctrl.Sram` is the mirror of the SRAM: `Ctrl.Sram.Local` reads and
-- writes it, `Ctrl.Sram.Transfer` exchanges it in pieces through an interface, `Sender`, that
-- `smile_fee_sync_data` and `smile_fee_rmap_sync_status` fill in (`writer` and `reader`); what happens
-- between two calls is a parameter of that instance. `Ctrl.Sram.Sending` runs the loops with it.
--
-- Gresb is GRESB/gresb.c. Base and Bits are shared helpers: lists, integers and bit operations. Tests
-- applies the theorems to concrete packets.
--
-- Fuel is used by the loops of the SRAM transfers only, which wait for the FEE: a unit for each
-- round, and a loop that runs out of it is `running`. The other loops of the source run over a list
-- or a counted range.
--
-- Not modelled: output of debug text, freeing memory, big-endian hosts, the byte swaps of event
-- packets, the size of the client's buffers that the data of a response is copied to, the simulator in
-- SIM, the device driver in SDPDEV, and the programs GRESB/gresb_bridge.c and TEST.
pub mod Base
pub mod Bits
pub mod Rmap
pub mod Link
pub mod Gresb
pub mod Fee
pub mod Ctrl
pub mod Tests
