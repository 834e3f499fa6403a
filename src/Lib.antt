-- ===== src/Lib.antt =====
-- libsimbus, the client library of the simbus bus simulator, and the server's side of four of its
-- buses, as functions over explicit state.
--
-- A client connects to the server with a socket, says HELLO, and then exchanges lines: it sends
-- READY with the values of its output signals and the time, and waits for UNTIL with the resolved
-- values and the time up to which it may run, or for FINISH. The ports differ in their signals and
-- in what they build on this exchange.
--
-- Base: numbers, lists, machine words (Base/Words), integers (Base/Int) and commands
-- (Base/Commands). A command takes the state and gives `ok` with a result and a state, `fault`
-- where an assertion of the code fails or the C program has undefined behaviour, or `out_of_fuel`.
-- Wire: the four-valued bit, `__bitval_to_char`, `__char_to_bitval`, `__ready_signal` and
-- `__until_signal` of libsimbus/simbus.c. Wire/Time: `struct simbus_time_s` and
-- `__parse_time_token`, with strtoul and strtol in base 10 as the C standard documents them, and
-- the token that the ports print with snprintf.
-- Session: `__simbus_server_hello`, `__simbus_server_finish` and `__simbus_server_send_recv` of
-- libsimbus/simbus.c. The socket is the list of chunks that read() will return, with whether a
-- write succeeds, and the list of messages sent. Session/Reply: the part of a response that every
-- port reads alike. Session/Text: literals as character codes.
-- P2p: libsimbus/simbus_p2p.c, one definition per function; `send_ready` is `send_ready_p2p`,
-- `in_words` is `simbus_p2p_in`.
-- Tlp: libsimbus/simbus_pcie_tlp.c, with `struct simbus_pcie_tlp_s` as the record Bus. Tlp/Stream:
-- one clock of the two AXI streams, of libsimbus/simbus_pcie_tlp_tlp.c. Tlp/Link: that file's
-- sender, receiver and dispatch, the clock, and the reset of libsimbus/simbus_pcie_tlp_reset.c.
-- Tlp/Requests: the transactions of libsimbus/simbus_pcie_tlp_write.c,
-- libsimbus/simbus_pcie_tlp_read.c and libsimbus/simbus_pcie_tlp_cfg.c.
-- Axi4: libsimbus/simbus_axi4.c, with the master's part of `struct simbus_axi4_s` as the record
-- Bus and the signals of an address channel as the record Address. Axi4/Clock: the exchange, the
-- clock, the interrupts and the reset of that file. Axi4/Write: libsimbus/simbus_axi4_write.c,
-- where `drive_write` and `write_word` are what the four writes share. Axi4/Read:
-- libsimbus/simbus_axi4_read.c, likewise. Axi4/Slave: libsimbus/simbus_axi4_slave.c, whose state
-- is the record Slave over the same Bus and a state of its device. Axi4/Slave/Machine: its state
-- machines, with `detect_address`, `detect_data`, `detect_response`, `detect_read` and
-- `detect_read_done` for the stages of `do_slave_machine`. Axi4/Slave/Phases and
-- Axi4/Slave/Traces: the phases of a write and a read, and the runs from a reset on.
-- Pci: libsimbus/simbus_pci.c, with `struct simbus_pci_s` as the record Bus. Pci/Clock: the clock
-- and its parity, the interrupts, `simbus_pci_wait` and `__pci_request_bus`. Pci/Master: the
-- phases of a cycle. Pci/Transfers: libsimbus/simbus_pci_config.c, libsimbus/simbus_pci_rw32.c and
-- libsimbus/simbus_pci_rw64.c. Pci/Target: libsimbus/simbus_pci_target.c, with the cycles in
-- Pci/Target/Memory, Pci/Target/Reads and Pci/Target/Writes and the state machine in
-- Pci/Target/Machine. Pci/Link: the transfers over the clock, the request and the target.
-- Pci/Memdev: libsimbus/simbus_pci_memdev.c over those transfers.
-- Server: the other end of the wire, with the devices of a bus of server/priv.h as two maps of
-- signals, and the time of server/simtime.h. Server/Clock: the clock that server/PointToPoint.cc,
-- server/AXI4Protocol.cc and server/PCIeTLP.cc share. Server/Point and Server/Axi4: the
-- configuration, the first signals and the step of these two; `run_transfers` runs the calls of
-- `run_master_to_slave_` and `run_slave_to_master_` that `transfers` lists. Server/Pcie:
-- server/PCIeTLP.cc likewise. The steps of the AXI4 and the PCIe bus are commands, since assertions
-- can fail; Server/Channels compares the step of the AXI4 bus with the first signals of its
-- `run_init`. Server/Pci: server/PciProtocol.cc, with the class `PciProtocol` as the record PciBus.
-- Server/Pci/Arbiter: the requests and the grant. Server/Pci/Shared: the interrupts and the signals
-- that the devices share. Server/Pci/Step: the step, which is a command. The pointers `granted_` and
-- `master_` are places in the list of the devices, and the random numbers are a function of how many
-- have been taken. The option gnt_linger is read by a strtoul that is an argument; the loop that
-- looks for the next request has 16 rounds, one for each number. Server/Client: server/client.cc,
-- with `client_state_t` and the bus that it uses as the record Client. Server/Client/Reading:
-- `read_from_socket`. Server/Client/Socket, Server/Client/Hello, Server/Client/Ready and
-- Server/Client/PciPort join it with what the ports of libsimbus send. Server/Protocol:
-- server/protocol.cc, where the methods of a protocol are the record Protocol, which the PCI bus
-- fills; Server/Protocol/Until and Server/Protocol/Tells join it with what the ports read.
--
-- Numbers are natural numbers; where the C code wraps, `% 2 ^ w` is written out. The arrays that a
-- callback of the PCIe port fills, and what it does with the bus, are the record Handlers: the
-- client supplies them. Sending a TLP waits for clocks, a clock may receive a TLP, and receiving
-- one may send the completion, so `dispatch`, `complete_recv` and `recv_tlp` take the sender as an
-- argument and `next_posedge` supplies it.
--
-- A PCI master's cycle takes the clock and the request for the bus as arguments. The request waits
-- for clocks, a clock of a wait runs the target's state machine, and a target that splits a read
-- requests the bus: `target` of Pci/Link supplies each with the other. The functions that a target
-- calls are numbers, which the record Handlers of Pci/Target/Memory explains, and the numbers of
-- the Mersenne Twister are a list that the target takes from.
--
-- The loops that wait for the server have fuel. A round of them takes a chunk from the socket or
-- finds the stream ended, so for the point-to-point port a number of rounds that exceeds what the
-- socket holds by two is enough. The PCIe, AXI4 and PCI ports do not look at the end of the stream
-- (but for `simbus_pci_wait`); their waits have no such bound. `write_word` and `read_word` use
-- their fuel for the rounds of the handshake and, in each, for the exchanges of a clock. Printing
-- a number has 20 rounds for 64 bits and 10 for an int, the most digits that these have, and the
-- tokenizer's rounds are the places of `argv`, as in the code.
--
-- Not modelled: opening the socket (system calls), `__time_as_double` (floating point), debug
-- output; of the server (server/, C++) the traces (the assertion of `set_trace_` on the width of a
-- vector is kept in the steps of the AXI4 and PCIe buses, and left out in their first signals and in
-- the point-to-point bus), the table of its clients, its main loop but for the test whether a bus
-- can run, and the opening and closing of its sockets; the copies of the Mersenne Twister and of the
-- LXT2 writer, the Verilog bindings (vpi/) and models (ver/, pcimem/), the device programs (p2p/,
-- pci/) and the examples.
pub mod Base
pub mod Wire
pub mod Session
pub mod P2p
pub mod Tlp
pub mod Axi4
pub mod Pci
pub mod Server
