-- ===== src/Server/Pci/Step.antt =====
-- `run_run` of server/PciProtocol.cc: the parts of a step in their order.
use simbus.Base.{if◌then◌else◌, map, get_or, ok, Cmd, ◌>>◌}
use simbus.Wire.{Bit, bit_1, bit_x}
use simbus.Session.Text.{codes}
use simbus.Server.{lookup, assign, Device, poke}
use simbus.Server.Pci.{PciBus, advance_pci_clock, calculate_reset_n}
use simbus.Server.Pci.Arbiter.{track_req_n, arbitrate}
use simbus.Server.Pci.Shared.{route_interrupts, blend_bi_signals}

-- pci_clk
unfoldable pub pci_clk : PciBus → Bit
pci_clk p = (get_or p.clock_phase_map p.phase (bit_x, 0)).0

-- The last loop, for one device.
unfoldable pub give_clock : Bit → Bit → Device → Device
unfolding assign lookup
give_clock clk reset_n dev =
    let clocked = poke (codes "PCI_CLK") 0 clk dev in
    if dev.host_flag then clocked else poke (codes "RESET#") 0 reset_n clocked

-- The last loop.
unfoldable pub assign_outputs : Bit → Bit → Cmd PciBus (Unit {0})
unfolding give_clock
assign_outputs clk reset_n p = ok tt (record p { devices = map (give_clock clk reset_n) p.devices })

-- `run_run`
unfoldable pub run_run : Cmd PciBus (Unit {0})
unfolding advance_pci_clock calculate_reset_n pci_clk track_req_n arbitrate route_interrupts
    blend_bi_signals assign_outputs
run_run p =
    let q = advance_pci_clock p in
    (track_req_n
        >> arbitrate
        >> route_interrupts
        >> blend_bi_signals
        >> assign_outputs (pci_clk q) (calculate_reset_n q.devices bit_1))
      q
