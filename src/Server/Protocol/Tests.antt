-- ===== src/Server/Protocol/Tests.antt =====
-- A step of a PCI bus with its UNTIL lines: the theorems about server/protocol.cc at a concrete
-- input.
use simbus.Base.{◌≡◌, refl, sym, subst, ◌<◌, ◌^◌, negsuc, arith, true, false, map, ok, Returns}
use simbus.Wire.Time.RoundTrip.{FitsInt}
use simbus.Server.Pci.{PciBus, make_pci, run_init}
use simbus.Server.Pci.Step.{run_run}
use simbus.Server.Pci.Tests.{start, asking, state_of}
use simbus.Server.Protocol.{pci_protocol, clear_ready, bus_ready, until_line}
use simbus.Server.Protocol.Tells.{AllTold, are_tellable, bus_ready-AllTold}

abbrev cleared : PciBus
cleared = record asking { devices = map clear_ready asking.devices }

abbrev stepped : PciBus
stepped = state_of (run_run cleared) start

step_returns : run_run cleared ≡ ok tt stepped
unfolding run_run run_init make_pci clear_ready
step_returns = refl

tellable : are_tellable 4096 2048 stepped.time stepped.devices ≡ true
unfolding run_run run_init make_pci clear_ready until_line
tellable = refl

step_time : stepped.time ≡ record { mant = 13000; exp = negsuc 11 }
unfolding run_run run_init make_pci clear_ready
step_time = refl

told_example :
    Returns (λ u r. AllTold 4096 2048 r.time r.devices) (bus_ready pci_protocol false asking)
unfolding pci_protocol
told_example =
    bus_ready-AllTold pci_protocol 4096 2048 asking stepped step_returns
      (subst (λ t. t.mant < 2 ^ 64) (sym step_time) (omega arith))
      (subst (λ t. FitsInt t.exp) (sym step_time) (omega arith)) tellable
