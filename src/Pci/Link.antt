-- ===== src/Pci/Link.antt =====
-- The operations of libsimbus/simbus_pci.h over the clock, the request for the bus and the target's state
-- machine. A request waits for clocks, each of which runs the target, and a target that splits a
-- read requests the bus: the fuel bounds how deep they nest, and the loops inside of them.
use simbus.Base.{ℕ, zero, suc, List, ℤ, Option, out_of_fuel, Cmd}
use simbus.Pci.{Bus}
use simbus.Pci.Clock.{next_posedge, wait, reset, request_bus}
use simbus.Pci.Transfers.{
  config_read, config_write, read32, write32, write32b, read64, write64, write64b,
}
use simbus.Pci.Target.Memory.{Handlers}
use simbus.Pci.Target.Machine.{target_state_machine}

-- What a program calls to reach the devices of a bus.
pub record Port : Type 0 where
  pub port_config_read : ℕ → ℕ → Cmd Bus ℕ
  pub port_config_write : ℕ → ℕ → ℕ → ℕ → Cmd Bus (Unit {0})
  pub port_read32 : ℕ → ℕ → Cmd Bus ℕ
  pub port_write32 : ℕ → ℕ → ℕ → Cmd Bus (Unit {0})
  pub port_write32b : ℕ → List ℕ → ℕ → ℕ → Cmd Bus ℤ
  pub port_read64 : ℕ → ℕ → Cmd Bus ℕ
  pub port_write64 : ℕ → ℕ → ℕ → Cmd Bus (Unit {0})
  pub port_write64b : ℕ → List ℕ → ℕ → ℕ → Cmd Bus ℕ

module _ (h : Handlers) where
  -- `__pci_target_state_machine` with the request for the bus that it uses.
  unfoldable pub target : ℕ → Cmd Bus (Unit {0})
  unfolding target_state_machine next_posedge request_bus
  target zero b = out_of_fuel
  target (suc fuel) b =
      target_state_machine h (suc fuel) (next_posedge (suc fuel))
        (request_bus (λ b'. target fuel b') (suc fuel)) b

  -- `simbus_pci_wait` and `simbus_pci_reset`
  unfoldable pub pci_wait : ℕ → ℕ → Option ℕ → Cmd Bus (ℤ × Option ℕ)
  unfolding wait target
  pci_wait fuel = wait (target fuel) fuel

  unfoldable pub pci_reset : ℕ → ℕ → ℕ → Cmd Bus (Unit {0})
  unfolding reset target
  pci_reset fuel = reset (target fuel) fuel

  -- `__pci_request_bus`
  unfoldable pub pci_request : ℕ → Cmd Bus (Unit {0})
  unfolding request_bus target
  pci_request fuel = request_bus (target fuel) fuel

  -- The transfers of the library.
  unfoldable pub pci_port : ℕ → Port
  unfolding config_read config_write read32 write32 write32b read64 write64 write64b next_posedge
      pci_request
  pci_port fuel =
      let clock = next_posedge fuel in
      let request = pci_request fuel in
      record {
        port_config_read = config_read fuel clock request;
        port_config_write = config_write fuel clock request;
        port_read32 = read32 fuel clock request;
        port_write32 = write32 fuel clock request;
        port_write32b = write32b fuel clock request;
        port_read64 = read64 fuel clock request;
        port_write64 = write64 fuel clock request;
        port_write64b = write64b fuel clock request;
      }
