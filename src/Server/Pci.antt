-- ===== src/Server/Pci.antt =====
-- server/PciProtocol.cc: the server's side of a PCI bus.
pub mod Arbiter
pub mod Shared
pub mod Step
mod Rounds
mod Places
mod Grants
mod Turns
mod Asked
mod Blend
mod Sees
mod Steps
mod Runs
mod Reach
pub mod Tests
use simbus.Base.{
  ℕ, zero, suc, ◌+◌, ◌%◌, ◌^◌, ltb, ◌==◌, if◌then◌else◌, Bool, true, false, not, Option, none, some,
  List, [], ◌∷◌, map, get_or, set, replicate, same_text, negsuc, Run, ok, fault, Cmd, and_then,
  assert, ◌>>=◌, ◌>>◌,
}
use simbus.Wire.{Bit, bit_0, bit_1, bit_x, bit_z, is_bit}
use simbus.Wire.Time.{Time, init_time}
use simbus.Session.Text.{codes}
use simbus.Server.{Map, Signals, lookup, assign, Device, receive, send, drive, send_all, add_time}

-- `park_mode_t`
pub data ParkMode : Type 0 where
  gnt_park_none gnt_park_last : ParkMode

-- `PciProtocol`, with the members of its base class that it uses. A device that a pointer refers
-- to is its place in `devices`, the values of the device map. `numbers` are those that `lrand_`
-- has still to give.
pub record PciBus : Type 0 where
  pub clock_phase_map : List (Bit × ℕ)
  pub park_mode : ParkMode
  pub gnt_linger : ℕ
  pub phase : ℕ
  pub granted : Option ℕ
  pub master : Option ℕ
  pub pcixcap : Bit
  pub req_n : List Bit
  pub devices : List Device
  pub numbers : ℕ → ℕ
  pub time : Time

unfoldable pub clock_phase_map33 : List (Bit × ℕ)
clock_phase_map33 = (bit_1, 2000) ∷ (bit_1, 13000) ∷ (bit_0, 13000) ∷ (bit_0, 2000) ∷ []

unfoldable pub clock_phase_map66 : List (Bit × ℕ)
clock_phase_map66 = (bit_1, 2000) ∷ (bit_1, 5500) ∷ (bit_0, 5500) ∷ (bit_0, 2000) ∷ []

-- gnt_linger_, from its option.
unfoldable pub linger : (List ℕ → ℕ) → List ℕ → ℕ
linger strtoul_0 [] = 16
linger strtoul_0 (c ∷ text) = strtoul_0 (c ∷ text)

-- The constructor, for the devices of the bus. `strtoul_0` is strtoul(_, 0, 0) of the C library.
unfoldable pub make_pci : (List ℕ → ℕ) → Map (List ℕ) → (ℕ → ℕ) → List Device → PciBus
unfolding clock_phase_map33 clock_phase_map66 linger lookup
make_pci strtoul_0 options numbers devices =
    let text : List ℕ → List ℕ = λ key. lookup [] key options in
    record {
      clock_phase_map =
          if same_text (text (codes "bus_speed")) (codes "66")
          then clock_phase_map66
          else clock_phase_map33;
      park_mode =
          if same_text (text (codes "bus_park")) (codes "last")
          then gnt_park_last
          else gnt_park_none;
      gnt_linger = linger strtoul_0 (text (codes "gnt_linger"));
      phase = 0;
      granted = none;
      master = none;
      pcixcap = if same_text (text (codes "PCIXCAP")) (codes "yes") then bit_1 else bit_0;
      req_n = replicate 16 bit_0;
      devices = devices;
      numbers = numbers;
      time = init_time;
    }

-- The one-bit signals that all the devices share.
abbrev pub shared_bits : List (List ℕ)
shared_bits =
    codes "FRAME#"
    ∷ codes "REQ64#"
    ∷ codes "IRDY#"
    ∷ codes "TRDY#"
    ∷ codes "STOP#"
    ∷ codes "DEVSEL#"
    ∷ codes "ACK64#"
    ∷ codes "PAR"
    ∷ codes "PAR64"
    ∷ []

-- The `width` bits of a shared signal are Z on both sides.
unfoldable pub float : List ℕ → ℕ → Device → Device
unfolding assign
float name width dev = drive name (replicate width bit_z) (send name (replicate width bit_z) dev)

unfoldable pub float_all : List (List ℕ) → Device → Device
unfolding float
float_all [] dev = dev
float_all (name ∷ names) dev = float_all names (float name 1 dev)

abbrev pub interrupt_names : List (List ℕ)
interrupt_names = codes "INTA#" ∷ codes "INTB#" ∷ codes "INTC#" ∷ codes "INTD#" ∷ []

-- The first signals of a device, in `run_init`.
unfoldable pub init_device : Bit → Device → Device
unfolding float_all float send_all
init_device pcixcap dev =
    let common = float (codes "AD") 64 (
      float (codes "C/BE#") 8 (
        float_all shared_bits (
          send_all
            ((codes "PCIXCAP", pcixcap ∷ [])
              ∷ (codes "PCI_CLK", bit_1 ∷ [])
              ∷ (codes "GNT#", bit_1 ∷ [])
              ∷ (codes "IDSEL", bit_z ∷ [])
              ∷ [])
            dev))) in
    if dev.host_flag
    then send_all (map (λ name. (name, replicate 16 bit_1)) interrupt_names) common
    else send_all ((codes "RESET#", bit_1 ∷ []) ∷ []) common

-- `run_init`
unfoldable pub run_init : PciBus → PciBus
unfolding init_device
run_init p = record p {
  granted = none;
  master = none;
  req_n = replicate 16 bit_1;
  devices = map (init_device p.pcixcap) p.devices;
}

-- `advance_pci_clock_`
unfoldable pub advance_pci_clock : PciBus → PciBus
unfolding add_time
advance_pci_clock p =
    let phase = (p.phase + 1) % 4 in
    let length : Time = record {
      mant = (get_or p.clock_phase_map phase (bit_x, 0)).1;
      exp = negsuc 11;
    } in
    record p { phase = phase; time = add_time p.time length }

-- The loop of `calculate_reset_n_`, from the value `reset_n` on.
unfoldable pub calculate_reset_n : List Device → Bit → Bit
unfolding lookup
calculate_reset_n [] reset_n = reset_n
calculate_reset_n (dev ∷ devices) reset_n =
    let next = calculate_reset_n devices reset_n in
    let unknown = calculate_reset_n devices bit_x in
    if dev.host_flag
    then elim (receive (codes "RESET#") dev) [
      | [] ↦ next
      | bit_1 ∷ _ ↦ next
      | bit_0 ∷ _ ↦ bit_0
      | bit_x ∷ _ ↦ unknown
      | bit_z ∷ _ ↦ unknown
    ]
    else next
