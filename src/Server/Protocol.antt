-- ===== src/Server/Protocol.antt =====
-- server/protocol.cc: what every protocol of the server does with a step of its bus. The methods
-- that a protocol has of its own are the record `Protocol`; the traces and the log are left out.
mod Order
mod Until
mod Tells
mod Tests
use simbus.Base.{
  ℕ, zero, suc, ◌+◌, ltb, ◌==◌, ◌≡◌, refl, if◌then◌else◌, Bool, true, false, Option, none, some,
  opt_then, List, [], ◌∷◌, ◌++◌, map, length, get_or, Run, ok, fault, out_of_fuel, Cmd, and_then,
  ◌>>=◌, ◌>>◌, modify,
}
use simbus.Wire.{Bit, bit_0, bit_1, bit_x, bit_z}
use simbus.Wire.Time.{Time, print_time}
use simbus.Session.Text.{codes}
use simbus.Server.{Signals, Device}
use simbus.Server.Pci.{PciBus}
use simbus.Server.Pci.Step.{run_run}

-- `protocol_t` over a state `P`: the step, the devices of the bus and its time.
pub record Protocol (P : Type 0) : Type 0 where
  pub step : Cmd P (Unit {0})
  pub devices_of : P → List Device
  pub put_devices : List Device → P → P
  pub time_of : P → Time
  pub devices_of-put :
      (devices : List Device) (p : P) → devices_of (put_devices devices p) ≡ devices
  pub time_of-put : (devices : List Device) (p : P) → time_of (put_devices devices p) ≡ time_of p

-- The PCI bus.
unfoldable pub pci_protocol : Protocol PciBus
pci_protocol = record {
  step = run_run;
  devices_of = λ p. p.devices;
  put_devices = λ devices p. record p { devices = devices };
  time_of = λ p. p.time;
  devices_of-put = λ devices p. refl;
  time_of-put = λ devices p. refl;
}

-- a < b for two texts, as the keys of a std::map are compared
unfoldable pub text_less : List ℕ → List ℕ → Bool
text_less a [] = false
text_less [] (y ∷ b) = true
text_less (x ∷ a) (y ∷ b) =
    let rest = text_less a b in if ltb x y then true else if x == y then rest else false

unfoldable pub insert_signal : List ℕ → List Bit → Signals → Signals
unfolding text_less
insert_signal name val [] = (name, val) ∷ []
insert_signal name val ((n, v) ∷ signals) =
    let rest = insert_signal name val signals in
    if text_less n name then (n, v) ∷ rest else (name, val) ∷ (n, v) ∷ signals

-- The signals in the order in which an iterator meets them.
unfoldable pub in_order : Signals → Signals
unfolding insert_signal
in_order [] = []
in_order ((name, val) ∷ signals) = insert_signal name val (in_order signals)

unfoldable pub state_char : Bit → ℕ
state_char bit_0 = b'0'
state_char bit_1 = b'1'
state_char bit_z = b'z'
state_char bit_x = b'x'

-- The characters of a signal, the last bit first.
unfoldable pub state_chars : List Bit → ℕ → List ℕ
unfolding state_char
state_chars val zero = []
state_chars val (suc n) = state_char (get_or val n bit_x) ∷ state_chars val n

unfoldable pub signal_texts : Signals → List ℕ
unfolding state_chars
signal_texts [] = 10 ∷ []
signal_texts ((name, val) ∷ signals) =
    b' ' ∷ (name ++ (b'=' ∷ (state_chars val (length val) ++ signal_texts signals)))

-- The UNTIL line.
unfoldable pub until_line : Time → Signals → List ℕ
unfolding print_time in_order signal_texts
until_line time signals = codes "UNTIL " ++ (print_time time ++ signal_texts (in_order signals))

-- The line is written if it fits `buf`.
unfoldable pub send_until : Time → Device → Option Device
unfolding until_line
send_until time dev =
    let line = until_line time dev.send_signals in
    if ltb (length line) 4098 then some (record dev { outgoing = line ∷ dev.outgoing }) else none

unfoldable pub send_all_until : Time → List Device → Option (List Device)
unfolding send_until
send_all_until time [] = some []
send_all_until time (dev ∷ devices) =
    opt_then (send_until time dev)
      (λ dev'. opt_then (send_all_until time devices) (λ devices'. some (dev' ∷ devices')))

unfoldable pub clear_ready : Device → Device
clear_ready dev = record dev { ready_flag = false }

-- FINISH is sent to the device.
unfoldable pub send_finish : Device → Device
send_finish dev = record dev { exited_flag = true; outgoing = codes "FINISH\n" ∷ dev.outgoing }

module _ {P : Type 0} (protocol : Protocol P) where
  unfoldable pub put_all : Option (List Device) → Cmd P (Unit {0})
  put_all none p = fault
  put_all (some devices) p = ok tt (protocol.put_devices devices p)

  -- What follows the step.
  unfoldable pub report : Bool → Cmd P (Unit {0})
  unfolding send_finish send_all_until put_all
  report true p = put_all (some (map send_finish (protocol.devices_of p))) p
  report false p = put_all (send_all_until (protocol.time_of p) (protocol.devices_of p)) p

  -- `bus_ready`; `finished` is the flag of the bus. The writes are accepted as a whole.
  unfoldable pub bus_ready : Bool → Cmd P (Unit {0})
  unfolding clear_ready report
  bus_ready finished p =
      and_then (protocol.step (protocol.put_devices (map clear_ready (protocol.devices_of p)) p))
        (λ u. report finished)

-- The loop of `service_run` over the devices of a bus: whether the bus can run, and its `finished`.
unfoldable pub poll_devices : List Device → Bool → Bool × Bool
poll_devices [] finished = (true, finished)
poll_devices (dev ∷ devices) finished =
    let next = poll_devices devices finished in
    let ending = poll_devices devices true in
    if dev.ready_flag then (if dev.exited_flag then ending else next) else (false, finished)
