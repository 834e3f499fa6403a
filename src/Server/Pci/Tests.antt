-- ===== src/Server/Pci/Tests.antt =====
-- Runs of the bus of server/PciProtocol.cc, and the theorems about it at concrete inputs.
use simbus.Base.{
  eq_of_some, ℕ, zero, suc, ◌≡◌, ◌≢◌, refl, arith, Bool, true, false, some, [], ◌∷◌, replicate, ok,
  fault, out_of_fuel, Run, Returns, set, get_or, subst,
}
use simbus.Wire.{Bit, bit_0, bit_1, bit_z}
use simbus.Wire.Time.{init_time}
use simbus.Session.Text.{codes}
use simbus.Server.{Device, Signals, lookup, assign, sent}
use simbus.Server.Pci.{PciBus, shared_bits, make_pci, init_device, run_init}
use simbus.Server.Pci.Arbiter.{dev_at, arbitrate, collect_req, count_requests}
use simbus.Server.Pci.Shared.{blend_bi_signals, all_sized}
use simbus.Server.Pci.Step.{run_run}
use simbus.Server.Pci.Places.{GrantsOne}
use simbus.Server.Pci.Blend.{none-eq-some}
use simbus.Server.Pci.Asked.{sampled-Asked}
use simbus.Server.Pci.Turns.{Serves, arbitrate-Serves}
use simbus.Server.Pci.Sees.{AllSent, AllSeeBus, blend_bi_signals-SeesBus}
use simbus.Server.Pci.Reach.{take_signals, Reach, begin, step, Reach-GrantsOne}

abbrev plug : Bool → ℕ → Device
plug host ident = record {
  name = codes "dev";
  host_flag = host;
  ident = ident;
  ready_flag = true;
  exited_flag = false;
  ready_time = init_time;
  outgoing = [];
  client_signals = [];
  send_signals = [];
}

-- A host and two devices, and numbers that stand for the random ones.
abbrev pub start : PciBus
start = make_pci (λ text. 16) [] (λ n. n) (plug true 0 ∷ plug false 3 ∷ plug false 5 ∷ [])

-- What a client drives that starts a cycle, or none, and requests the bus, or does not.
abbrev driven : Bit → Bit → Signals
driven frame req =
    (codes "FRAME#", frame ∷ [])
    ∷ (codes "REQ64#", bit_z ∷ [])
    ∷ (codes "IRDY#", bit_z ∷ [])
    ∷ (codes "TRDY#", bit_z ∷ [])
    ∷ (codes "STOP#", bit_z ∷ [])
    ∷ (codes "DEVSEL#", bit_z ∷ [])
    ∷ (codes "ACK64#", bit_z ∷ [])
    ∷ (codes "PAR", bit_z ∷ [])
    ∷ (codes "PAR64", bit_z ∷ [])
    ∷ (codes "AD", replicate 64 bit_z)
    ∷ (codes "C/BE#", replicate 8 bit_z)
    ∷ (codes "REQ#", req ∷ [])
    ∷ []

-- The device of the number 5 requests.
abbrev signals : ℕ → Signals
signals zero = driven bit_z bit_1
signals (suc zero) = driven bit_0 bit_1
signals (suc (suc i)) = driven bit_z bit_0

abbrev pub asking : PciBus
asking = record (run_init start) { devices = take_signals signals (run_init start).devices }

-- The device of the number 3 is granted, and that of the number 5 requests.
abbrev busy : PciBus
busy = record asking { phase = 1; granted = some 1; req_n = set (replicate 16 bit_1) 5 bit_0 }

abbrev pub state_of : Run PciBus (Unit {0}) → PciBus → PciBus
state_of (ok u p) q = p
state_of fault q = q
state_of out_of_fuel q = q

-- The grant moves on to the device that requests.
grant_moves : (state_of (arbitrate busy) start).granted ≡ some 2
unfolding arbitrate run_init make_pci
grant_moves = refl

abbrev first_step : PciBus
first_step = state_of (run_run asking) start

first_step_returns : run_run asking ≡ ok tt first_step
unfolding run_run run_init make_pci
first_step_returns = refl

-- The second device drives FRAME#: the others are sent 0, and it is sent Z.
frame_shared :
    (sent (codes "FRAME#") (get_or first_step.devices 0 (plug true 0)) ≡ bit_0 ∷ [])
    × (sent (codes "FRAME#") (get_or first_step.devices 1 (plug true 0)) ≡ bit_z ∷ [])
    × (sent (codes "FRAME#") (get_or first_step.devices 2 (plug true 0)) ≡ bit_0 ∷ [])
unfolding run_run run_init make_pci
frame_shared = (refl, refl, refl)

Reach_example : GrantsOne first_step.granted first_step.devices
Reach_example =
    let from : Reach start (run_init start) = begin refl in
    Reach-GrantsOne (step signals from first_step_returns)

busy_device : (g : ℕ) → busy.granted ≡ some g → (dev : Device) × (dev_at g busy.devices ≡ some dev)
unfolding dev_at run_init make_pci
busy_device g e =
    subst (λ i. (dev : Device) × (dev_at i busy.devices ≡ some dev)) (eq_of_some e) (_, refl)

sampled_requests : collect_req busy.devices (replicate 16 bit_1) ≡ some busy.req_n
unfolding collect_req run_init make_pci
sampled_requests = refl

one_request : count_requests busy.req_n ≢ 0
unfolding count_requests
one_request e = absurd (omega arith)

Serves_example : Returns (λ u q. Serves busy q) (arbitrate busy)
Serves_example =
    arbitrate-Serves busy refl busy_device (sampled-Asked busy busy.req_n sampled_requests)
      one_request

sized : all_sized asking.devices ≡ true
unfolding all_sized run_init make_pci
sized = refl

abbrev HasSlots : Device → Type 0
HasSlots dev = AllSent shared_bits dev × (b : Bit) × (sent (codes "IDSEL") dev ≡ b ∷ [])

-- A device as `run_init` leaves it, whatever its client drives.
init_slots :
    (host : Bool) (ident : ℕ) (client : Signals)
    → HasSlots (record (init_device bit_0 (plug host ident)) { client_signals = client })
unfolding init_device lookup assign
init_slots true ident client = (
  (
    (bit_z, [], refl),
    (
      (bit_z, [], refl),
      (
        (bit_z, [], refl),
        (
          (bit_z, [], refl),
          (
            (bit_z, [], refl),
            ((bit_z, [], refl), ((bit_z, [], refl), ((bit_z, [], refl), ((bit_z, [], refl), tt)))),
          ),
        ),
      ),
    ),
  ),
  bit_z,
  refl,
)
init_slots false ident client = (
  (
    (bit_z, [], refl),
    (
      (bit_z, [], refl),
      (
        (bit_z, [], refl),
        (
          (bit_z, [], refl),
          (
            (bit_z, [], refl),
            ((bit_z, [], refl), ((bit_z, [], refl), ((bit_z, [], refl), ((bit_z, [], refl), tt)))),
          ),
        ),
      ),
    ),
  ),
  bit_z,
  refl,
)

slots : (i : ℕ) (dev : Device) → dev_at i asking.devices ≡ some dev → HasSlots dev
unfolding dev_at run_init make_pci
slots zero dev at = subst HasSlots (eq_of_some at) (init_slots true 0 (signals 0))
slots (suc zero) dev at = subst HasSlots (eq_of_some at) (init_slots false 3 (signals 1))
slots (suc (suc zero)) dev at = subst HasSlots (eq_of_some at) (init_slots false 5 (signals 2))
slots (suc (suc (suc i))) dev at = absurd (none-eq-some at)

SeesBus_example : Returns (AllSeeBus asking.devices) (blend_bi_signals asking)
SeesBus_example = blend_bi_signals-SeesBus asking sized slots
