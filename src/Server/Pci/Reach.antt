-- ===== src/Server/Pci/Reach.antt =====
-- The states that a PCI bus of server/PciProtocol.cc comes to from `run_init` on.
use simbus.Base.{
  eq_of_some, ℕ, zero, suc, ◌≡◌, refl, sym, ap, subst, ◌∙◌, Bool, true, false, not, if◌then◌else◌,
  none, some, List, [], ◌∷◌, map, replicate, same_text, ok, Run, After,
}
use simbus.Wire.{Bit, bit_1, bit_z}
use simbus.Session.Text.{codes}
use simbus.Server.{Device, Signals, send, sent, send_all}
use simbus.Server.Forward.{lookup-assign}
use simbus.Server.Names.{absent, left_of, eq_false_of_not, rest_of_absent}
use simbus.Server.Pci.{
  PciBus, shared_bits, interrupt_names, float, float_all, init_device, run_init,
}
use simbus.Server.Pci.Arbiter.{dev_at}
use simbus.Server.Pci.Step.{run_run}
use simbus.Server.Pci.Places.{GrantsOne}
use simbus.Server.Pci.Grants.{KeepsOne}
use simbus.Server.Pci.Sees.{sent-send_ne}
use simbus.Server.Pci.Blend.{none-eq-some}
use simbus.Server.Pci.Steps.{SameGnt, nil, cons, GrantsOne-SameGnt}
use simbus.Server.Pci.Runs.{run_run-KeepsOne}

-- The client signals of the devices after their next messages.
abbrev pub take_signals : (ℕ → Signals) → List Device → List Device
take_signals signals [] = []
take_signals signals (dev ∷ devices) =
    record dev { client_signals = signals 0 } ∷ take_signals (λ i. signals (suc i)) devices

-- The states from `run_init` on. Between two steps the clients drive what they like.
pub data Reach (start : PciBus) : PciBus → Type 0 where
  begin : {p : PciBus} → p ≡ run_init start → Reach start p
  step :
      {p q : PciBus} (signals : ℕ → Signals)
      → Reach start p
      → run_run (record p { devices = take_signals signals p.devices }) ≡ ok tt q
      → Reach start q

sent-float_ne :
    (key name : List ℕ) (width : ℕ) (dev : Device)
    → same_text name key ≡ false
    → sent key (float name width dev) ≡ sent key dev
unfolding float
sent-float_ne key name width dev h = sent-send_ne key name (replicate width bit_z) dev h

sent-float_all :
    (key : List ℕ) (names : List (List ℕ)) (dev : Device)
    → absent key names ≡ true
    → sent key (float_all names dev) ≡ sent key dev
unfolding float_all
sent-float_all key [] dev h = refl
sent-float_all key (name ∷ names) dev h =
    sent-float_all key names (float name 1 dev) (rest_of_absent key name names h)
    ∙ sent-float_ne key name 1 dev (
        eq_false_of_not (same_text name key)
          (left_of (not (same_text name key)) (absent key names) h))

-- The signals that every device is sent first.
abbrev common : Bit → Device → Device
common pcixcap dev = float (codes "AD") 64 (
    float (codes "C/BE#") 8 (
      float_all shared_bits (
        send_all
          ((codes "PCIXCAP", pcixcap ∷ [])
            ∷ (codes "PCI_CLK", bit_1 ∷ [])
            ∷ (codes "GNT#", bit_1 ∷ [])
            ∷ (codes "IDSEL", bit_z ∷ [])
            ∷ [])
          dev)))

common-gnt : (pcixcap : Bit) (dev : Device) → sent (codes "GNT#") (common pcixcap dev) ≡ bit_1 ∷ []
unfolding send_all
common-gnt pcixcap dev =
    let clocked = send (codes "PCI_CLK") (bit_1 ∷ []) (send (codes "PCIXCAP") (pcixcap ∷ []) dev) in
    let granted = send (codes "GNT#") (bit_1 ∷ []) clocked in
    let selected = send (codes "IDSEL") (bit_z ∷ []) granted in
    let bits = float_all shared_bits selected in
    sent-float_ne (codes "GNT#") (codes "AD") 64 (float (codes "C/BE#") 8 bits) refl
    ∙ sent-float_ne (codes "GNT#") (codes "C/BE#") 8 bits refl
    ∙ sent-float_all (codes "GNT#") shared_bits selected refl
    ∙ sent-send_ne (codes "GNT#") (codes "IDSEL") (bit_z ∷ []) granted refl
    ∙ lookup-assign [] (codes "GNT#") (bit_1 ∷ []) clocked.send_signals

ends_of_init :
    (host : Bool) (dev : Device)
    → sent (codes "GNT#") (
        if host
        then send_all (map (λ name. (name, replicate 16 bit_1)) interrupt_names) dev
        else send_all ((codes "RESET#", bit_1 ∷ []) ∷ []) dev)
      ≡ sent (codes "GNT#") dev
unfolding send_all
ends_of_init true dev =
    let ones = replicate 16 bit_1 in
    let a = send (codes "INTA#") ones dev in
    let b = send (codes "INTB#") ones a in
    let c = send (codes "INTC#") ones b in
    sent-send_ne (codes "GNT#") (codes "INTD#") ones c refl
    ∙ sent-send_ne (codes "GNT#") (codes "INTC#") ones b refl
    ∙ sent-send_ne (codes "GNT#") (codes "INTB#") ones a refl
    ∙ sent-send_ne (codes "GNT#") (codes "INTA#") ones dev refl
ends_of_init false dev = sent-send_ne (codes "GNT#") (codes "RESET#") (bit_1 ∷ []) dev refl

init_device-gnt :
    (pcixcap : Bit) (dev : Device) → sent (codes "GNT#") (init_device pcixcap dev) ≡ bit_1 ∷ []
unfolding init_device
init_device-gnt pcixcap dev =
    ends_of_init dev.host_flag (common pcixcap dev) ∙ common-gnt pcixcap dev

all_gnt :
    (pcixcap : Bit) (devices : List Device) (i : ℕ) (dev : Device)
    → dev_at i (map (init_device pcixcap) devices) ≡ some dev
    → sent (codes "GNT#") dev ≡ bit_1 ∷ []
unfolding dev_at
all_gnt pcixcap [] i dev at = absurd (none-eq-some at)
all_gnt pcixcap (d ∷ devices) zero dev at =
    ap (sent (codes "GNT#")) (sym (eq_of_some at)) ∙ init_device-gnt pcixcap d
all_gnt pcixcap (d ∷ devices) (suc i) dev at = all_gnt pcixcap devices i dev at

run_init-GrantsOne : (p : PciBus) → GrantsOne (run_init p).granted (run_init p).devices
unfolding run_init
run_init-GrantsOne p = record {
  there = λ g e. absurd (nobody g e);
  only = all_gnt p.pcixcap p.devices;
}
  where
    nobody : (g : ℕ) → none ≡ some g → ⊥
    nobody g e = cc

take_signals-SameGnt :
    (signals : ℕ → Signals) (devices : List Device) → SameGnt devices (take_signals signals devices)
take_signals-SameGnt signals [] = nil
take_signals-SameGnt signals (dev ∷ devices) =
    cons refl (take_signals-SameGnt (λ i. signals (suc i)) devices)

returned :
    (r : Run PciBus (Unit {0})) (q : PciBus)
    → r ≡ ok tt q
    → After KeepsOne r
    → GrantsOne q.granted q.devices
returned r q e h = (subst (After KeepsOne) e h).holds

-- From `run_init` on, through any number of steps that return, whatever the clients drive between
-- them: GNT# is 0 for the device that is granted and 1 for every other one, so no two devices are
-- granted at once.
pub Reach-GrantsOne : {start p : PciBus} → Reach start p → GrantsOne p.granted p.devices
Reach-GrantsOne {start} (begin e) =
    subst (λ p. GrantsOne p.granted p.devices) (sym e) (run_init-GrantsOne start)
Reach-GrantsOne {start} (step {p = p} {q = q} signals r e) =
    let driven = record p { devices = take_signals signals p.devices } in
    returned (run_run driven) q e (
      run_run-KeepsOne driven (
        GrantsOne-SameGnt p.granted p.devices (take_signals signals p.devices)
          (take_signals-SameGnt signals p.devices) (Reach-GrantsOne r)))
