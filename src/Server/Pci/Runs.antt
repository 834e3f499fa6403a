-- ===== src/Server/Pci/Runs.antt =====
-- The runs of a PCI bus from `run_init` on, through steps of `run_run` of server/PciProtocol.cc.
use simbus.Base.{
  ℕ, ◌≡◌, refl, sym, subst, Bool, true, false, ◌==◌, if◌then◌else◌, Option, none, some, List, [],
  ◌∷◌, map, Run, ok, fault, Cmd, and_then, After, After-ok, After-fault, After-bind, After-if,
  replicate, ◌>>=◌,
}
use simbus.Wire.{Bit, bit_0, bit_1, is_bit}
use simbus.Session.Text.{codes}
use simbus.Server.{Device, receive}
use simbus.Server.Pci.{PciBus, advance_pci_clock, calculate_reset_n}
use simbus.Server.Pci.Arbiter.{
  dev_at, first_bit, holds_bus, set_master, hand_over, collect_req, track_req_n, arbitrate,
}
use simbus.Server.Pci.Shared.{route_to, route_interrupts, give_signals, blend_bi_signals, all_sized}
use simbus.Server.Pci.Step.{pci_clk, give_clock, assign_outputs, run_run}
use simbus.Server.Pci.Places.{GrantsOne}
use simbus.Server.Pci.Grants.{KeepsOne, arbitrate-GrantsOne}
use simbus.Server.Pci.Steps.{
  GrantsOne-SameGnt, SameGnt-map, give_signals-gnt, give_clock-gnt, route_to-SameGnt,
}

-- A command that only reads.
abbrev Reads : {A : Type 0} → PciBus → Run PciBus A → Type 0
Reads {A} p r = After (λ (a : A) s. s ≡ p) r

first_of : (bits : List Bit) (p : PciBus) → Reads p (elim bits [ [] ↦ fault | b ∷ _ ↦ ok b p ])
first_of [] p = After-fault _
first_of (b ∷ bits) p = After-ok _ b p refl

first_at :
    (name : List ℕ) (found : Option Device) (p : PciBus)
    → Reads p (elim found [
      | none ↦ fault
      | some dev ↦ elim (receive name dev) [ [] ↦ fault | b ∷ _ ↦ ok b p ]
    ])
first_at name none p = After-fault _
first_at name (some dev) p = first_of (receive name dev) p

first_bit-Reads : (name : List ℕ) (i : ℕ) (p : PciBus) → Reads p (first_bit name i p)
unfolding first_bit
first_bit-Reads name i p = first_at name (dev_at i p.devices) p

Reads-bind :
    {A B : Type 0} (Q : B → PciBus → Type 0) (p : PciBus) (r : Run PciBus A) (k : A → Cmd PciBus B)
    → Reads p r
    → ((a : A) → After Q (k a p))
    → After Q (and_then r k)
Reads-bind Q p r k h f =
    After-bind (λ a s. s ≡ p) Q r k h (λ a s e. subst (λ s'. After Q (k a s')) (sym e) (f a))

-- A test that chooses between two commands.
choose :
    {A : Type 0} (Q : A → PciBus → Type 0) (c : Bool) (m n : Cmd PciBus A) (p : PciBus)
    → After Q (m p)
    → After Q (n p)
    → After Q ((if c then m else n) p)
choose Q true m n p h k = h
choose Q false m n p h k = k

holds_bus-Reads : (m : ℕ) (p : PciBus) → Reads p (holds_bus m p)
unfolding holds_bus
holds_bus-Reads m p =
    Reads-bind (λ b s. s ≡ p) p (first_bit (codes "FRAME#") m p) _
      (first_bit-Reads (codes "FRAME#") m p)
      (λ frame.
        choose (λ b s. s ≡ p) (is_bit frame bit_0) (ok true)
          (first_bit (codes "IRDY#") m >>= λ irdy. ok (is_bit irdy bit_0)) p
          (After-ok (λ b s. s ≡ p) true p refl)
          (Reads-bind (λ b s. s ≡ p) p (first_bit (codes "IRDY#") m p)
            (λ irdy. ok (is_bit irdy bit_0)) (first_bit-Reads (codes "IRDY#") m p)
            (λ irdy. After-ok (λ b s. s ≡ p) (is_bit irdy bit_0) p refl)))

set_master-KeepsOne :
    (master : Option ℕ) (p : PciBus)
    → GrantsOne p.granted p.devices
    → After KeepsOne (set_master master p)
unfolding set_master
set_master-KeepsOne master p h = After-ok KeepsOne tt (record p { master = master }) h

hand_over-KeepsOne :
    (master granted : Option ℕ) (p : PciBus)
    → GrantsOne p.granted p.devices
    → After KeepsOne (hand_over master granted p)
unfolding hand_over
hand_over-KeepsOne none none p h = After-ok KeepsOne tt p h
hand_over-KeepsOne none (some g) p h =
    Reads-bind KeepsOne p (first_bit (codes "FRAME#") g p) _ (first_bit-Reads (codes "FRAME#") g p)
      (λ frame.
        choose KeepsOne (is_bit frame bit_0) (set_master (some g)) (ok tt) p
          (set_master-KeepsOne (some g) p h) (After-ok KeepsOne tt p h))
hand_over-KeepsOne (some m) none p h =
    Reads-bind KeepsOne p (holds_bus m p) _ (holds_bus-Reads m p) (λ holds.
      choose KeepsOne holds (ok tt) (set_master none) p (After-ok KeepsOne tt p h)
        (set_master-KeepsOne none p h))
hand_over-KeepsOne (some m) (some g) p h =
    choose KeepsOne (m == g) (ok tt)
      (holds_bus m >>= λ holds. if holds then ok tt else set_master (some g)) p
      (After-ok KeepsOne tt p h)
      (Reads-bind KeepsOne p (holds_bus m p) _ (holds_bus-Reads m p) (λ holds.
        choose KeepsOne holds (ok tt) (set_master (some g)) p (After-ok KeepsOne tt p h)
          (set_master-KeepsOne (some g) p h)))

sampled-KeepsOne :
    (found : Option (List Bit)) (p : PciBus)
    → GrantsOne p.granted p.devices
    → After KeepsOne (elim found [
      | none ↦ fault
      | some req_n ↦ hand_over p.master p.granted (record p { req_n = req_n })
    ])
sampled-KeepsOne none p h = After-fault KeepsOne
sampled-KeepsOne (some req_n) p h =
    hand_over-KeepsOne p.master p.granted (record p { req_n = req_n }) h

track_req_n-KeepsOne : (p : PciBus) → GrantsOne p.granted p.devices → After KeepsOne (track_req_n p)
unfolding track_req_n
track_req_n-KeepsOne p h =
    After-if KeepsOne (p.phase == 0) _ _
      (sampled-KeepsOne (collect_req p.devices (replicate 16 bit_1)) p h) (After-ok KeepsOne tt p h)

routed-KeepsOne :
    (found : Option (List Device)) (p : PciBus)
    → route_to p.devices p.devices ≡ found
    → GrantsOne p.granted p.devices
    → After KeepsOne
        (elim found [ none ↦ fault | some devices ↦ ok tt (record p { devices = devices }) ])
routed-KeepsOne none p e h = After-fault KeepsOne
routed-KeepsOne (some devices) p e h =
    After-ok KeepsOne tt (record p { devices = devices })
      (GrantsOne-SameGnt p.granted p.devices devices
        (route_to-SameGnt p.devices p.devices devices e) h)

route_interrupts-KeepsOne :
    (p : PciBus) → GrantsOne p.granted p.devices → After KeepsOne (route_interrupts p)
unfolding route_interrupts
route_interrupts-KeepsOne p h = routed-KeepsOne (route_to p.devices p.devices) p refl h

blend_bi_signals-KeepsOne :
    (p : PciBus) → GrantsOne p.granted p.devices → After KeepsOne (blend_bi_signals p)
unfolding blend_bi_signals
blend_bi_signals-KeepsOne p h =
    After-if KeepsOne (all_sized p.devices) _ fault
      (After-ok KeepsOne tt (record p { devices = map (give_signals p.devices) p.devices })
        (GrantsOne-SameGnt p.granted p.devices _
          (SameGnt-map (give_signals p.devices) p.devices (give_signals-gnt p.devices)) h))
      (After-fault KeepsOne)

assign_outputs-KeepsOne :
    (clk reset_n : Bit) (p : PciBus)
    → GrantsOne p.granted p.devices
    → After KeepsOne (assign_outputs clk reset_n p)
unfolding assign_outputs
assign_outputs-KeepsOne clk reset_n p h =
    After-ok KeepsOne tt (record p { devices = map (give_clock clk reset_n) p.devices })
      (GrantsOne-SameGnt p.granted p.devices _
        (SameGnt-map (give_clock clk reset_n) p.devices (give_clock-gnt clk reset_n)) h)

-- Commands one after the other.
KeepsOne-then :
    (r : Run PciBus (Unit {0})) (n : Cmd PciBus (Unit {0}))
    → After KeepsOne r
    → ((p : PciBus) → GrantsOne p.granted p.devices → After KeepsOne (n p))
    → After KeepsOne (and_then r (λ _. n))
KeepsOne-then r n h f = After-bind KeepsOne KeepsOne r (λ _. n) h (λ u p g. f p g)

pub run_run-KeepsOne : (p : PciBus) → GrantsOne p.granted p.devices → After KeepsOne (run_run p)
unfolding run_run advance_pci_clock
run_run-KeepsOne p h =
    let q = advance_pci_clock p in
    KeepsOne-then _ (assign_outputs (pci_clk q) (calculate_reset_n q.devices bit_1))
      (KeepsOne-then _ blend_bi_signals
        (KeepsOne-then _ route_interrupts
          (KeepsOne-then _ arbitrate (track_req_n-KeepsOne q h) arbitrate-GrantsOne)
          route_interrupts-KeepsOne)
        blend_bi_signals-KeepsOne)
      (assign_outputs-KeepsOne (pci_clk q) (calculate_reset_n q.devices bit_1))
