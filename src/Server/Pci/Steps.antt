-- ===== src/Server/Pci/Steps.antt =====
-- The parts of a step of server/PciProtocol.cc that leave the grants alone.
use simbus.Base.{
  eq_of_some, ℕ, zero, suc, ◌+◌, ◌≡◌, refl, sym, ap, subst, ◌∙◌, Bool, true, false, not,
  if◌then◌else◌, Option, some, List, [], ◌∷◌, map, set, same_text, opt_then, opt_then-some,
  Bool-cases, inl, inr,
}
use simbus.Wire.{Bit}
use simbus.Session.Text.{codes}
use simbus.Server.{Device, send, sent, poke}
use simbus.Server.Names.{absent, left_of, eq_false_of_not, rest_of_absent}
use simbus.Server.Pci.{shared_bits, interrupt_names}
use simbus.Server.Pci.Arbiter.{dev_at}
use simbus.Server.Pci.Shared.{
  collect_interrupts, interrupts_to, send_interrupts, send_all_interrupts, route_to, give_bits,
  give_vector, vector_from, blend, give_signals,
}
use simbus.Server.Pci.Step.{give_clock}
use simbus.Server.Pci.Places.{GrantsOne}
use simbus.Server.Pci.Sees.{sent-send_ne, sent-give_bits}

-- The devices are the same ones in their places, with their GNT# as it was.
pub data SameGnt : List Device → List Device → Type 0 where
  nil : SameGnt [] []
  cons :
      {dev dev' : Device} {devices devices' : List Device}
      → sent (codes "GNT#") dev' ≡ sent (codes "GNT#") dev
      → SameGnt devices devices'
      → SameGnt (dev ∷ devices) (dev' ∷ devices')

SameGnt-forth :
    {devices devices' : List Device} (i : ℕ) (dev : Device)
    → SameGnt devices devices'
    → dev_at i devices ≡ some dev
    → (dev' : Device) × (dev_at i devices' ≡ some dev')
unfolding dev_at
SameGnt-forth i dev nil at = (dev, at)
SameGnt-forth zero dev (cons {dev = d} {dev' = d'} e same) at = (d', refl)
SameGnt-forth (suc i) dev (cons e same) at = SameGnt-forth i dev same at

SameGnt-back :
    {devices devices' : List Device} (i : ℕ) (dev' : Device)
    → SameGnt devices devices'
    → dev_at i devices' ≡ some dev'
    → (dev : Device) × (dev_at i devices ≡ some dev)
      × (sent (codes "GNT#") dev' ≡ sent (codes "GNT#") dev)
unfolding dev_at
SameGnt-back i dev' nil at = (dev', at, refl)
SameGnt-back zero dev' (cons {dev = d} {dev' = d'} e same) at =
    (d, refl, subst (λ x. sent (codes "GNT#") x ≡ sent (codes "GNT#") d) (eq_of_some at) e)
SameGnt-back (suc i) dev' (cons e same) at = SameGnt-back i dev' same at

pub GrantsOne-SameGnt :
    (granted : Option ℕ) (devices devices' : List Device)
    → SameGnt devices devices'
    → GrantsOne granted devices
    → GrantsOne granted devices'
GrantsOne-SameGnt granted devices devices' same h = record {
  there = λ g e. let (dev, at) = h.there g e in SameGnt-forth g dev same at;
  only = λ i dev' at'. let (dev, at, e) = SameGnt-back i dev' same at' in e ∙ h.only i dev at;
}

pub SameGnt-map :
    (f : Device → Device) (devices : List Device)
    → ((dev : Device) → sent (codes "GNT#") (f dev) ≡ sent (codes "GNT#") dev)
    → SameGnt devices (map f devices)
SameGnt-map f [] h = nil
SameGnt-map f (dev ∷ devices) h = cons (h dev) (SameGnt-map f devices h)

pub give_signals-gnt :
    (devices : List Device) (dev : Device)
    → sent (codes "GNT#") (give_signals devices dev) ≡ sent (codes "GNT#") dev
unfolding give_signals give_vector
give_signals-gnt devices dev =
    let bits = give_bits devices shared_bits dev in
    let select = blend (codes "AD") (dev.ident + 16) devices in
    let selected = poke (codes "IDSEL") 0 select bits in
    let ad = vector_from devices (codes "AD") 0 64 selected in
    let addressed = send (codes "AD") ad selected in
    let cbe = vector_from devices (codes "C/BE#") 0 8 addressed in
    sent-send_ne (codes "GNT#") (codes "C/BE#") cbe addressed refl
    ∙ sent-send_ne (codes "GNT#") (codes "AD") ad selected refl
    ∙ sent-send_ne (codes "GNT#") (codes "IDSEL") (set (sent (codes "IDSEL") bits) 0 select) bits
        refl
    ∙ sent-give_bits devices (codes "GNT#") shared_bits dev refl

pub give_clock-gnt :
    (clk reset_n : Bit) (dev : Device)
    → sent (codes "GNT#") (give_clock clk reset_n dev) ≡ sent (codes "GNT#") dev
unfolding give_clock
give_clock-gnt clk reset_n dev = elim (Bool-cases dev.host_flag) [
  | inl is_host ↦ rw is_host (sent-send_ne (codes "GNT#") (codes "PCI_CLK") _ dev refl)
  | inr is_device ↦ rw is_device (
      sent-send_ne (codes "GNT#") (codes "RESET#") _ (poke (codes "PCI_CLK") 0 clk dev) refl
      ∙ sent-send_ne (codes "GNT#") (codes "PCI_CLK") _ dev refl)
]

send_interrupts-gnt :
    (devices : List Device) (name : List ℕ) (dev dev' : Device)
    → same_text name (codes "GNT#") ≡ false
    → send_interrupts devices name dev ≡ some dev'
    → sent (codes "GNT#") dev' ≡ sent (codes "GNT#") dev
unfolding send_interrupts
send_interrupts-gnt devices name dev dev' h e =
    let (lines, collected, is) =
      opt_then-some (collect_interrupts name devices (sent name dev))
        (λ lines. some (send name lines dev)) e in
    ap (sent (codes "GNT#")) (sym (eq_of_some is)) ∙ sent-send_ne (codes "GNT#") name lines dev h

send_all_interrupts-gnt :
    (devices : List Device) (names : List (List ℕ)) (dev dev' : Device)
    → absent (codes "GNT#") names ≡ true
    → send_all_interrupts devices names dev ≡ some dev'
    → sent (codes "GNT#") dev' ≡ sent (codes "GNT#") dev
unfolding send_all_interrupts
send_all_interrupts-gnt devices [] dev dev' h e = ap (sent (codes "GNT#")) (sym (eq_of_some e))
send_all_interrupts-gnt devices (name ∷ names) dev dev' h e =
    let (next, one, more) =
      opt_then-some (send_interrupts devices name dev) (send_all_interrupts devices names) e in
    send_all_interrupts-gnt devices names next dev' (rest_of_absent (codes "GNT#") name names h)
      more
    ∙ send_interrupts-gnt devices name dev next
        (eq_false_of_not (same_text name (codes "GNT#"))
          (left_of (not (same_text name (codes "GNT#"))) (absent (codes "GNT#") names) h))
        one

interrupts_to-gnt :
    (host : Bool) (devices : List Device) (dev dev' : Device)
    → (if host then send_all_interrupts devices interrupt_names dev else some dev) ≡ some dev'
    → sent (codes "GNT#") dev' ≡ sent (codes "GNT#") dev
interrupts_to-gnt true devices dev dev' e =
    send_all_interrupts-gnt devices interrupt_names dev dev' refl e
interrupts_to-gnt false devices dev dev' e = ap (sent (codes "GNT#")) (sym (eq_of_some e))

pub route_to-SameGnt :
    (devices left left' : List Device) → route_to devices left ≡ some left' → SameGnt left left'
unfolding route_to interrupts_to
route_to-SameGnt devices [] left' e = subst (SameGnt []) (eq_of_some e) nil
route_to-SameGnt devices (dev ∷ left) left' e =
    let (dev', one, more) =
      opt_then-some (interrupts_to devices dev)
        (λ x. opt_then (route_to devices left) (λ xs. some (x ∷ xs))) e in
    let (rest, two, is) = opt_then-some (route_to devices left) (λ xs. some (dev' ∷ xs)) more in
    subst (SameGnt (dev ∷ left)) (eq_of_some is) (
      cons (interrupts_to-gnt dev.host_flag devices dev dev' one)
        (route_to-SameGnt devices left rest two))
