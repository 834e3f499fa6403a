-- ===== src/Server/Pci/Blend.antt =====
-- The signals that the devices of a PCI bus share, in `blend_bi_signals_` of server/PciProtocol.cc.
use simbus.Base.{
  eq_of_some, ℕ, zero, suc, ◌≡◌, refl, sym, ap, ◌∙◌, arith, Bool, true, false, ◌||◌, none, some,
  List, [], ◌∷◌, get_or,
}
use simbus.Wire.{Bit, bit_0, bit_1, bit_x, bit_z, is_bit}
use simbus.Server.{Device, sent}
use simbus.Server.Pci.Arbiter.{dev_at}
use simbus.Server.Pci.Shared.{blend_bits, subtract_feedback, client_bit, blend_from, blend}

pub none-eq-some : {dev : Device} → none ≡ some dev → ⊥
none-eq-some h = cc

-- A device drives the value.
abbrev pub drives : Bit → List ℕ → ℕ → List Device → Bool
drives b name idx [] = false
drives b name idx (dev ∷ devices) = is_bit (client_bit name idx dev) b || drives b name idx devices

-- The value of a wire with drivers of 0, of 1 and of X.
abbrev pub wired : Bool → Bool → Bool → Bit
wired zeros ones true = bit_x
wired true true false = bit_x
wired true false false = bit_0
wired false true false = bit_1
wired false false false = bit_z

blend_bits_assoc : (a b c : Bit) → blend_bits (blend_bits a b) c ≡ blend_bits a (blend_bits b c)
unfolding blend_bits
blend_bits_assoc bit_0 bit_0 c = ground arith
blend_bits_assoc a b c = ground arith

blend_bits-wired :
    (b : Bit) (zeros ones xs : Bool)
    → blend_bits b (wired zeros ones xs)
      ≡ wired (is_bit b bit_0 || zeros) (is_bit b bit_1 || ones) (is_bit b bit_x || xs)
unfolding blend_bits
blend_bits-wired bit_0 true true true = refl
blend_bits-wired b zeros ones xs = ground arith

blend_bits_z : (a : Bit) → blend_bits a bit_z ≡ a
unfolding blend_bits
blend_bits_z a = ground arith

-- What the devices make of a bit together: Z if none drives it, the value that all who drive it
-- drive, and X if they differ or one drives X.
abbrev pub resolved : List ℕ → ℕ → List Device → Bit
resolved name idx devices =
    wired (drives bit_0 name idx devices) (drives bit_1 name idx devices)
      (drives bit_x name idx devices)

blend_from-resolved :
    (sig : Bit) (name : List ℕ) (idx : ℕ) (devices : List Device)
    → blend_from sig name idx devices ≡ blend_bits sig (resolved name idx devices)
unfolding blend_from
blend_from-resolved sig name idx [] = sym (blend_bits_z sig)
blend_from-resolved sig name idx (dev ∷ devices) =
    let b = client_bit name idx dev in
    blend_from-resolved (blend_bits sig b) name idx devices
    ∙ blend_bits_assoc sig b (resolved name idx devices)
    ∙ ap (blend_bits sig) (
        blend_bits-wired b (drives bit_0 name idx devices) (drives bit_1 name idx devices)
          (drives bit_x name idx devices))

z-blend_bits : (a : Bit) → blend_bits bit_z a ≡ a
unfolding blend_bits
z-blend_bits a = refl

pub blend-resolved :
    (name : List ℕ) (idx : ℕ) (devices : List Device)
    → blend name idx devices ≡ resolved name idx devices
unfolding blend
blend-resolved name idx devices =
    blend_from-resolved bit_z name idx devices ∙ z-blend_bits (resolved name idx devices)

absorb_step : (a b c : Bit) → blend_bits a c ≡ a → blend_bits (blend_bits a b) c ≡ blend_bits a b
unfolding blend_bits
absorb_step a b c h = ground arith

blend_bits_self : (a b : Bit) → blend_bits (blend_bits a b) b ≡ blend_bits a b
unfolding blend_bits
blend_bits_self bit_0 bit_0 = refl
blend_bits_self a b = ground arith

absorb_later :
    (sig own : Bit) (name : List ℕ) (idx : ℕ) (devices : List Device)
    → blend_bits sig own ≡ sig
    → blend_bits (blend_from sig name idx devices) own ≡ blend_from sig name idx devices
unfolding blend_from
absorb_later sig own name idx [] h = h
absorb_later sig own name idx (dev ∷ devices) h =
    absorb_later (blend_bits sig (client_bit name idx dev)) own name idx devices
      (absorb_step sig (client_bit name idx dev) own h)

absorb :
    (i : ℕ) (dev : Device) (sig : Bit) (name : List ℕ) (idx : ℕ) (devices : List Device)
    → dev_at i devices ≡ some dev
    → blend_bits (blend_from sig name idx devices) (client_bit name idx dev)
      ≡ blend_from sig name idx devices
unfolding blend_from dev_at
absorb i dev sig name idx [] at = absurd (none-eq-some at)
absorb zero dev sig name idx (d ∷ devices) at = rw (← eq_of_some at) (
    absorb_later (blend_bits sig (client_bit name idx d)) (client_bit name idx d) name idx devices
      (blend_bits_self sig (client_bit name idx d)))
absorb (suc i) dev sig name idx (d ∷ devices) at =
    absorb i dev (blend_bits sig (client_bit name idx d)) name idx devices at

feedback :
    (sig own : Bit) → blend_bits sig own ≡ sig → blend_bits (subtract_feedback sig own) own ≡ sig
unfolding blend_bits subtract_feedback
feedback bit_0 own h = ground arith
feedback sig own h = ground arith

-- A device that adds what it drives itself to what it was sent has the bit as all the devices make
-- it.
abbrev pub Sees : List ℕ → ℕ → List Device → Device → List Bit → Type 0
Sees name idx devices dev sent =
    blend_bits (get_or sent idx bit_z) (client_bit name idx dev) ≡ resolved name idx devices

pub subtract-Sees :
    (i : ℕ) (dev : Device) (name : List ℕ) (idx : ℕ) (devices : List Device)
    → dev_at i devices ≡ some dev
    → blend_bits
        (subtract_feedback (blend name idx devices) (client_bit name idx dev))
        (client_bit name idx dev)
      ≡ resolved name idx devices
unfolding blend
subtract-Sees i dev name idx devices at =
    feedback (blend name idx devices) (client_bit name idx dev)
      (absorb i dev bit_z name idx devices at)
    ∙ blend-resolved name idx devices
