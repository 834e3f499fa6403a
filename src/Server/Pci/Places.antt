-- ===== src/Server/Pci/Places.antt =====
-- The devices of a PCI bus by their places, and the GNT# that a change of one of them leaves.
use simbus.Base.{
  ℕ, zero, suc, ◌==◌, ◌≡◌, refl, sym, ap, ◌∙◌, arith, Bool, true, false, if◌then◌else◌, Option,
  none, some, List, [], ◌∷◌, set,
}
use simbus.Wire.{Bit, bit_0, bit_1}
use simbus.Session.Text.{codes}
use simbus.Server.{Device, sent, poke}
use simbus.Server.Forward.{lookup-assign}
use simbus.Server.Pci.Arbiter.{dev_at, modify_at, set_gnt, find_ident}

-- What is known of the device at a place after a change at a place.
record Changed (f : Device → Device) (i j : ℕ) (devices : List Device) (dev : Device) : Type 0 where
  old : Device
  was : dev_at j devices ≡ some old
  now : dev ≡ (if i == j then f old else old)

dev_at-modify_at :
    (f : Device → Device) (i j : ℕ) (devices : List Device) (dev : Device)
    → dev_at j (modify_at i f devices) ≡ some dev
    → Changed f i j devices dev
unfolding dev_at modify_at
dev_at-modify_at f i j [] dev e = absurd (ground arith)
dev_at-modify_at f zero zero (d ∷ devices) dev e = record {
  old = d;
  was = refl;
  now = ground arith;
}
dev_at-modify_at f zero (suc j) (d ∷ devices) dev e = record {
  old = dev;
  was = e;
  now = ground arith;
}
dev_at-modify_at f (suc i) zero (d ∷ devices) dev e = record {
  old = d;
  was = refl;
  now = ground arith;
}
dev_at-modify_at f (suc i) (suc j) (d ∷ devices) dev e =
    let c = dev_at-modify_at f i j devices dev e in
    record { old = c.old; was = c.was; now = ground (arith, c.now) }

-- The GNT# that a device has where `granted` is granted.
abbrev pub gnt_of : Option ℕ → ℕ → Bit
gnt_of none i = bit_1
gnt_of (some g) i = if g == i then bit_0 else bit_1

-- The device that is granted is there, its GNT# is 0, and that of every other device is 1.
pub record GrantsOne (granted : Option ℕ) (devices : List Device) : Type 0 where
  pub there : (g : ℕ) → granted ≡ some g → (dev : Device) × (dev_at g devices ≡ some dev)
  pub only :
      (i : ℕ) (dev : Device)
      → dev_at i devices ≡ some dev
      → sent (codes "GNT#") dev ≡ gnt_of granted i ∷ []

sent-gnt :
    (c : Bool) (bit b : Bit) (old dev : Device)
    → dev ≡ (if c then poke (codes "GNT#") 0 bit old else old)
    → sent (codes "GNT#") old ≡ b ∷ []
    → sent (codes "GNT#") dev ≡ (if c then bit else b) ∷ []
sent-gnt true bit b old dev e h =
    ap (sent (codes "GNT#")) e
    ∙ lookup-assign [] (codes "GNT#") (set (sent (codes "GNT#") old) 0 bit) old.send_signals
    ∙ ap (λ l. set l 0 bit) h
sent-gnt false bit b old dev e h = ap (sent (codes "GNT#")) e ∙ h

-- After `set_gnt`, the GNT# of the device at a place.
pub set_gnt-sent :
    (i j : ℕ) (bit : Bit) (gnt : ℕ → Bit) (devices : List Device)
    → ((k : ℕ) (dev : Device) → dev_at k devices ≡ some dev → sent (codes "GNT#") dev ≡ gnt k ∷ [])
    → (dev : Device) → dev_at j (set_gnt i bit devices) ≡ some dev
    → sent (codes "GNT#") dev ≡ (if i == j then bit else gnt j) ∷ []
unfolding set_gnt
set_gnt-sent i j bit gnt devices h dev e =
    let c = dev_at-modify_at (poke (codes "GNT#") 0 bit) i j devices dev e in
    sent-gnt (i == j) bit (gnt j) c.old dev c.now (h j c.old c.was)

-- A device stays where it was.
pub modify_at-there :
    (f : Device → Device) (i j : ℕ) (devices : List Device) {dev : Device}
    → dev_at j devices ≡ some dev
    → (dev' : Device) × (dev_at j (modify_at i f devices) ≡ some dev')
unfolding dev_at modify_at
modify_at-there f i j [] e = absurd (ground arith)
modify_at-there f zero zero (d ∷ devices) e = (f d, refl)
modify_at-there f zero (suc j) (d ∷ devices) {dev} e = (dev, e)
modify_at-there f (suc i) zero (d ∷ devices) e = (d, refl)
modify_at-there f (suc i) (suc j) (d ∷ devices) e = modify_at-there f i j devices e

pub find_ident-dev_at :
    (n g : ℕ) (devices : List Device)
    → find_ident n devices ≡ some g
    → (dev : Device) × (dev_at g devices ≡ some dev) × (dev.ident ≡ n)
unfolding find_ident dev_at
find_ident-dev_at n g [] e = absurd (ground arith)
find_ident-dev_at n zero (d ∷ devices) e = (d, refl, ground arith)
find_ident-dev_at n (suc g) (d ∷ devices) e = find_ident-dev_at n g devices (ground arith)

pub same_device :
    (old dev : Device) (o new : ℕ) (devices : List Device)
    → o ≡ new
    → dev_at o devices ≡ some old
    → dev_at new devices ≡ some dev
    → old ≡ dev
same_device old dev o new devices same at_old at =
    let e : some old ≡ some dev = sym at_old ∙ ap (λ i. dev_at i devices) same ∙ at in cc e
