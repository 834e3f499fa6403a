-- ===== src/Server/Pci/Sees.antt =====
-- What each device of a PCI bus makes of the shared signals that `blend_bi_signals_` of
-- server/PciProtocol.cc sends it.
use simbus.Base.{
  eq_of_some, ℕ, zero, suc, ◌+◌, ◌<◌, ◌≡◌, refl, sym, ap, subst, ◌∙◌, arith, true, false, not, some,
  List, [], ◌∷◌, map, get_or, set, same_text, Returns,
}
use simbus.Wire.{Bit, bit_z}
use simbus.Session.Text.{codes}
use simbus.Server.{Device, Signals, lookup, send, sent, poke}
use simbus.Server.Forward.{lookup-assign, lookup-assign_ne}
use simbus.Server.Names.{
  absent, distinct, left_of, right_of, eq_false_of_not, other_of_absent, rest_of_absent,
}
use simbus.Server.Pci.{PciBus, shared_bits}
use simbus.Server.Pci.Arbiter.{dev_at}
use simbus.Server.Pci.Shared.{
  blend_bits, subtract_feedback, client_bit, blend, give_bit, give_bits, vector_from, give_vector,
  give_signals, all_sized, blend_bi_signals,
}
use simbus.Server.Pci.Blend.{Sees, resolved, blend-resolved, subtract-Sees, none-eq-some}

-- Each of the signals has a bit to store in.
abbrev pub AllSent : List (List ℕ) → Device → Type 0
AllSent [] dev = Unit {0}
AllSent (name ∷ names) dev =
    ((b : Bit) × (rest : List Bit) × (sent name dev ≡ b ∷ rest)) × AllSent names dev

abbrev pub AllSees : List (List ℕ) → List Device → Device → Device → Type 0
AllSees [] devices dev dev' = Unit {0}
AllSees (name ∷ names) devices dev dev' =
    Sees name 0 devices dev (sent name dev') × AllSees names devices dev dev'

pub sent-send_ne :
    (name other : List ℕ) (v : List Bit) (dev : Device)
    → same_text other name ≡ false
    → sent name (send other v dev) ≡ sent name dev
sent-send_ne name other v dev h = lookup-assign_ne [] name other v dev.send_signals h

AllSent-send :
    (names : List (List ℕ)) (other : List ℕ) (v : List Bit) (dev : Device)
    → absent other names ≡ true
    → AllSent names dev
    → AllSent names (send other v dev)
AllSent-send [] other v dev h a = tt
AllSent-send (name ∷ names) other v dev h ((b, rest, e), a) = (
  (b, rest, sent-send_ne name other v dev (other_of_absent other name names h) ∙ e),
  AllSent-send names other v dev (rest_of_absent other name names h) a,
)

AllSees-send :
    (names : List (List ℕ)) (other : List ℕ) (v : List Bit) (devices : List Device)
    (dev dev' : Device)
    → absent other names ≡ true
    → AllSees names devices dev dev'
    → AllSees names devices dev (send other v dev')
AllSees-send [] other v devices dev dev' h a = tt
AllSees-send (name ∷ names) other v devices dev dev' h (sees, a) = (
  subst (Sees name 0 devices dev)
      (sym (sent-send_ne name other v dev' (other_of_absent other name names h))) sees,
  AllSees-send names other v devices dev dev' (rest_of_absent other name names h) a,
)

pub sent-give_bits :
    (devices : List Device) (other : List ℕ) (names : List (List ℕ)) (dev : Device)
    → absent other names ≡ true
    → sent other (give_bits devices names dev) ≡ sent other dev
unfolding give_bits give_bit
sent-give_bits devices other [] dev h = refl
sent-give_bits devices other (name ∷ names) dev h =
    sent-give_bits devices other names (give_bit devices name dev)
      (rest_of_absent other name names h)
    ∙ sent-send_ne other name _ dev (
        eq_false_of_not (same_text name other)
          (left_of (not (same_text name other)) (absent other names) h))

-- The device with other signals sent to it.
abbrev resent : Device → Signals → Device
resent dev s = record dev { send_signals = s }

module _ (i : ℕ) (devices : List Device) (dev : Device) (at : dev_at i devices ≡ some dev) where
  give_bit-Sees :
      (name : List ℕ) (b : Bit) (rest : List Bit) (s : Signals)
      → lookup [] name s ≡ b ∷ rest
      → Sees name 0 devices dev (sent name (give_bit devices name (resent dev s)))
  unfolding give_bit
  give_bit-Sees name b rest s e =
      let v = subtract_feedback (blend name 0 devices) (client_bit name 0 dev) in
      subst (Sees name 0 devices dev)
        (sym (lookup-assign [] name (set (lookup [] name s) 0 v) s ∙ ap (λ l. set l 0 v) e))
        (subtract-Sees i dev name 0 devices at)

  give_bits-AllSees :
      (names : List (List ℕ)) (s : Signals)
      → distinct names ≡ true
      → AllSent names (resent dev s)
      → AllSees names devices dev (give_bits devices names (resent dev s))
  unfolding give_bits give_bit
  give_bits-AllSees [] s h a = tt
  give_bits-AllSees (name ∷ names) s h ((b, rest, e), a) =
      let once = give_bit devices name (resent dev s) in
      let fresh = left_of (absent name names) (distinct names) h in
      (
        subst (Sees name 0 devices dev) (sym (sent-give_bits devices name names once fresh))
            (give_bit-Sees name b rest s e),
        give_bits-AllSees names once.send_signals (right_of (absent name names) (distinct names) h)
            (AllSent-send names name _ (resent dev s) fresh a),
      )

  get_or-vector_from :
      (name : List ℕ) (n idx k : ℕ) (cur : Device)
      → k < n
      → get_or (vector_from devices name idx n cur) k bit_z
        ≡ subtract_feedback (blend name (idx + k) devices) (client_bit name (idx + k) cur)
  unfolding vector_from
  get_or-vector_from name zero idx k cur h = absurd (omega arith)
  get_or-vector_from name (suc n) idx zero cur h =
      ap (λ j. subtract_feedback (blend name j devices) (client_bit name j cur)) (omega arith)
  get_or-vector_from name (suc n) idx (suc k) cur h =
      get_or-vector_from name n (suc idx) k cur (omega arith)
      ∙ ap (λ j. subtract_feedback (blend name j devices) (client_bit name j cur)) (omega arith)

  vector_from-Sees :
      (name : List ℕ) (width k : ℕ) (s : Signals)
      → k < width
      → Sees name k devices dev (vector_from devices name 0 width (resent dev s))
  vector_from-Sees name width k s h =
      ap (λ b. blend_bits b (client_bit name k dev))
        (get_or-vector_from name width 0 k (resent dev s) h
          ∙ ap (λ j. subtract_feedback (blend name j devices) (client_bit name j dev))
              (omega arith))
      ∙ subtract-Sees i dev name k devices at

-- What a device makes of the shared signals, and its IDSEL.
pub record SeesBus (devices : List Device) (dev dev' : Device) : Type 0 where
  pub bits : AllSees shared_bits devices dev dev'
  pub ad : (k : ℕ) → k < 64 → Sees (codes "AD") k devices dev (sent (codes "AD") dev')
  pub cbe : (k : ℕ) → k < 8 → Sees (codes "C/BE#") k devices dev (sent (codes "C/BE#") dev')
  pub idsel : sent (codes "IDSEL") dev' ≡ resolved (codes "AD") (dev.ident + 16) devices ∷ []

give_signals-SeesBus :
    (i : ℕ) (devices : List Device) (dev : Device) (b : Bit)
    → dev_at i devices ≡ some dev
    → AllSent shared_bits dev
    → sent (codes "IDSEL") dev ≡ b ∷ []
    → SeesBus devices dev (give_signals devices dev)
unfolding give_signals give_vector give_bits give_bit
give_signals-SeesBus i devices dev b at a e =
    let bits = give_bits devices shared_bits dev in
    let select = blend (codes "AD") (dev.ident + 16) devices in
    let selected = poke (codes "IDSEL") 0 select bits in
    let ad = vector_from devices (codes "AD") 0 64 selected in
    let addressed = send (codes "AD") ad selected in
    let cbe = vector_from devices (codes "C/BE#") 0 8 addressed in
    record {
      bits = AllSees-send shared_bits (codes "C/BE#") cbe devices dev addressed refl (
          AllSees-send shared_bits (codes "AD") ad devices dev selected refl (
            AllSees-send shared_bits (codes "IDSEL") _ devices dev bits refl
              (give_bits-AllSees i devices dev at shared_bits dev.send_signals refl a)));
      ad = λ k h.
          subst (Sees (codes "AD") k devices dev)
            (sym (
              sent-send_ne (codes "AD") (codes "C/BE#") cbe addressed refl
              ∙ lookup-assign [] (codes "AD") ad selected.send_signals))
            (vector_from-Sees i devices dev at (codes "AD") 64 k selected.send_signals h);
      cbe = λ k h.
          subst (Sees (codes "C/BE#") k devices dev)
            (sym (lookup-assign [] (codes "C/BE#") cbe addressed.send_signals))
            (vector_from-Sees i devices dev at (codes "C/BE#") 8 k addressed.send_signals h);
      idsel =
          sent-send_ne (codes "IDSEL") (codes "C/BE#") cbe addressed refl
          ∙ sent-send_ne (codes "IDSEL") (codes "AD") ad selected refl
          ∙ lookup-assign [] (codes "IDSEL") (set (sent (codes "IDSEL") bits) 0 select)
              bits.send_signals
          ∙ ap (λ l. set l 0 select)
              (sent-give_bits devices (codes "IDSEL") shared_bits dev refl ∙ e)
          ∙ ap (λ x. x ∷ []) (blend-resolved (codes "AD") (dev.ident + 16) devices);
    }

dev_at-map :
    (f : Device → Device) (i : ℕ) (devices : List Device) {dev : Device}
    → dev_at i devices ≡ some dev
    → dev_at i (map f devices) ≡ some (f dev)
unfolding dev_at
dev_at-map f i [] at = absurd (none-eq-some at)
dev_at-map f zero (d ∷ devices) at = ap (λ x. some (f x)) (eq_of_some at)
dev_at-map f (suc i) (d ∷ devices) at = dev_at-map f i devices at

-- Each device sees the shared signals as all the devices of the bus drive them.
abbrev pub AllSeeBus : List Device → Unit {0} → PciBus → Type 0
AllSeeBus devices u q =
    (i : ℕ) (dev : Device)
    → dev_at i devices ≡ some dev
    → (dev' : Device) × (dev_at i q.devices ≡ some dev') × SeesBus devices dev dev'

-- If the clients have given every shared signal its bits, and the server has a bit to store in for
-- each signal that it sends, as `run_init` gives it, the blending of the signals returns. Then what
-- a device was sent of a shared signal, blended with what the device drives itself, is Z where no
-- device drives it, the value that all who drive it drive, and X where they differ or one drives X.
-- Its IDSEL is the AD line of its number, counted from 16, made up in the same way.
pub blend_bi_signals-SeesBus :
    (p : PciBus)
    → all_sized p.devices ≡ true
    → ((i : ℕ) (dev : Device)
        → dev_at i p.devices ≡ some dev
        → AllSent shared_bits dev × (b : Bit) × (sent (codes "IDSEL") dev ≡ b ∷ []))
    → Returns (AllSeeBus p.devices) (blend_bi_signals p)
unfolding blend_bi_signals
blend_bi_signals-SeesBus p sized slots = rw sized (λ i dev at.
    let (a, b, e) = slots i dev at in
    (
      give_signals p.devices dev,
      dev_at-map (give_signals p.devices) i p.devices at,
      give_signals-SeesBus i p.devices dev b at a e,
    ))
