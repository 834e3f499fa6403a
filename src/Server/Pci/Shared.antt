-- ===== src/Server/Pci/Shared.antt =====
-- The interrupts and the signals that the devices share, of server/PciProtocol.cc.
use simbus.Base.{
  ℕ, zero, suc, ◌+◌, ltb, leb, if◌then◌else◌, Bool, true, ◌&&◌, Option, opt_then, none, some, List,
  [], ◌∷◌, map, get_or, set, length, ok, fault, Cmd,
}
use simbus.Wire.{Bit, bit_1, bit_x, bit_z, is_bit}
use simbus.Session.Text.{codes}
use simbus.Server.{lookup, assign, Device, receive, send, sent, poke}
use simbus.Server.Pci.{PciBus, shared_bits, interrupt_names}

-- tmp_bit, for an interrupt signal of a device.
unfoldable pub interrupt_bit : List ℕ → Device → Bit
unfolding lookup
interrupt_bit name dev = elim (receive name dev) [
  | [] ↦ bit_1
  | b ∷ _ ↦ if is_bit b bit_z then bit_1 else b
]

-- The interrupts of the devices that are no hosts, stored in `lines` at the numbers of the devices;
-- `none` is the failed assertion on the number. A later device with the same number counts.
unfoldable pub collect_interrupts : List ℕ → List Device → List Bit → Option (List Bit)
unfolding interrupt_bit
collect_interrupts name [] lines = some lines
collect_interrupts name (dev ∷ devices) lines =
    let next : List Bit → Option (List Bit) = collect_interrupts name devices in
    if dev.host_flag
    then next lines
    else if ltb dev.ident 16
    then next (set lines dev.ident (interrupt_bit name dev))
    else none

-- The interrupts of one name, sent to a host.
unfoldable pub send_interrupts : List Device → List ℕ → Device → Option Device
unfolding collect_interrupts lookup assign
send_interrupts devices name dev =
    opt_then (collect_interrupts name devices (sent name dev)) (λ lines. some (send name lines dev))

unfoldable pub send_all_interrupts : List Device → List (List ℕ) → Device → Option Device
unfolding send_interrupts
send_all_interrupts devices [] dev = some dev
send_all_interrupts devices (name ∷ names) dev =
    opt_then (send_interrupts devices name dev) (send_all_interrupts devices names)

-- The interrupts, if the device is a host.
unfoldable pub interrupts_to : List Device → Device → Option Device
unfolding send_all_interrupts
interrupts_to devices dev =
    if dev.host_flag then send_all_interrupts devices interrupt_names dev else some dev

-- The second loop of `route_interrupts_`, over the devices that are left.
unfoldable pub route_to : List Device → List Device → Option (List Device)
unfolding interrupts_to
route_to devices [] = some []
route_to devices (dev ∷ left) =
    opt_then (interrupts_to devices dev)
      (λ dev'. opt_then (route_to devices left) (λ left'. some (dev' ∷ left')))

-- `route_interrupts_`
unfoldable pub route_interrupts : Cmd PciBus (Unit {0})
unfolding route_to
route_interrupts p = elim (route_to p.devices p.devices) [
  | none ↦ fault
  | some devices ↦ ok tt (record p { devices = devices })
]

unfoldable pub blend_bits : Bit → Bit → Bit
blend_bits a b =
    if is_bit a bit_z then b else if is_bit b bit_z then a else if is_bit a b then a else bit_x

unfoldable pub subtract_feedback : Bit → Bit → Bit
subtract_feedback sig ref = if is_bit ref bit_z then sig else if is_bit sig ref then bit_z else sig

-- The bit of a client signal of a device.
abbrev pub client_bit : List ℕ → ℕ → Device → Bit
client_bit name idx dev = get_or (receive name dev) idx bit_z

-- The first loop of `blend_bi_signals_` for one bit, from the value `sig` on.
unfoldable pub blend_from : Bit → List ℕ → ℕ → List Device → Bit
unfolding blend_bits lookup
blend_from sig name idx [] = sig
blend_from sig name idx (dev ∷ devices) =
    blend_from (blend_bits sig (client_bit name idx dev)) name idx devices

unfoldable pub blend : List ℕ → ℕ → List Device → Bit
unfolding blend_from
blend name idx devices = blend_from bit_z name idx devices

-- The second loop for the one bit of a signal.
unfoldable pub give_bit : List Device → List ℕ → Device → Device
unfolding blend subtract_feedback assign lookup
give_bit devices name dev =
    poke name 0 (subtract_feedback (blend name 0 devices) (client_bit name 0 dev)) dev

unfoldable pub give_bits : List Device → List (List ℕ) → Device → Device
unfolding give_bit
give_bits devices [] dev = dev
give_bits devices (name ∷ names) dev = give_bits devices names (give_bit devices name dev)

-- The second loop for the bits of a vector, from the index `idx` on.
unfoldable pub vector_from : List Device → List ℕ → ℕ → ℕ → Device → List Bit
unfolding blend subtract_feedback lookup
vector_from devices name idx zero dev = []
vector_from devices name idx (suc n) dev =
    subtract_feedback (blend name idx devices) (client_bit name idx dev)
    ∷ vector_from devices name (suc idx) n dev

unfoldable pub give_vector : List Device → List ℕ → ℕ → Device → Device
unfolding vector_from assign
give_vector devices name width dev = send name (vector_from devices name 0 width dev) dev

-- The signals that one device gets in the second loop.
unfoldable pub give_signals : List Device → Device → Device
unfolding give_bits give_vector blend assign lookup
give_signals devices dev = give_vector devices (codes "C/BE#") 8 (
    give_vector devices (codes "AD") 64 (
      poke (codes "IDSEL") 0 (blend (codes "AD") (dev.ident + 16) devices)
        (give_bits devices shared_bits dev)))

-- The client has given each shared signal the bits that the loops read.
unfoldable pub has_bits : List (List ℕ) → Device → Bool
unfolding lookup
has_bits [] dev = true
has_bits (name ∷ names) dev = leb 1 (length (receive name dev)) && has_bits names dev

unfoldable pub is_sized : Device → Bool
unfolding has_bits
is_sized dev =
    has_bits shared_bits dev
    && leb 64 (length (receive (codes "AD") dev))
    && leb 8 (length (receive (codes "C/BE#") dev))
    && ltb (dev.ident + 16) 64

unfoldable pub all_sized : List Device → Bool
unfolding is_sized
all_sized [] = true
all_sized (dev ∷ devices) = is_sized dev && all_sized devices

-- `blend_bi_signals_`; an access outside of a vector is undefined behaviour.
unfoldable pub blend_bi_signals : Cmd PciBus (Unit {0})
unfolding all_sized give_signals
blend_bi_signals p =
    if all_sized p.devices
    then ok tt (record p { devices = map (give_signals p.devices) p.devices })
    else fault
