-- ===== src/Server/Client/PciPort.antt =====
-- The READY line of a PCI port, libsimbus/simbus_pci.c, read by server/client.cc.
use simbus.Base.{
  ℕ, suc, ◌+◌, ◌^◌, ◌<◌, ◌≤◌, ◌≡◌, refl, ap, subst, ◌∙◌, some, List, [], ◌∷◌, arith, length,
  length-append, ok, ltb, leb, true, Bool, not, ◌&&◌, same_text, Bool-cases, inl, inr, pos, negsuc,
  ℤ,
}
use simbus.Wire.{Bit, ready_signal, chars_msb_first}
use simbus.Wire.Time.{Time, print_u64, print_int, print_time}
use simbus.Wire.Time.RoundTrip.{FitsInt}
use simbus.Session.Text.{codes}
use simbus.Pci as Pci
use simbus.Pci.{ready_line}
use simbus.Server.{Device, Signals, lookup, drive, receive}
use simbus.Server.Forward.{eq_of_same_text, lookup-assign, lookup-assign_ne}
use simbus.Server.Names.{names_of, absent, distinct, left_of, right_of, eq_false_of_not}
use simbus.Server.Pci.{shared_bits}
use simbus.Server.Pci.Arbiter.{dev_at, modify_at}
use simbus.Server.Pci.Shared.{has_bits, is_sized}
use simbus.Server.Client.{Client, bytes}
use simbus.Server.Client.Reading.{read_from_socket}
use simbus.Server.Client.Ready.{are_names-AllNames, drive_all, heard}
use simbus.Server.Client.Lines.{signals_text, ready_text, read_from_socket-ready}
use simbus.Server.Client.Hello.{length-decimal}

lookup-absent :
    (d : List Bit) (key : List ℕ) (signals : Signals)
    → absent key (names_of signals) ≡ true
    → lookup d key signals ≡ d
unfolding lookup
lookup-absent d key [] h = refl
lookup-absent d key ((name, val) ∷ signals) h =
    let other =
      eq_false_of_not (same_text name key)
        (left_of (not (same_text name key)) (absent key (names_of signals)) h) in
    rw other (
      lookup-absent d key signals
        (right_of (not (same_text name key)) (absent key (names_of signals)) h))

drive-same :
    (key name : List ℕ) (val : List Bit) (signals : Signals) (dev : Device)
    → absent name (names_of signals) ≡ true
    → same_text name key ≡ true
    → lookup (receive key (drive name val dev)) key signals ≡ val
drive-same key name val signals dev h same =
    let apart : absent key (names_of signals) ≡ true =
      subst (λ k. absent k (names_of signals) ≡ true) (eq_of_same_text name key same) h in
    lookup-absent (receive key (drive name val dev)) key signals apart
    ∙ subst (λ k. receive k (drive name val dev) ≡ val) (eq_of_same_text name key same)
        (lookup-assign [] name val dev.client_signals)

-- After a client has driven signals with different names, each has its value.
receive-drive_all :
    (key : List ℕ) (signals : Signals) (dev : Device)
    → distinct (names_of signals) ≡ true
    → receive key (drive_all signals dev) ≡ lookup (receive key dev) key signals
unfolding lookup
receive-drive_all key [] dev h = refl
receive-drive_all key ((name, val) ∷ signals) dev h =
    let first = left_of (absent name (names_of signals)) (distinct (names_of signals)) h in
    let later =
      receive-drive_all key signals (drive name val dev)
        (right_of (absent name (names_of signals)) (distinct (names_of signals)) h) in
    elim (Bool-cases (same_text name key)) [
      | inl same ↦ rw same (later ∙ drive-same key name val signals dev first same)
      | inr other ↦ rw other (
          later
          ∙ ap (λ d. lookup d key signals)
              (lookup-assign_ne [] key name val dev.client_signals other))
    ]

-- The signals that a PCI port drives.
abbrev pub port_signals : Pci.Bus → Signals
port_signals b =
    (codes "RESET#", b.out_reset_n ∷ [])
    ∷ (codes "REQ#", b.out_req_n ∷ [])
    ∷ (codes "REQ64#", b.out_req64_n ∷ [])
    ∷ (codes "FRAME#", b.out_frame_n ∷ [])
    ∷ (codes "IRDY#", b.out_irdy_n ∷ [])
    ∷ (codes "TRDY#", b.out_trdy_n ∷ [])
    ∷ (codes "STOP#", b.out_stop_n ∷ [])
    ∷ (codes "DEVSEL#", b.out_devsel_n ∷ [])
    ∷ (codes "ACK64#", b.out_ack64_n ∷ [])
    ∷ (codes "C/BE#", b.out_c_be)
    ∷ (codes "AD", b.out_ad)
    ∷ (codes "PAR", b.out_par ∷ [])
    ∷ (codes "PAR64", b.out_par64 ∷ [])
    ∷ []

ready_line-text :
    (b : Pci.Bus)
    → length b.out_c_be ≡ 8
    → length b.out_ad ≡ 64
    → ready_line b ≡ ready_text b.bus_time (port_signals b)
unfolding ready_line
ready_line-text b e f = rw (e, f) refl

length-print_int : (e : ℤ) → length (print_int e []) ≤ 11
unfolding print_int
length-print_int (pos n) = omega (arith, length-decimal 10 n [])
length-print_int (negsuc n) = omega (arith, length-decimal 10 (suc n) [])

length-print_time : (t : Time) → length (print_time t) ≤ 32
unfolding print_time print_u64
length-print_time t =
    omega (arith, length-decimal 20 t.mant (b'e' ∷ print_int t.exp []), length-print_int t.exp)

length-signals_text :
    (b : Pci.Bus)
    → length b.out_c_be ≡ 8
    → length b.out_ad ≡ 64
    → length (signals_text (port_signals b)) ≡ 175
unfolding ready_signal chars_msb_first
length-signals_text b e f = rw (e, f) refl

length-ready_text :
    (b : Pci.Bus)
    → length b.out_c_be ≡ 8
    → length b.out_ad ≡ 64
    → length (ready_text b.bus_time (port_signals b)) < 4096
length-ready_text b e f = omega (
  arith,
  length-append (print_time b.bus_time) (signals_text (port_signals b)),
  length-print_time b.bus_time,
  length-signals_text b e f,
)

-- The names that a device has bits for, as `value` gives them.
abbrev pub have_bits : (List ℕ → List Bit) → List (List ℕ) → Bool
have_bits value [] = true
have_bits value (name ∷ names) = leb 1 (length (value name)) && have_bits value names

has_bits-have_bits :
    (value : List ℕ → List Bit) (names : List (List ℕ)) (dev : Device)
    → ((name : List ℕ) → receive name dev ≡ value name)
    → has_bits names dev ≡ have_bits value names
unfolding has_bits
has_bits-have_bits value [] dev h = refl
has_bits-have_bits value (name ∷ names) dev h =
    rw (h name, has_bits-have_bits value names dev h) refl

ident_of_drive_all : (signals : Signals) (dev : Device) → (drive_all signals dev).ident ≡ dev.ident
ident_of_drive_all [] dev = refl
ident_of_drive_all ((name, val) ∷ signals) dev = ident_of_drive_all signals (drive name val dev)

module _ (b : Pci.Bus) (dev : Device) (e : length b.out_c_be ≡ 8) (f : length b.out_ad ≡ 64) where
  heard_port :
      (name : List ℕ)
      → receive name (heard b.bus_time (port_signals b) dev)
        ≡ lookup (receive name dev) name (port_signals b)
  heard_port name =
      receive-drive_all name (port_signals b) (record dev { ready_time = b.bus_time }) refl

  -- The signals of a port are all that the blending of the shared signals reads.
  heard-is_sized : dev.ident < 48 → is_sized (heard b.bus_time (port_signals b) dev) ≡ true
  unfolding is_sized lookup
  heard-is_sized small =
      let value : List ℕ → List Bit = λ name. lookup (receive name dev) name (port_signals b) in
      let dev' = heard b.bus_time (port_signals b) dev in
      let shared : has_bits shared_bits dev' ≡ true =
        has_bits-have_bits value shared_bits dev' heard_port in
      let ad : length (receive (codes "AD") dev') ≡ 64 = ap length (heard_port (codes "AD")) ∙ f in
      let cbe : length (receive (codes "C/BE#") dev') ≡ 8 =
        ap length (heard_port (codes "C/BE#")) ∙ e in
      let ident : dev'.ident ≡ dev.ident =
        ident_of_drive_all (port_signals b) (record dev { ready_time = b.bus_time }) in
      let room : ltb (dev.ident + 16) 64 ≡ true = ground arith in
      rw (shared, ad, cbe, ident, room) refl

  -- A PCI port's READY line, whose C/BE# is 8 bits wide, whose AD is 64 bits wide and whose time has
  -- 64 bits and an int as its exponent, arrives for a client that has a device with a number below
  -- 48 and nothing in its buffer. The server takes it from the socket as a whole. The device is then
  -- ready and has the bits that the blending of the shared signals reads. Each signal that the port
  -- drives has the bits of the port, and every other one is as it was.
  pub read_from_socket-ready_line :
      (c : Client) (i x : ℕ) (name : List ℕ)
      → c.dev_name ≡ x ∷ name
      → c.bus_interface ≡ some i
      → dev_at i c.devices ≡ some dev
      → c.buffer ≡ []
      → dev.ident < 48
      → b.bus_time.mant < 2 ^ 64
      → FitsInt b.bus_time.exp
      → (dev' : Device) × (read_from_socket (bytes (ready_line b)) c
          ≡ ok [] (record c { buffer = []; devices = modify_at i (λ _. dev') c.devices }))
        × (dev'.ready_flag ≡ true)
        × (is_sized dev' ≡ true)
        × ((name : List ℕ) → receive name dev' ≡ lookup (receive name dev) name (port_signals b))
  read_from_socket-ready_line c i x name named at_plug at empty small h k = (
    heard b.bus_time (port_signals b) dev,
    ap (λ l. read_from_socket (bytes l) c) (ready_line-text b e f)
        ∙ read_from_socket-ready b.bus_time (port_signals b) c i x name dev named at_plug at empty h
            k (are_names-AllNames (port_signals b) refl) (omega arith) (length-ready_text b e f),
    refl,
    heard-is_sized small,
    heard_port,
  )
