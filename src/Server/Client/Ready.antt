-- ===== src/Server/Client/Ready.antt =====
-- A READY line of libsimbus, read by the server.
use simbus.Base.{
  ℕ, zero, suc, ◌^◌, ◌<◌, ◌≡◌, ◌≢◌, refl, ap, ◌∙◌, some, eq_of_some, Option, Bool, leb, not, ◌&&◌,
  ◌==◌, List, [], ◌∷◌, ◌++◌, arith, length, get_or, replicate, ok, true, length-replicate, ℤ, pos,
  negsuc,
}
use simbus.Wire.{
  Bit, bit_0, bit_1, bit_x, bit_z, bitval_to_char, chars_msb_first, fill_msb_first, char_to_bitval,
  until_signal,
}
use simbus.Wire.Vectors.{length-chars_msb_first, until_signal-chars_msb_first}
use simbus.Server.Names.{left_of, right_of}
use simbus.Server.{Signals, Device, drive}
use simbus.Session.{Token}
use simbus.Session.Reply.{split_field}
use simbus.Session.Text.{codes}
use simbus.Wire.Time.{Time, print_time, print_int}
use simbus.Wire.Time.RoundTrip.{
  FitsInt, read_number-decimal, read_number-minus, strtoul-print_u64, strtol_int-print_int,
}
use simbus.Server.Pci.Arbiter.{dev_at, modify_at}
use simbus.Server.Client.{
  Client, bit_state, read_bits, take_field, take_fields, is_number, ready_time_of, take_ready,
  process_command, process_attached, process_ready, on_device,
}
use simbus.Server.Client.Words.{IsLetter}

bit_state-bitval_to_char :
    (b : Bit) → bit_state (bitval_to_char b) ≡ some (char_to_bitval (bitval_to_char b))
unfolding bit_state bitval_to_char char_to_bitval
bit_state-bitval_to_char bit_0 = refl
bit_state-bitval_to_char bit_1 = refl
bit_state-bitval_to_char bit_x = refl
bit_state-bitval_to_char bit_z = refl

-- The server reads the characters of a vector as the clients do.
read_bits-fill :
    (val : List Bit) (n : ℕ) (tmp : List Bit)
    → read_bits (chars_msb_first val n) tmp ≡ some (fill_msb_first (chars_msb_first val n) tmp)
unfolding read_bits fill_msb_first chars_msb_first
read_bits-fill val zero tmp = refl
read_bits-fill val (suc n) tmp =
    rw (bit_state-bitval_to_char (get_or val n bit_x)) (read_bits-fill val n _)

filled :
    (text : List ℕ) (tmp val : List Bit)
    → length text ≡ length val
    → until_signal text tmp (length val) ≡ some val
    → fill_msb_first text tmp ≡ val
unfolding until_signal
filled text tmp val e l = ground (arith, eq_of_some {a = fill_msb_first text tmp} {b = val})

-- The vector is read back.
read_bits-chars_msb_first :
    (val : List Bit)
    → read_bits
        (chars_msb_first val (length val))
        (replicate (length (chars_msb_first val (length val))) bit_0)
      ≡ some val
read_bits-chars_msb_first val =
    let text = chars_msb_first val (length val) in
    let tmp = replicate (length text) bit_0 in
    let width : length text ≡ length val = length-chars_msb_first val (length val) in
    let same : length tmp ≡ length val = length-replicate (length text) bit_0 ∙ width in
    read_bits-fill val (length val) tmp
    ∙ ap some (filled text tmp val width (until_signal-chars_msb_first val tmp same))

-- A character of a signal's name.
abbrev pub AllNameChars : List ℕ → Type 0
AllNameChars [] = Unit {0}
AllNameChars (c ∷ cs) = (c ≢ b'=') × IsLetter c × AllNameChars cs

abbrev pub AllNames : Signals → Type 0
AllNames [] = Unit {0}
AllNames ((name, val) ∷ signals) = AllNameChars name × AllNames signals

-- A test for names of visible characters.
abbrev pub is_name : List ℕ → Bool
is_name [] = true
is_name (c ∷ cs) = leb 33 c && not (c == b'=') && is_name cs

is_name-AllNameChars : (name : List ℕ) → is_name name ≡ true → AllNameChars name
is_name-AllNameChars [] h = tt
is_name-AllNameChars (c ∷ name) h =
    let seen = left_of (leb 33 c && not (c == b'=')) (is_name name) h in
    let visible = left_of (leb 33 c) (not (c == b'=')) seen in
    let other = right_of (leb 33 c) (not (c == b'=')) seen in
    (
      ground arith,
      (ground arith, ground arith, ground arith, ground arith),
      is_name-AllNameChars name (right_of (leb 33 c && not (c == b'=')) (is_name name) h),
    )

abbrev pub are_names : Signals → Bool
are_names [] = true
are_names ((name, val) ∷ signals) = is_name name && are_names signals

pub are_names-AllNames : (signals : Signals) → are_names signals ≡ true → AllNames signals
are_names-AllNames [] h = tt
are_names-AllNames ((name, val) ∷ signals) h = (
  is_name-AllNameChars name (left_of (is_name name) (are_names signals) h),
  are_names-AllNames signals (right_of (is_name name) (are_names signals) h),
)

abbrev pub field_text : List ℕ → List Bit → List ℕ
field_text name val = name ++ (b'=' ∷ chars_msb_first val (length val))

pub split_field-text :
    (name text : List ℕ)
    → AllNameChars name
    → split_field (name ++ (b'=' ∷ text)) ≡ some (name, text)
unfolding split_field
split_field-text [] text h = refl
split_field-text (c ∷ name) text h = ground (arith, split_field-text name text h.2)

take_field-text :
    (name : List ℕ) (val : List Bit) (dev : Device)
    → AllNameChars name
    → take_field (field_text name val) dev ≡ some (drive name val dev)
unfolding take_field
take_field-text name val dev h =
    rw (split_field-text name (chars_msb_first val (length val)) h, read_bits-chars_msb_first val)
      refl

-- The tokens of the signals.
abbrev pub fields_of : Signals → List Token
fields_of [] = []
fields_of ((name, val) ∷ signals) = field_text name val ∷ fields_of signals

-- The client drives the signals.
abbrev pub drive_all : Signals → Device → Device
drive_all [] dev = dev
drive_all ((name, val) ∷ signals) dev = drive_all signals (drive name val dev)

take_fields-all :
    (signals : Signals) (dev : Device)
    → AllNames signals
    → take_fields (fields_of signals) dev ≡ some (drive_all signals dev)
unfolding take_fields
take_fields-all [] dev h = refl
take_fields-all ((name, val) ∷ signals) dev h =
    rw (take_field-text name val dev h.0) (take_fields-all signals (drive name val dev) h.1)

is_number-print_int : (e : ℤ) → FitsInt e → is_number (print_int e []) ≡ true
unfolding is_number print_int
is_number-print_int (pos n) h = rw (read_number-decimal 9 n [] (omega arith), is_number) refl
is_number-print_int (negsuc n) h = rw (read_number-minus (suc n) (omega arith), is_number) refl

-- The time that a port prints is the time that the server reads.
ready_time_of-print_time :
    (t : Time) → t.mant < 2 ^ 64 → FitsInt t.exp → ready_time_of (print_time t) ≡ some t
unfolding ready_time_of print_time
ready_time_of-print_time t h k =
    rw
      (
        strtoul-print_u64 t.mant b'e' (print_int t.exp []) h refl,
        is_number-print_int t.exp k,
        strtol_int-print_int t.exp k,
      )
      refl

-- What a READY line with a time and signals makes of the device of its client.
abbrev pub heard : Time → Signals → Device → Device
heard t signals dev = record (drive_all signals (record dev { ready_time = t })) {
  ready_flag = true;
}

take_ready-fields :
    (t : Time) (signals : Signals) (dev : Device)
    → t.mant < 2 ^ 64
    → FitsInt t.exp
    → AllNames signals
    → take_ready (print_time t ∷ fields_of signals) dev ≡ some (heard t signals dev)
unfolding take_ready
take_ready-fields t signals dev h k names =
    rw
      (
        ready_time_of-print_time t h k,
        take_fields-all signals (record dev { ready_time = t }) names,
      )
      refl

on_device-some :
    (f : Device → Option Device) (c : Client) (i : ℕ) (dev dev' : Device)
    → c.bus_interface ≡ some i
    → dev_at i c.devices ≡ some dev
    → f dev ≡ some dev'
    → on_device f c ≡ ok tt (record c { devices = modify_at i (λ _. dev') c.devices })
unfolding on_device
on_device-some f c i dev dev' e at h = ground (arith, e, at, h)

process_command-attached :
    (command : Token) (args : List Token) (c : Client) (x : ℕ) (name : List ℕ)
    → c.dev_name ≡ x ∷ name
    → process_command (command ∷ args) c ≡ process_attached command args c
unfolding process_command
process_command-attached command args c x name named = ground (arith, named)

-- A client with a device runs the command on it.
pub process_command-ready :
    (t : Time) (signals : Signals) (c : Client) (i x : ℕ) (name : List ℕ) (dev : Device)
    → c.dev_name ≡ x ∷ name
    → c.bus_interface ≡ some i
    → dev_at i c.devices ≡ some dev
    → t.mant < 2 ^ 64
    → FitsInt t.exp
    → AllNames signals
    → process_command (codes "READY" ∷ print_time t ∷ fields_of signals) c
      ≡ ok tt (record c { devices = modify_at i (λ _. heard t signals dev) c.devices })
unfolding process_attached process_ready
process_command-ready t signals c i x name dev named e at h k names =
    process_command-attached (codes "READY") (print_time t ∷ fields_of signals) c x name named
    ∙ on_device-some (take_ready (print_time t ∷ fields_of signals)) c i dev (heard t signals dev) e
        at (take_ready-fields t signals dev h k names)
