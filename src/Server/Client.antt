-- ===== src/Server/Client.antt =====
-- server/client.cc: what the server does with the bytes of a client. Messages to stderr and to the
-- log are left out.
pub mod Reading
pub mod Words
pub mod Ready
mod Socket
pub mod Hello
mod PciPort
pub mod Lines
mod Tests
use simbus.Base.{
  ℕ, zero, suc, ◌+◌, ◌-◌, ltb, ◌==◌, if◌then◌else◌, Bool, true, false, ◌||◌, ◌&&◌, not, Option,
  none, some, opt_then, List, [], ◌∷◌, ◌++◌, length, get_or, take, drop, set, replicate, same_text,
  ok, fault, Cmd, and_then,
}
use simbus.Wire.{Bit, bit_0, bit_1, bit_x, bit_z}
use simbus.Wire.Time.{Time, decimal, strtoul, strtol_int, read_number}
use simbus.Session.{Token}
use simbus.Session.Reply.{split_field}
use simbus.Session.Text.{codes}
use simbus.Server.{Map, lookup, assign, Device, drive}
use simbus.Server.Pci.Arbiter.{dev_at, modify_at}

-- `client_state_t` with the part of `bus_state` that it uses: the options, and the devices in the
-- order of their names. `bus_interface_` is a place in the devices. `buffer` is what `buffer_`
-- holds, and `outgoing` is what was written to the connection before the client had a device.
pub record Client : Type 0 where
  pub dev_name : List ℕ
  pub bus_interface : Option ℕ
  pub buffer : List ℕ
  pub outgoing : List (List ℕ)
  pub options : Map (List ℕ)
  pub devices : List Device

-- What `read` finds: the bytes that are there, none at the end of the file or after a reset of the
-- connection; or another error.
pub data Input : Type 0 where
  bytes : List ℕ → Input
  read_error : Input

-- The constructor, for a bus.
unfoldable pub make_client : Map (List ℕ) → List Device → Client
make_client options devices = record {
  dev_name = [];
  bus_interface = none;
  buffer = [];
  outgoing = [];
  options = options;
  devices = devices;
}

-- bus->device_map.find(name)
unfoldable pub find_device : List ℕ → List Device → Option ℕ
find_device name [] = none
find_device name (dev ∷ devices) =
    let rest : Option ℕ = elim (find_device name devices) [ none ↦ none | some i ↦ some (suc i) ] in
    if same_text dev.name name then some 0 else rest

-- An option of the HELLO line: options.insert leaves a key that is there as it is, and a token
-- with no '=' is ignored.
unfoldable pub insert_field : Option (List ℕ × List ℕ) → Map (List ℕ) → Map (List ℕ)
insert_field none options = options
insert_field (some (key, val)) [] = (key, val) ∷ []
insert_field (some (key, val)) ((k, v) ∷ options) =
    let rest = insert_field (some (key, val)) options in
    if same_text k key then (k, v) ∷ options else (k, v) ∷ rest

unfoldable pub insert_options : List Token → Map (List ℕ) → Map (List ℕ)
unfolding insert_field split_field
insert_options [] options = options
insert_options (arg ∷ args) options = insert_options args (insert_field (split_field arg) options)

-- The YOU-ARE line.
unfoldable pub you_are : ℕ → List ℕ
unfolding decimal
you_are ident = codes "YOU-ARE " ++ decimal 10 ident (10 ∷ [])

-- The client is the device at place `i`.
unfoldable pub attach : ℕ → List ℕ → List Token → Client → Client
unfolding modify_at insert_options you_are
attach i name args c = record c {
  dev_name = name;
  bus_interface = some i;
  options = insert_options args c.options;
  devices =
      modify_at i
        (λ dev. record dev { ready_flag = false; outgoing = you_are dev.ident ∷ c.outgoing })
        c.devices;
}

-- The name in a HELLO line; `none` is the failed assertion that there is one.
unfoldable pub greet_as : Option ℕ → List ℕ → List Token → Client → Client
unfolding attach
greet_as none name args c = record c { outgoing = codes "NAK\n" ∷ c.outgoing }
greet_as (some i) name args c = attach i name args c

-- `process_client_hello_`
unfoldable pub process_hello : Token → List Token → Cmd Client (Unit {0})
unfolding find_device greet_as
process_hello command [] c = if same_text command (codes "HELLO") then fault else ok tt c
process_hello command (name ∷ args) c =
    if same_text command (codes "HELLO")
    then ok tt (greet_as (find_device name c.devices) name args c)
    else ok tt c

-- strtol reads the text to its end.
unfoldable pub is_number : List ℕ → Bool
unfolding read_number
is_number text = elim (read_number text) [
  | none ↦ false
  | some (sign, n, rest) ↦ elim rest [ [] ↦ true | c ∷ cs ↦ false ]
]

-- What follows the mantissa of the time; `none` is a failed assertion.
unfoldable pub ready_exponent : ℕ → List ℕ → Option Time
unfolding is_number strtol_int
ready_exponent mant [] = none
ready_exponent mant (c ∷ cs) =
    if c == b'e' && is_number cs then some (record { mant = mant; exp = strtol_int cs }) else none

unfoldable pub ready_time_of : Token → Option Time
unfolding strtoul ready_exponent
ready_time_of token = let (mant, rest) = strtoul token in ready_exponent mant rest

unfoldable pub bit_state : ℕ → Option Bit
bit_state c =
    if c == b'0'
    then some bit_0
    else if c == b'1'
    then some bit_1
    else if c == b'z'
    then some bit_z
    else if c == b'x'
    then some bit_x
    else none

-- The loop over the characters of a value, into `tmp`; the last one goes to tmp[0].
unfoldable pub read_bits : List ℕ → List Bit → Option (List Bit)
unfolding bit_state
read_bits [] tmp = some tmp
read_bits (c ∷ cs) tmp = opt_then (bit_state c) (λ b. read_bits cs (set tmp (length cs) b))

-- One <name>=<value> token.
unfoldable pub take_field : Token → Device → Option Device
unfolding split_field read_bits assign
take_field token dev = opt_then (split_field token) (λ field.
    opt_then (read_bits field.1 (replicate (length field.1) bit_0))
      (λ tmp. some (drive field.0 tmp dev)))

unfoldable pub take_fields : List Token → Device → Option Device
unfolding take_field
take_fields [] dev = some dev
take_fields (token ∷ tokens) dev = opt_then (take_field token dev) (take_fields tokens)

-- The READY line, for its device.
unfoldable pub take_ready : List Token → Device → Option Device
unfolding ready_time_of take_fields
take_ready [] dev = none
take_ready (time ∷ tokens) dev = opt_then (ready_time_of time) (λ t.
    opt_then (take_fields tokens (record dev { ready_time = t }))
      (λ dev'. some (record dev' { ready_flag = true })))

-- A change of the device of the client, which must have one.
unfoldable pub on_device : (Device → Option Device) → Cmd Client (Unit {0})
unfolding dev_at modify_at
on_device f c = elim c.bus_interface [
  | none ↦ fault
  | some i ↦ elim (opt_then (dev_at i c.devices) f) [
    | none ↦ fault
    | some dev ↦ ok tt (record c { devices = modify_at i (λ _. dev) c.devices })
  ]
]

-- `process_client_ready_`
unfoldable pub process_ready : List Token → Cmd Client (Unit {0})
unfolding take_ready on_device
process_ready args = on_device (take_ready args)

-- `process_client_finish_`, and what the end of the file does.
unfoldable pub detach : Cmd Client (Unit {0})
unfolding on_device
detach = on_device (λ dev. some (record dev { ready_flag = true; exited_flag = true }))

-- The commands of a client that has a device.
unfoldable pub process_attached : Token → List Token → Cmd Client (Unit {0})
unfolding process_ready detach
process_attached command args c =
    if same_text command (codes "HELLO")
    then ok tt c
    else if same_text command (codes "READY")
    then process_ready args c
    else if same_text command (codes "FINISH")
    then detach c
    else ok tt c

-- `process_client_command_`; an empty line has no argv[0].
unfoldable pub process_command : List Token → Cmd Client (Unit {0})
unfolding process_hello process_attached
process_command [] c = fault
process_command (command ∷ args) c = elim c.dev_name [
  | [] ↦ process_hello command args c
  | _ ∷ _ ↦ process_attached command args c
]
