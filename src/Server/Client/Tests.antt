-- ===== src/Server/Client/Tests.antt =====
-- Runs of server/client.cc, and the theorems about it at concrete inputs.
use simbus.Base.{
  ℕ, ◌≡◌, refl, arith, Bool, true, false, some, List, [], ◌∷◌, ok, fault, pos, negsuc,
}
use simbus.Wire.{bit_0, bit_1, bit_x, bit_z, ready_signal}
use simbus.Wire.Time.{Time, init_time, print_time}
use simbus.Session.{reads, Socket, hello_line, server_hello}
use simbus.Session.Text.{codes}
use simbus.Server.{Device, Signals, assign}
use simbus.Server.Pci.Arbiter.{dev_at, modify_at}
use simbus.Server.Client.{Client, bytes, find_device, make_client, you_are}
use simbus.Server.Client.Reading.{read_from_socket}
use simbus.Server.Client.Words.{is_visible-AllLetters}
use simbus.Server.Client.Ready.{are_names-AllNames, heard}
use simbus.Server.Client.Lines.{ready_text, read_from_socket-ready}
use simbus.Pci.{ready_line}
use simbus.Pci.Tests.{board}
use simbus.Server.{lookup, receive}
use simbus.Server.Pci.Shared.{is_sized}
use simbus.Server.Client.PciPort.{port_signals, read_from_socket-ready_line}
use simbus.Server.Client.Hello.{server_hello-read_from_socket}

abbrev plug : Bool → List ℕ → ℕ → Device
plug host name ident = record {
  name = name;
  host_flag = host;
  ident = ident;
  ready_flag = false;
  exited_flag = false;
  ready_time = init_time;
  outgoing = [];
  client_signals = [];
  send_signals = [];
}

abbrev connecting : Client
connecting = make_client [] (plug false (codes "card") 5 ∷ plug true (codes "host") 0 ∷ [])

abbrev waiting : Socket
waiting = record { incoming = reads (you_are 5) ∷ []; sent = []; closed = false }

hello_example :
    (attached : Client) × (read_from_socket
        (bytes (hello_line (codes "card") (codes "gnt_linger=4" ∷ [])))
        connecting
      ≡ ok [] attached)
    × (dev_at 0 attached.devices
        ≡ some (record (plug false (codes "card") 5) {
          ready_flag = false;
          outgoing = you_are 5 ∷ [];
        }))
    × (server_hello (codes "card") (codes "gnt_linger=4" ∷ []) waiting
        ≡ ok (some 5) (record {
          incoming = [];
          sent = hello_line (codes "card") (codes "gnt_linger=4" ∷ []) ∷ [];
          closed = false;
        }))
unfolding make_client hello_line dev_at find_device
hello_example =
    server_hello-read_from_socket (codes "card") (codes "gnt_linger=4" ∷ []) connecting 0 refl refl
      refl
      (
        is_visible-AllLetters (codes "card") refl,
        (is_visible-AllLetters (codes "gnt_linger=4") refl, tt),
      )
      (omega arith) (omega arith) (plug false (codes "card") 5) waiting [] refl (omega arith) refl

-- The client of the first device.
abbrev card : Client
card = record connecting { dev_name = codes "card"; bus_interface = some 0 }

abbrev at_five : Time
at_five = record { mant = 5; exp = negsuc 8 }

abbrev requesting : Signals
requesting = (codes "REQ#", bit_0 ∷ []) ∷ (codes "C/BE#", bit_0 ∷ bit_1 ∷ bit_z ∷ bit_x ∷ []) ∷ []

ready_example :
    read_from_socket (bytes (ready_text at_five requesting)) card
    ≡ ok [] (record card {
      buffer = [];
      devices =
          modify_at 0 (λ _. heard at_five requesting (plug false (codes "card") 5)) card.devices;
    })
unfolding make_client dev_at print_time ready_signal
ready_example =
    read_from_socket-ready at_five requesting card 0 b'c' (codes "ard")
      (plug false (codes "card") 5) refl refl refl refl (omega arith) (omega arith)
      (are_names-AllNames requesting refl) (omega arith) (omega arith)

-- The last character of a vector is its first bit.
ready_run :
    heard at_five requesting (plug false (codes "card") 5) ≡ record (plug false (codes "card") 5) {
      ready_flag = true;
      ready_time = at_five;
      client_signals = requesting;
    }
unfolding make_client assign
ready_run = refl

-- A line that comes in two parts.
split_run :
    read_from_socket (bytes (codes "e0 A=x1\nFIN")) (record card { buffer = codes "READY 2" })
    ≡ ok [] (record card {
      buffer = codes "FIN";
      devices =
          modify_at 0
            (λ _.
              heard
                (record { mant = 2; exp = pos 0 })
                ((codes "A", bit_1 ∷ bit_x ∷ []) ∷ [])
                (plug false (codes "card") 5))
            card.devices;
    })
unfolding read_from_socket make_client modify_at
split_run = refl

-- An empty line has no command.
empty_run : read_from_socket (bytes (codes "\n")) card ≡ fault
unfolding read_from_socket make_client
empty_run = refl

-- The port of a PCI device as it starts.
port_example :
    (dev' : Device) × (read_from_socket (bytes (ready_line board)) card
      ≡ ok [] (record card { buffer = []; devices = modify_at 0 (λ _. dev') card.devices }))
    × (dev'.ready_flag ≡ true)
    × (is_sized dev' ≡ true)
    × ((name : List ℕ) → receive name dev' ≡ lookup [] name (port_signals board))
unfolding make_client dev_at lookup
port_example =
    read_from_socket-ready_line board (plug false (codes "card") 5) refl refl card 0 b'c'
      (codes "ard") refl refl refl refl (omega arith) (omega arith) (omega arith)
