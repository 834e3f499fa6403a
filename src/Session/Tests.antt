-- ===== src/Session/Tests.antt =====
-- Runs of an exchange of libsimbus/simbus.c, and the theorem about its lines at a concrete input.
use simbus.Base.{◌≡◌, refl, some, false, List, [], ◌∷◌, arith, ok}
use simbus.Wire.Time.{strtoul}
use simbus.Session.{Socket, reads, Token, send_recv, server_hello}
use simbus.Session.Text.{codes}
use simbus.Session.Lines.{line_of, send_recv-line}

abbrev until_words : List Token
until_words = codes "1e-9" ∷ codes "CLOCK=1" ∷ []

abbrev server : Socket
server = record {
  incoming = reads (line_of (codes "UNTIL" ∷ until_words)) ∷ [];
  sent = [];
  closed = false;
}

abbrev greeter : Socket
greeter = record { incoming = reads (codes "YOU-ARE 3\n") ∷ []; sent = []; closed = false }

abbrev refuser : Socket
refuser = record { incoming = reads (codes "NAK\n") ∷ []; sent = []; closed = false }

server_hello-greeter :
    server_hello (codes "cam") (codes "w=8" ∷ []) greeter
    ≡ ok (some 3) (record { incoming = []; sent = codes "HELLO cam w=8\n" ∷ []; closed = false })
unfolding server_hello strtoul
server_hello-greeter = refl

send_recv_example :
    send_recv 4096 2048 (codes "READY 0e0\n") server
    ≡ ok
        (codes "UNTIL" ∷ until_words)
        (record { incoming = []; sent = codes "READY 0e0\n" ∷ []; closed = false })
send_recv_example =
    send_recv-line 4096 2048 (codes "READY 0e0\n") (codes "UNTIL") until_words [] server refl
      (omega arith) (omega arith) (omega arith)
