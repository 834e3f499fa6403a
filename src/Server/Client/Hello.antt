-- ===== src/Server/Client/Hello.antt =====
-- The handshake of `__simbus_server_hello` of libsimbus/simbus.c with server/client.cc.
use simbus.Base.{
  ℕ, zero, suc, ◌+◌, ◌/◌, ◌%◌, ◌^◌, ◌<◌, ◌≤◌, ◌≡◌, refl, ap, subst, ◌∙◌, some, eq_of_some, List, [],
  ◌∷◌, ◌++◌, arith, length, drop, ok, and_then, true, false, ltb, either_branch,
}
use simbus.Wire.Time.{decimal, read_digits, strtoul}
use simbus.Wire.Time.RoundTrip.{read_number-decimal}
use simbus.Session.{
  Token, Event, reads, Socket, hello_args, hello_line, has_newline, c_string, read_ident, greet,
  leave, server_hello,
}
use simbus.Session.Text.{codes}
use simbus.Session.Lines.{join, take-all, drop-all}
use simbus.Server.{Device}
use simbus.Server.Pci.Arbiter.{dev_at, modify_at}
use simbus.Server.Client.{
  Client, bytes, find_device, you_are, attach, process_hello, process_command,
}
use simbus.Server.Client.Reading.{read_from_socket}
use simbus.Server.Client.Words.{AllWords, is_visible-AllLetters}
use simbus.Server.Client.Socket.{read_from_socket-join}

decimal-append :
    (f n : ℕ) (rest more : List ℕ) → decimal f n rest ++ more ≡ decimal f n (rest ++ more)
unfolding decimal
decimal-append zero n rest more = refl
decimal-append (suc f) n rest more =
    ground (arith, decimal-append f (n / 10) ((b'0' + n % 10) ∷ rest) more)

pub length-decimal : (f n : ℕ) (rest : List ℕ) → length (decimal f n rest) ≤ f + length rest
unfolding decimal
length-decimal zero n rest = omega arith
length-decimal (suc f) n rest =
    let longer = length-decimal f (n / 10) ((b'0' + n % 10) ∷ rest) in
    either_branch (λ (text : List ℕ). length text ≤ suc f + length rest) (ltb n 10) (omega arith)
      (omega (arith, longer))

has_newline-decimal :
    (f n : ℕ) (rest : List ℕ) → has_newline rest ≡ true → has_newline (decimal f n rest) ≡ true
unfolding decimal has_newline
has_newline-decimal zero n rest h = h
has_newline-decimal (suc f) n rest h =
    let longer : has_newline ((b'0' + n % 10) ∷ rest) ≡ true = ground arith in
    either_branch (λ (text : List ℕ). has_newline text ≡ true) (ltb n 10) longer
      (has_newline-decimal f (n / 10) _ longer)

strtoul-decimal :
    (ident : ℕ) (rest : List ℕ)
    → ident < 2 ^ 32
    → (strtoul (decimal 10 ident (10 ∷ rest))).0 ≡ ident
unfolding strtoul read_digits
strtoul-decimal ident rest h =
    rw (read_number-decimal 9 ident (10 ∷ rest) (omega arith), strtoul) (ground arith)

-- What the client finds in its buffer, where `stale` is left of its own message.
read_ident-you_are :
    (ident : ℕ) (stale : List ℕ) → ident < 2 ^ 32 → read_ident (you_are ident ++ stale) ≡ some ident
unfolding read_ident c_string you_are
read_ident-you_are ident stale h =
    rw (decimal-append 10 ident (10 ∷ []) stale)
      (ap some (ap (λ n. n % 2 ^ 32) (strtoul-decimal ident stale h) ∙ omega arith))

has_newline-you_are : (ident : ℕ) (stale : List ℕ) → has_newline (you_are ident ++ stale) ≡ true
unfolding you_are has_newline
has_newline-you_are ident stale =
    rw (decimal-append 10 ident (10 ∷ []) stale) (has_newline-decimal 10 ident (10 ∷ stale) refl)

length-you_are : (ident : ℕ) → length (you_are ident) ≤ 19
unfolding you_are
length-you_are ident = omega (arith, length-decimal 10 ident (10 ∷ []))

greet-ident :
    (text : List ℕ) (b : ℕ) (chunk : List ℕ) (s : Socket) (ident : ℕ)
    → has_newline ((b ∷ chunk) ++ drop (length (b ∷ chunk)) (text ++ (0 ∷ []))) ≡ true
    → read_ident ((b ∷ chunk) ++ drop (length (b ∷ chunk)) (text ++ (0 ∷ []))) ≡ some ident
    → greet text (b ∷ chunk) s ≡ ok (some ident) s
unfolding greet
greet-ident text b chunk s ident ended found = rw (ended, found) refl

greet-you_are :
    (text : List ℕ) (s : Socket) (ident : ℕ)
    → ident < 2 ^ 32
    → greet text (you_are ident) s ≡ ok (some ident) s
unfolding you_are
greet-you_are text s ident h =
    let stale = drop (length (you_are ident)) (text ++ (0 ∷ [])) in
    greet-ident text b'Y' _ s ident (has_newline-you_are ident stale)
      (read_ident-you_are ident stale h)

server_hello-you_are :
    (name : List ℕ) (args : List Token) (s : Socket) (events : List Event) (ident : ℕ)
    → s.incoming ≡ reads (you_are ident) ∷ events
    → ident < 2 ^ 32
    → length (hello_line name args) < 4096
    → server_hello name args s
      ≡ ok (some ident) (record s { incoming = events; sent = hello_line name args ∷ s.sent })
unfolding server_hello leave
server_hello-you_are name args s events ident e h fits =
    let short : length (you_are ident) ≤ 4096 = omega (arith, length-you_are ident) in
    let room : ltb 4095 (length (hello_line name args)) ≡ false = ground arith in
    rw (room, e)
      (rw (take-all 4096 (you_are ident) short, drop-all 4096 (you_are ident) short, leave)
        (greet-you_are (hello_line name args) _ ident h))

hello_args-join : (w : Token) (args : List Token) → w ++ hello_args args ≡ join (w ∷ args) (10 ∷ [])
unfolding hello_args
hello_args-join w [] = refl
hello_args-join w (arg ∷ args) = ap (λ text. w ++ (32 ∷ text)) (hello_args-join arg args)

hello_line-join :
    (name : List ℕ) (args : List Token)
    → hello_line name args ≡ join (codes "HELLO" ∷ name ∷ args) (10 ∷ [])
unfolding hello_line
hello_line-join name args = ap (λ text. codes "HELLO " ++ text) (hello_args-join name args)

process_command-unnamed :
    (command : Token) (args : List Token) (c : Client)
    → c.dev_name ≡ []
    → process_command (command ∷ args) c ≡ process_hello command args c
unfolding process_command
process_command-unnamed command args c named = ground (arith, named)

process_hello-attach :
    (name : List ℕ) (args : List Token) (c : Client) (i : ℕ)
    → find_device name c.devices ≡ some i
    → process_hello (codes "HELLO") (name ∷ args) c ≡ ok tt (attach i name args c)
unfolding process_hello
process_hello-attach name args c i found = rw found refl

dev_at-modify_self :
    (i : ℕ) (devices : List Device) (f : Device → Device) (dev : Device)
    → dev_at i devices ≡ some dev
    → dev_at i (modify_at i f devices) ≡ some (f dev)
unfolding dev_at modify_at
dev_at-modify_self i [] f dev e = cc
dev_at-modify_self zero (d ∷ devices) f dev e = ap (λ d'. some (f d')) (eq_of_some e)
dev_at-modify_self (suc i) (d ∷ devices) f dev e = dev_at-modify_self i devices f dev e

module _ (name : List ℕ) (args : List Token) (c : Client) (i : ℕ) (unnamed : c.dev_name ≡ [])
    (empty : c.buffer ≡ []) (found : find_device name c.devices ≡ some i)
    (words : AllWords (name ∷ args)) (few : length args < 2046)
    (fits : length (hello_line name args) < 4096) where
  read_from_socket-attach :
      read_from_socket (bytes (hello_line name args)) c
      ≡ ok [] (attach i name args (record c { buffer = [] }))
  read_from_socket-attach =
      let line = hello_line-join name args in
      ap (λ l. read_from_socket (bytes l) c) line
      ∙ read_from_socket-join b'H' (codes "ELLO") (name ∷ args) c
          (is_visible-AllLetters (codes "HELLO") refl, words) (omega arith) empty
          (subst (λ l. length l < 4096) line fits)
      ∙ ap (λ r. and_then r (λ u. ok []))
          (process_command-unnamed (codes "HELLO") (name ∷ args) (record c { buffer = [] }) unnamed
            ∙ process_hello-attach name args (record c { buffer = [] }) i found)

  attach-dev_at :
      (dev : Device)
      → dev_at i c.devices ≡ some dev
      → dev_at i (attach i name args (record c { buffer = [] })).devices
        ≡ some (record dev { ready_flag = false; outgoing = you_are dev.ident ∷ c.outgoing })
  unfolding attach
  attach-dev_at dev at = dev_at-modify_self i c.devices _ dev at

  -- The handshake. A HELLO line of fewer than 4096 bytes, with the name of a device of the bus and
  -- fewer than 2046 options, all of them words without white space, newline or terminator, arrives
  -- on a connection that has no device yet and nothing in its buffer. The server reads it as a
  -- whole; the device is then not ready, and the last text written to it is the YOU-ARE line with
  -- its 32-bit number. With that text on its socket, the client's `__simbus_server_hello` returns
  -- that number, has sent the line and nothing else, and leaves what comes later on the socket.
  pub server_hello-read_from_socket :
      (dev : Device) (s : Socket) (events : List Event)
      → dev_at i c.devices ≡ some dev
      → dev.ident < 2 ^ 32
      → s.incoming ≡ reads (you_are dev.ident) ∷ events
      → (attached : Client) × (read_from_socket (bytes (hello_line name args)) c ≡ ok [] attached)
        × (dev_at i attached.devices
            ≡ some (record dev { ready_flag = false; outgoing = you_are dev.ident ∷ c.outgoing }))
        × (server_hello name args s
            ≡ ok
                (some dev.ident)
                (record s { incoming = events; sent = hello_line name args ∷ s.sent }))
  server_hello-read_from_socket dev s events at h e = (
    attach i name args (record c { buffer = [] }),
    read_from_socket-attach,
    attach-dev_at dev at,
    server_hello-you_are name args s events dev.ident e h fits,
  )
