-- ===== src/Server/Client/Lines.antt =====
-- The bytes of a READY line of libsimbus, from the port's text to the device on the server.
use simbus.Base.{
  ℕ, zero, suc, ◌+◌, ◌/◌, ◌%◌, ◌^◌, ◌<◌, ◌≡◌, refl, ap, subst, ◌∙◌, some, List, [], ◌∷◌, ◌++◌,
  arith, length, get_or, ok, ltb, ℤ, pos, negsuc, and_then, either_branch,
}
use simbus.Wire.{Bit, bit_0, bit_1, bit_x, bit_z, bitval_to_char, chars_msb_first, ready_signal}
use simbus.Wire.Time.{Time, decimal, print_u64, print_int, print_time}
use simbus.Wire.Time.RoundTrip.{FitsInt}
use simbus.Session.{Token}
use simbus.Session.Text.{codes}
use simbus.Session.Lines.{join}
use simbus.Server.{Signals, Device}
use simbus.Server.Pci.Arbiter.{dev_at, modify_at}
use simbus.Server.Client.{Client, bytes}
use simbus.Server.Client.Reading.{read_from_socket}
use simbus.Server.Client.Words.{
  IsLetter, is_visible-AllLetters, AllLetters, IsWord, AllWords, letters_of,
}
use simbus.Server.Client.Socket.{read_from_socket-join}
use simbus.Server.Client.Ready.{
  AllNameChars, AllNames, field_text, fields_of, heard, process_command-ready,
}

-- The signals of a READY line, each as `ready_signal` writes it, and the newline.
abbrev pub signals_text : Signals → List ℕ
signals_text [] = 10 ∷ []
signals_text ((name, val) ∷ signals) = ready_signal name val (length val) ++ signals_text signals

-- A READY line as the ports write it.
abbrev pub ready_text : Time → Signals → List ℕ
ready_text t signals = codes "READY " ++ (print_time t ++ signals_text signals)

pub signals_text-join :
    (w : Token) (signals : Signals)
    → w ++ signals_text signals ≡ join (w ∷ fields_of signals) (10 ∷ [])
unfolding ready_signal
signals_text-join w [] = refl
signals_text-join w ((name, val) ∷ signals) =
    ap (λ text. w ++ (32 ∷ text)) (signals_text-join (field_text name val) signals)

abbrev ready_words : Time → Signals → List Token
ready_words t signals = codes "READY" ∷ print_time t ∷ fields_of signals

ready_text-join :
    (t : Time) (signals : Signals) → ready_text t signals ≡ join (ready_words t signals) (10 ∷ [])
ready_text-join t signals =
    ap (λ text. codes "READY " ++ text) (signals_text-join (print_time t) signals)

digit-IsLetter : (n : ℕ) → IsLetter (b'0' + n % 10)
digit-IsLetter n = (omega arith, omega arith, omega arith, omega arith)

decimal-AllLetters : (f n : ℕ) (rest : List ℕ) → AllLetters rest → AllLetters (decimal f n rest)
unfolding decimal
decimal-AllLetters zero n rest h = h
decimal-AllLetters (suc f) n rest h =
    let longer : AllLetters ((b'0' + n % 10) ∷ rest) = (digit-IsLetter n, h) in
    either_branch AllLetters (ltb n 10) longer (decimal-AllLetters f (n / 10) _ longer)

decimal-IsWord : (f n : ℕ) (rest : List ℕ) → IsWord rest → IsWord (decimal f n rest)
unfolding decimal
decimal-IsWord zero n rest h = h
decimal-IsWord (suc f) n rest h =
    let longer : IsWord ((b'0' + n % 10) ∷ rest) = (digit-IsLetter n, letters_of rest h) in
    either_branch IsWord (ltb n 10) longer (decimal-IsWord f (n / 10) _ longer)

print_int-AllLetters : (e : ℤ) → AllLetters (print_int e [])
unfolding print_int
print_int-AllLetters (pos n) = decimal-AllLetters 10 n [] tt
print_int-AllLetters (negsuc n) =
    ((omega arith, omega arith, omega arith, omega arith), decimal-AllLetters 10 (suc n) [] tt)

pub print_time-IsWord : (t : Time) → IsWord (print_time t)
unfolding print_time print_u64
print_time-IsWord t =
    decimal-IsWord 20 t.mant (b'e' ∷ print_int t.exp [])
      ((omega arith, omega arith, omega arith, omega arith), print_int-AllLetters t.exp)

bit-IsLetter : (b : Bit) → IsLetter (bitval_to_char b)
unfolding bitval_to_char
bit-IsLetter bit_0 = (omega arith, omega arith, omega arith, omega arith)
bit-IsLetter bit_1 = (omega arith, omega arith, omega arith, omega arith)
bit-IsLetter bit_x = (omega arith, omega arith, omega arith, omega arith)
bit-IsLetter bit_z = (omega arith, omega arith, omega arith, omega arith)

chars-AllLetters : (val : List Bit) (n : ℕ) → AllLetters (chars_msb_first val n)
unfolding chars_msb_first
chars-AllLetters val zero = tt
chars-AllLetters val (suc n) = (bit-IsLetter (get_or val n bit_x), chars-AllLetters val n)

name-AllLetters :
    (name text : List ℕ) → AllNameChars name → AllLetters text → AllLetters (name ++ text)
name-AllLetters [] text h k = k
name-AllLetters (c ∷ name) text h k = (h.1, name-AllLetters name text h.2 k)

field_text-IsWord :
    (name : List ℕ) (val : List Bit) → AllNameChars name → IsWord (field_text name val)
field_text-IsWord [] val h =
    ((omega arith, omega arith, omega arith, omega arith), chars-AllLetters val (length val))
field_text-IsWord (c ∷ name) val h = (
  h.1,
  name-AllLetters name _ h.2
      ((omega arith, omega arith, omega arith, omega arith), chars-AllLetters val (length val)),
)

pub fields_of-AllWords : (signals : Signals) → AllNames signals → AllWords (fields_of signals)
fields_of-AllWords [] h = tt
fields_of-AllWords ((name, val) ∷ signals) h =
    (field_text-IsWord name val h.0, fields_of-AllWords signals h.1)

pub length-fields_of : (signals : Signals) → length (fields_of signals) ≡ length signals
length-fields_of [] = refl
length-fields_of ((name, val) ∷ signals) = ap suc (length-fields_of signals)

ready_words-AllWords :
    (t : Time) (signals : Signals) → AllNames signals → AllWords (ready_words t signals)
ready_words-AllWords t signals h = (
  is_visible-AllLetters (codes "READY") refl,
  (print_time-IsWord t, fields_of-AllWords signals h),
)

-- A READY line of a port of fewer than 4096 bytes, with a time of 64 bits and an int as its exponent
-- and with fewer than 2046 signals as `ready_signal` writes them, whose names are without '=', white
-- space, newline and terminator, arrives for a client that has a device and nothing in its buffer.
-- The server takes it from the socket as a whole: the device is ready, with the time that the port
-- printed, and each signal is driven with the bits that the port gave it, one after the other. The
-- buffer is empty again.
pub read_from_socket-ready :
    (t : Time) (signals : Signals) (c : Client) (i x : ℕ) (name : List ℕ) (dev : Device)
    → c.dev_name ≡ x ∷ name
    → c.bus_interface ≡ some i
    → dev_at i c.devices ≡ some dev
    → c.buffer ≡ []
    → t.mant < 2 ^ 64
    → FitsInt t.exp
    → AllNames signals
    → length signals < 2046
    → length (ready_text t signals) < 4096
    → read_from_socket (bytes (ready_text t signals)) c
      ≡ ok [] (record c { buffer = []; devices = modify_at i (λ _. heard t signals dev) c.devices })
read_from_socket-ready t signals c i x name dev named e at empty h k names few fits =
    let line = ready_text-join t signals in
    ap (λ l. read_from_socket (bytes l) c) line
    ∙ read_from_socket-join b'R' (codes "EADY") (print_time t ∷ fields_of signals) c
        (ready_words-AllWords t signals names) (omega (arith, length-fields_of signals)) empty
        (subst (λ l. length l < 4096) line fits)
    ∙ ap (λ r. and_then r (λ u. ok []))
        (process_command-ready t signals (record c { buffer = [] }) i x name dev named e at h k
          names)
