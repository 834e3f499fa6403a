-- ===== src/Server/Protocol/Until.antt =====
-- The UNTIL line of the server, read by a port of libsimbus.
use simbus.Base.{
  ℕ, zero, suc, ◌+◌, ◌^◌, ◌<◌, ◌≡◌, refl, ap, sym, subst, ◌∙◌, some, List, [], ◌∷◌, ◌++◌, arith,
  length, get_or, ok,
}
use mathlib.Core.List.{append_assoc}
use simbus.Wire.{Bit, bit_0, bit_1, bit_x, bit_z, bitval_to_char, chars_msb_first, ready_signal}
use simbus.Wire.Time.{Time, print_time}
use simbus.Wire.Time.RoundTrip.{FitsInt, parse_time_token-print_time}
use simbus.Session.{Token, Event, reads, Socket, send_recv}
use simbus.Session.Reply.{Field, until, split_fields, read_until, read_reply}
use simbus.Session.Text.{codes}
use simbus.Session.Lines as Lines
use simbus.Session.Lines.{join, line_of, send_recv-line}
use simbus.Server.{lookup, Signals}
use simbus.Server.Client.Words.{AllLetters, IsWord, AllWords, is_visible-AllLetters}
use simbus.Server.Client.Ready.{AllNames, fields_of, split_field-text}
use simbus.Server.Client.Lines.{
  signals_text, signals_text-join, print_time-IsWord, fields_of-AllWords, length-fields_of,
}
use simbus.Server.Protocol.Order.{in_order-AllNames, length-in_order, lookup-in_order}
use simbus.Server.Protocol.{in_order, state_char, state_chars, signal_texts, until_line}

-- The server writes the bits as the clients do.
state_char-bitval : (b : Bit) → state_char b ≡ bitval_to_char b
unfolding state_char bitval_to_char
state_char-bitval bit_0 = refl
state_char-bitval bit_1 = refl
state_char-bitval bit_x = refl
state_char-bitval bit_z = refl

state_chars-msb_first : (val : List Bit) (n : ℕ) → state_chars val n ≡ chars_msb_first val n
unfolding state_chars chars_msb_first
state_chars-msb_first val zero = refl
state_chars-msb_first val (suc n) =
    cc (state_char-bitval (get_or val n bit_x), state_chars-msb_first val n)

signal_texts-text : (signals : Signals) → signal_texts signals ≡ signals_text signals
unfolding signal_texts ready_signal
signal_texts-text [] = refl
signal_texts-text ((name, val) ∷ signals) =
    rw (state_chars-msb_first val (length val), signal_texts-text signals)
      (ap (λ text. b' ' ∷ text)
        (sym (append_assoc name (b'=' ∷ chars_msb_first val (length val)) (signals_text signals))))

-- A letter of the server is one of the clients'.
word_chars : (w : List ℕ) → AllLetters w → Lines.AllWordChars w
word_chars [] h = tt
word_chars (c ∷ w) h = ((h.0.0, h.0.2, h.0.3), word_chars w h.1)

word_of : (w : Token) → IsWord w → Lines.IsWord w
word_of [] h = h
word_of (c ∷ w) h = word_chars (c ∷ w) h

words_of : (ws : List Token) → AllWords ws → Lines.AllWords ws
words_of [] h = tt
words_of (w ∷ ws) h = (word_of w h.0, words_of ws h.1)

-- The fields of a response that tells the signals.
abbrev pub told : Signals → List Field
told [] = []
told ((name, val) ∷ signals) = (name, chars_msb_first val (length val)) ∷ told signals

split_fields-told :
    (signals : Signals) → AllNames signals → split_fields (fields_of signals) ≡ some (told signals)
unfolding split_fields
split_fields-told [] h = refl
split_fields-told ((name, val) ∷ signals) h =
    rw
      (
        split_field-text name (chars_msb_first val (length val)) h.0,
        split_fields-told signals h.1,
        split_fields,
      )
      refl

abbrev pub until_words : Time → Signals → List Token
until_words t signals = print_time t ∷ fields_of (in_order signals)

read_reply-until :
    (t : Time) (signals : Signals)
    → t.mant < 2 ^ 64
    → FitsInt t.exp
    → AllNames signals
    → read_reply (codes "UNTIL" ∷ print_time t ∷ fields_of signals) ≡ some (until t (told signals))
unfolding read_reply read_until
read_reply-until t signals h k names =
    rw (parse_time_token-print_time t h k, split_fields-told signals names, read_reply, read_until)
      refl

until_line-line_of :
    (t : Time) (signals : Signals)
    → until_line t signals ≡ line_of (codes "UNTIL" ∷ until_words t signals)
unfolding until_line
until_line-line_of t signals =
    ap (λ text. codes "UNTIL " ++ (print_time t ++ text)) (signal_texts-text (in_order signals))
    ∙ ap (λ text. codes "UNTIL " ++ text) (signals_text-join (print_time t) (in_order signals))

lookup-told :
    (key : List ℕ) (signals : Signals)
    → lookup [] key (told signals)
      ≡ chars_msb_first (lookup [] key signals) (length (lookup [] key signals))
unfolding lookup chars_msb_first
lookup-told key [] = refl
lookup-told key ((name, val) ∷ signals) = ground (arith, lookup-told key signals)

until_words-AllWords :
    (t : Time) (signals : Signals)
    → AllNames signals
    → AllWords (codes "UNTIL" ∷ until_words t signals)
until_words-AllWords t signals names = (
  is_visible-AllLetters (codes "UNTIL") refl,
  (print_time-IsWord t, fields_of-AllWords (in_order signals) (in_order-AllNames signals names)),
)

-- A port whose buffer has `size` bytes and whose argv has `max` places, and the line on its socket:
-- whatever the port sends, it reads an UNTIL response with the time and, for each name, the
-- characters of the signal from its last bit to its first.
abbrev pub ReadsAs : ℕ → ℕ → List ℕ → Time → Signals → Type 0
ReadsAs size max line t signals =
    (text : List ℕ) (events : List Event) (s : Socket)
    → (ws : List Token) × (fields : List Field) × (send_recv size max text
          (record s { incoming = reads line ∷ events })
        ≡ ok ws (record s { incoming = events; sent = text ∷ s.sent }))
      × (read_reply ws ≡ some (until t fields))
      × ((name : List ℕ)
          → lookup [] name fields
            ≡ chars_msb_first (lookup [] name signals) (length (lookup [] name signals)))

pub until_line-ReadsAs :
    (size max : ℕ) (t : Time) (signals : Signals)
    → t.mant < 2 ^ 64
    → FitsInt t.exp
    → AllNames signals
    → length signals + 2 < max
    → length (until_line t signals) < size
    → ReadsAs size max (until_line t signals) t signals
until_line-ReadsAs size max t signals h k names few room text events s =
    let ordered = in_order signals in
    let count : length (fields_of ordered) ≡ length signals =
      length-fields_of ordered ∙ length-in_order signals in
    let line = until_line-line_of t signals in
    (
      codes "UNTIL" ∷ until_words t signals,
      told ordered,
      send_recv-line size max text (codes "UNTIL") (until_words t signals) events
          (record s { incoming = reads (until_line t signals) ∷ events })
          (ap (λ l. reads l ∷ events) line)
          (words_of (codes "UNTIL" ∷ until_words t signals) (until_words-AllWords t signals names))
          (omega (arith, count)) (subst (λ l. length l < size) line room),
      read_reply-until t ordered h k (in_order-AllNames signals names),
      λ name.
          lookup-told name ordered
          ∙ ap (λ val. chars_msb_first val (length val)) (lookup-in_order name signals),
    )
