-- ===== src/Session.antt =====
-- The connection to the server in libsimbus/simbus.c: one exchange of `__simbus_server_send_recv`
-- with its tokens, `__simbus_server_hello` and `__simbus_server_finish`.
--
-- A `Socket` is what the descriptor `fd` stands for: the events that the other end has in store,
-- and what was sent. When no event is left, `write` succeeds and `read` reports the end of file.
pub mod Text
pub mod Reply
pub mod Lines
pub mod Store
mod Tests
use simbus.Base.{
  ℕ, zero, suc, ◌+◌, ◌-◌, ◌%◌, ◌^◌, ltb, leb, ◌==◌, if◌then◌else◌, Bool, true, false, not, ◌&&◌,
  ◌||◌, Option, none, some, List, [], ◌∷◌, ◌++◌, length, take, drop, same_text, Run, ok, fault, Cmd,
}
use simbus.Wire.Time.{strtoul}
use Text.{codes}

-- What happens at one `write` and the `read` after it.
pub data Event : Type 0 where
  write_fails : Event
  write_short : Event
  read_fails : Event
  reads : List ℕ → Event

pub record Socket : Type 0 where
  pub incoming : List Event
  pub sent : List (List ℕ)
  pub closed : Bool

abbrev pub Token : Type 0
Token = List ℕ

-- cp = strchr(buf, '\n'); assert(cp); *cp = 0: the bytes afterwards, `none` if the assertion fails.
unfoldable pub cut_line : List ℕ → Option (List ℕ)
cut_line [] = none
cut_line (c ∷ cs) =
    let rest = cut_line cs in
    if c == 10
    then some (0 ∷ cs)
    else if c == 0
    then none
    else elim rest [ none ↦ none | some line ↦ some (c ∷ line) ]

-- cp += strspn(cp, " ")
unfoldable pub skip_blanks : List ℕ → List ℕ
skip_blanks [] = []
skip_blanks (c ∷ cs) = if c == 32 then skip_blanks cs else c ∷ cs

-- strcspn(cp, " "): the token, and the bytes from its delimiter on.
unfoldable pub span_token : List ℕ → Token × List ℕ
span_token [] = ([], [])
span_token (c ∷ cs) =
    let (token, rest) = span_token cs in
    if c == 32 || c == 0 then ([], c ∷ cs) else (c ∷ token, rest)

pub data Next : Type 0 where
  -- *cp is 0.
  done : Next
  -- cp stands past the bytes that the function has written.
  overrun : Next
  token : Token → List ℕ → Next

-- *cp++ = 0; cp += strspn(cp, " ")
unfoldable pub after_token : Token × List ℕ → Next
unfolding skip_blanks
after_token (word, []) = overrun
after_token (word, c ∷ rest) = token word (skip_blanks rest)

unfoldable pub next_token : List ℕ → Next
unfolding span_token after_token
next_token [] = overrun
next_token (c ∷ cs) = if c == 0 then done else after_token (span_token (c ∷ cs))

-- The loop that chops the response into at most `n` tokens. With no room left, the store of the
-- final null pointer is outside of `argv`.
unfoldable pub chop : ℕ → List ℕ → Option (List Token)
unfolding next_token
chop zero buf = none
chop (suc n) buf = elim (next_token buf) [
  | done ↦ some []
  | overrun ↦ none
  | token word rest ↦ elim (chop n rest) [ none ↦ none | some words ↦ some (word ∷ words) ]
]

-- The known bytes of `buf` once `chunk` and its terminator stand over the text that was sent.
unfoldable pub buffer : List ℕ → List ℕ → List ℕ
buffer text chunk = chunk ++ (0 ∷ drop (length chunk) text)

unfoldable pub tokens_of : ℕ → List ℕ → List ℕ → Option (List Token)
unfolding buffer cut_line chop
tokens_of max text chunk = elim (cut_line (buffer text chunk)) [
  | none ↦ none
  | some line ↦ chop max (skip_blanks line)
]

-- The events that are left when `n` bytes of a chunk are read.
unfoldable pub leave : ℕ → List ℕ → List Event → List Event
leave n bytes events = elim (drop n bytes) [ [] ↦ events | b ∷ left ↦ reads (b ∷ left) ∷ events ]

-- The message is out, and `chunk` came in: no bytes are the end of the file.
unfoldable pub receive : ℕ → List ℕ → List ℕ → Cmd Socket (List Token)
unfolding tokens_of
receive max text [] s = ok [] s
receive max text (b ∷ chunk) s = elim (tokens_of max text (b ∷ chunk)) [
  | none ↦ fault
  | some words ↦ ok words s
]

-- The `write` and the `read` of `__simbus_server_send_recv`, by what is in store.
unfoldable pub exchange : List Event → ℕ → ℕ → List ℕ → Cmd Socket (List Token)
unfolding receive leave
exchange [] size max text s = ok [] (record s { sent = text ∷ s.sent })
exchange (write_fails ∷ events) size max text s = ok [] (record s { incoming = events })
exchange (write_short ∷ events) size max text s = fault
exchange (read_fails ∷ events) size max text s = fault
exchange (reads bytes ∷ events) size max text s =
    receive max text (take (size - 1) bytes)
      (record s { incoming = leave (size - 1) bytes events; sent = text ∷ s.sent })

-- `__simbus_server_send_recv`; the tokens are `argv`, and their number is the result.
unfoldable pub send_recv : ℕ → ℕ → List ℕ → Cmd Socket (List Token)
unfolding exchange
send_recv size max text s = exchange s.incoming size max text s

-- `__simbus_server_finish`
unfoldable pub server_finish : Cmd Socket (Unit {0})
server_finish s = elim s.incoming [
  | [] ↦ fault
  | e ∷ events ↦ elim e [
    | write_fails ↦ fault
    | write_short ↦ fault
    | read_fails ↦ fault
    | reads bytes ↦
        if same_text (take 127 bytes) (codes "FINISH\n")
        then ok tt
            (record s { incoming = leave 127 bytes events; sent = codes "FINISH\n" ∷ s.sent })
        else fault
  ]
]

-- The HELLO line; each argument stands after a blank.
unfoldable pub hello_args : List (List ℕ) → List ℕ
hello_args [] = 10 ∷ []
hello_args (arg ∷ args) = 32 ∷ (arg ++ hello_args args)

unfoldable pub hello_line : List ℕ → List (List ℕ) → List ℕ
unfolding hello_args
hello_line name args = codes "HELLO " ++ (name ++ hello_args args)

-- strchr(buf, '\n') != 0
unfoldable pub has_newline : List ℕ → Bool
has_newline [] = false
has_newline (c ∷ cs) = c == 10 || (not (c == 0) && has_newline cs)

-- The C string at the start of the bytes.
unfoldable pub c_string : List ℕ → List ℕ
c_string [] = []
c_string (c ∷ cs) = if c == 0 then [] else c ∷ c_string cs

-- What the answer in `buf` says: the identifier, or `none` for the result -1.
unfoldable pub read_ident : List ℕ → Option ℕ
unfolding c_string
read_ident buf =
    if same_text (c_string buf) (codes "NAK\n")
    then none
    else if same_text (take 8 buf) (codes "YOU-ARE ")
    then some ((strtoul (drop 8 buf)).0 % 2 ^ 32)
    else none

-- The answer `chunk` stands over the message in `buf`, with no terminator of its own.
unfoldable pub greet : List ℕ → List ℕ → Cmd Socket (Option ℕ)
unfolding has_newline read_ident
greet text [] s = fault
greet text (b ∷ chunk) s =
    let buf = (b ∷ chunk) ++ drop (length (b ∷ chunk)) (text ++ (0 ∷ [])) in
    if has_newline buf
    then elim (read_ident buf) [
      | none ↦ ok none (record s { closed = true })
      | some ident ↦ ok (some ident) s
    ]
    else fault

-- `__simbus_server_hello`; a line that does not fit `buf` is a fault.
unfoldable pub server_hello : List ℕ → List (List ℕ) → Cmd Socket (Option ℕ)
unfolding hello_line greet leave
server_hello name args s =
    let text = hello_line name args in
    if ltb 4095 (length text) then fault else elim s.incoming [
      | [] ↦ fault
      | e ∷ events ↦ elim e [
        | write_fails ↦ fault
        | write_short ↦ fault
        | read_fails ↦ fault
        | reads bytes ↦
            greet text (take 4096 bytes)
              (record s { incoming = leave 4096 bytes events; sent = text ∷ s.sent })
      ]
    ]
