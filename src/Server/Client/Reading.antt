-- ===== src/Server/Client/Reading.antt =====
-- `read_from_socket` of server/client.cc: the bytes of a client, cut into lines and words.
use simbus.Base.{
  ℕ, zero, suc, ◌-◌, ◌==◌, if◌then◌else◌, Bool, ◌||◌, Option, none, some, opt_then, List, [], ◌∷◌,
  ◌++◌, length, take, drop, ok, fault, Cmd, and_then,
}
use simbus.Session.{Token}
use simbus.Server.Client.{Client, Input, bytes, read_error, detach, process_command}

abbrev pub is_white : ℕ → Bool
is_white c = c == 32 || c == 13

-- cp += strspn(cp, white_space)
unfoldable pub skip_white : List ℕ → List ℕ
skip_white [] = []
skip_white (c ∷ cs) = if is_white c then skip_white cs else c ∷ cs

-- strcspn(cp, white_space): the word, and the text from its delimiter on.
unfoldable pub span_word : List ℕ → Token × List ℕ
span_word [] = ([], [])
span_word (c ∷ cs) =
    let (word, rest) = span_word cs in if is_white c then ([], c ∷ cs) else (c ∷ word, rest)

-- if (*cp) { *cp++ = 0; cp += strspn(cp, white_space); }
unfoldable pub after_word : List ℕ → List ℕ
unfolding skip_white
after_word [] = []
after_word (c ∷ cs) = skip_white cs

-- The words of a line, with `n` places left in `argv`, one of which the final null pointer takes.
unfoldable pub words : ℕ → List ℕ → Option (List Token)
unfolding span_word after_word
words zero line = none
words (suc n) [] = some []
words (suc n) (c ∷ cs) =
    let (word, rest) = span_word (c ∷ cs) in
    opt_then (words n (after_word rest)) (λ ws. some (word ∷ ws))

-- strchr(buffer_, '\n'): the text in front of the newline and the bytes after it.
unfoldable pub split_line : List ℕ → Option (List ℕ × List ℕ)
split_line [] = none
split_line (c ∷ cs) =
    let rest : Option (List ℕ × List ℕ) = elim (split_line cs) [
      | none ↦ none
      | some (line, left) ↦ some (c ∷ line, left)
    ] in
    if c == 10 then some ([], cs) else if c == 0 then none else rest

-- The command in a line; afterwards the buffer holds what came behind it.
unfoldable pub process_line : Option (List ℕ × List ℕ) → Cmd Client (Unit {0})
unfolding words process_command
process_line none c = ok tt c
process_line (some (line, left)) c = elim (words 2048 line) [
  | none ↦ fault
  | some argv ↦ process_command argv (record c { buffer = left })
]

-- The bytes go behind what the buffer holds. The result is what is left in the socket.
unfoldable pub take_bytes : ℕ → List ℕ → Cmd Client (List ℕ)
unfolding split_line process_line
take_bytes trans text c =
    let buffer = c.buffer ++ take trans text in
    and_then (process_line (split_line buffer) (record c { buffer = buffer }))
      (λ u. ok (drop trans text))

unfoldable pub receive_input : ℕ → Input → Cmd Client (List ℕ)
unfolding detach take_bytes
receive_input trans read_error c = and_then (detach c) (λ u. ok [])
receive_input trans (bytes []) c = and_then (detach c) (λ u. ok [])
receive_input trans (bytes (b ∷ text)) c = take_bytes trans (b ∷ text) c

-- `read_from_socket`
unfoldable pub read_from_socket : Input → Cmd Client (List ℕ)
unfolding receive_input
read_from_socket input c =
    let trans = 4095 - length c.buffer in if trans == 0 then fault else receive_input trans input c
