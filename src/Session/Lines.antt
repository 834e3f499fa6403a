-- ===== src/Session/Lines.antt =====
-- The lines that the server sends, and the tokens that `__simbus_server_send_recv` of
-- libsimbus/simbus.c makes of them.
use simbus.Base.{
  ℕ, zero, suc, ◌-◌, ◌<◌, ◌≤◌, ◌≡◌, ◌≢◌, refl, ap, some, List, [], ◌∷◌, ◌++◌, arith, length, take,
  drop, ok, ◌⊎◌, inl, inr, ◌∙◌,
}
use mathlib.Core.List.{append_assoc}
use simbus.Session.{
  Token, token, Event, reads, Socket, cut_line, skip_blanks, span_token, next_token, chop, buffer,
  tokens_of, receive, leave, send_recv,
}

-- A character that can stand in a token: no blank, no newline, no terminator.
abbrev pub IsWordChar : ℕ → Type 0
IsWordChar c = (c ≢ 32) × (c ≢ 10) × (c ≢ 0)

abbrev pub AllWordChars : List ℕ → Type 0
AllWordChars [] = Unit {0}
AllWordChars (c ∷ cs) = IsWordChar c × AllWordChars cs

-- A token has a character.
abbrev pub IsWord : Token → Type 0
IsWord [] = ⊥
IsWord (c ∷ cs) = IsWordChar c × AllWordChars cs

abbrev pub AllWords : List Token → Type 0
AllWords [] = Unit {0}
AllWords (w ∷ ws) = IsWord w × AllWords ws

-- The words with one blank between neighbours, then `rest`.
abbrev pub join : List Token → List ℕ → List ℕ
join [] rest = rest
join (w ∷ []) rest = w ++ rest
join (w ∷ v ∷ ws) rest = w ++ (32 ∷ join (v ∷ ws) rest)

span_token-append :
    (w : List ℕ) (c : ℕ) (rest : List ℕ)
    → AllWordChars w
    → (c ≡ 32) ⊎ (c ≡ 0)
    → span_token (w ++ (c ∷ rest)) ≡ (w, c ∷ rest)
unfolding span_token
span_token-append [] c rest h e = ground arith
span_token-append (x ∷ w) c rest h e = ground (arith, span_token-append w c rest)

next_token-append :
    (w : Token) (c : ℕ) (rest : List ℕ)
    → IsWord w
    → (c ≡ 32) ⊎ (c ≡ 0)
    → next_token (w ++ (c ∷ rest)) ≡ token w (skip_blanks rest)
unfolding next_token
next_token-append [] c rest h e = absurd h
next_token-append (x ∷ w) c rest h e = ground (arith, span_token-append (x ∷ w) c rest)

skip_blanks-join :
    (w : Token) (ws : List Token) (rest : List ℕ)
    → IsWord w
    → skip_blanks (join (w ∷ ws) rest) ≡ join (w ∷ ws) rest
unfolding skip_blanks
skip_blanks-join [] ws rest h = absurd h
skip_blanks-join (x ∷ w) [] rest h = ground arith
skip_blanks-join (x ∷ w) (v ∷ ws) rest h = ground arith

chop-join :
    (n : ℕ) (w : Token) (ws : List Token) (rest : List ℕ)
    → AllWords (w ∷ ws)
    → length (w ∷ ws) < n
    → chop n (join (w ∷ ws) (0 ∷ 0 ∷ rest)) ≡ some (w ∷ ws)
unfolding chop
chop-join zero w ws rest h fits = absurd (omega arith)
chop-join (suc zero) w ws rest h fits = absurd (omega arith)
chop-join (suc (suc n)) w [] rest h fits =
    rw (next_token-append w 0 (0 ∷ rest) h.0 (inr refl), chop) refl
chop-join (suc (suc n)) w (v ∷ ws) rest h fits = ground (
  arith,
  next_token-append w 32 (join (v ∷ ws) (0 ∷ 0 ∷ rest)) h.0 (inl refl),
  skip_blanks-join v ws (0 ∷ 0 ∷ rest) h.1.0,
  chop-join (suc n) v ws rest h.1 (omega arith),
)

cut_line-append :
    (w rest : List ℕ) {line : List ℕ}
    → AllWordChars w
    → cut_line rest ≡ some line
    → cut_line (w ++ rest) ≡ some (w ++ line)
unfolding cut_line
cut_line-append [] rest h e = e
cut_line-append (c ∷ w) rest h e = ground (arith, cut_line-append w rest h.1 e)

word_chars : (w : Token) → IsWord w → AllWordChars w
word_chars [] h = absurd h
word_chars (c ∷ w) h = h

cut_line-join :
    (ws : List Token) (rest : List ℕ)
    → AllWords ws
    → cut_line (join ws (10 ∷ rest)) ≡ some (join ws (0 ∷ rest))
unfolding cut_line
cut_line-join [] rest h = refl
cut_line-join (w ∷ []) rest h = cut_line-append w (10 ∷ rest) (word_chars w h.0) refl
cut_line-join (w ∷ v ∷ ws) rest h =
    cut_line-append w (32 ∷ join (v ∷ ws) (10 ∷ rest)) (word_chars w h.0)
      (ground (arith, cut_line-join (v ∷ ws) rest h.1))

join-append : (ws : List Token) (xs ys : List ℕ) → join ws xs ++ ys ≡ join ws (xs ++ ys)
join-append [] xs ys = refl
join-append (w ∷ []) xs ys = append_assoc w xs ys
join-append (w ∷ v ∷ ws) xs ys =
    append_assoc w (32 ∷ join (v ∷ ws) xs) ys ∙ ap (λ t. w ++ (32 ∷ t)) (join-append (v ∷ ws) xs ys)

-- The line of a response, as the server sends it.
abbrev pub line_of : List Token → List ℕ
line_of ws = join ws (10 ∷ [])

tokens_of-line :
    (max : ℕ) (text : List ℕ) (w : Token) (ws : List Token)
    → AllWords (w ∷ ws)
    → length (w ∷ ws) < max
    → tokens_of max text (line_of (w ∷ ws)) ≡ some (w ∷ ws)
unfolding tokens_of buffer
tokens_of-line max text w ws h fits =
    let stale = drop (length (line_of (w ∷ ws))) text in
    rw (join-append (w ∷ ws) (10 ∷ []) (0 ∷ stale), cut_line-join (w ∷ ws) (0 ∷ stale) h, tokens_of)
      (rw (skip_blanks-join w ws (0 ∷ 0 ∷ stale) h.0) (chop-join max w ws stale h fits))

pub take-all : (n : ℕ) (xs : List ℕ) → length xs ≤ n → take n xs ≡ xs
take-all zero [] h = refl
take-all zero (x ∷ xs) h = absurd (omega arith)
take-all (suc n) [] h = refl
take-all (suc n) (x ∷ xs) h = ap (λ t. x ∷ t) (take-all n xs (omega arith))

pub drop-all : (n : ℕ) (xs : List ℕ) → length xs ≤ n → drop n xs ≡ []
drop-all zero [] h = refl
drop-all zero (x ∷ xs) h = absurd (omega arith)
drop-all (suc n) [] h = refl
drop-all (suc n) (x ∷ xs) h = drop-all n xs (omega arith)

receive-line :
    (max : ℕ) (text : List ℕ) (w : Token) (ws : List Token) (s : Socket)
    → AllWords (w ∷ ws)
    → length (w ∷ ws) < max
    → receive max text (line_of (w ∷ ws)) s ≡ ok (w ∷ ws) s
unfolding receive
receive-line max text [] ws s h fits = absurd h.0
receive-line max text (c ∷ w) [] s h fits =
    rw (tokens_of-line max text (c ∷ w) [] h fits, receive) refl
receive-line max text (c ∷ w) (v ∷ ws) s h fits =
    rw (tokens_of-line max text (c ∷ w) (v ∷ ws) h fits, receive) refl

-- One exchange: whatever was sent, a response line of words that fits the buffer and `argv` comes
-- back as exactly those words, the message is sent, and the later events are left as they were.
pub send_recv-line :
    (size max : ℕ) (text : List ℕ) (w : Token) (ws : List Token) (events : List Event) (s : Socket)
    → s.incoming ≡ reads (line_of (w ∷ ws)) ∷ events
    → AllWords (w ∷ ws)
    → length (w ∷ ws) < max
    → length (line_of (w ∷ ws)) < size
    → send_recv size max text s ≡ ok (w ∷ ws) (record s { incoming = events; sent = text ∷ s.sent })
unfolding send_recv
send_recv-line size max text w ws events s e h fits room =
    let line = line_of (w ∷ ws) in
    rw (e, send_recv)
      (rw (take-all (size - 1) line (omega arith), drop-all (size - 1) line (omega arith), leave)
        (receive-line max text w ws _ h fits))
