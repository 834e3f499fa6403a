-- ===== src/Session/Store.antt =====
-- What a connection still has in store for `__simbus_server_send_recv`, libsimbus/simbus.c.
use simbus.Base.{
  ℕ, zero, suc, ◌+◌, ◌-◌, ◌<◌, ◌≤◌, ◌≡◌, ◌⊎◌, inl, inr, refl, List, [], ◌∷◌, arith, length, drop,
  take, Option-cases, Ends,
}
use simbus.Session.{
  Event, write_fails, write_short, read_fails, reads, Socket, Token, tokens_of, receive, leave,
  exchange, send_recv,
}

-- How much an event holds, and all of the events.
abbrev pub weight : Event → ℕ
weight write_fails = 1
weight write_short = 1
weight read_fails = 1
weight (reads bytes) = suc (length bytes)

abbrev pub budget : List Event → ℕ
budget [] = 0
budget (e ∷ es) = weight e + budget es

length-drop : (n : ℕ) (xs : List ℕ) → length (drop n xs) ≡ length xs - n
length-drop zero xs = omega arith
length-drop (suc n) [] = omega arith
length-drop (suc n) (x ∷ xs) = omega (arith, length-drop n xs)

budget-leave :
    (n : ℕ) (bytes : List ℕ) (es : List Event)
    → 0 < n
    → budget (leave n bytes es) < weight (reads bytes) + budget es
unfolding leave
budget-leave n bytes es h = ground (arith, length-drop n bytes)

-- What is left of a store of `n` after an exchange.
abbrev pub Spent : ℕ → List Token → Socket → Type 0
Spent n words s' = ((words ≡ []) × (budget s'.incoming ≤ n)) ⊎ (budget s'.incoming < n)

receive-Spent :
    (max : ℕ) (text chunk : List ℕ) (n : ℕ) (s' : Socket)
    → budget s'.incoming < n
    → Ends (Spent n) (receive max text chunk s')
unfolding receive
receive-Spent max text [] n s' h = inl (refl, omega arith)
receive-Spent max text (b ∷ chunk) n s' h = elim (Option-cases (tokens_of max text (b ∷ chunk))) [
  | inl e ↦ rw (e, receive) tt
  | inr (words, e) ↦ rw (e, receive) (inr h)
]

exchange-Spent :
    (size max : ℕ) (text : List ℕ) (s : Socket) (events : List Event)
    → budget s.incoming ≤ budget events
    → 1 < size
    → Ends (Spent (budget events)) (exchange events size max text s)
unfolding exchange
exchange-Spent size max text s [] e h = inl (refl, e)
exchange-Spent size max text s (write_fails ∷ es) e h = inl (refl, omega arith)
exchange-Spent size max text s (write_short ∷ es) e h = tt
exchange-Spent size max text s (read_fails ∷ es) e h = tt
exchange-Spent size max text s (reads bytes ∷ es) e h =
    receive-Spent max text (take (size - 1) bytes) (budget (reads bytes ∷ es))
      (record s { incoming = leave (size - 1) bytes es; sent = text ∷ s.sent })
      (budget-leave (size - 1) bytes es (omega arith))

-- An exchange with a buffer of at least two bytes ends, and leaves less in store unless it brings
-- no tokens.
pub send_recv-Spent :
    (size max : ℕ) (text : List ℕ) (s : Socket)
    → 1 < size
    → Ends (Spent (budget s.incoming)) (send_recv size max text s)
unfolding send_recv
send_recv-Spent size max text s h = exchange-Spent size max text s s.incoming (omega arith) h
