-- ===== src/P2p/Clock.antt =====
-- The clock waits of libsimbus/simbus_p2p.c, by what the connection has in store.
use simbus.Base.{
  ℕ, zero, suc, ◌+◌, ◌<◌, ◌≤◌, ◌≡◌, ◌∙◌, ◌⊎◌, inl, inr, refl, Bool, true, false, ◌||◌, some, List,
  [], ◌∷◌, arith, length, ltb, Bool-cases, Option-cases, ℤ, pos, negsuc, is_negative, Run, ok,
  fault, out_of_fuel, Cmd, Ends-map, Ends, Ends-bind, and_then,
}
use simbus.Wire.{Bit, bit_0, bit_1, is_bit}
use simbus.Session.{Socket, Token, send_recv}
use simbus.Session.Store.{budget, Spent, send_recv-Spent}
use simbus.Session.Reply.{Field, read_reply, finished, until}
use simbus.P2p.{
  Bus, with_socket, on_socket, ready_line, apply_field, apply_fields, answer, send_ready,
  wait_level, edges, clock_posedge, clock_negedge,
}

abbrev pub store : Bus → ℕ
store b = budget b.socket.incoming

socket-apply_field :
    (f : Field) (b : Bus) {b' : Bus} → apply_field f b ≡ some b' → b'.socket ≡ b.socket
unfolding apply_field
socket-apply_field (name, cp) b e = ground arith

socket-apply_fields :
    (fs : List Field) (b : Bus) {b' : Bus} → apply_fields fs b ≡ some b' → b'.socket ≡ b.socket
unfolding apply_fields
socket-apply_fields [] b e = ground arith
socket-apply_fields (f ∷ fs) b {b'} e = elim (Option-cases (apply_field f b)) [
  | inl stop ↦ ground arith
  | inr (b₁, next) ↦
      let rest : apply_fields fs b₁ ≡ some b' = ground arith in
      socket-apply_fields fs b₁ rest ∙ socket-apply_field f b next
]

abbrev pub SameSocket : Bus → ℤ → Bus → Type 0
SameSocket b rc b' = b'.socket ≡ b.socket

answer-SameSocket : (words : List Token) (b : Bus) → Ends (SameSocket b) (answer words b)
unfolding answer
answer-SameSocket words b = elim (Option-cases (read_reply words)) [
  | inl e ↦ rw (e, answer) tt
  | inr (finished, e) ↦ rw (e, answer) refl
  | inr (until time fields, e) ↦
      elim (Option-cases (apply_fields fields (record b { bus_time = time }))) [
        | inl e' ↦ rw (e, answer) (rw (e', answer) tt)
        | inr (b', e') ↦ rw (e, answer) (rw (e', answer) (socket-apply_fields fields _ e'))
      ]
]

answer-nil : (b : Bus) → answer [] b ≡ ok (negsuc 0) b
unfolding answer read_reply
answer-nil b = refl

-- The command's result is negative, or it used up a part of the store.
abbrev Progress : Bus → ℤ → Bus → Type 0
Progress b rc b' = ((is_negative rc ≡ true) × (store b' ≤ store b)) ⊎ (store b' < store b)

answer-Progress :
    (b b' : Bus) (words : List Token)
    → Spent (store b) words b'.socket
    → Ends (Progress b) (answer words b')
answer-Progress b b' words (inl (e, le)) = rw (e, answer-nil b') (inl (refl, le))
answer-Progress b b' words (inr less) =
    Ends-map (SameSocket b') (Progress b) (answer words b') (answer-SameSocket words b')
      λ rc b₂ same. inr (rw same less)

with_socket-Ends :
    {A : Type 0} (r : Run Socket A) (Q : A → Bus → Type 0) (b : Bus)
    → Ends (λ a s. Q a (record b { socket = s })) r
    → Ends Q (with_socket b r)
unfolding with_socket
with_socket-Ends (ok a s) Q b h = h
with_socket-Ends fault Q b h = tt
with_socket-Ends out_of_fuel Q b h = absurd h

on_socket-Ends :
    {A : Type 0} (m : Cmd Socket A) (Q : A → Bus → Type 0) (b : Bus)
    → Ends (λ a s. Q a (record b { socket = s })) (m b.socket)
    → Ends Q (on_socket m b)
unfolding on_socket
on_socket-Ends m Q b h = with_socket-Ends (m b.socket) Q b h

send_ready-Progress : (b : Bus) → Ends (Progress b) (send_ready b)
unfolding send_ready
send_ready-Progress b = elim (Bool-cases (ltb (length (ready_line b)) 4096)) [
  | inr long ↦ rw (long, send_ready) tt
  | inl fits ↦
      rw (fits, send_ready)
        (Ends-bind (λ words b'. Spent (store b) words b'.socket) (Progress b)
          (on_socket (send_recv 4096 2048 (ready_line b)) b) answer
          (on_socket-Ends (send_recv 4096 2048 (ready_line b)) _ b
            (send_recv-Spent 4096 2048 (ready_line b) b.socket (omega arith)))
          λ words b'. answer-Progress b b' words)
]

-- Fuel for the exchanges that the store allows, and for one more round.
abbrev Enough : ℕ → ℤ → Bus → Type 0
Enough fuel rc b = ((is_negative rc ≡ true) × (0 < fuel)) ⊎ (store b + 1 < fuel)

abbrev Waited : Bit → Bus → ℤ → Bus → Type 0
Waited level b rc b' =
    (store b' ≤ store b) × ((is_negative rc ≡ true) ⊎ (is_bit b'.clock level ≡ true))

Progress-Enough :
    (fuel : ℕ) (b b' : Bus) (rc : ℤ) → store b + 1 < suc fuel → Progress b rc b' → Enough fuel rc b'
Progress-Enough fuel b b' rc h (inl neg) = inl (neg.0, omega arith)
Progress-Enough fuel b b' rc h (inr less) = inr (omega arith)

wait_level-stop :
    (fuel : ℕ) (level : Bit) (rc : ℤ) (b : Bus)
    → (is_bit b.clock level || is_negative rc) ≡ true
    → Ends (Waited level b) (wait_level (suc fuel) level rc b)
unfolding wait_level
wait_level-stop fuel level rc b e = rw (e, wait_level) (stopped (is_bit b.clock level) refl)
  where
    stopped : (t : Bool) → is_bit b.clock level ≡ t → Waited level b rc b
    stopped true hit = (omega arith, inr hit)
    stopped false miss = (omega arith, inl (rw miss at e))

Progress-Waited :
    (level : Bit) (b b' b₂ : Bus) (rc rc₂ : ℤ)
    → Progress b rc b'
    → Waited level b' rc₂ b₂
    → Waited level b rc₂ b₂
Progress-Waited level b b' b₂ rc rc₂ (inl (neg, le)) (less, reached) = (omega arith, reached)
Progress-Waited level b b' b₂ rc rc₂ (inr le) (less, reached) = (omega arith, reached)

wait_level-Waited :
    (fuel : ℕ) (level : Bit) (rc : ℤ) (b : Bus)
    → Enough fuel rc b
    → Ends (Waited level b) (wait_level fuel level rc b)
unfolding wait_level
wait_level-Waited zero level rc b (inl h) = absurd (omega arith)
wait_level-Waited zero level rc b (inr h) = absurd (omega arith)
wait_level-Waited (suc fuel) level rc b (inl h) =
    wait_level-stop fuel level rc b (ground (arith, h.0))
wait_level-Waited (suc fuel) level rc b (inr h) =
    elim (Bool-cases (is_bit b.clock level || is_negative rc)) [
      | inl e ↦ wait_level-stop fuel level rc b e
      | inr e ↦
          rw (e, wait_level)
            (Ends-bind (Progress b) (Waited level b) (send_ready b) (wait_level fuel level)
              (send_ready-Progress b)
              λ rc' b' step.
                Ends-map (Waited level b') (Waited level b) (wait_level fuel level rc' b')
                  (wait_level-Waited fuel level rc' b' (Progress-Enough fuel b b' rc' h step))
                  λ rc₂ b₂ w. Progress-Waited level b b' b₂ rc' rc₂ step w)
    ]

Waited-Enough :
    (fuel : ℕ) (level : Bit) (b b' : Bus) (rc : ℤ)
    → store b + 1 < fuel
    → Waited level b rc b'
    → Enough fuel rc b'
Waited-Enough fuel level b b' rc h (le, inl neg) = inl (neg, omega arith)
Waited-Enough fuel level b b' rc h (le, inr hit) = inr (omega arith)

-- After an edge the result is negative, or the clock has the second level.
edge-Waited :
    (fuel : ℕ) (before after : Bit) (rc : ℤ) (b : Bus)
    → store b + 1 < fuel
    → Ends (Waited after b) (and_then (wait_level fuel before rc b) (wait_level fuel after))
edge-Waited fuel before after rc b h =
    Ends-bind (Waited before b) (Waited after b) (wait_level fuel before rc b)
      (wait_level fuel after) (wait_level-Waited fuel before rc b (inr h))
      λ rc' b' w.
        Ends-map (Waited after b') (Waited after b) (wait_level fuel after rc' b')
          (wait_level-Waited fuel after rc' b' (Waited-Enough fuel before b b' rc' h w))
          λ rc₂ b₂ v. (omega arith, v.1)

edges-Waited :
    (fuel : ℕ) (before after : Bit) (cycles : ℕ) (rc : ℤ) (b : Bus)
    → store b + 1 < fuel
    → ((is_negative rc ≡ true) ⊎ (is_bit b.clock after ≡ true)) ⊎ (0 < cycles)
    → Ends (Waited after b) (edges fuel before after cycles rc b)
unfolding edges
edges-Waited fuel before after zero rc b h (inl done) = (omega arith, done)
edges-Waited fuel before after zero rc b h (inr more) = absurd (omega arith)
edges-Waited fuel before after (suc cycles) rc b h start = elim (Bool-cases (is_negative rc)) [
  | inl e ↦ rw (e, edges) (omega arith, inl e)
  | inr e ↦
      rw (e, edges)
        (Ends-bind (Waited after b) (Waited after b)
          (and_then (wait_level fuel before rc b) (wait_level fuel after))
          (edges fuel before after cycles) (edge-Waited fuel before after rc b h)
          λ rc' b' w.
            Ends-map (Waited after b') (Waited after b) (edges fuel before after cycles rc' b')
              (edges-Waited fuel before after cycles rc' b' (omega arith) (inl w.1))
              λ rc₂ b₂ v. (omega arith, v.1))
]

-- `simbus_p2p_clock_posedge`, for at least one cycle, comes to an end whatever the server sends,
-- once the fuel exceeds what the connection has in store by two: unless an assertion fails, the
-- result is negative or the clock is high, and the store has not grown.
pub clock_posedge-Ends :
    (fuel cycles : ℕ) (b : Bus)
    → store b + 1 < fuel
    → 0 < cycles
    → Ends
        (λ rc b'. (store b' ≤ store b) × ((is_negative rc ≡ true) ⊎ (is_bit b'.clock bit_1 ≡ true)))
        (clock_posedge fuel cycles b)
unfolding clock_posedge
clock_posedge-Ends fuel cycles b h more =
    edges-Waited fuel bit_0 bit_1 cycles (pos 0) b h (inr more)

-- `simbus_p2p_clock_negedge`, for at least one cycle, comes to an end whatever the server sends,
-- once the fuel exceeds what the connection has in store by two: unless an assertion fails, the
-- result is negative or the clock is low, and the store has not grown.
clock_negedge-Ends :
    (fuel cycles : ℕ) (b : Bus)
    → store b + 1 < fuel
    → 0 < cycles
    → Ends
        (λ rc b'. (store b' ≤ store b) × ((is_negative rc ≡ true) ⊎ (is_bit b'.clock bit_0 ≡ true)))
        (clock_negedge fuel cycles b)
unfolding clock_negedge
clock_negedge-Ends fuel cycles b h more =
    edges-Waited fuel bit_1 bit_0 cycles (pos 0) b h (inr more)
