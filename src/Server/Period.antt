-- ===== src/Server/Period.antt =====
-- The period of the bus clock of server/PointToPoint.cc and server/AXI4Protocol.cc.
use simbus.Base.{
  ℕ, zero, suc, ◌+◌, ◌-◌, ◌^◌, ◌%◌, ◌<◌, ◌≡◌, arith, some, List, [], ◌∷◌, get_or, negsuc, ◌∙◌, ap,
  sym, subst,
}
use simbus.Server.Clock.{Clock, phases, period, advance_bus_clock, advance_bus_clock-time}

phases-some :
    (hold high setup low : ℕ) {phase_map : List ℕ}
    → phases hold high setup low ≡ some phase_map
    → (hold < high)
      × (setup < low)
      × (phase_map ≡ hold ∷ (high - hold) ∷ (low - setup) ∷ setup ∷ [])
unfolding phases
phases-some hold high setup low e = ground arith

-- The clock in a phase, at a time in picoseconds.
abbrev pub at : ℕ → List ℕ → ℕ → Clock
at phase phase_map m = record {
  phase = phase;
  phase_map = phase_map;
  time = record { mant = m; exp = negsuc 11 };
}

abbrev next : ℕ → ℕ
next phase = (phase + 1) % 4

-- The length of the phase after `phase`.
abbrev after : List ℕ → ℕ → ℕ
after phase_map phase = get_or phase_map (next phase) 0

advance_bus_clock-at :
    (phase_map : List ℕ) (phase m : ℕ)
    → m + after phase_map phase < 2 ^ 64
    → advance_bus_clock (at phase phase_map m)
      ≡ at (next phase) phase_map (m + after phase_map phase)
advance_bus_clock-at phase_map phase m h = advance_bus_clock-time phase m phase_map h

period-at :
    (l : List ℕ) (p m : ℕ)
    → m + after l p + after l (next p) + after l (next (next p)) + after l (next (next (next p)))
      < 2 ^ 64
    → period (at p l m)
      ≡ at (next (next (next (next p)))) l (
          m
          + after l p
          + after l (next p)
          + after l (next (next p))
          + after l (next (next (next p))))
period-at l p m h =
    ap (λ c. advance_bus_clock (advance_bus_clock (advance_bus_clock c)))
      (advance_bus_clock-at l p m (omega arith))
    ∙ ap (λ c. advance_bus_clock (advance_bus_clock c))
        (advance_bus_clock-at l (next p) (m + after l p) (omega arith))
    ∙ ap advance_bus_clock
        (advance_bus_clock-at l (next (next p)) (m + after l p + after l (next p)) (omega arith))
    ∙ advance_bus_clock-at l (next (next (next p)))
        (m + after l p + after l (next p) + after l (next (next p))) h

period-of :
    (phase a b c d m : ℕ)
    → phase < 4
    → m + (a + b + c + d) < 2 ^ 64
    → period (at phase (a ∷ b ∷ c ∷ d ∷ []) m) ≡ at phase (a ∷ b ∷ c ∷ d ∷ []) (m + (a + b + c + d))
period-of zero a b c d m h fits =
    period-at (a ∷ b ∷ c ∷ d ∷ []) 0 m (omega arith) ∙ ap (at 0 (a ∷ b ∷ c ∷ d ∷ [])) (omega arith)
period-of (suc zero) a b c d m h fits =
    period-at (a ∷ b ∷ c ∷ d ∷ []) 1 m (omega arith) ∙ ap (at 1 (a ∷ b ∷ c ∷ d ∷ [])) (omega arith)
period-of (suc (suc zero)) a b c d m h fits =
    period-at (a ∷ b ∷ c ∷ d ∷ []) 2 m (omega arith) ∙ ap (at 2 (a ∷ b ∷ c ∷ d ∷ [])) (omega arith)
period-of (suc (suc (suc zero))) a b c d m h fits =
    period-at (a ∷ b ∷ c ∷ d ∷ []) 3 m (omega arith) ∙ ap (at 3 (a ∷ b ∷ c ∷ d ∷ [])) (omega arith)
period-of (suc (suc (suc (suc phase)))) a b c d m h fits = absurd (omega arith)

-- With lengths that the constructor accepts, four advances of the bus clock from any phase lead
-- back to that phase, and take the high time and the low time together, as long as the time in
-- picoseconds fits 64 bits.
pub period-phases :
    (hold high setup low phase m : ℕ) (phase_map : List ℕ)
    → phases hold high setup low ≡ some phase_map
    → phase < 4
    → m + (high + low) < 2 ^ 64
    → period (at phase phase_map m) ≡ at phase phase_map (m + (high + low))
period-phases hold high setup low phase m phase_map e h fits =
    let (short_hold, short_setup, lengths) = phases-some hold high setup low e in
    let whole : hold + (high - hold) + (low - setup) + setup ≡ high + low = omega arith in
    subst (λ l. period (at phase l m) ≡ at phase l (m + (high + low))) (sym lengths)
      (subst
        (λ t.
          period (at phase (hold ∷ (high - hold) ∷ (low - setup) ∷ setup ∷ []) m)
          ≡ at phase (hold ∷ (high - hold) ∷ (low - setup) ∷ setup ∷ []) (m + t))
        whole (period-of phase hold (high - hold) (low - setup) setup m h (omega arith)))
