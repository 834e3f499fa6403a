-- ===== src/Server/Clock.antt =====
-- The bus clock of server/PointToPoint.cc, which server/AXI4Protocol.cc repeats: four phases, the
-- first two of them high, and their lengths in picoseconds.
use simbus.Base.{
  ℕ, ◌+◌, ◌-◌, ◌%◌, ◌^◌, ◌<◌, ◌≡◌, refl, arith, ltb, if◌then◌else◌, ◌&&◌, Option, none, some, List,
  [], ◌∷◌, get_or, negsuc,
}
use simbus.Wire.{Bit, bit_0, bit_1}
use simbus.Wire.Time.{Time, strtoul}
use simbus.Session.Text.{codes}
use simbus.Server.{Map, lookup, add_time, steps_down, scale, lower}

-- `phase_` and `clock_phase_map_`, with the time of the bus.
pub record Clock : Type 0 where
  pub phase : ℕ
  pub phase_map : List ℕ
  pub time : Time

-- strtoul(b->options[key].c_str(), 0, 10)
abbrev pub option : List ℕ → Map (List ℕ) → ℕ
option key options = (strtoul (lookup [] key options)).0

-- The lengths of the phases for the high and low times, the hold and the setup.
unfoldable pub phases : ℕ → ℕ → ℕ → ℕ → Option (List ℕ)
phases hold high setup low =
    if ltb 0 hold && ltb hold high && ltb 0 setup && ltb setup low
    then some (hold ∷ (high - hold) ∷ (low - setup) ∷ setup ∷ [])
    else none

-- What the constructor reads from the options; `none` is a failed assertion.
unfoldable pub clock_phases : Map (List ℕ) → Option (List ℕ)
unfolding phases
clock_phases options =
    phases (option (codes "CLOCK_hold") options) (option (codes "CLOCK_high") options)
      (option (codes "CLOCK_setup") options) (option (codes "CLOCK_low") options)

-- `advance_bus_clock_`
unfoldable pub advance_bus_clock : Clock → Clock
unfolding add_time
advance_bus_clock c =
    let phase = (c.phase + 1) % 4 in
    let length : Time = record { mant = get_or c.phase_map phase 0; exp = negsuc 11 } in
    record c { phase = phase; time = add_time c.time length }

-- phase_/2 ? BIT_0 : BIT_1
unfoldable pub bus_clk : Clock → Bit
bus_clk c = if ltb c.phase 2 then bit_1 else bit_0

-- The next four advances.
abbrev pub period : Clock → Clock
period c = advance_bus_clock (advance_bus_clock (advance_bus_clock (advance_bus_clock c)))

add_time-same :
    (m n : ℕ)
    → add_time (record { mant = m; exp = negsuc 11 }) (record { mant = n; exp = negsuc 11 })
      ≡ record { mant = (m + n) % 2 ^ 64; exp = negsuc 11 }
unfolding add_time steps_down scale lower
add_time-same m n = refl

pub advance_bus_clock-time :
    (phase m : ℕ) (phase_map : List ℕ)
    → m + get_or phase_map ((phase + 1) % 4) 0 < 2 ^ 64
    → advance_bus_clock (record {
      phase = phase;
      phase_map = phase_map;
      time = record { mant = m; exp = negsuc 11 };
    })
      ≡ record {
        phase = (phase + 1) % 4;
        phase_map = phase_map;
        time = record { mant = m + get_or phase_map ((phase + 1) % 4) 0; exp = negsuc 11 };
      }
unfolding advance_bus_clock
advance_bus_clock-time phase m phase_map h =
    let fits : (m + get_or phase_map ((phase + 1) % 4) 0) % 2 ^ 64
        ≡ m + get_or phase_map ((phase + 1) % 4) 0 =
      omega arith in
    rw (add_time-same m (get_or phase_map ((phase + 1) % 4) 0), fits) refl
