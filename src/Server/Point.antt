-- ===== src/Server/Point.antt =====
-- server/PointToPoint.cc: the server's side of a point-to-point bus.
use simbus.Base.{
  ℕ, zero, suc, ◌%◌, ◌^◌, ◌==◌, if◌then◌else◌, Option, none, some, List, [], ◌∷◌, set_bit,
  replicate,
}
use simbus.Wire.{Bit, bit_0, bit_1, bit_z, is_bit}
use simbus.Wire.Time.{init_time}
use simbus.Session.Text.{codes}
use simbus.Server.{Map, lookup, assign, Device, receive, send, ends}
use simbus.Server.Clock.{Clock, clock_phases, advance_bus_clock, bus_clk}

-- `clock_mode_t`
pub data ClockMode : Type 0 where
  clock_run clock_stop_0 clock_stop_1 clock_stop_z : ClockMode

-- `PointToPoint`; the time is that of the base class.
pub record Point : Type 0 where
  pub clock : Clock
  pub master_clock_mode : ClockMode
  pub wid_o : ℕ
  pub wid_i : ℕ
  pub master : Device
  pub slave : Device

-- The widths that the options ask for, as `unsigned`. `strtoul_0` is strtoul(_, 0, 0) of the C
-- library.
unfoldable pub option_width : (List ℕ → ℕ) → List ℕ → ℕ → ℕ
option_width strtoul_0 [] width = width
option_width strtoul_0 (c ∷ text) width = strtoul_0 (c ∷ text) % 2 ^ 32

unfoldable pub widths : (List ℕ → ℕ) → Map (List ℕ) → ℕ × ℕ
unfolding option_width lookup
widths strtoul_0 options =
    let both = option_width strtoul_0 (lookup [] (codes "WIDTH") options) 0 in
    (
      option_width strtoul_0 (lookup [] (codes "WIDTH_I") options) both,
      option_width strtoul_0 (lookup [] (codes "WIDTH_O") options) both,
    )

-- The first signals of the two ends, in `run_init`.
unfoldable pub init_signals : Point → Point
unfolding assign
init_signals p = record p {
  master =
      send (codes "DATA_I") (replicate p.wid_i bit_z) (send (codes "CLOCK") (bit_1 ∷ []) p.master);
  slave =
      send (codes "DATA_O") (replicate p.wid_o bit_z) (send (codes "CLOCK") (bit_1 ∷ []) p.slave);
}

-- The constructor, and `run_init` for the two devices of the map; `none` is a failed assertion.
unfoldable pub start : (List ℕ → ℕ) → Map (List ℕ) → Device → Device → Option Point
unfolding clock_phases widths init_signals ends
start strtoul_0 options dev0 dev1 = elim (clock_phases options) [
  | none ↦ none
  | some phase_map ↦
      let (wid_i, wid_o) = widths strtoul_0 options in
      elim (ends dev0 dev1) [
        | none ↦ none
        | some (master, slave) ↦ some (
            init_signals (record {
              clock = record { phase = 0; phase_map = phase_map; time = init_time };
              master_clock_mode = clock_run;
              wid_o = wid_o;
              wid_i = wid_i;
              master = master;
              slave = slave;
            }))
      ]
]

-- The CLOCK of the slave.
unfoldable pub slave_clk : ClockMode → Bit → Bit
slave_clk clock_run clk = clk
slave_clk clock_stop_0 clk = bit_0
slave_clk clock_stop_1 clk = bit_1
slave_clk clock_stop_z clk = bit_z

-- The word that the bits of CLOCK_MODE give, from bit `idx` on.
unfoldable pub mode_word : ℕ → List Bit → ℕ → ℕ
mode_word idx [] val = val
mode_word idx (b ∷ bits) val =
    mode_word (suc idx) bits (if is_bit b bit_1 then set_bit val idx else val)

unfoldable pub mode_of : ℕ → ClockMode
mode_of val =
    if val == 1
    then clock_stop_0
    else if val == 2
    then clock_stop_1
    else if val == 3
    then clock_stop_z
    else clock_run

-- `width` bits of `source`, from `idx` on, with BIT_Z where it has none.
unfoldable pub copy_bits : ℕ → List Bit → List Bit
copy_bits zero source = []
copy_bits (suc width) [] = bit_z ∷ copy_bits width []
copy_bits (suc width) (b ∷ source) = b ∷ copy_bits width source

-- `run_run`. The clock signals have the one bit that `run_init` gives them, and CLOCK_MODE has at
-- most 32.
unfoldable pub run_run : Point → Point
unfolding advance_bus_clock bus_clk slave_clk mode_of mode_word copy_bits lookup assign
run_run p =
    let clock = advance_bus_clock p.clock in
    let clk = bus_clk clock in
    let master = send (codes "CLOCK") (clk ∷ []) p.master in
    let slave = send (codes "CLOCK") (slave_clk p.master_clock_mode clk ∷ []) p.slave in
    record p {
      clock = clock;
      master_clock_mode = mode_of (mode_word 0 (receive (codes "CLOCK_MODE") p.master) 0);
      master = send (codes "DATA_I") (copy_bits p.wid_i (receive (codes "DATA_I") p.slave)) master;
      slave = send (codes "DATA_O") (copy_bits p.wid_o (receive (codes "DATA_O") p.master)) slave;
    }
