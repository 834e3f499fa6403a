-- ===== src/Server/Pcie.antt =====
-- server/PCIeTLP.cc: the server's side of a PCIe link.
use simbus.Base.{ℕ, Option, none, some, List, [], ◌∷◌, replicate, if◌then◌else◌, ok, fault, Cmd}
use simbus.Wire.{bit_1, bit_x}
use simbus.Wire.Time.{init_time}
use simbus.Session.Text.{codes}
use simbus.Server.{
  Map, Signals, assign, lookup, Device, receive, send, send_all, ends, is_traceable,
}
use simbus.Server.Clock.{Clock, clock_phases, advance_bus_clock, bus_clk}

-- `PCIeTLP`; the time is that of the base class.
pub record Pcie : Type 0 where
  pub clock : Clock
  pub master : Device
  pub slave : Device

-- What `run_init` sends to the master first.
unfoldable pub master_init : Signals
master_init =
    (codes "user_clk", bit_1 ∷ [])
    ∷ (codes "m_axis_rx_tready", bit_x ∷ [])
    ∷ (codes "s_axis_tx_tdata", replicate 64 bit_x)
    ∷ (codes "s_axis_tx_tkeep", replicate 8 bit_x)
    ∷ (codes "s_axis_tx_tlast", bit_1 ∷ [])
    ∷ (codes "s_axis_tx_tvalid", bit_x ∷ [])
    ∷ (codes "s_axis_tx_user", replicate 22 bit_x)
    ∷ []

-- What `run_init` sends to the slave first.
unfoldable pub slave_init : Signals
slave_init =
    (codes "user_clk", bit_1 ∷ [])
    ∷ (codes "user_reset", bit_1 ∷ [])
    ∷ (codes "user_lnk_up", bit_1 ∷ [])
    ∷ (codes "tx_buf_av", replicate 6 bit_1)
    ∷ (codes "m_axis_rx_tdata", replicate 64 bit_x)
    ∷ (codes "m_axis_rx_tkeep", replicate 8 bit_x)
    ∷ (codes "m_axis_rx_tlast", bit_1 ∷ [])
    ∷ (codes "m_axis_rx_tvalid", bit_x ∷ [])
    ∷ (codes "s_axis_tx_tready", bit_x ∷ [])
    ∷ []

-- The constructor, and `run_init` for the two devices of the map; `none` is a failed assertion.
unfoldable pub start : Map (List ℕ) → Device → Device → Option Pcie
unfolding clock_phases ends send_all master_init slave_init
start options dev0 dev1 = elim (clock_phases options) [
  | none ↦ none
  | some phase_map ↦ elim (ends dev0 dev1) [
    | none ↦ none
    | some (master, slave) ↦ some (record {
      clock = record { phase = 0; phase_map = phase_map; time = init_time };
      master = send_all master_init master;
      slave = send_all slave_init slave;
    })
  ]
]

-- tmp = from.client_signals[name]; to.send_signals[name] = tmp, for each of the names; `none` is
-- the assertion of `set_trace_` on `tmp`.
unfoldable pub forward : List (List ℕ) → Device → Device → Option Device
unfolding assign lookup is_traceable
forward [] from to = some to
forward (name ∷ names) from to =
    let rest = forward names from (send name (receive name from) to) in
    if is_traceable (receive name from) then rest else none

-- The signals that `run_run` takes from the master to the slave.
abbrev pub slave_names : List (List ℕ)
slave_names =
    codes "user_reset"
    ∷ codes "user_lnk_up"
    ∷ codes "tx_buf_av"
    ∷ codes "m_axis_rx_tdata"
    ∷ codes "m_axis_rx_tkeep"
    ∷ codes "m_axis_rx_tlast"
    ∷ codes "m_axis_rx_tvalid"
    ∷ codes "s_axis_tx_tready"
    ∷ []

-- The signals that `run_run` takes from the slave to the master.
abbrev pub master_names : List (List ℕ)
master_names =
    codes "m_axis_rx_tready"
    ∷ codes "s_axis_tx_tdata"
    ∷ codes "s_axis_tx_tkeep"
    ∷ codes "s_axis_tx_tlast"
    ∷ codes "s_axis_tx_tvalid"
    ∷ codes "s_axis_tx_tuser"
    ∷ []

unfoldable pub finish_run : Clock → Option Device → Option Device → Cmd Pcie (Unit {0})
finish_run clock (some master) (some slave) p =
    ok tt (record { clock = clock; master = master; slave = slave })
finish_run clock (some master) none p = fault
finish_run clock none slave p = fault

-- `run_run`. The clock signals have the one bit that `run_init` gives them.
unfoldable pub run_run : Cmd Pcie (Unit {0})
unfolding advance_bus_clock bus_clk assign forward finish_run
run_run p =
    let clock = advance_bus_clock p.clock in
    let clk = bus_clk clock ∷ [] in
    finish_run clock (forward master_names p.slave (send (codes "user_clk") clk p.master))
      (forward slave_names p.master (send (codes "user_clk") clk p.slave)) p
