-- ===== src/Server/Tests.antt =====
-- Runs of the buses of server/PointToPoint.cc, server/AXI4Protocol.cc and server/PCIeTLP.cc, and
-- the theorems about them at concrete inputs.
use simbus.Base.{
  ℕ, ◌≡◌, refl, arith, true, false, some, fault, Returns, List, [], ◌∷◌, replicate, set_bit,
}
use simbus.Wire.{bit_0, bit_1, bit_x, bit_z}
use simbus.Wire.Time.{strtoul, init_time}
use simbus.Session.Text.{codes}
use simbus.Server.{Map, Signals, lookup, Device, sent}
use simbus.Server.Clock.{clock_phases, phases, period}
use simbus.Server.Period.{at, period-phases}
use simbus.Server.Point.{Point, run_run, clock_stop_0, clock_stop_z}
use simbus.Server.Axi4.{Axi4, slave_init, master_init}
use simbus.Server.Axi4
use simbus.Server.Channels.{Runs, run_run-Runs}
use simbus.Server.Pcie.{Pcie}
use simbus.Server.Pcie
use simbus.Server.Arrivals.{Link, run_run-Link}

abbrev options : Map (List ℕ)
options =
    (codes "CLOCK_high", codes "16000")
    ∷ (codes "CLOCK_hold", codes "2000")
    ∷ (codes "CLOCK_low", codes "14000")
    ∷ (codes "CLOCK_setup", codes "4000")
    ∷ (codes "WIDTH", codes "3")
    ∷ []

clock_phases_run : clock_phases options ≡ some (2000 ∷ 14000 ∷ 10000 ∷ 4000 ∷ [])
unfolding clock_phases strtoul lookup
clock_phases_run = refl

phases_run : phases 2000 16000 4000 14000 ≡ some (2000 ∷ 14000 ∷ 10000 ∷ 4000 ∷ [])
unfolding phases
phases_run = refl

period_example :
    period (at 3 (2000 ∷ 14000 ∷ 10000 ∷ 4000 ∷ []) 7)
    ≡ at 3 (2000 ∷ 14000 ∷ 10000 ∷ 4000 ∷ []) 30007
period_example =
    period-phases 2000 16000 4000 14000 3 7 (2000 ∷ 14000 ∷ 10000 ∷ 4000 ∷ []) phases_run
      (omega arith) (omega arith)

-- A device before its client has connected.
abbrev plug : Device
plug = record {
  name = codes "dev";
  host_flag = false;
  ident = 0;
  ready_flag = false;
  exited_flag = false;
  ready_time = init_time;
  outgoing = [];
  client_signals = [];
  send_signals = [];
}

abbrev host : Device
host = record plug {
  host_flag = true;
  client_signals =
      (codes "DATA_O", bit_1 ∷ bit_x ∷ []) ∷ (codes "CLOCK_MODE", bit_1 ∷ bit_0 ∷ []) ∷ [];
  send_signals = [];
}

abbrev other : Device
other = record plug {
  host_flag = false;
  client_signals = (codes "DATA_I", bit_0 ∷ bit_1 ∷ bit_1 ∷ bit_1 ∷ []) ∷ [];
  send_signals = [];
}

abbrev point : Point
point = record {
  clock = at 0 (2000 ∷ 14000 ∷ 10000 ∷ 4000 ∷ []) 0;
  master_clock_mode = clock_stop_z;
  wid_o = 3;
  wid_i = 3;
  master = host;
  slave = other;
}

-- The slave's clock is stopped, its data is padded with Z, and the master's is cut.
forward_runs :
    (sent (codes "DATA_O") (run_run point).slave ≡ bit_1 ∷ bit_x ∷ bit_z ∷ [])
    × (sent (codes "DATA_I") (run_run point).master ≡ bit_0 ∷ bit_1 ∷ bit_1 ∷ [])
    × (sent (codes "CLOCK") (run_run point).slave ≡ bit_z ∷ [])
    × ((run_run point).master_clock_mode ≡ clock_stop_0)
unfolding run_run set_bit
forward_runs = (refl, refl, refl, refl)

-- What an AXI4 master with a read ID of `n` bits sends, on a bus of the smallest widths.
abbrev master_signals : ℕ → Signals
master_signals n =
    (codes "ARESETn", bit_1 ∷ [])
    ∷ (codes "AWVALID", bit_0 ∷ [])
    ∷ (codes "AWADDR", replicate 8 bit_0)
    ∷ (codes "AWLEN", replicate 8 bit_0)
    ∷ (codes "AWSIZE", replicate 3 bit_0)
    ∷ (codes "AWBURST", replicate 2 bit_0)
    ∷ (codes "AWLOCK", replicate 2 bit_0)
    ∷ (codes "AWCACHE", replicate 4 bit_0)
    ∷ (codes "AWPROT", replicate 3 bit_0)
    ∷ (codes "AWQOS", replicate 4 bit_0)
    ∷ (codes "AWID", replicate 4 bit_0)
    ∷ (codes "WVALID", bit_0 ∷ [])
    ∷ (codes "WDATA", replicate 8 bit_0)
    ∷ (codes "WSTRB", bit_0 ∷ [])
    ∷ (codes "BREADY", bit_0 ∷ [])
    ∷ (codes "ARVALID", bit_0 ∷ [])
    ∷ (codes "ARADDR", replicate 8 bit_0)
    ∷ (codes "ARLEN", replicate 8 bit_0)
    ∷ (codes "ARSIZE", replicate 3 bit_0)
    ∷ (codes "ARBURST", replicate 2 bit_0)
    ∷ (codes "ARLOCK", replicate 2 bit_0)
    ∷ (codes "ARCACHE", replicate 4 bit_0)
    ∷ (codes "ARPROT", replicate 3 bit_0)
    ∷ (codes "ARQOS", replicate 4 bit_0)
    ∷ (codes "ARID", replicate n bit_0)
    ∷ (codes "RREADY", bit_0 ∷ [])
    ∷ []

abbrev slave_signals : ℕ → Signals
slave_signals n =
    (codes "AWREADY", bit_0 ∷ [])
    ∷ (codes "WREADY", bit_0 ∷ [])
    ∷ (codes "BVALID", bit_0 ∷ [])
    ∷ (codes "BRESP", replicate 2 bit_0)
    ∷ (codes "BID", replicate 4 bit_0)
    ∷ (codes "ARREADY", bit_0 ∷ [])
    ∷ (codes "RVALID", bit_0 ∷ [])
    ∷ (codes "RDATA", replicate 8 bit_0)
    ∷ (codes "RRESP", replicate 2 bit_0)
    ∷ (codes "RID", replicate n bit_0)
    ∷ []

-- A bus whose read IDs have `n` bits and whose write IDs have 4.
abbrev axi4 : ℕ → Axi4
axi4 n = record {
  data_width = 8;
  addr_width = 8;
  wid_width = 4;
  rid_width = n;
  irq_width = 0;
  master = record plug { host_flag = true; client_signals = master_signals n; send_signals = [] };
  slave = record plug { host_flag = false; client_signals = slave_signals n; send_signals = [] };
  clock = at 0 (2000 ∷ 14000 ∷ 10000 ∷ 4000 ∷ []) 0;
}

-- With read IDs as wide as the write IDs the step returns, otherwise it aborts.
channels_example : Runs true (axi4 4)
unfolding slave_init master_init lookup
channels_example =
    run_run-Runs (axi4 4) refl refl (omega arith) (omega arith) (omega arith) (omega arith)
      (omega arith)

read_ids_abort : Axi4.run_run (axi4 2) ≡ fault
unfolding slave_init master_init lookup
read_ids_abort =
    run_run-Runs (axi4 2) refl refl (omega arith) (omega arith) (omega arith) (omega arith)
      (omega arith)

-- The root complex raises the link and offers the last word of a packet.
abbrev root : Device
root = record plug {
  host_flag = true;
  client_signals =
      (codes "user_lnk_up", bit_1 ∷ [])
      ∷ (codes "m_axis_rx_tvalid", bit_1 ∷ [])
      ∷ (codes "m_axis_rx_tlast", bit_1 ∷ [])
      ∷ [];
  send_signals = [];
}

abbrev endpoint : Device
endpoint = record plug {
  host_flag = false;
  client_signals = (codes "m_axis_rx_tready", bit_0 ∷ []) ∷ [];
  send_signals = [];
}

abbrev pcie : Pcie
pcie = record { clock = at 1 (2000 ∷ 14000 ∷ 10000 ∷ 4000 ∷ []) 0; master = root; slave = endpoint }

pcie_example : Returns (λ u q. Link pcie q) (Pcie.run_run pcie)
pcie_example = run_run-Link pcie refl refl
