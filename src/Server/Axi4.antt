-- ===== src/Server/Axi4.antt =====
-- server/AXI4Protocol.cc: the server's side of an AXI4 bus, a state that `run_run` carries through
-- its assertions.
use simbus.Base.{
  ℕ, zero, suc, ◌/◌, ◌%◌, ◌^◌, ◌==◌, if◌then◌else◌, ◌&&◌, Option, none, some, List, [], ◌∷◌, ◌++◌,
  length, replicate, Cmd, ok, fault, ◌>>◌,
}
use simbus.Wire.{Bit, bit_0, bit_1, bit_z}
use simbus.Wire.Time.{init_time}
use simbus.Session.Text.{codes}
use simbus.Server.{
  Map, Signals, lookup, assign, Device, receive, send, send_all, ends, is_traceable,
}
use simbus.Server.Clock.{Clock, clock_phases, advance_bus_clock, bus_clk}

-- `AXI4Protocol`; the time is that of the base class.
pub record Axi4 : Type 0 where
  pub data_width : ℕ
  pub addr_width : ℕ
  pub wid_width : ℕ
  pub rid_width : ℕ
  pub irq_width : ℕ
  pub master : Device
  pub slave : Device
  pub clock : Clock

-- The value of a width, or what stands for 0.
unfoldable pub width_or : ℕ → ℕ → ℕ
width_or default width = if width == 0 then default else width

-- What `run_init` sends to the master first. `tmp_resp` is 0: its second loop was meant for
-- `tmp_lock`.
unfoldable pub master_init : Axi4 → Signals
master_init s =
    let z = bit_z ∷ [] in
    (codes "ACLK", bit_1 ∷ [])
    ∷ (codes "AWREADY", z)
    ∷ (codes "WREADY", z)
    ∷ (codes "BVALID", z)
    ∷ (codes "BRESP", replicate 2 bit_0)
    ∷ (codes "BID", replicate s.wid_width bit_0)
    ∷ (codes "ARREADY", z)
    ∷ (codes "RVALID", z)
    ∷ (codes "RDATA", replicate s.data_width bit_z)
    ∷ (codes "RRESP", replicate 2 bit_0)
    ∷ (codes "RID", replicate s.rid_width bit_0)
    ∷ (codes "IRQ", replicate s.irq_width bit_z)
    ∷ []

-- The signals of an address channel, by its prefix, and the bits of its ID.
unfoldable pub address_init : List ℕ → List Bit → Axi4 → Signals
address_init prefix id s =
    (prefix ++ codes "VALID", bit_z ∷ [])
    ∷ (prefix ++ codes "ADDR", replicate s.addr_width bit_z)
    ∷ (prefix ++ codes "LEN", replicate 8 bit_z)
    ∷ (prefix ++ codes "SIZE", replicate 3 bit_0)
    ∷ (prefix ++ codes "BURST", replicate 2 bit_0)
    ∷ (prefix ++ codes "LOCK", replicate 2 bit_0)
    ∷ (prefix ++ codes "CACHE", replicate 4 bit_0)
    ∷ (prefix ++ codes "PROT", replicate 3 bit_0)
    ∷ (prefix ++ codes "QOS", replicate 4 bit_z)
    ∷ (prefix ++ codes "ID", id)
    ∷ []

-- What `run_init` sends to the slave first. A `bit_state_t` that is not set is BIT_0, as
-- `tmp_lock` and `tmp_cache` are.
unfoldable pub slave_init : Axi4 → Signals
unfolding address_init
slave_init s =
    (codes "ACLK", bit_1 ∷ [])
    ∷ (codes "ARESETn", bit_1 ∷ [])
    ∷ (address_init (codes "AW") (replicate s.wid_width bit_0) s
        ++ ((codes "WVALID", bit_z ∷ [])
            ∷ (codes "WDATA", replicate s.data_width bit_z)
            ∷ (codes "WSTRB", replicate (s.data_width / 8) bit_z)
            ∷ (codes "BREADY", bit_z ∷ [])
            ∷ (address_init (codes "AR") (replicate s.rid_width bit_0) s
                ++ ((codes "RREADY", bit_z ∷ []) ∷ []))))

unfoldable pub init_signals : Axi4 → Axi4
unfolding send_all master_init slave_init
init_signals s = record s {
  master = send_all (master_init s) s.master;
  slave = send_all (slave_init s) s.slave;
}

-- The constructor and `wrap_up_configuration`, for the two ends of the bus. `strtoul_0` is
-- strtoul(_, 0, 0) of the C library.
unfoldable pub configure : (List ℕ → ℕ) → Map (List ℕ) → Device → Device → Option Axi4
unfolding clock_phases width_or lookup
configure strtoul_0 options master slave =
    let width : List ℕ → ℕ = λ key. strtoul_0 (lookup [] key options) % 2 ^ 32 in
    elim (clock_phases options) [
      | none ↦ none
      | some phase_map ↦ some (record {
        data_width = width_or 32 (width (codes "data_width"));
        addr_width = width_or 32 (width (codes "addr_width"));
        wid_width = width_or 4 (width (codes "wid_width"));
        rid_width = width (codes "rid_width");
        irq_width = width (codes "irq_width");
        master = master;
        slave = slave;
        clock = record { phase = 0; phase_map = phase_map; time = init_time };
      })
    ]

-- `configure`, and `run_init` for the two devices of the map; `none` is a failed assertion.
unfoldable pub start : (List ℕ → ℕ) → Map (List ℕ) → Device → Device → Option Axi4
unfolding configure init_signals ends
start strtoul_0 options dev0 dev1 = elim (ends dev0 dev1) [
  | none ↦ none
  | some (master, slave) ↦ elim (configure strtoul_0 options master slave) [
    | none ↦ none
    | some s ↦ some (init_signals s)
  ]
]

-- `run_master_to_slave_`, with the assertion of `set_trace_`; for one bit there is none.
unfoldable pub run_master_to_slave : List ℕ → ℕ → Cmd Axi4 (Unit {0})
unfolding lookup assign is_traceable
run_master_to_slave name bits s =
    let tmp = receive name s.master in
    if (length tmp == bits) && is_traceable tmp
    then ok tt (record s { slave = send name tmp s.slave })
    else fault

-- `run_slave_to_master_`, likewise.
unfoldable pub run_slave_to_master : List ℕ → ℕ → Cmd Axi4 (Unit {0})
unfolding lookup assign is_traceable
run_slave_to_master name bits s =
    let tmp = receive name s.slave in
    if (length tmp == bits) && is_traceable tmp
    then ok tt (record s { master = send name tmp s.master })
    else fault

-- The ACLK of both devices, after `advance_bus_clock_`. It has the one bit that `run_init` gives it.
unfoldable pub clocked : Axi4 → Axi4
unfolding advance_bus_clock bus_clk assign
clocked s =
    let clock = advance_bus_clock s.clock in
    let clk = bus_clk clock ∷ [] in
    record s {
      clock = clock;
      master = send (codes "ACLK") clk s.master;
      slave = send (codes "ACLK") clk s.slave;
    }

-- One call of `run_master_to_slave_` or of `run_slave_to_master_`.
pub data Transfer : Type 0 where
  to_slave to_master : List ℕ → ℕ → Transfer

unfoldable pub run_transfer : Transfer → Cmd Axi4 (Unit {0})
unfolding run_master_to_slave run_slave_to_master
run_transfer (to_slave name bits) = run_master_to_slave name bits
run_transfer (to_master name bits) = run_slave_to_master name bits

unfoldable pub run_transfers : List Transfer → Cmd Axi4 (Unit {0})
unfolding run_transfer
run_transfers [] = ok tt
run_transfers (t ∷ ts) = run_transfer t >> run_transfers ts

unfoldable pub write_transfers : Axi4 → List Transfer
write_transfers s =
    to_slave (codes "ARESETn") 1
    ∷ to_slave (codes "AWVALID") 1
    ∷ to_master (codes "AWREADY") 1
    ∷ to_slave (codes "AWADDR") s.addr_width
    ∷ to_slave (codes "AWLEN") 8
    ∷ to_slave (codes "AWSIZE") 3
    ∷ to_slave (codes "AWBURST") 2
    ∷ to_slave (codes "AWLOCK") 2
    ∷ to_slave (codes "AWCACHE") 4
    ∷ to_slave (codes "AWPROT") 3
    ∷ to_slave (codes "AWQOS") 4
    ∷ to_slave (codes "AWID") s.wid_width
    ∷ to_slave (codes "WVALID") 1
    ∷ to_master (codes "WREADY") 1
    ∷ to_slave (codes "WDATA") s.data_width
    ∷ to_slave (codes "WSTRB") (s.data_width / 8)
    ∷ to_master (codes "BVALID") 1
    ∷ to_slave (codes "BREADY") 1
    ∷ to_master (codes "BRESP") 2
    ∷ to_master (codes "BID") s.wid_width
    ∷ []

-- The read channels; ARID is asked for the width of the write ID.
unfoldable pub read_transfers : Axi4 → List Transfer
read_transfers s =
    to_slave (codes "ARVALID") 1
    ∷ to_master (codes "ARREADY") 1
    ∷ to_slave (codes "ARADDR") s.addr_width
    ∷ to_slave (codes "ARLEN") 8
    ∷ to_slave (codes "ARSIZE") 3
    ∷ to_slave (codes "ARBURST") 2
    ∷ to_slave (codes "ARLOCK") 2
    ∷ to_slave (codes "ARCACHE") 4
    ∷ to_slave (codes "ARPROT") 3
    ∷ to_slave (codes "ARQOS") 4
    ∷ to_slave (codes "ARID") s.wid_width
    ∷ to_master (codes "RVALID") 1
    ∷ to_slave (codes "RREADY") 1
    ∷ to_master (codes "RDATA") s.data_width
    ∷ to_master (codes "RRESP") 2
    ∷ to_master (codes "RID") s.rid_width
    ∷ []

unfoldable pub irq_transfers : Axi4 → List Transfer
irq_transfers s = elim s.irq_width [ zero ↦ [] | suc n ↦ to_master (codes "IRQ") (suc n) ∷ [] ]

-- What `run_run` moves, in its order.
unfoldable pub transfers : Axi4 → List Transfer
unfolding write_transfers read_transfers irq_transfers
transfers s = write_transfers s ++ (read_transfers s ++ irq_transfers s)

-- `run_run`
unfoldable pub run_run : Cmd Axi4 (Unit {0})
unfolding clocked run_transfers transfers
run_run s = run_transfers (transfers s) (clocked s)
