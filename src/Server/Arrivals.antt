-- ===== src/Server/Arrivals.antt =====
-- What a step of server/PCIeTLP.cc sends to the two ends of the link.
use simbus.Base.{
  ℕ, ◌≡◌, refl, subst, Bool-cases, inl, inr, ◌%◌, ◌+◌, ltb, if◌then◌else◌, true, Bool, ◌&&◌, some,
  List, [], ◌∷◌, same_text, ◌∙◌, length, arith, Returns,
}
use simbus.Wire.{bit_0, bit_1}
use simbus.Session.Text.{codes}
use simbus.Server.{Device, Signals, lookup, receive, send, sent, is_traceable}
use simbus.Server.Clock.{advance_bus_clock, bus_clk}
use simbus.Server.Forward.{lookup-assign, lookup-assign_ne, eq_of_same_text}
use simbus.Server.Names.{absent, left_of, right_of}
use simbus.Server.Pcie.{Pcie, forward, slave_names, master_names, finish_run, run_run}

-- Every signal of a client has at most 1024 bits.
abbrev pub are_traceable : Signals → Bool
are_traceable [] = true
are_traceable ((name, val) ∷ signals) = ltb (length val) 1025 && are_traceable signals

receive-is_traceable :
    (key : List ℕ) (signals : Signals)
    → are_traceable signals ≡ true
    → is_traceable (lookup [] key signals) ≡ true
unfolding is_traceable lookup
receive-is_traceable key [] h = refl
receive-is_traceable key ((name, val) ∷ signals) h =
    let first = left_of (ltb (length val) 1025) (are_traceable signals) h in
    let rest =
      receive-is_traceable key signals
        (right_of (ltb (length val) 1025) (are_traceable signals) h) in
    ground (arith, first, rest)

pub behind :
    (key name : List ℕ) (names : List (List ℕ)) (from to : Device)
    → (if absent key names then sent key (send name (receive name from) to) else receive key from)
      ≡ (if absent key (name ∷ names) then sent key to else receive key from)
behind key name names from to = elim (Bool-cases (same_text name key)) [
  | inl same ↦
      let here : sent key (send name (receive name from) to) ≡ receive key from =
        subst (λ k. sent k (send name (receive name from) to) ≡ receive k from)
          (eq_of_same_text name key same)
          (lookup-assign [] name (receive name from) to.send_signals) in
      ground (arith, same, here)
  | inr other ↦
      ground (arith, other, lookup-assign_ne [] key name (receive name from) to.send_signals other)
]

-- The signals are taken over from one end to the other, and no others.
forward-all :
    (names : List (List ℕ)) (from to : Device)
    → are_traceable from.client_signals ≡ true
    → (to' : Device) × (forward names from to ≡ some to')
      × ((key : List ℕ)
          → sent key to' ≡ (if absent key names then sent key to else receive key from))
unfolding forward
forward-all [] from to h = (to, refl, λ key. refl)
forward-all (name ∷ names) from to h =
    let (to', e, told) = forward-all names from (send name (receive name from) to) h in
    (
      to',
      rw (receive-is_traceable name from.client_signals h) e,
      λ key. told key ∙ behind key name names from to,
    )

-- The step from `p` to `q`, signal by signal.
pub record Link (p q : Pcie) : Type 0 where
  pub slave_clk :
      sent (codes "user_clk") q.slave
      ≡ (if ltb ((p.clock.phase + 1) % 4) 2 then bit_1 else bit_0) ∷ []
  pub master_clk :
      sent (codes "user_clk") q.master
      ≡ (if ltb ((p.clock.phase + 1) % 4) 2 then bit_1 else bit_0) ∷ []
  pub user_reset : sent (codes "user_reset") q.slave ≡ receive (codes "user_reset") p.master
  pub user_lnk_up : sent (codes "user_lnk_up") q.slave ≡ receive (codes "user_lnk_up") p.master
  pub tx_buf_av : sent (codes "tx_buf_av") q.slave ≡ receive (codes "tx_buf_av") p.master
  -- The receive stream, with its ready signal the other way.
  pub m_axis_rx_tdata :
      sent (codes "m_axis_rx_tdata") q.slave ≡ receive (codes "m_axis_rx_tdata") p.master
  pub m_axis_rx_tkeep :
      sent (codes "m_axis_rx_tkeep") q.slave ≡ receive (codes "m_axis_rx_tkeep") p.master
  pub m_axis_rx_tlast :
      sent (codes "m_axis_rx_tlast") q.slave ≡ receive (codes "m_axis_rx_tlast") p.master
  pub m_axis_rx_tvalid :
      sent (codes "m_axis_rx_tvalid") q.slave ≡ receive (codes "m_axis_rx_tvalid") p.master
  pub m_axis_rx_tready :
      sent (codes "m_axis_rx_tready") q.master ≡ receive (codes "m_axis_rx_tready") p.slave
  -- The transmit stream, likewise.
  pub s_axis_tx_tdata :
      sent (codes "s_axis_tx_tdata") q.master ≡ receive (codes "s_axis_tx_tdata") p.slave
  pub s_axis_tx_tkeep :
      sent (codes "s_axis_tx_tkeep") q.master ≡ receive (codes "s_axis_tx_tkeep") p.slave
  pub s_axis_tx_tlast :
      sent (codes "s_axis_tx_tlast") q.master ≡ receive (codes "s_axis_tx_tlast") p.slave
  pub s_axis_tx_tvalid :
      sent (codes "s_axis_tx_tvalid") q.master ≡ receive (codes "s_axis_tx_tvalid") p.slave
  pub s_axis_tx_tuser :
      sent (codes "s_axis_tx_tuser") q.master ≡ receive (codes "s_axis_tx_tuser") p.slave
  pub s_axis_tx_tready :
      sent (codes "s_axis_tx_tready") q.slave ≡ receive (codes "s_axis_tx_tready") p.master

-- If no signal that a client drives has more than 1024 bits, a step of the PCIe link returns. It
-- sends the reset, the link state, the free buffers and the receive stream of the master to the
-- slave and the transmit stream of the slave to the master, with the ready signal of each stream
-- the other way, each signal as the client gave it. Both ends get the clock, high in the phases 0
-- and 1 and low in 2 and 3.
pub run_run-Link :
    (p : Pcie)
    → are_traceable p.master.client_signals ≡ true
    → are_traceable p.slave.client_signals ≡ true
    → Returns (λ u q. Link p q) (run_run p)
unfolding run_run advance_bus_clock bus_clk finish_run
run_run-Link p h k =
    let clk = bus_clk (advance_bus_clock p.clock) ∷ [] in
    let (slave, e, s) = forward-all slave_names p.master (send (codes "user_clk") clk p.slave) h in
    let (master, f, m) =
      forward-all master_names p.slave (send (codes "user_clk") clk p.master) k in
    rw (e, f)
      (record {
        slave_clk =
            s (codes "user_clk") ∙ lookup-assign [] (codes "user_clk") clk p.slave.send_signals;
        master_clk =
            m (codes "user_clk") ∙ lookup-assign [] (codes "user_clk") clk p.master.send_signals;
        user_reset = s (codes "user_reset");
        user_lnk_up = s (codes "user_lnk_up");
        tx_buf_av = s (codes "tx_buf_av");
        m_axis_rx_tdata = s (codes "m_axis_rx_tdata");
        m_axis_rx_tkeep = s (codes "m_axis_rx_tkeep");
        m_axis_rx_tlast = s (codes "m_axis_rx_tlast");
        m_axis_rx_tvalid = s (codes "m_axis_rx_tvalid");
        s_axis_tx_tready = s (codes "s_axis_tx_tready");
        m_axis_rx_tready = m (codes "m_axis_rx_tready");
        s_axis_tx_tdata = m (codes "s_axis_tx_tdata");
        s_axis_tx_tkeep = m (codes "s_axis_tx_tkeep");
        s_axis_tx_tlast = m (codes "s_axis_tx_tlast");
        s_axis_tx_tvalid = m (codes "s_axis_tx_tvalid");
        s_axis_tx_tuser = m (codes "s_axis_tx_tuser");
      })
