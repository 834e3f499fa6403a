-- ===== src/Server/Channels.antt =====
-- A step of server/AXI4Protocol.cc against the signals that its `run_init` first sends.
use simbus.Base.{
  ℕ, zero, suc, ◌+◌, ◌%◌, ◌<◌, ◌≡◌, refl, sym, ap, subst, ◌∙◌, ◌==◌, ltb, if◌then◌else◌, Bool, true,
  false, ◌&&◌, ◌||◌, List, [], ◌∷◌, same_text, arith, ok, fault, Bool-cases, inl, inr,
}
use simbus.Wire.{Bit, bit_0, bit_1}
use simbus.Session.Text.{codes}
use simbus.Server.{Device, receive, send, sent}
use simbus.Server.Clock.{advance_bus_clock, bus_clk}
use simbus.Server.Forward.{lookup-assign, lookup-assign_ne, eq_of_same_text}
use simbus.Server.Names.{names_of, absent}
use simbus.Server.Axi4.{Axi4, transfers, run_run, clocked, master_init, slave_init}
use simbus.Server.Sizes.{
  moved, run_transfers-moved, names_to_slave, names_to_master, moved-slave, moved-master, all_pass,
  as_wide,
}
use simbus.Server.Widths.{all_pass-init, transfers_known, transfers_pass}

absent-slave :
    (s : Axi4) (name : List ℕ)
    → same_text (codes "ACLK") name ≡ false
    → absent name (names_to_slave (transfers s)) ≡ absent name (names_of (slave_init s))
unfolding transfers slave_init
absent-slave s name other = by_irq s.irq_width refl
  where
    by_irq :
        (n : ℕ)
        → s.irq_width ≡ n
        → absent name (names_to_slave (transfers s)) ≡ absent name (names_of (slave_init s))
    by_irq zero e = rw e (rw other refl)
    by_irq (suc n) e = rw e (rw other refl)

or_false : (a : Bool) → (a || false) ≡ a
or_false true = refl
or_false false = refl

absent-master :
    (s : Axi4) (name : List ℕ)
    → same_text (codes "ACLK") name ≡ false
    → absent name (names_to_master (transfers s)) ≡ (
        absent name (names_of (master_init s))
        || ((s.irq_width == 0) && same_text (codes "IRQ") name))
unfolding transfers master_init
absent-master s name other = by_irq s.irq_width refl
  where
    by_irq :
        (n : ℕ)
        → s.irq_width ≡ n
        → absent name (names_to_master (transfers s)) ≡ (
            absent name (names_of (master_init s))
            || ((s.irq_width == 0) && same_text (codes "IRQ") name))
    by_irq zero e = elim (Bool-cases (same_text (codes "IRQ") name)) [
      | inl same ↦ rw e (
          subst
            (λ k.
              absent k (names_to_master (transfers (record s { irq_width = 0 })))
              ≡ (absent k (names_of (master_init s)) || same_text (codes "IRQ") k))
            (eq_of_same_text (codes "IRQ") name same) refl)
      | inr apart ↦ rw e (rw (other, apart) (sym (or_false _)))
    ]
    by_irq (suc n) e =
        let some_irq : (suc n == 0) ≡ false = ground arith in
        rw e (rw (other, some_irq) (sym (or_false _)))

-- The step from `s` to `q`. Of the signals that `run_init` first sends to an end, ACLK is the clock,
-- the others are as the other client drives them (IRQ only on a bus that has interrupts), and no
-- other signal changes.
abbrev pub Settled : Axi4 → Axi4 → Type 0
Settled s q =
    let clk = (if ltb ((s.clock.phase + 1) % 4) 2 then bit_1 else bit_0) ∷ [] in
    ((name : List ℕ)
      → sent name q.slave ≡ (
          if same_text (codes "ACLK") name
          then clk
          else if absent name (names_of (slave_init s))
          then sent name s.slave
          else receive name s.master))
    × ((name : List ℕ)
        → sent name q.master ≡ (
            if same_text (codes "ACLK") name
            then clk
            else if absent name (names_of (master_init s))
                || ((s.irq_width == 0) && same_text (codes "IRQ") name)
            then sent name s.master
            else receive name s.slave))

-- The step returns, or it aborts.
abbrev pub Runs : Bool → Axi4 → Type 0
Runs true s = (q : Axi4) × (run_run s ≡ ok tt q) × Settled s q
Runs false s = run_run s ≡ fault

run_run-moved :
    (s : Axi4)
    → run_run s ≡ (
        if all_pass (transfers s) s.master.client_signals s.slave.client_signals
        then ok tt (moved (transfers s) (clocked s))
        else fault)
unfolding run_run clocked
run_run-moved s = run_transfers-moved (transfers s) (clocked s)

-- What an end was sent after its clock, by whether the name is among those that are moved.
behind_clock :
    (name : List ℕ) (names : List (List ℕ)) (clk : List Bit) (gone : Bool) (from to : Device)
    → absent (codes "ACLK") names ≡ true
    → (same_text (codes "ACLK") name ≡ false → absent name names ≡ gone)
    → (if absent name names then sent name (send (codes "ACLK") clk to) else receive name from) ≡ (
        if same_text (codes "ACLK") name
        then clk
        else if gone
        then sent name to
        else receive name from)
behind_clock name names clk gone from to free known =
    elim (Bool-cases (same_text (codes "ACLK") name)) [
      | inl same ↦
          let is_clock = eq_of_same_text (codes "ACLK") name same in
          let quiet : absent name names ≡ true = subst (λ n. absent n names ≡ true) is_clock free in
          let here : sent name (send (codes "ACLK") clk to) ≡ clk =
            subst (λ n. sent n (send (codes "ACLK") clk to) ≡ clk) is_clock
              (lookup-assign [] (codes "ACLK") clk to.send_signals) in
          rw (same, quiet) here
      | inr other ↦
          rw (other, known other)
            (ap (λ v. if gone then v else receive name from)
              (lookup-assign_ne [] name (codes "ACLK") clk to.send_signals other))
    ]

clock_free :
    (s : Axi4)
    → (absent (codes "ACLK") (names_to_slave (transfers s)) ≡ true)
      × (absent (codes "ACLK") (names_to_master (transfers s)) ≡ true)
unfolding transfers
clock_free s = by_irq s.irq_width refl
  where
    by_irq :
        (n : ℕ)
        → s.irq_width ≡ n
        → (absent (codes "ACLK") (names_to_slave (transfers s)) ≡ true)
          × (absent (codes "ACLK") (names_to_master (transfers s)) ≡ true)
    by_irq zero e = rw e (refl, refl)
    by_irq (suc n) e = rw e (refl, refl)

moved-Settled : (s : Axi4) → Settled s (moved (transfers s) (clocked s))
unfolding clocked advance_bus_clock bus_clk
moved-Settled s =
    let clk = bus_clk (advance_bus_clock s.clock) ∷ [] in
    (
      λ name.
          moved-slave name (transfers s) (clocked s)
          ∙ behind_clock name (names_to_slave (transfers s)) clk _ s.master s.slave (clock_free s).0
              (absent-slave s name),
      λ name.
          moved-master name (transfers s) (clocked s)
          ∙ behind_clock name (names_to_master (transfers s)) clk _ s.slave s.master
              (clock_free s).1 (absent-master s name),
    )

settle :
    (c : Bool) (s q : Axi4) → Settled s q → run_run s ≡ (if c then ok tt q else fault) → Runs c s
settle true s q h e = (q, e, h)
settle false s q h e = e

-- Let the widths of the bus be below 1025, the size of the buffer for a trace, and let both clients
-- drive each signal with as many bits as `run_init` first sends of it to the other end. If the read
-- and the write IDs are equally wide, a step returns: each end gets the clock, high in the phases 0
-- and 1 and low in 2 and 3, and each of the other signals that `run_init` first sends to it as the
-- client at the other end drives it, IRQ only if the bus has interrupts; no other signal changes.
-- If the IDs differ in width, the step aborts, since ARID is asked for the width of the write ID.
pub run_run-Runs :
    (s : Axi4)
    → as_wide (slave_init s) s.master ≡ true
    → as_wide (master_init s) s.slave ≡ true
    → s.data_width < 1025
    → s.addr_width < 1025
    → s.wid_width < 1025
    → s.rid_width < 1025
    → s.irq_width < 1025
    → Runs (s.wid_width == s.rid_width) s
run_run-Runs s h k d a w r i =
    let ts = transfers s in
    let seen : all_pass ts s.master.client_signals s.slave.client_signals
        ≡ (s.wid_width == s.rid_width) =
      all_pass-init ts (slave_init s) (master_init s) s.master s.slave h k (transfers_known s)
      ∙ transfers_pass s d a w r i in
    settle (s.wid_width == s.rid_width) s (moved ts (clocked s)) (moved-Settled s)
      (run_run-moved s ∙ ap (λ c. if c then ok tt (moved ts (clocked s)) else fault) seen)
