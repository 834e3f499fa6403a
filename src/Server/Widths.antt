-- ===== src/Server/Widths.antt =====
-- The assertions of a step of server/AXI4Protocol.cc against the widths of the signals that its
-- `run_init` first sends.
use simbus.Base.{
  ℕ, zero, suc, ◌/◌, ◌<◌, ◌≡◌, refl, ◌==◌, ltb, Bool, true, not, ◌&&◌, List, [], ◌∷◌, length,
  length-replicate, same_text, arith,
}
use simbus.Wire.{bit_0, bit_z}
use simbus.Session.Text.{codes}
use simbus.Server.{Device, Signals, lookup, receive}
use simbus.Server.Names.{names_of, absent, left_of, right_of, eq_false_of_not}
use simbus.Server.Axi4.{Axi4, Transfer, to_slave, to_master, transfers, master_init, slave_init}
use simbus.Server.Sizes.{all_pass, as_wide, as_wide-length}

abbrev is_known : List ℕ → Signals → Bool
is_known name signals = not (absent name (names_of signals)) && not (same_text name (codes "ACLK"))

abbrev all_known : List Transfer → Signals → Signals → Bool
all_known [] at_slave at_master = true
all_known (to_slave name bits ∷ ts) at_slave at_master =
    is_known name at_slave && all_known ts at_slave at_master
all_known (to_master name bits ∷ ts) at_slave at_master =
    is_known name at_master && all_known ts at_slave at_master

known-length :
    (name : List ℕ) (signals : Signals) (dev : Device)
    → as_wide signals dev ≡ true
    → is_known name signals ≡ true
    → length (receive name dev) ≡ length (lookup [] name signals)
known-length name signals dev h known =
    let there = not (absent name (names_of signals)) in
    let other = not (same_text name (codes "ACLK")) in
    as_wide-length name signals dev h (ground (arith, left_of there other known))
      (eq_false_of_not (same_text name (codes "ACLK")) (right_of there other known))

-- The assertions see the widths of the first signals.
pub all_pass-init :
    (ts : List Transfer) (at_slave at_master : Signals) (master slave : Device)
    → as_wide at_slave master ≡ true
    → as_wide at_master slave ≡ true
    → all_known ts at_slave at_master ≡ true
    → all_pass ts master.client_signals slave.client_signals ≡ all_pass ts at_slave at_master
all_pass-init [] at_slave at_master master slave h k known = refl
all_pass-init (to_slave name bits ∷ ts) at_slave at_master master slave h k known =
    let now = is_known name at_slave in
    let later = all_known ts at_slave at_master in
    rw
      (
        known-length name at_slave master h (left_of now later known),
        all_pass-init ts at_slave at_master master slave h k (right_of now later known),
      )
      refl
all_pass-init (to_master name bits ∷ ts) at_slave at_master master slave h k known =
    let now = is_known name at_master in
    let later = all_known ts at_slave at_master in
    rw
      (
        known-length name at_master slave k (left_of now later known),
        all_pass-init ts at_slave at_master master slave h k (right_of now later known),
      )
      refl

pub transfers_known : (s : Axi4) → all_known (transfers s) (slave_init s) (master_init s) ≡ true
unfolding transfers slave_init master_init
transfers_known s = known_irq s.irq_width refl
  where
    known_irq :
        (n : ℕ) → s.irq_width ≡ n → all_known (transfers s) (slave_init s) (master_init s) ≡ true
    known_irq zero e = rw e refl
    known_irq (suc n) e = rw e refl

width_fits : (n : ℕ) → n < 1025 → ((n == n) && ltb n 1025) ≡ true
width_fits n h = ground arith

-- What is left of the assertions: ARID is asked for the width of the write ID.
read_id :
    (w r : ℕ) (rest : Bool) → r < 1025 → rest ≡ true → (((r == w) && ltb r 1025) && rest) ≡ (w == r)
read_id w r rest h k = ground (arith, k)

pub transfers_pass :
    (s : Axi4)
    → s.data_width < 1025
    → s.addr_width < 1025
    → s.wid_width < 1025
    → s.rid_width < 1025
    → s.irq_width < 1025
    → all_pass (transfers s) (slave_init s) (master_init s) ≡ (s.wid_width == s.rid_width)
unfolding transfers slave_init master_init lookup
transfers_pass s d a w r i = pass_irq s.irq_width refl
  where
    widths : Bool → Bool
    widths last =
        ((s.addr_width == s.addr_width) && ltb s.addr_width 1025)
        && (((s.wid_width == s.wid_width) && ltb s.wid_width 1025)
            && (((s.data_width == s.data_width) && ltb s.data_width 1025)
                && (((s.data_width / 8 == s.data_width / 8) && ltb (s.data_width / 8) 1025)
                    && (((s.wid_width == s.wid_width) && ltb s.wid_width 1025)
                        && (((s.addr_width == s.addr_width) && ltb s.addr_width 1025)
                            && (((s.rid_width == s.wid_width) && ltb s.rid_width 1025)
                                && (((s.data_width == s.data_width) && ltb s.data_width 1025)
                                    && (((s.rid_width == s.rid_width) && ltb s.rid_width 1025)
                                        && last))))))))

    widths_equal : (last : Bool) → last ≡ true → widths last ≡ (s.wid_width == s.rid_width)
    widths_equal last h =
        rw
          (
            width_fits s.addr_width a,
            width_fits s.wid_width w,
            width_fits s.data_width d,
            width_fits (s.data_width / 8) (omega arith),
            width_fits s.rid_width r,
          )
          (read_id s.wid_width s.rid_width last r h)

    pass_irq :
        (n : ℕ)
        → s.irq_width ≡ n
        → all_pass (transfers s) (slave_init s) (master_init s) ≡ (s.wid_width == s.rid_width)
    pass_irq zero e = rw e (
        rw
          (
            length-replicate s.data_width bit_z,
            length-replicate s.addr_width bit_z,
            length-replicate (s.data_width / 8) bit_z,
            length-replicate s.wid_width bit_0,
            length-replicate s.rid_width bit_0,
          )
          (widths_equal true refl))
    pass_irq (suc n) e = rw e (
        rw
          (
            length-replicate s.data_width bit_z,
            length-replicate s.addr_width bit_z,
            length-replicate (s.data_width / 8) bit_z,
            length-replicate s.wid_width bit_0,
            length-replicate s.rid_width bit_0,
            length-replicate n bit_z,
          )
          (widths_equal (((suc n == suc n) && ltb (suc n) 1025) && true) (ground (arith, e))))
