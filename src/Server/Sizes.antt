-- ===== src/Server/Sizes.antt =====
-- What a step of server/AXI4Protocol.cc makes of signals that are as wide as its `run_init` first
-- sends them.
use simbus.Base.{
  ℕ, ◌≡◌, refl, sym, subst, ◌∙◌, ◌==◌, ltb, if◌then◌else◌, Bool, true, false, ◌&&◌, ◌||◌, List, [],
  ◌∷◌, length, same_text, arith, ok, fault, and_then, Bool-cases, inl, inr,
}
use simbus.Session.Text.{codes}
use simbus.Server.{Device, Signals, lookup, receive, send, sent, is_traceable}
use simbus.Server.Forward.{eq_of_same_text}
use simbus.Server.Arrivals.{behind}
use simbus.Server.Names.{names_of, absent, left_of, right_of}
use simbus.Server.Axi4.{Axi4, Transfer, to_slave, to_master, run_transfer, run_transfers}

-- The transfers of a list, with no regard to the assertions.
abbrev pub moved : List Transfer → Axi4 → Axi4
moved [] s = s
moved (to_slave name bits ∷ ts) s =
    moved ts (record s { slave = send name (receive name s.master) s.slave })
moved (to_master name bits ∷ ts) s =
    moved ts (record s { master = send name (receive name s.slave) s.master })

-- The assertions of a transfer, for what the two clients drive.
abbrev pub passes : Transfer → Signals → Signals → Bool
passes (to_slave name bits) master slave =
    (length (lookup [] name master) == bits) && ltb (length (lookup [] name master)) 1025
passes (to_master name bits) master slave =
    (length (lookup [] name slave) == bits) && ltb (length (lookup [] name slave)) 1025

abbrev pub all_pass : List Transfer → Signals → Signals → Bool
all_pass [] master slave = true
all_pass (t ∷ ts) master slave = passes t master slave && all_pass ts master slave

gate :
    (c rest : Bool) (s s' : Axi4) (ts : List Transfer)
    → run_transfers ts s ≡ (if rest then ok tt s' else fault)
    → and_then (if c then ok tt s else fault) (λ _. run_transfers ts)
      ≡ (if c && rest then ok tt s' else fault)
gate true rest s s' ts h = h
gate false rest s s' ts h = refl

pub run_transfers-moved :
    (ts : List Transfer) (s : Axi4)
    → run_transfers ts s ≡ (
        if all_pass ts s.master.client_signals s.slave.client_signals
        then ok tt (moved ts s)
        else fault)
unfolding run_transfers run_transfer is_traceable
run_transfers-moved [] s = refl
run_transfers-moved (to_slave name bits ∷ ts) s =
    let s' = record s { slave = send name (receive name s.master) s.slave } in
    gate (passes (to_slave name bits) s.master.client_signals s.slave.client_signals)
      (all_pass ts s.master.client_signals s.slave.client_signals) s' (moved ts s') ts
      (run_transfers-moved ts s')
run_transfers-moved (to_master name bits ∷ ts) s =
    let s' = record s { master = send name (receive name s.slave) s.master } in
    gate (passes (to_master name bits) s.master.client_signals s.slave.client_signals)
      (all_pass ts s.master.client_signals s.slave.client_signals) s' (moved ts s') ts
      (run_transfers-moved ts s')

abbrev pub names_to_slave : List Transfer → List (List ℕ)
names_to_slave [] = []
names_to_slave (to_slave name bits ∷ ts) = name ∷ names_to_slave ts
names_to_slave (to_master name bits ∷ ts) = names_to_slave ts

abbrev pub names_to_master : List Transfer → List (List ℕ)
names_to_master [] = []
names_to_master (to_slave name bits ∷ ts) = names_to_master ts
names_to_master (to_master name bits ∷ ts) = name ∷ names_to_master ts

pub moved-slave :
    (key : List ℕ) (ts : List Transfer) (s : Axi4)
    → sent key (moved ts s).slave
      ≡ (if absent key (names_to_slave ts) then sent key s.slave else receive key s.master)
moved-slave key [] s = refl
moved-slave key (to_slave name bits ∷ ts) s =
    moved-slave key ts (record s { slave = send name (receive name s.master) s.slave })
    ∙ behind key name (names_to_slave ts) s.master s.slave
moved-slave key (to_master name bits ∷ ts) s =
    moved-slave key ts (record s { master = send name (receive name s.slave) s.master })

pub moved-master :
    (key : List ℕ) (ts : List Transfer) (s : Axi4)
    → sent key (moved ts s).master
      ≡ (if absent key (names_to_master ts) then sent key s.master else receive key s.slave)
moved-master key [] s = refl
moved-master key (to_slave name bits ∷ ts) s =
    moved-master key ts (record s { slave = send name (receive name s.master) s.slave })
moved-master key (to_master name bits ∷ ts) s =
    moved-master key ts (record s { master = send name (receive name s.slave) s.master })
    ∙ behind key name (names_to_master ts) s.slave s.master

-- The client drives each of the signals with as many bits as the list gives it; ACLK is the server's.
abbrev pub as_wide : Signals → Device → Bool
as_wide [] dev = true
as_wide ((name, val) ∷ signals) dev =
    (same_text name (codes "ACLK") || (length (receive name dev) == length val))
    && as_wide signals dev

pub as_wide-length :
    (key : List ℕ) (signals : Signals) (dev : Device)
    → as_wide signals dev ≡ true
    → absent key (names_of signals) ≡ false
    → same_text key (codes "ACLK") ≡ false
    → length (receive key dev) ≡ length (lookup [] key signals)
unfolding lookup
as_wide-length key [] dev h k other = absurd (ground arith)
as_wide-length key ((name, val) ∷ signals) dev h k other =
    let check = same_text name (codes "ACLK") || (length (receive name dev) == length val) in
    let first = left_of check (as_wide signals dev) h in
    let rest = as_wide-length key signals dev (right_of check (as_wide signals dev) h) in
    elim (Bool-cases (same_text name key)) [
      | inl same ↦
          let is_key = eq_of_same_text name key same in
          rw same (
            subst (λ n. length (receive n dev) ≡ length val) is_key
              (wide_of (same_text name (codes "ACLK")) (length (receive name dev)) (length val)
                first (subst (λ n. same_text n (codes "ACLK") ≡ false) (sym is_key) other)))
      | inr apart ↦ rw apart (rest (ground arith) other)
    ]
  where
    wide_of : (a : Bool) (m n : ℕ) → (a || (m == n)) ≡ true → a ≡ false → m ≡ n
    wide_of a m n h e = ground arith
