-- ===== src/Axi4/Slave/Traces.antt =====
-- Runs of the state machines in libsimbus/simbus_axi4_slave.c from a reset on, edge by edge, against
-- a master that may drive anything, and the handshakes that such a run has seen.
use simbus.Base.{
  ℕ, suc, ◌≡◌, ◌∙◌, inl, inr, refl, ap, sym, subst, if◌then◌else◌, Bool-cases, ok, ◌&&◌, and-false,
  Holds,
}
use simbus.Wire.{Bit, bit_1, is_bit}
use simbus.Axi4.{Bus}
use simbus.Axi4.Slave.{do_reset}
use simbus.Axi4.Slave.Machine.{Device, Slave, slave_machine}
use simbus.Axi4.Slave.Phases.{
  WritePhase, wait_address, wait_data, wait_response, ReadPhase, wait_request, wait_taken, InWrite,
  InRead, next_write, next_read, Prompt, slave_machine-refines,
}

-- The transfers of each channel since the reset.
pub record Counts : Type 0 where
  pub addresses : ℕ
  pub words : ℕ
  pub responses : ℕ
  pub requests : ℕ
  pub results : ℕ

abbrev pub none_yet : Counts
none_yet = record { addresses = 0; words = 0; responses = 0; requests = 0; results = 0 }

-- One more where both sides of a handshake are 1.
abbrev pub tick : Bit → Bit → ℕ → ℕ
tick ready valid n = if is_bit valid bit_1 && is_bit ready bit_1 then suc n else n

abbrev pub count : Bus → Counts → Counts
count b c = record {
  addresses = tick b.awready b.aw.valid c.addresses;
  words = tick b.wready b.wvalid c.words;
  responses = tick b.bvalid b.bready c.responses;
  requests = tick b.arready b.ar.valid c.requests;
  results = tick b.rvalid b.rready c.results;
}

abbrev pub driven_write : Bus → Bit × (Bit × Bit)
driven_write b = (b.awready, (b.wready, b.bvalid))

abbrev pub driven_read : Bus → Bit × Bit
driven_read b = (b.arready, b.rvalid)

-- The master, and the rest of the system, may change all but what the slave drives.
abbrev pub SameDriven : Bus → Bus → Type 0
SameDriven b b' = (driven_write b ≡ driven_write b') × (driven_read b ≡ driven_read b')

-- The master takes a response at once: it keeps BREADY at 1 while BVALID is 1.
abbrev pub TakesResponse : Bus → Type 0
TakesResponse b = b.bvalid ≡ bit_1 → b.bready ≡ bit_1

module _ {D : Type 0} (dev : Device D) where
  pub data Reach : Slave D → Counts → Type 0 where
    started : (s : Slave D) → Reach (record s { bus = do_reset s.bus }) none_yet
    edge :
        (s : Slave D) (b : Bus) (s' : Slave D) (c : Counts)
        → Reach s c
        → SameDriven s.bus b
        → TakesResponse b
        → slave_machine dev (record s { bus = b }) ≡ ok tt s'
        → Reach s' (count b c)

-- What has been transferred in each phase.
abbrev pub InFlight : WritePhase → Counts → Type 0
InFlight wait_address c = (c.addresses ≡ c.words) × (c.words ≡ c.responses)
InFlight wait_data c = (c.addresses ≡ suc c.words) × (c.words ≡ c.responses)
InFlight wait_response c = (c.addresses ≡ c.words) × (c.words ≡ suc c.responses)

abbrev pub InFlightRead : ReadPhase → Counts → Type 0
InFlightRead wait_request c = c.requests ≡ c.results
InFlightRead wait_taken c = c.requests ≡ suc c.results

-- The signals and the counts are those of some phase.
pub record Sound (b : Bus) (c : Counts) : Type 0 where
  pub write_phase : WritePhase
  pub read_phase : ReadPhase
  pub in_write : InWrite write_phase b
  pub in_read : InRead read_phase b
  pub in_flight : InFlight write_phase c
  pub in_flight_read : InFlightRead read_phase c

InFlight-count :
    (phase : WritePhase) (b : Bus) (c : Counts)
    → InWrite phase b
    → Prompt phase b
    → InFlight phase c
    → InFlight (next_write phase b) (count b c)
unfolding next_write
InFlight-count wait_address b c h p (i, j) =
    let no_data = and-false (is_bit b.wvalid bit_1) in
    let no_answer = and-false (is_bit b.bready bit_1) in
    let a = ap (λ t. t.0) h in
    let d = ap (λ t. t.1.0) h in
    let v = ap (λ t. t.1.1) h in
    elim (Bool-cases (is_bit b.aw.valid bit_1)) [
      | inl e ↦ rw (e, a, d, v, no_data, no_answer) (ap suc i, j)
      | inr e ↦ rw (e, d, v, no_data, no_answer) (i, j)
    ]
InFlight-count wait_data b c h p (i, j) =
    let no_answer = and-false (is_bit b.bready bit_1) in
    let no_address = and-false (is_bit b.aw.valid bit_1) in
    let a = ap (λ t. t.0) h in
    let d = ap (λ t. t.1.0) h in
    let v = ap (λ t. t.1.1) h in
    elim (Bool-cases (is_bit b.wvalid bit_1)) [
      | inl e ↦ rw (e, a, d, v, no_address, no_answer) (i, ap suc j)
      | inr e ↦ rw (e, a, v, no_address, no_answer) (i, j)
    ]
InFlight-count wait_response b c h p (i, j) =
    let no_address = and-false (is_bit b.aw.valid bit_1) in
    let no_data = and-false (is_bit b.wvalid bit_1) in
    let a = ap (λ t. t.0) h in
    let d = ap (λ t. t.1.0) h in
    let v = ap (λ t. t.1.1) h in rw (p, a, d, v, no_address, no_data) (i, j)

InFlightRead-count :
    (phase : ReadPhase) (b : Bus) (c : Counts)
    → InRead phase b
    → InFlightRead phase c
    → InFlightRead (next_read phase b) (count b c)
unfolding next_read
InFlightRead-count wait_request b c h i =
    let no_result = and-false (is_bit b.rready bit_1) in
    let a = ap (λ t. t.0) h in
    let v = ap (λ t. t.1) h in
    elim (Bool-cases (is_bit b.ar.valid bit_1)) [
      | inl e ↦ rw (e, a, v, no_result) (ap suc i)
      | inr e ↦ rw (e, v, no_result) i
    ]
InFlightRead-count wait_taken b c h i =
    let no_request = and-false (is_bit b.ar.valid bit_1) in
    let a = ap (λ t. t.0) h in
    let v = ap (λ t. t.1) h in
    elim (Bool-cases (is_bit b.rready bit_1)) [
      | inl e ↦ rw (e, a, v, no_request) i
      | inr e ↦ rw (e, a, no_request) i
    ]

Prompt-in : (phase : WritePhase) (b : Bus) → InWrite phase b → TakesResponse b → Prompt phase b
Prompt-in wait_address b h t = tt
Prompt-in wait_data b h t = tt
Prompt-in wait_response b h t = t (ap (λ t. t.1.1) h)

-- One edge keeps the signals and the counts in step.
Sound-edge :
    {D : Type 0} (dev : Device D) (s : Slave D) (b : Bus) (s' : Slave D) (c : Counts)
    → Sound s.bus c
    → SameDriven s.bus b
    → TakesResponse b
    → slave_machine dev (record s { bus = b }) ≡ ok tt s'
    → Sound s'.bus (count b c)
Sound-edge dev s b s' c h same takes e =
    let w : InWrite h.write_phase b = sym same.0 ∙ h.in_write in
    let r : InRead h.read_phase b = sym same.1 ∙ h.in_read in
    let p = Prompt-in h.write_phase b w takes in
    let moved =
      subst
        (Holds (λ _ t.
          InWrite (next_write h.write_phase b) t.bus × InRead (next_read h.read_phase b) t.bus))
        e
        (slave_machine-refines dev (record s { bus = b }) h.write_phase h.read_phase w r p).holds in
    record {
      write_phase = next_write h.write_phase b;
      read_phase = next_read h.read_phase b;
      in_write = moved.0;
      in_read = moved.1;
      in_flight = InFlight-count h.write_phase b c w p h.in_flight;
      in_flight_read = InFlightRead-count h.read_phase b c r h.in_flight_read;
    }

-- After a reset and any number of rising edges, whatever the master drives as long as it takes a
-- response at once, exactly one of AWREADY, WREADY and BVALID is 1 and exactly one of ARREADY and
-- RVALID, and the transfers match: each write has had one address, one word and one response, but
-- for the one under way, and each read one request and one result, but for the one under way.
pub Reach-Sound :
    {D : Type 0} (dev : Device D) (s : Slave D) (c : Counts) → Reach dev s c → Sound s.bus c
unfolding do_reset
Reach-Sound dev _ _ (started s) = record {
  write_phase = wait_address;
  read_phase = wait_request;
  in_write = refl;
  in_read = refl;
  in_flight = (refl, refl);
  in_flight_read = refl;
}
Reach-Sound dev _ _ (edge s b s' c before same takes e) =
    Sound-edge dev s b s' c (Reach-Sound dev s c before) same takes e
