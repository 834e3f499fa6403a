-- ===== src/Axi4/Slave/Phases.antt =====
-- The phases of a write and of a read that the handshake signals of libsimbus/simbus_axi4_slave.c
-- stand for, and what moves the state machines from one to the next.
use simbus.Base.{
  ◌≡◌, ◌∙◌, inl, inr, refl, ap, if◌then◌else◌, not, ◌&&◌, and-false, Bool-cases, After, After-map,
}
use simbus.Wire.{Bit, bit_0, bit_1, is_bit}
use simbus.Axi4.{Bus}
use simbus.Axi4.Write.{Resp}
use simbus.Axi4.Slave.Machine.{Device, Slave, Next, sample, slave_machine}
use simbus.Axi4.Slave.Signals.{
  address_next, data_next, response_next, read_next, done_next, after_data, settled,
  slave_machine-lem,
}

-- A write waits for its address, for its data, or for the master to take the response.
pub data WritePhase : Type 0 where
  wait_address wait_data wait_response : WritePhase

-- A read waits for its address, or for the master to take the data.
pub data ReadPhase : Type 0 where
  wait_request wait_taken : ReadPhase

-- AWREADY, WREADY and BVALID, and ARREADY and RVALID, in each phase.
abbrev pub write_signals : WritePhase → Bit × (Bit × Bit)
write_signals wait_address = (bit_1, (bit_0, bit_0))
write_signals wait_data = (bit_0, (bit_1, bit_0))
write_signals wait_response = (bit_0, (bit_0, bit_1))

abbrev pub read_signals : ReadPhase → Bit × Bit
read_signals wait_request = (bit_1, bit_0)
read_signals wait_taken = (bit_0, bit_1)

abbrev pub InWrite : WritePhase → Bus → Type 0
InWrite phase b = (b.awready, (b.wready, b.bvalid)) ≡ write_signals phase

abbrev pub InRead : ReadPhase → Bus → Type 0
InRead phase b = (b.arready, b.rvalid) ≡ read_signals phase

-- The phase after a rising edge: the master's side of the handshake of the phase moves it on.
unfoldable pub next_write : WritePhase → Bus → WritePhase
next_write wait_address b = if is_bit b.aw.valid bit_1 then wait_data else wait_address
next_write wait_data b = if is_bit b.wvalid bit_1 then wait_response else wait_data
next_write wait_response b = if is_bit b.bready bit_1 then wait_address else wait_response

unfoldable pub next_read : ReadPhase → Bus → ReadPhase
next_read wait_request b = if is_bit b.ar.valid bit_1 then wait_taken else wait_request
next_read wait_taken b = if is_bit b.rready bit_1 then wait_request else wait_taken

-- The master takes a response at once.
abbrev pub Prompt : WritePhase → Bus → Type 0
Prompt wait_response b = b.bready ≡ bit_1
Prompt _ b = Unit {0}

abbrev write_of : Next → Bit × (Bit × Bit)
write_of n = (n.awready, (n.wready, n.bvalid))

abbrev read_of : Next → Bit × Bit
read_of n = (n.arready, n.rvalid)

write_of-read_next : (r : Resp) (b : Bus) (n : Next) → write_of (read_next r b n) ≡ write_of n
unfolding read_next
write_of-read_next r b n =
    elim (Bool-cases (is_bit b.ar.valid bit_1 && not (is_bit b.arready bit_0))) [
      | inl e ↦ rw e refl
      | inr e ↦ rw e refl
    ]

write_of-done_next : (b : Bus) (n : Next) → write_of (done_next b n) ≡ write_of n
unfolding done_next
write_of-done_next b n = elim (Bool-cases (is_bit b.rvalid bit_1 && is_bit b.rready bit_1)) [
  | inl e ↦ rw e refl
  | inr e ↦ rw e refl
]

-- The write channel after its own stages.
abbrev written : Resp → Bus → Next
written w b = response_next b (data_next w b (address_next b (sample b)))

write_step :
    (w : Resp) (phase : WritePhase) (b : Bus)
    → InWrite phase b
    → Prompt phase b
    → write_of (written w b) ≡ write_signals (next_write phase b)
unfolding address_next data_next response_next next_write
write_step w wait_address b h p =
    let no_data = and-false (is_bit b.wvalid bit_1) in
    let a = ap (λ t. t.0) h in
    let d = ap (λ t. t.1.0) h in
    let v = ap (λ t. t.1.1) h in
    elim (Bool-cases (is_bit b.aw.valid bit_1)) [
      | inl e ↦ rw (e, a, d, v, no_data) refl
      | inr e ↦ rw (e, a, d, v, no_data) refl
    ]
write_step w wait_data b h p =
    let no_address = and-false (is_bit b.aw.valid bit_1) in
    let a = ap (λ t. t.0) h in
    let d = ap (λ t. t.1.0) h in
    let v = ap (λ t. t.1.1) h in
    elim (Bool-cases (is_bit b.wvalid bit_1)) [
      | inl e ↦ rw (e, a, d, v, no_address) refl
      | inr e ↦ rw (e, a, d, v, no_address) refl
    ]
write_step w wait_response b h p =
    let no_address = and-false (is_bit b.aw.valid bit_1) in
    let no_data = and-false (is_bit b.wvalid bit_1) in
    let a = ap (λ t. t.0) h in
    let d = ap (λ t. t.1.0) h in
    let v = ap (λ t. t.1.1) h in rw (p, a, d, v, no_address, no_data) refl

read_step :
    (r : Resp) (phase : ReadPhase) (b : Bus) (n : Next)
    → InRead phase b
    → read_of n ≡ (b.arready, b.rvalid)
    → read_of (done_next b (read_next r b n)) ≡ read_signals (next_read phase b)
unfolding read_next done_next next_read
read_step r wait_request b n h same =
    let a = ap (λ t. t.0) h in
    let v = ap (λ t. t.1) h in
    elim (Bool-cases (is_bit b.ar.valid bit_1)) [
      | inl e ↦ rw (e, a, v) refl
      | inr e ↦ rw (e, v) (same ∙ h)
    ]
read_step r wait_taken b n h same =
    let no_request = and-false (is_bit b.ar.valid bit_1) in
    let a = ap (λ t. t.0) h in
    let v = ap (λ t. t.1) h in
    elim (Bool-cases (is_bit b.rready bit_1)) [
      | inl e ↦ rw (e, v) refl
      | inr e ↦ rw (e, a, v, no_request) (same ∙ h)
    ]

read_of-address_next : (b : Bus) (n : Next) → read_of (address_next b n) ≡ read_of n
unfolding address_next
read_of-address_next b n = elim (Bool-cases (is_bit b.aw.valid bit_1 && is_bit b.awready bit_1)) [
  | inl e ↦ rw e refl
  | inr e ↦ rw e (elim (Bool-cases (is_bit b.awready bit_0 && is_bit b.wready bit_0)) [
    | inl f ↦ rw f refl
    | inr f ↦ rw f refl
  ])
]

read_of-data_next : (w : Resp) (b : Bus) (n : Next) → read_of (data_next w b n) ≡ read_of n
unfolding data_next
read_of-data_next w b n = elim (Bool-cases (is_bit b.wvalid bit_1 && is_bit b.wready bit_1)) [
  | inl e ↦ rw e refl
  | inr e ↦ rw e refl
]

read_of-response_next : (b : Bus) (n : Next) → read_of (response_next b n) ≡ read_of n
unfolding response_next
read_of-response_next b n = elim (Bool-cases (is_bit b.bvalid bit_1 && is_bit b.bready bit_1)) [
  | inl e ↦ rw e refl
  | inr e ↦ rw e refl
]

read_of-written : (w : Resp) (b : Bus) → read_of (written w b) ≡ (b.arready, b.rvalid)
read_of-written w b =
    read_of-response_next b (data_next w b (address_next b (sample b)))
    ∙ read_of-data_next w b (address_next b (sample b))
    ∙ read_of-address_next b (sample b)

-- A rising edge out of reset moves the phase of the write and that of the read on by the master's
-- side of their handshakes and by nothing else, whatever the master drives and the device answers,
-- if the machine returns and the master takes a response at once.
pub slave_machine-refines :
    {D : Type 0} (dev : Device D) (s : Slave D) (write : WritePhase) (read : ReadPhase)
    → InWrite write s.bus
    → InRead read s.bus
    → Prompt write s.bus
    → After
        (λ _ s'. InWrite (next_write write s.bus) s'.bus × InRead (next_read read s.bus) s'.bus)
        (slave_machine dev s)
unfolding settled after_data
slave_machine-refines dev s write read w r p = After-map _ _ _ (slave_machine-lem dev s) (λ _ s' g.
    let n = written g.0 s.bus in
    let m = read_next g.1 s.bus n in
    (
      ap (λ b. (b.awready, (b.wready, b.bvalid))) g.3
          ∙ write_of-done_next s.bus m
          ∙ write_of-read_next g.1 s.bus n
          ∙ write_step g.0 write s.bus w p,
      ap (λ b. (b.arready, b.rvalid)) g.3
          ∙ read_step g.1 read s.bus n r (read_of-written g.0 s.bus),
    ))
