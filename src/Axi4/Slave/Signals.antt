-- ===== src/Axi4/Slave/Signals.antt =====
-- The signals that `do_slave_machine` of libsimbus/simbus_axi4_slave.c leaves, as a function of the
-- signals before, the responses of the device and the read data.
use simbus.Base.{
  ℕ, ◌≡◌, ◌∙◌, inl, inr, refl, ap, if◌then◌else◌, not, ◌&&◌, Bool-cases, List, [], ◌∷◌, leb, Run,
  ok, fault, out_of_fuel, Cmd, After, After-bind, After-if, After-ok, After-fault, After-map, none,
  some, Option,
}
use simbus.Wire.{Bit, bit_0, bit_1, bit_x, is_bit}
use simbus.Axi4.{Bus}
use simbus.Wire.Words.{put_word}
use simbus.Axi4.Write.{Resp, resp_okay}
use simbus.Axi4.Slave.Machine.{
  Device, Slave, Next, sample, drive_next, resp_bits, with_memory, call_write, call_read,
  store_read, write_data, read_data, finish_machine, stash_read, detect_address, detect_data,
  detect_response, detect_read, detect_read_done, slave_machine,
}

-- The stages as functions of the signals and of the response of the device.
unfoldable pub address_next : Bus → Next → Next
address_next b n =
    if is_bit b.aw.valid bit_1 && is_bit b.awready bit_1
    then record n { awready = bit_0; wready = bit_1 }
    else if is_bit b.awready bit_0 && is_bit b.wready bit_0
    then record n { awready = bit_1 }
    else n

unfoldable pub data_next : Resp → Bus → Next → Next
data_next r b n =
    if is_bit b.wvalid bit_1 && is_bit b.wready bit_1
    then record n { wready = bit_0; bvalid = bit_1; bresp = resp_bits r }
    else n

unfoldable pub response_next : Bus → Next → Next
response_next b n =
    if is_bit b.bvalid bit_1 && is_bit b.bready bit_1
    then record n { awready = bit_1; bvalid = bit_0; bresp = bit_x ∷ bit_x ∷ [] }
    else n

unfoldable pub read_next : Resp → Bus → Next → Next
read_next r b n =
    if is_bit b.ar.valid bit_1 && not (is_bit b.arready bit_0)
    then record n { arready = bit_0; rvalid = bit_1; rresp = resp_bits r }
    else n

unfoldable pub done_next : Bus → Next → Next
done_next b n =
    if is_bit b.rvalid bit_1 && is_bit b.rready bit_1
    then record n { rvalid = bit_0; arready = bit_1 }
    else n

-- Only the read data differ.
abbrev pub with_rdata : List Bit → Bus → Bus
with_rdata v b = record b { rdata = v }

-- The stages after that of the write data.
unfoldable pub after_data : Resp → List Bit → Bus → Next → Bus
unfolding done_next read_next response_next
after_data r v b n = drive_next (done_next b (read_next r b (response_next b n))) (with_rdata v b)

-- All stages, with the responses of the device and the read data that it leaves.
unfoldable pub settled : Resp → Resp → List Bit → Bus → Bus
unfolding after_data data_next address_next
settled w r v b = after_data r v b (data_next w b (address_next b (sample b)))

module _ {D : Type 0} where
  -- A command that leaves the signals but for the read data.
  abbrev Quiet : {A : Type 0} → Slave D → Run (Slave D) A → Type 0
  Quiet s = After (λ _ s'. (v : List Bit) × (s'.bus ≡ with_rdata v s.bus))

  with_memory-keeps :
      {A : Type 0} (s : Slave D) (r : Run D A) → After (λ _ s'. s'.bus ≡ s.bus) (with_memory s r)
  unfolding with_memory
  with_memory-keeps s (ok a d) = After-ok _ _ _ refl
  with_memory-keeps s fault = After-fault _
  with_memory-keeps s out_of_fuel = record { holds = tt }

  After-ok_same : {A : Type 0} (a : A) (s : Slave D) → After (λ _ s'. s'.bus ≡ s.bus) (ok a s)
  After-ok_same a s = After-ok _ _ _ refl

  call_write-keeps :
      (write : Option (ℕ → ℕ → ℕ → Cmd D Resp)) (word : ℕ) (s : Slave D)
      → After (λ _ s'. s'.bus ≡ s.bus) (call_write write word s)
  unfolding call_write
  call_write-keeps none word s = After-fault _
  call_write-keeps (some write) word s = with_memory-keeps s (write s.waddr s.wprot word s.memory)

  write_data-keeps :
      (dev : Device D) (s : Slave D) → After (λ _ s'. s'.bus ≡ s.bus) (write_data dev s)
  unfolding write_data
  write_data-keeps dev s = search (After-if, After-fault, After-ok_same, call_write-keeps)

  store_read-Quiet :
      (n base : ℕ) (s : Slave D) (got : Resp × ℕ) (s' : Slave D)
      → s'.bus ≡ s.bus
      → Quiet s (store_read n base got s')
  unfolding store_read
  store_read-Quiet n base s got s' e =
      After-if _ _ _ _
        (After-ok _ _ _ (
          put_word n 0 got.1 base s'.bus.rdata,
          ap (with_rdata (put_word n 0 got.1 base s'.bus.rdata)) e,
        ))
        (After-fault _)

  call_read-Quiet :
      (read : Option (ℕ → ℕ → ℕ → Cmd D (Resp × ℕ))) (n base : ℕ) (s : Slave D)
      → Quiet s (call_read read n base s)
  unfolding call_read
  call_read-Quiet none n base s = After-fault _
  call_read-Quiet (some read) n base s =
      After-bind _ _ _ _ (with_memory-keeps s (read s.raddr s.rprot 0 s.memory))
        (λ got s' e. store_read-Quiet n base s got s' e)

  read_data-Quiet : (dev : Device D) (s : Slave D) → Quiet s (read_data dev s)
  unfolding read_data
  read_data-Quiet dev s =
      After-if _ _ _ _
        (After-if _ _ _ _ (call_read-Quiet dev.read32 32 _ _) (
          After-if _ _ _ _ (call_read-Quiet dev.read16 16 _ _)
            (After-if _ _ _ _ (call_read-Quiet dev.read8 8 _ _) (After-ok _ _ _ (_, refl)))))
        (After-fault _)

  detect_data-lem :
      (dev : Device D) (n : Next) (s : Slave D)
      → After
          (λ n' s'. (s'.bus ≡ s.bus) × ((w : Resp) × (n' ≡ data_next w s.bus n)))
          (detect_data dev n s)
  unfolding detect_data data_next
  detect_data-lem dev n s =
      elim (Bool-cases (is_bit s.bus.wvalid bit_1 && is_bit s.bus.wready bit_1)) [
        | inl e ↦ rw e (
            After-bind (λ _ s'. s'.bus ≡ s.bus) _ (write_data dev s) _ (write_data-keeps dev s)
              (λ w s' h. After-ok _ _ _ (h, (w, refl))))
        | inr e ↦ rw e (After-ok _ _ _ (refl, (resp_okay, refl)))
      ]

  -- What `detect_read` promises.
  abbrev ReadDone : Next → Slave D → Next → Slave D → Type 0
  ReadDone n s n' s' =
      (v : List Bit) × (s'.bus ≡ with_rdata v s.bus) × ((r : Resp) × (n' ≡ read_next r s.bus n))

  detect_read-lem :
      (dev : Device D) (n : Next) (s : Slave D) → After (ReadDone n s) (detect_read dev n s)
  unfolding detect_read read_next
  detect_read-lem dev n s =
      elim (Bool-cases (is_bit s.bus.ar.valid bit_1 && not (is_bit s.bus.arready bit_0))) [
        | inl e ↦ rw e (
            After-bind (λ _ s'. (v : List Bit) × (s'.bus ≡ with_rdata v s.bus)) _
              (read_data dev (stash_read s))
              (λ resp s'.
                ok (record n { arready = bit_0; rvalid = bit_1; rresp = resp_bits resp }) s')
              (read_data-Quiet dev (stash_read s))
              (λ r s' h. After-ok _ _ s' (h.0, h.1, (r, rw e refl))))
        | inr e ↦ rw e (After-ok _ _ _ (s.bus.rdata, refl, (resp_okay, rw e refl)))
      ]

  detect_address-lem :
      (n : Next) (s : Slave D)
      → ((detect_address n s).0 ≡ address_next s.bus n) × ((detect_address n s).1.bus ≡ s.bus)
  unfolding detect_address address_next
  detect_address-lem n s =
      elim (Bool-cases (is_bit s.bus.aw.valid bit_1 && is_bit s.bus.awready bit_1)) [
        | inl e ↦ rw e (refl, refl)
        | inr e ↦
            rw e (elim (Bool-cases (is_bit s.bus.awready bit_0 && is_bit s.bus.wready bit_0)) [
              | inl f ↦ rw f (refl, refl)
              | inr f ↦ rw f (refl, refl)
            ])
      ]

  -- The signals after a rising edge.
  abbrev pub Settled : Bus → Slave D → Type 0
  Settled b s' = (w : Resp) × (r : Resp) × (v : List Bit) × (s'.bus ≡ settled w r v b)

  finish_machine-lem :
      (dev : Device D) (n : Next) (s : Slave D)
      → After
          (λ _ s'. (r : Resp) × (v : List Bit) × (s'.bus ≡ after_data r v s.bus n))
          (finish_machine dev n s)
  unfolding finish_machine after_data detect_response detect_read_done response_next done_next
  finish_machine-lem dev n s =
      After-bind (ReadDone (response_next s.bus n) s) _ (detect_read dev (detect_response n s) s) _
        (detect_read-lem dev (detect_response n s) s)
        (λ n' s' h. After-ok _ _ _ (
          h.2.0,
          h.0,
          ap (λ t. drive_next (done_next t n') t) h.1
              ∙ ap (λ m. drive_next (done_next s.bus m) (with_rdata h.0 s.bus)) h.2.1,
        ))

  pub slave_machine-lem :
      (dev : Device D) (s : Slave D) → After (λ _ s'. Settled s.bus s') (slave_machine dev s)
  unfolding slave_machine settled
  slave_machine-lem dev s =
      let n₁ = (detect_address (sample s.bus) s).0 in
      let s₁ = (detect_address (sample s.bus) s).1 in
      let moved = detect_address-lem (sample s.bus) s in
      After-if _ (leb s.bus.addr_width 64) _ _
        (After-bind (λ n' s'. (s'.bus ≡ s₁.bus) × ((w : Resp) × (n' ≡ data_next w s₁.bus n₁))) _
          (detect_data dev n₁ s₁) (finish_machine dev) (detect_data-lem dev n₁ s₁)
          (λ n' s' h. After-map _ _ _ (finish_machine-lem dev n' s') (λ _ s'' g. (
            h.1.0,
            g.0,
            g.1,
            g.2
                ∙ ap (λ t. after_data g.0 g.1 t n') (h.0 ∙ moved.1)
                ∙ ap (after_data g.0 g.1 s.bus) (
                    h.1.1
                    ∙ ap (λ t. data_next h.1.0 t n₁) moved.1
                    ∙ ap (data_next h.1.0 s.bus) moved.0),
          ))))
        (After-fault _)
