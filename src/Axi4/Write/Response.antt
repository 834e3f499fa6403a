-- ===== src/Axi4/Write/Response.antt =====
-- The wait for the response in `wait_for_resp` of libsimbus/simbus_axi4_write.c.
use simbus.Base.{
  or-true, ℕ, zero, suc, ◌≡◌, ◌∙◌, refl, ap, false, true, ok, out_of_fuel, and_then, Cmd,
  Bool-cases, if◌then◌else◌, ◌&&◌, ◌||◌, replicate, inl, inr, pos, pred_ℤ, is_negative,
}
use simbus.Wire.{bit_0, bit_1, bit_x, is_bit}
use simbus.Axi4.{Bus}
use simbus.Axi4.Write.{
  Progress, Resp, pending, take_address, take_data, take_response, resp_loop, wait_for_resp,
  resp_code, resp_okay, resp_slverr, cleared_address,
}

-- The response channel is waited for, and holds no response.
abbrev Silent : Bus → Type 0
Silent b = (is_bit b.bready bit_1 ≡ true) × (is_bit b.bvalid bit_1 ≡ false)

take_address-Silent : (b : Bus) → Silent b → Silent (take_address b)
unfolding take_address
take_address-Silent b silent =
    elim (Bool-cases (is_bit b.aw.valid bit_1 && is_bit b.awready bit_1)) [
      | inl e ↦ rw e silent
      | inr e ↦ rw e silent
    ]

take_data-Silent : (b : Bus) → Silent b → Silent (take_data b)
unfolding take_data
take_data-Silent b silent = elim (Bool-cases (is_bit b.wvalid bit_1 && is_bit b.wready bit_1)) [
  | inl e ↦ rw e silent
  | inr e ↦ rw e silent
]

take_response-Silent : (p : Progress) (b : Bus) → Silent b → Silent ((take_response p b).1)
unfolding take_response
take_response-Silent p b silent = rw (silent.0, silent.1) silent

pending-ready : (b : Bus) → is_bit b.bready bit_1 ≡ true → pending b ≡ true
pending-ready b ready =
    ap (λ t. (is_bit b.aw.valid bit_1 || is_bit b.wvalid bit_1) || t) ready
    ∙ or-true (is_bit b.aw.valid bit_1 || is_bit b.wvalid bit_1)

-- With a clock at which the slave, however it changes the bus otherwise, leaves `bready` asserted and
-- gives no response, the wait for the response has no end, whatever the timer: the time limit does
-- not stop it.
pub resp_loop-hangs :
    (step : Bus → Bus) (fuel : ℕ) (p : Progress) (b : Bus)
    → ((c : Bus) → is_bit c.bready bit_1 ≡ true → is_bit ((step c).bready) bit_1 ≡ true)
    → ((c : Bus) → is_bit ((step c).bvalid) bit_1 ≡ false)
    → is_bit b.bready bit_1 ≡ true
    → resp_loop (λ c. ok tt (step c)) fuel p b ≡ out_of_fuel
unfolding resp_loop
resp_loop-hangs step zero p b keeps mute ready = refl
resp_loop-hangs step (suc fuel) p b keeps mute ready =
    let c = take_data (take_address (step b)) in
    let silent : Silent ((take_response p c).1) = take_response-Silent p c (
      take_data-Silent (take_address (step b))
        (take_address-Silent (step b) (keeps b ready, mute b))) in
    ap
      (λ t. elim t [
        | false ↦ ok p.code b
        | true ↦
            resp_loop (λ c. ok tt (step c)) fuel ((take_response p c).0) ((take_response p c).1)
      ])
      (pending-ready b ready)
    ∙ resp_loop-hangs step fuel ((take_response p c).0) ((take_response p c).1) keeps mute silent.0

-- The bus after all three channels have been transferred.
abbrev pub finished_write : Bus → Bus
finished_write c = record c {
  aw = cleared_address;
  wvalid = bit_0;
  wdata = replicate 64 bit_x;
  wstrb = replicate 8 bit_x;
  bready = bit_0;
}

transfers :
    (p : Progress) (c : Bus)
    → (is_bit c.aw.valid bit_1 && is_bit c.awready bit_1) ≡ true
    → (is_bit c.wvalid bit_1 && is_bit c.wready bit_1) ≡ true
    → (is_bit c.bready bit_1 && is_bit c.bvalid bit_1) ≡ true
    → take_response p (take_data (take_address c))
      ≡ (record p { code = resp_code c.bresp }, finished_write c)
unfolding take_address take_data take_response
transfers p c address word response =
    let c₁ = record c { aw = cleared_address } in
    let c₂ = record c₁ { wvalid = bit_0; wdata = replicate 64 bit_x; wstrb = replicate 8 bit_x } in
    ap (λ t. take_response p (take_data (if t then c₁ else c))) address
    ∙ ap (λ t. take_response p (if t then c₂ else c₁)) word
    ∙ ap
        (λ t.
          if t
          then (record p { code = resp_code c.bresp }, record c₂ { bready = bit_0 })
          else if is_bit c.bready bit_1
          then (
            record {
              timer = pred_ℤ p.timer;
              code = if is_negative (pred_ℤ p.timer) then resp_slverr else p.code;
            },
            c₂,
          )
          else (p, c₂))
        response

abbrev start : Progress
start = record { timer = pos 1024; code = resp_okay }

abbrev next_round : Cmd Bus (Unit {0}) → ℕ → Progress → Unit {0} → Cmd Bus Resp
next_round clock fuel p u b' =
    let (p₂, b₂) = take_response p (take_data (take_address b')) in resp_loop clock fuel p₂ b₂

-- A slave that takes the address and the data and gives its response in the first clock ends the
-- write after that clock: the result is the response code of BRESP, the data are no longer driven,
-- and none of the three channels is active.
wait_for_resp-prompt :
    (clock : Cmd Bus (Unit {0})) (fuel : ℕ) (b c : Bus)
    → is_bit b.bready bit_1 ≡ true
    → clock b ≡ ok tt c
    → (is_bit c.aw.valid bit_1 && is_bit c.awready bit_1) ≡ true
    → (is_bit c.wvalid bit_1 && is_bit c.wready bit_1) ≡ true
    → (is_bit c.bready bit_1 && is_bit c.bvalid bit_1) ≡ true
    → wait_for_resp clock (suc (suc fuel)) b ≡ ok (resp_code c.bresp) (finished_write c)
unfolding wait_for_resp resp_loop
wait_for_resp-prompt clock fuel b c ready clocked address word response =
    let p = start in
    ap
      (λ t. elim t [
        | false ↦ ok p.code b
        | true ↦ and_then (clock b) (next_round clock (suc fuel) p)
      ])
      (pending-ready b ready)
    ∙ ap (λ r. and_then r (next_round clock (suc fuel) p)) clocked
    ∙ ap (λ q. resp_loop clock (suc fuel) (q.0) (q.1)) (transfers p c address word response)
