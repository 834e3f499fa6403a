-- ===== src/Pci/Clock.antt =====
-- libsimbus/simbus_pci.c: the clock of a PCI device with its parity, the interrupts, the wait that runs
-- the target's state machine, the reset, and the request for the bus.
use Prim.Native.Nat.{bit_and}
use simbus.Base.{
  ℕ, zero, suc, ◌+◌, ◌*◌, ◌^◌, ltb, ◌==◌, if◌then◌else◌, Bool, true, false, not, ◌&&◌, ◌||◌, Option,
  none, some, List, get_or, ℤ, pos, negsuc, is_negative, ok, fault, out_of_fuel, Cmd, and_then,
  assert, ◌>>=◌, ◌>>◌,
}
use simbus.Wire.{Bit, bit_0, bit_1, bit_x, bit_z, is_bit}
use simbus.Wire.Words.{take_bits}
use simbus.Pci.{Bus, TargetState, targ_idle, targ_dac, targ_bus_busy, send_ready}

-- `bit_xor`
unfoldable pub bit_xor : Bit → Bit → Bit
bit_xor bit_0 bit_0 = bit_0
bit_xor bit_0 bit_1 = bit_1
bit_xor bit_1 bit_0 = bit_1
bit_xor bit_1 bit_1 = bit_0
bit_xor _ _ = bit_x

-- v = bit_xor(v, bits[idx]), with `n` rounds left.
unfoldable pub xor_bits : ℕ → ℕ → List Bit → Bit → Bit
unfolding bit_xor
xor_bits zero idx bits v = v
xor_bits (suc n) idx bits v = xor_bits n (idx + 1) bits (bit_xor v (get_or bits idx bit_x))

-- One of the `n` bits from `idx` on is not BIT_Z.
unfoldable pub some_driven : ℕ → ℕ → List Bit → Bool
some_driven zero idx bits = false
some_driven (suc n) idx bits =
    let rest = some_driven n (idx + 1) bits in
    if is_bit (get_or bits idx bit_x) bit_z then rest else true

-- The C/BE# signals that PAR covers.
abbrev pub par_enables : Bus → List Bit
par_enables b = if is_bit (get_or b.out_c_be 0 bit_x) bit_z then b.pci_c_be else b.out_c_be

-- PAR and PAR64 for what was driven.
unfoldable pub parity : Bus → Bit
unfolding xor_bits some_driven
parity b =
    if some_driven 32 0 b.out_ad
    then xor_bits 4 0 (par_enables b) (xor_bits 32 0 b.out_ad bit_0)
    else bit_z

unfoldable pub parity64 : Bus → Bit
unfolding xor_bits some_driven
parity64 b =
    if some_driven 32 32 b.out_ad
    then xor_bits 4 4 b.out_c_be (xor_bits 32 32 b.out_ad bit_0)
    else bit_z

-- while (pci->pci_clk == level) send_ready_command(pci); the result of the call is not looked at.
unfoldable pub wait_clk : ℕ → Bit → Cmd Bus (Unit {0})
wait_clk zero level b = out_of_fuel
wait_clk (suc fuel) level b = elim (is_bit b.pci_clk level) [
  | false ↦ ok tt b
  | true ↦ (send_ready >>= λ _. wait_clk fuel level) b
]

-- `__pci_next_posedge`
unfoldable pub next_posedge : ℕ → Cmd Bus (Unit {0})
unfolding wait_clk parity parity64
next_posedge fuel =
    wait_clk fuel bit_1
    >> wait_clk fuel bit_0
    >> (λ b. ok tt (record b { out_par = parity b; out_par64 = parity64 b }))

abbrev pub is_low : Bit → Bool
is_low v = is_bit v bit_0

-- `intr_active`: the four groups do not overlap.
unfoldable pub intr_active : Bus → ℕ
unfolding take_bits
intr_active b =
    take_bits is_low 16 0 0 b.pci_inta_n 0
    + take_bits is_low 16 0 0 b.pci_intb_n 0 * 2 ^ 16
    + take_bits is_low 16 0 0 b.pci_intc_n 0 * 2 ^ 32
    + take_bits is_low 16 0 0 b.pci_intd_n 0 * 2 ^ 48

-- while (pci->pci_clk != level && rc >= 0) rc = send_ready_command(pci)
unfoldable pub wait_edge : ℕ → Bit → ℤ → Cmd Bus ℤ
wait_edge zero level rc b = out_of_fuel
wait_edge (suc fuel) level rc b = elim (is_bit b.pci_clk level || is_negative rc) [
  | true ↦ ok rc b
  | false ↦ (send_ready >>= λ rc'. wait_edge fuel level rc') b
]

abbrev pub is_idle : TargetState → Bool
is_idle targ_idle = true
is_idle targ_dac = false
is_idle targ_bus_busy = false

-- irq? *irq : 0
abbrev pub enabled : Option ℕ → ℕ
enabled none = 0
enabled (some irq) = irq

-- if (irq) *irq &= mask
abbrev pub masked : Option ℕ → ℕ → Option ℕ
masked none mask = none
masked (some irq) mask = some (bit_and irq mask)

-- The result of `simbus_pci_wait` and what is then behind `irq`.
abbrev pub report : Option ℕ → ℕ → ℤ × Option ℕ
report irq mask = (if mask == 0 then pos 0 else pos 1, masked irq mask)

-- The target's state machine is an argument: it is what a clock runs beside the caller.
module _ (target : Cmd Bus (Unit {0})) where
  -- while (clks > 0 && !(mask & use_irq)); -2 is SIMBUS_PCI_FINISHED, -3 is SIMBUS_PCI_BREAK.
  unfoldable pub wait_loop : ℕ → ℕ → ℕ → Option ℕ → Cmd Bus (ℤ × Option ℕ)
  unfolding wait_edge intr_active
  wait_loop fuel zero mask irq b = ok (report irq mask) b
  wait_loop fuel (suc clks) mask irq b =
      if bit_and mask (enabled irq) == 0
      then and_then (wait_edge fuel bit_0 (pos 0) b) (λ rc b₁.
        and_then (wait_edge fuel bit_1 rc b₁) (λ rc' b₂. elim (is_negative rc') [
          | true ↦ ok (rc', irq) b₂
          | false ↦ and_then (target b₂) (λ _ b₃. elim (b₃.break_flag && is_idle b₃.target_state) [
            | true ↦ ok (negsuc 2, irq) b₃
            | false ↦ wait_loop fuel clks (intr_active b₃) irq b₃
          ])
        ]))
      else ok (report irq mask) b

  -- `simbus_pci_wait`
  unfoldable pub wait : ℕ → ℕ → Option ℕ → Cmd Bus (ℤ × Option ℕ)
  unfolding wait_loop
  wait fuel zero irq b = ok (report irq (intr_active b)) b
  wait fuel (suc clks) irq b = wait_loop fuel (suc clks) 0 irq (record b { break_flag = false })

  -- `simbus_pci_reset`
  unfoldable pub reset : ℕ → ℕ → ℕ → Cmd Bus (Unit {0})
  unfolding wait
  reset fuel width settle b =
      (assert (ltb 0 width && ltb 0 settle)
          >> (λ b'. ok tt (record b' { out_reset_n = bit_0 }))
          >> (wait fuel width none >>= λ _ b'. ok tt (record b' { out_reset_n = bit_1 }))
          >> (wait fuel settle none >>= λ _. ok tt))
        b

  -- The loop of `__pci_request_bus`; it ends, or `count` reaches zero and the assertion fails.
  unfoldable pub await_grant : ℕ → ℕ → Cmd Bus (Unit {0})
  unfolding wait
  await_grant fuel zero b = fault
  await_grant fuel (suc count) b =
      elim (not (is_bit b.pci_gnt_n bit_0)
        || (is_bit b.pci_frame_n bit_0 || is_bit b.pci_irdy_n bit_0)) [
          | false ↦ ok tt b
          | true ↦ and_then (wait fuel 1 none b) (λ _. await_grant fuel count)
        ]

  -- `__pci_request_bus`
  unfoldable pub request_bus : ℕ → Cmd Bus (Unit {0})
  unfolding await_grant
  request_bus fuel b =
      (await_grant fuel 4096 >> (λ b'. ok tt (record b' { out_req_n = bit_1 })))
        (record b { out_req_n = bit_0 })
