-- ===== src/Pci/Target/Idle.antt =====
-- What the state machine of libsimbus/simbus_pci_target.c does in a cycle that is not meant for the target.
use simbus.Base.{
  ℕ, ltb, ◌≡◌, ◌<◌, refl, Bool, true, false, none, if◌then◌else◌, ◌==◌, Run, ok, Cmd, arith,
  Bool-cases, inl, inr,
}
use simbus.Wire.{bit_0, bit_1, is_bit}
use simbus.Pci.{Bus, targ_idle, targ_dac, targ_bus_busy, TargetState}
use simbus.Pci.Target.{get_idsel, match_mem_target}
use simbus.Pci.Target.Memory.{Handlers, get_c_be, set_idle}
use simbus.Pci.Target.Machine.{
  target_dac, set_busy, device_command, run_state, target_state_machine,
}

-- The state in which a cycle leaves a target that has no region for its address and is not selected.
unfoldable pub passed_over : TargetState → Bus → Bus
unfolding target_dac
passed_over targ_idle b =
    if is_bit b.pci_frame_n bit_0
    then if get_c_be 4 b == 13 then target_dac b else set_busy b
    else b
passed_over targ_dac b = if is_bit b.pci_frame_n bit_0 then set_busy b else set_idle b
passed_over targ_bus_busy b = if is_bit b.pci_frame_n bit_1 then set_idle b else b

abbrev done : Bus → Run Bus (Unit {0})
done b = ok tt b

ok-if : (c : Bool) (x y : Bus) → (if c then done x else done y) ≡ done (if c then x else y)
ok-if true x y = refl
ok-if false x y = refl

-- The idle state.
device_command-unaddressed :
    (h : Handlers) (fuel : ℕ) (clock request : Cmd Bus (Unit {0})) (b : Bus) (command : ℕ)
    → get_idsel b ≡ false
    → device_command h fuel clock request none command b
      ≡ ok tt (if command == 13 then target_dac b else set_busy b)
unfolding device_command
device_command-unaddressed h fuel clock request b command no_idsel =
    rw no_idsel (ok-if (command == 13) (target_dac b) (set_busy b))

run_state-unaddressed :
    (h : Handlers) (fuel : ℕ) (clock request : Cmd Bus (Unit {0})) (b : Bus) (state : TargetState)
    → b.ident < 16
    → match_mem_target b ≡ none
    → get_idsel b ≡ false
    → run_state h fuel clock request state b ≡ ok tt (passed_over state b)
unfolding run_state passed_over
run_state-unaddressed h fuel clock request b targ_idle below no_region no_idsel =
    let in_range : ltb b.ident 16 ≡ true = ground arith in
    let alone = device_command-unaddressed h fuel clock request b (get_c_be 4 b) no_idsel in
    elim (Bool-cases (is_bit b.pci_frame_n bit_0)) [
      | inl frame ↦ rw (frame, in_range, no_region) alone
      | inr off ↦ rw off refl
    ]
run_state-unaddressed h fuel clock request b targ_dac below no_region no_idsel =
    rw no_region (ok-if (is_bit b.pci_frame_n bit_0) (set_busy b) (set_idle b))
run_state-unaddressed h fuel clock request b targ_bus_busy below no_region no_idsel =
    ok-if (is_bit b.pci_frame_n bit_1) (set_idle b) b

-- A target with a number below 16 that has no region for the address and whose IDSEL is not 1 drives
-- no signal, calls no function of the program and waits for no clock, in every state and for every
-- command: it only changes its state, and stashes the address of a dual address cycle.
pub target_state_machine-unaddressed :
    (h : Handlers) (fuel : ℕ) (clock request : Cmd Bus (Unit {0})) (b : Bus)
    → b.ident < 16
    → match_mem_target b ≡ none
    → get_idsel b ≡ false
    → target_state_machine h fuel clock request b ≡ ok tt (passed_over b.target_state b)
unfolding target_state_machine
target_state_machine-unaddressed h fuel clock request b =
    run_state-unaddressed h fuel clock request b b.target_state
