-- ===== src/Pci/Target/Machine.antt =====
-- libsimbus/simbus_pci_target.c: the configuration cycles of a PCI target, and the state machine that
-- runs at each clock.
use simbus.Base.{
  ℕ, ltb, ◌%◌, ◌==◌, if◌then◌else◌, ◌&&◌, ◌||◌, Option, none, some, ok, Cmd, modify, and_then,
  assert, ◌>>◌,
}
use simbus.Wire.{bit_0, bit_1, bit_z, is_bit}
use simbus.Pci.{Bus, TargetState, targ_idle, targ_dac, targ_bus_busy}
use simbus.Pci.Master.{undrive_bus, all_ones}
use simbus.Pci.Target.{get_idsel, match_mem_target}
use simbus.Pci.Target.Memory.{
  Handlers, get_c_be, get_ad, pcix_mode, drive_word, undrive_ad, set_idle, clock_irdy,
}
use simbus.Pci.Target.Reads.{memory_read}
use simbus.Pci.Target.Writes.{memory_write}

-- `do_target_DAC`
unfoldable pub target_dac : Bus → Bus
unfolding get_ad
target_dac b = record b { dac_addr_lo = get_ad 32 b; target_state = targ_dac }

-- Any other cycle is ignored.
abbrev pub set_busy : Bus → Bus
set_busy b = record b { target_state = targ_bus_busy }

module _ (h : Handlers) (fuel : ℕ) (clock request : Cmd Bus (Unit {0})) where
  -- pci->config_need32, where it is set.
  unfoldable pub config_word : ℕ → Cmd Bus ℕ
  config_word addr b = elim b.config_need32 [
    | none ↦ ok all_ones b
    | some fun ↦ h.on_need fun addr 0 b
  ]

  -- `do_target_config_read`
  unfoldable pub target_config_read : Cmd Bus (Unit {0})
  unfolding get_ad config_word drive_word clock_irdy undrive_bus
  target_config_read b = and_then (config_word (get_ad 32 b % 65536) b) (λ val.
      modify (λ b'. record b' { out_devsel_n = bit_0; out_trdy_n = bit_1; out_stop_n = bit_1 })
      >> clock
      >> modify (λ b'. drive_word val (record b' { out_trdy_n = bit_0 }))
      >> clock_irdy clock fuel
      >> modify (λ b'.
        undrive_ad (record b' { out_devsel_n = bit_1; out_trdy_n = bit_1; out_stop_n = bit_1 }))
      >> clock
      >> modify (λ b'. set_idle (undrive_bus b')))

  -- pci->config_recv32, where it is set.
  unfoldable pub config_store : ℕ → Cmd Bus (Unit {0})
  unfolding get_ad get_c_be
  config_store addr b = elim b.config_recv32 [
    | none ↦ ok tt b
    | some fun ↦ h.on_recv fun addr (get_ad 32 b) (get_c_be 4 b) b
  ]

  -- `do_target_config_write`
  unfoldable pub target_config_write : Cmd Bus (Unit {0})
  unfolding get_ad clock_irdy config_store
  target_config_write b =
      (assert (is_bit b.pci_clk bit_1)
          >> modify
              (λ b'. record b' { out_devsel_n = bit_0; out_trdy_n = bit_0; out_stop_n = bit_1 })
          >> clock_irdy clock fuel
          >> config_store (get_ad 32 b % 65536)
          >> modify
              (λ b'. record b' { out_devsel_n = bit_1; out_trdy_n = bit_1; out_stop_n = bit_1 })
          >> clock
          >> modify (λ b'.
            set_idle (record b' { out_devsel_n = bit_z; out_trdy_n = bit_z; out_stop_n = bit_z })))
        b

  -- The commands that both states take, for the region `bar`.
  unfoldable pub memory_command : ℕ → ℕ → Cmd Bus (Unit {0})
  unfolding memory_read memory_write
  memory_command bar command b =
      if (command == 6) || ((command == 12) || (command == 14))
      then memory_read h fuel clock request bar b
      else if (command == 7) || (pcix_mode b && (command == 15))
      then memory_write h fuel clock request bar b
      else ok tt (set_busy b)

  -- The commands of the idle state for a target without a region for the address.
  unfoldable pub device_command : Option ℕ → ℕ → Cmd Bus (Unit {0})
  unfolding get_idsel target_config_read target_config_write target_dac memory_command
  device_command bar command b =
      if get_idsel b && (command == 10)
      then target_config_read b
      else if get_idsel b && (command == 11)
      then target_config_write b
      else if command == 13
      then ok tt (target_dac b)
      else elim bar [ none ↦ ok tt (set_busy b) | some r ↦ memory_command r command b ]

  -- The cases of `__pci_target_state_machine`; the commands of the branches are different numbers.
  unfoldable pub run_state : TargetState → Cmd Bus (Unit {0})
  unfolding get_c_be match_mem_target device_command memory_command
  run_state targ_idle b =
      if is_bit b.pci_frame_n bit_0
      then (assert (ltb b.ident 16) >> device_command (match_mem_target b) (get_c_be 4 b)) b
      else ok tt b
  run_state targ_dac b =
      if is_bit b.pci_frame_n bit_0
      then elim (match_mem_target b) [
        | none ↦ ok tt (set_busy b)
        | some r ↦ memory_command r (get_c_be 4 b) b
      ]
      else ok tt (set_idle b)
  run_state targ_bus_busy b = if is_bit b.pci_frame_n bit_1 then ok tt (set_idle b) else ok tt b

  -- `__pci_target_state_machine`
  unfoldable pub target_state_machine : Cmd Bus (Unit {0})
  unfolding run_state
  target_state_machine b = run_state b.target_state b
