-- ===== src/Pci/Target/Memory.antt =====
-- libsimbus/simbus_pci_target.c: the memory cycles of a PCI target. The clock and the request for the bus
-- are arguments; a region is named by its number.
use simbus.Base.{
  ℕ, zero, suc, ◌+◌, ◌-◌, ◌*◌, ◌/◌, ◌%◌, ◌^◌, ltb, ◌==◌, if◌then◌else◌, Bool, true, false, ◌&&◌, [],
  ◌∷◌, get_or, replicate, test_bit, ℤ, pos, negsuc, ok, out_of_fuel, Cmd, modify, and_then, ◌>>◌,
}
use simbus.Wire.{bit_0, bit_1, bit_z, is_bit}
use simbus.Wire.Words.{put_word, put_all, take_word}
use simbus.Pci.{Bus, Translation, no_translation, targ_idle, targ_dac, targ_bus_busy}

-- What the functions of a program do, by number: a read is given the address and the byte enables, a
-- write the address, the word and the byte enables.
pub record Handlers : Type 0 where
  pub on_need : ℕ → ℕ → ℕ → Cmd Bus ℕ
  pub on_recv : ℕ → ℕ → ℕ → ℕ → Cmd Bus (Unit {0})

-- `get_command`, and `get_c_be` for `bytes` enables
unfoldable pub get_c_be : ℕ → Bus → ℕ
unfolding take_word
get_c_be bytes b = take_word bytes 0 0 b.pci_c_be 0

-- `get_addr32` and `get_xattr` with 32 bits, `get_data64` with 64
unfoldable pub get_ad : ℕ → Bus → ℕ
unfolding take_word
get_ad n b = take_word n 0 0 b.pci_ad 0

-- `get_addr`: after a dual address cycle the bits on the bus are the high ones.
unfoldable pub get_addr : Bus → ℕ
unfolding get_ad
get_addr b = elim b.target_state [
  | targ_dac ↦ (get_ad 32 b * 2 ^ 32 + b.dac_addr_lo) % 2 ^ 64
  | targ_idle ↦ get_ad 32 b
  | targ_bus_busy ↦ get_ad 32 b
]

-- The region with a number.
abbrev pub region : ℕ → Bus → Translation
region bar b = get_or b.mem_target bar no_translation

-- `pcix_mode`, `pci64_mode` and `pcix_split_completion_mode`
abbrev pub pcix_mode : Bus → Bool
pcix_mode b = is_bit b.pcixcap bit_1

abbrev pub pci64_mode : ℕ → Bus → Bool
pci64_mode bar b = test_bit (region bar b).flags 0 && is_bit b.pci_req64_n bit_0

abbrev pub split_mode : ℕ → Bus → Bool
split_mode bar b = pcix_mode b && test_bit (region bar b).flags 1

-- A word of 32 bits as an `int32_t`.
abbrev pub to_int32 : ℕ → ℤ
to_int32 u =
    if ltb (u % 2 ^ 32) (2 ^ 31) then pos (u % 2 ^ 32) else negsuc (2 ^ 32 - 1 - u % 2 ^ 32)

-- val % rate == 0
abbrev pub divides : ℕ → ℤ → Bool
divides rate (pos v) = v % rate == 0
divides rate (negsuc v) = (v + 1) % rate == 0

-- val % 3 as a number of clocks: none for a negative value.
abbrev pub delay_of : ℤ → ℕ
delay_of (pos v) = v % 3
delay_of (negsuc v) = 0

-- `simbus_mt_genrand`; the model's list of numbers is long enough, or it is out of them.
unfoldable pub genrand : Cmd Bus ℕ
genrand b = elim b.random_state [
  | [] ↦ out_of_fuel
  | u ∷ rest ↦ ok u (record b { random_state = rest })
]

-- `choose_to_retry_w` with the bit 2 of the flags, `choose_to_retry_r` with the bit 3.
unfoldable pub choose_to_retry : ℕ → ℕ → Cmd Bus Bool
unfolding genrand
choose_to_retry bit bar b =
    if test_bit (region bar b).flags bit
    then elim b.retry_rate [
      | pos zero ↦ ok false b
      | pos (suc rate) ↦ and_then (genrand b) (λ u. ok (divides (suc rate) (to_int32 u)))
      | negsuc n ↦ ok false b
    ]
    else ok false b

-- The word of a cycle on AD[31:0], with AD[63:32] undriven.
unfoldable pub drive_word : ℕ → Bus → Bus
unfolding put_word put_all
drive_word val b = record b { out_ad = put_all bit_z 32 32 (put_word 32 0 val 0 b.out_ad) }

-- Two words on AD[63:0].
unfoldable pub drive_words : ℕ → ℕ → Bus → Bus
unfolding put_word
drive_words low high b = record b { out_ad = put_word 32 0 high 32 (put_word 32 0 low 0 b.out_ad) }

abbrev pub undrive_ad : Bus → Bus
undrive_ad b = record b { out_ad = replicate 64 bit_z }

-- DEVSEL#, ACK64#, TRDY# and STOP# are taken away.
abbrev pub lift_target : Bus → Bus
lift_target b = record b {
  out_devsel_n = bit_1;
  out_ack64_n = bit_1;
  out_trdy_n = bit_1;
  out_stop_n = bit_1;
}

abbrev pub release_target : Bus → Bus
release_target b = record b {
  out_devsel_n = bit_z;
  out_ack64_n = bit_z;
  out_trdy_n = bit_z;
  out_stop_n = bit_z;
}

abbrev pub set_idle : Bus → Bus
set_idle b = record b { target_state = targ_idle }

abbrev pub round_down : ℕ → ℕ → ℕ
round_down word addr = addr / word * word

module _ (clock : Cmd Bus (Unit {0})) where
  -- `n` clocks
  unfoldable pub clocks : ℕ → Cmd Bus (Unit {0})
  clocks zero b = ok tt b
  clocks (suc n) b = and_then (clock b) (λ _. clocks n)

  -- if (pcix_mode(pci)) __pci_next_posedge(pci)
  unfoldable pub clock_pcix : Cmd Bus (Unit {0})
  clock_pcix b = if pcix_mode b then clock b else ok tt b

  -- do { __pci_next_posedge(pci); } while (pci->pci_irdy_n == BIT_1)
  unfoldable pub clock_irdy : ℕ → Cmd Bus (Unit {0})
  clock_irdy zero b = out_of_fuel
  clock_irdy (suc rounds) b =
      and_then (clock b) (λ _ b'. elim (is_bit b'.pci_irdy_n bit_1) [
        | true ↦ clock_irdy rounds b'
        | false ↦ ok tt b'
      ])

  -- `do_target_memory_rw_retry`
  unfoldable pub memory_rw_retry : Cmd Bus (Unit {0})
  unfolding clock_pcix
  memory_rw_retry =
      clock_pcix
      >> modify (λ b. record b { out_devsel_n = bit_0; out_ack64_n = bit_1; out_stop_n = bit_1 })
      >> clock_pcix
      >> modify (λ b. record b { out_trdy_n = bit_1; out_stop_n = bit_0 })
      >> clock
      >> modify (λ b. record b { out_trdy_n = bit_1; out_stop_n = bit_1 })
      >> clock
      >> modify release_target
      >> clock
      >> modify set_idle
