-- ===== src/Pci/Master.antt =====
-- libsimbus/simbus_pci.c: the phases of a bus cycle of a PCI master, and the transfers of one 32-bit
-- word. The clock and the request for the bus are arguments; `Pci.Link` supplies them.
use simbus.Base.{
  ℕ, zero, suc, ◌+◌, ◌*◌, ◌/◌, ◌%◌, ◌^◌, ◌==◌, if◌then◌else◌, Bool, true, false, not, ◌&&◌, ◌||◌,
  replicate, test_bit, ok, fault, out_of_fuel, Cmd, and_then, ◌>>◌,
}
use simbus.Wire.{Bit, bit_0, bit_1, bit_z, is_bit, bit_of}
use simbus.Wire.Words.{put_word, put_all, take_bits}
use simbus.Pci.{Bus}

-- The result of a phase or a cycle: 0, GPCI_MASTER_ABORT or GPCI_TARGET_RETRY.
pub data Result : Type 0 where
  completed master_abort target_retry : Result

-- SIMBUS_PCI_DFN(dev, fn)
abbrev pub device_function : ℕ → ℕ → ℕ
device_function dev fn = dev * 8 % 256 + fn % 8

-- The signals of the address phase, with the first 32 bits of the address, or all 64 if a 64-bit
-- transaction is asked for.
unfoldable pub drive_address : ℕ → Bool → Bus → Bus
unfolding put_word
drive_address addr flag64 b = record b {
  out_req64_n = if flag64 then bit_0 else bit_1;
  out_frame_n = bit_0;
  out_irdy_n = bit_1;
  out_trdy_n = bit_z;
  out_stop_n = bit_z;
  out_devsel_n = bit_z;
  out_ad = put_word (if flag64 then 64 else 32) 0 addr 0 b.out_ad;
}

-- The command of a dual address cycle.
unfoldable pub drive_dac : Bus → Bus
unfolding put_word
drive_dac b = record b { out_c_be = put_word 4 0 13 0 b.out_c_be }

-- AD and C/BE# of the attribute cycle. The loop of the code shifts `addr` and not `attr_a`, so that
-- each bit of AD is the lowest of `attr_a`; the last enable is that of `attr_c & 5`.
unfoldable pub drive_attribute : ℕ → Bus → Bus
unfolding put_word put_all
drive_attribute ben b = record b {
  out_ad = put_all (bit_of (test_bit (device_function b.ident 0 * 256) 0)) 32 0 b.out_ad;
  out_c_be =
      put_all (bit_of (test_bit ben 0 || test_bit ben 2)) 1 3 (put_word 3 0 ben 0 b.out_c_be);
}

-- The turn-around cycle after the attributes.
unfoldable pub drive_turnaround : Bus → Bus
unfolding put_all
drive_turnaround b = record b { out_c_be = put_all bit_1 4 0 b.out_c_be }

-- IRDY# is staged, and FRAME# is withdrawn from a single 32-bit word of PCI.
unfoldable pub stage_data : Bool → Bus → Bus
stage_data burst b =
    if not (is_bit b.out_req64_n bit_0) && (not burst && not (is_bit b.pcixcap bit_1))
    then record b { out_frame_n = bit_1; out_irdy_n = bit_0 }
    else record b { out_irdy_n = bit_0 }

-- `__undrive_bus`
unfoldable pub undrive_bus : Bus → Bus
undrive_bus b = record b {
  out_frame_n = bit_z;
  out_req64_n = bit_z;
  out_ack64_n = bit_z;
  out_irdy_n = bit_z;
  out_trdy_n = bit_z;
  out_stop_n = bit_z;
  out_devsel_n = bit_z;
  out_c_be = replicate 8 bit_z;
  out_ad = replicate 64 bit_z;
}

-- The signals of `__setup_for_write`.
unfoldable pub drive_write : ℕ → ℕ → Bool → Bus → Bus
unfolding put_word put_all
drive_write val ben flag64 b = record b {
  out_c_be =
      if flag64
      then put_word 8 0 ben 0 b.out_c_be
      else put_all bit_1 4 4 (put_word 4 0 ben 0 b.out_c_be);
  out_ad =
      if flag64
      then put_word 64 0 val 0 b.out_ad
      else put_all bit_z 32 32 (put_word 32 0 val 0 b.out_ad);
}

-- The byte enables of a read, with AD undriven.
unfoldable pub drive_read : ℕ → ℕ → Bus → Bus
unfolding put_word
drive_read n ben b = record b {
  out_c_be = put_word n 0 ben 0 b.out_c_be;
  out_ad = replicate 64 bit_z;
}

-- The master reads X and Z as 1 ...
abbrev pub not_low : Bit → Bool
not_low v = not (is_bit v bit_0)

-- ... and marks them in `valx`.
abbrev pub unknown : Bit → Bool
unknown v = not (is_bit v bit_0 || is_bit v bit_1)

-- The word that a read collects, and the mask of its bits that are X or Z.
unfoldable pub read_value : Bus → ℕ × ℕ
unfolding take_bits
read_value b =
    let n = if is_bit b.pci_ack64_n bit_0 then 64 else 32 in
    (take_bits not_low n 0 0 b.pci_ad 0, take_bits unknown n 0 0 b.pci_ad 0)

-- What a read leaves: the result, the word and the mask of unknown bits.
pub record Outcome : Type 0 where
  pub code : Result
  pub val : ℕ
  pub valx : ℕ

abbrev pub all_ones : ℕ
all_ones = 0xffffffff

module _ (clock : Cmd Bus (Unit {0})) where
  abbrev pub set_then_clock : (Bus → Bus) → Cmd Bus (Unit {0})
  set_then_clock f b = clock (f b)

  -- if (addr_tmp != 0): the dual address cycle, and then the high bits of the address.
  unfoldable pub dual_address : ℕ → Cmd Bus (Unit {0})
  unfolding drive_dac put_word
  dual_address high b =
      if high == 0
      then ok tt b
      else and_then (clock (drive_dac b))
          (λ _ b'. ok tt (record b' { out_ad = put_word 32 0 high 0 b'.out_ad }))

  -- if (pci->pcixcap == BIT_1)
  unfoldable pub attribute : ℕ → Cmd Bus (Unit {0})
  unfolding drive_attribute drive_turnaround
  attribute ben b =
      if is_bit b.pcixcap bit_1
      then (set_then_clock (drive_attribute ben) >> set_then_clock drive_turnaround) b
      else ok tt b

  -- `__address_command`
  unfoldable pub address_command : ℕ → ℕ → ℕ → Bool → Bool → Cmd Bus (Unit {0})
  unfolding drive_address dual_address put_word attribute stage_data
  address_command addr cmd ben flag64 burst b =
      (dual_address (addr / 2 ^ 32)
          >> set_then_clock (λ b'. record b' { out_c_be = put_word 4 0 cmd 0 b'.out_c_be })
          >> attribute ben
          >> (λ b'. ok tt (stage_data burst b')))
        (drive_address addr flag64 b)

  -- The clocks in which DEVSEL# may come.
  unfoldable pub decode : ℕ → Cmd Bus Bool
  decode zero b = ok (is_bit b.pci_devsel_n bit_0) b
  decode (suc n) b =
      if is_bit b.pci_devsel_n bit_0 then ok true b else and_then (clock b) (λ _. decode n)

  -- `__wait_for_devsel`
  unfoldable pub wait_for_devsel : Cmd Bus Result
  unfolding decode undrive_bus
  wait_for_devsel b = and_then (decode 3 b) (λ found b'. elim found [
    | false ↦ ok master_abort (undrive_bus b')
    | true ↦ ok completed (
        if is_bit b'.out_req64_n bit_0 && is_bit b'.pci_ack64_n bit_0
        then record b' { out_frame_n = bit_1; out_req64_n = bit_1 }
        else b')
  ])

  -- The loop of `__wait_for_read`: a clock, and `count` reaches zero or not.
  unfoldable pub await_trdy : ℕ → Cmd Bus Result
  await_trdy zero b = fault
  await_trdy (suc count) b =
      if is_bit b.pci_trdy_n bit_0
      then ok completed b
      else if is_bit b.pci_stop_n bit_0
      then ok target_retry b
      else and_then (clock b) (λ _. await_trdy count)

  -- `__wait_for_read`; the word is only meant where the result is 0.
  unfoldable pub wait_for_read : Cmd Bus Outcome
  unfolding await_trdy read_value
  wait_for_read b =
      and_then (await_trdy 256 b) (λ code b'.
        ok (record { code = code; val = (read_value b').0; valx = (read_value b').1 }) b')

  -- while (pci->pci_trdy_n != BIT_0) __pci_next_posedge(pci)
  unfoldable pub wait_trdy : ℕ → Cmd Bus (Unit {0})
  wait_trdy zero b = out_of_fuel
  wait_trdy (suc fuel) b = elim (is_bit b.pci_trdy_n bit_0) [
    | true ↦ ok tt b
    | false ↦ and_then (clock b) (λ _. wait_trdy fuel)
  ]

  -- The end of a cycle: all signals are released, and a clock.
  unfoldable pub release : Cmd Bus (Unit {0})
  unfolding undrive_bus
  release = set_then_clock undrive_bus

  -- The end of a PCI-X cycle, which raises FRAME# and IRDY# a clock later.
  unfoldable pub finish_pcix : Cmd Bus (Unit {0})
  finish_pcix b =
      if is_bit b.pcixcap bit_1
      then (clock >> set_then_clock (λ b'. record b' { out_irdy_n = bit_1; out_frame_n = bit_1 })) b
      else ok tt b

  -- The signals of a read once its target has answered.
  unfoldable pub end_frame : Bus → Bus
  end_frame b =
      if is_bit b.pcixcap bit_1
      then record b { out_req64_n = bit_1 }
      else record b { out_frame_n = bit_1; out_req64_n = bit_1 }

  -- if (__wait_for_devsel(pci) < 0)
  unfoldable pub no_device : ℕ → Cmd Bus Outcome
  unfolding release
  no_device oldx b =
      and_then (release b) (λ _. ok (record { code = master_abort; val = all_ones; valx = oldx }))

  -- `__generic_pci_read32` from DEVSEL# on; the 32-bit results are cut off.
  unfoldable pub read_phase : ℕ → Cmd Bus Outcome
  unfolding no_device wait_for_devsel release end_frame wait_for_read finish_pcix
  read_phase oldx b = and_then (wait_for_devsel b) (λ found b₁. elim found [
    | master_abort ↦ no_device oldx b₁
    | target_retry ↦ no_device oldx b₁
    | completed ↦ and_then (wait_for_read (end_frame b₁)) (λ got b₂. elim got.code [
      | completed ↦
          and_then ((finish_pcix >> release) b₂) (λ _.
            ok (record { code = completed; val = got.val % 2 ^ 32; valx = got.valx % 2 ^ 32 }))
      | master_abort ↦
          and_then (release b₂)
            (λ _. ok (record { code = master_abort; val = all_ones; valx = all_ones }))
      | target_retry ↦
          and_then (release b₂)
            (λ _. ok (record { code = target_retry; val = all_ones; valx = all_ones }))
    ])
  ])

  -- `__generic_pci_read32`, given the request for the bus; `oldx` is `resultx` before.
  unfoldable pub generic_read32 : Cmd Bus (Unit {0}) → ℕ → ℕ → ℕ → ℕ → Cmd Bus Outcome
  unfolding address_command drive_read read_phase
  generic_read32 request addr cmd ben oldx =
      request
      >> (λ b. ok tt (record b { out_req_n = bit_1 }))
      >> address_command addr cmd ben false false
      >> set_then_clock (drive_read 4 ben)
      >> read_phase oldx

  -- `__setup_for_write`
  unfoldable pub setup_for_write : ℕ → ℕ → Bool → Cmd Bus (Unit {0})
  unfolding drive_write
  setup_for_write val ben flag64 = set_then_clock (drive_write val ben flag64)

  -- `__generic_pci_write32`, given the request for the bus.
  unfoldable pub generic_write32 : ℕ → Cmd Bus (Unit {0}) → ℕ → ℕ → ℕ → ℕ → Cmd Bus Result
  unfolding address_command setup_for_write wait_for_devsel wait_trdy release
  generic_write32 fuel request addr cmd val ben b =
      and_then
        ((request
            >> (λ b'. ok tt (record b' { out_req_n = bit_1 }))
            >> address_command addr cmd ben false false
            >> setup_for_write val ben false
            >> wait_for_devsel)
          b)
        (λ found b'. elim found [
          | completed ↦ (wait_trdy fuel >> release >> ok completed) b'
          | master_abort ↦ ok master_abort b'
          | target_retry ↦ ok target_retry b'
        ])
