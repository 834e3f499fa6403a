-- ===== src/Pci/Target/Reads.antt =====
-- libsimbus/simbus_pci_target.c: the memory reads of a PCI target, and its split completions.
use simbus.Base.{
  ℕ, zero, suc, ◌+◌, ◌*◌, ◌/◌, ◌%◌, ◌^◌, ltb, ◌==◌, if◌then◌else◌, true, false, not, ◌&&◌, ◌||◌,
  none, some, replicate, test_bit, ok, fault, out_of_fuel, Cmd, modify, and_then, ◌>>◌,
}
use simbus.Wire.{bit_0, bit_1, is_bit, bit_of}
use simbus.Wire.Words.{put_word, put_all}
use simbus.Pci.{Bus}
use simbus.Pci.Master.{undrive_bus, all_ones}
use simbus.Pci.Target.Memory.{
  Handlers, get_c_be, get_ad, get_addr, region, pcix_mode, pci64_mode, split_mode, choose_to_retry,
  drive_word, drive_words, undrive_ad, lift_target, set_idle, round_down, clocks, clock_pcix,
  clock_irdy, memory_rw_retry,
}

-- The address and command of a split completion: seven bits of the address, and the requester's
-- number from the attributes.
unfoldable pub drive_completion : ℕ → ℕ → Bus → Bus
unfolding put_word put_all
drive_completion addr attr b = record b {
  out_frame_n = bit_0;
  out_req64_n = bit_1;
  out_ad =
      put_all bit_0 3 29
        (put_word 21 0 (attr / 256) 8 (put_all bit_0 1 7 (put_word 7 0 addr 0 b.out_ad)));
  out_c_be = put_word 8 0 0xcc 0 b.out_c_be;
}

-- Its attributes: the byte count and the number of this device. The fourth enable is that of
-- `byte_count & 0x600`.
unfoldable pub drive_completion_attribute : ℕ → Bus → Bus
unfolding put_word put_all
drive_completion_attribute count b = record b {
  out_ad =
      put_all bit_0 16 16
        (put_word 5 0 b.ident 11 (put_all bit_0 3 8 (put_word 8 0 count 0 b.out_ad)));
  out_c_be = put_all bit_1 4 4 (
      put_all (bit_of (test_bit count 9 || test_bit count 10)) 1 3
        (put_word 3 0 (count / 256) 0 b.out_c_be));
}

module _ (h : Handlers) (fuel : ℕ) (clock request : Cmd Bus (Unit {0})) where
  -- bar->need32, where it is set; the code reads an unset variable where it is not.
  unfoldable pub need_word : ℕ → ℕ → Cmd Bus ℕ
  need_word bar addr b = elim (region bar b).need32 [
    | none ↦ fault
    | some fun ↦ h.on_need fun addr 0 b
  ]

  -- while (pci->pci_devsel_n != BIT_0)
  unfoldable pub await_devsel : ℕ → Cmd Bus (Unit {0})
  await_devsel zero b = out_of_fuel
  await_devsel (suc rounds) b = elim (is_bit b.pci_devsel_n bit_0) [
    | true ↦ ok tt b
    | false ↦ and_then (clock b) (λ _. await_devsel rounds)
  ]

  -- while (word_count > 0)
  unfoldable pub completion_words : ℕ → ℕ → ℕ → Cmd Bus (Unit {0})
  unfolding need_word put_word
  completion_words bar zero addr b = ok tt b
  completion_words bar (suc n) addr b =
      and_then (need_word bar addr (record b { out_irdy_n = bit_0 })) (λ val b₁.
        and_then (clock (record b₁ { out_ad = put_word 32 0 val 0 b₁.out_ad }))
          (λ _. completion_words bar n ((addr + 4) % 2 ^ 64)))

  -- The split response of `do_target_memory_read_split`.
  unfoldable pub split_response : Cmd Bus (Unit {0})
  unfolding clocks undrive_bus
  split_response =
      modify (λ b. record b {
        out_devsel_n = bit_0;
        out_ack64_n = bit_1;
        out_trdy_n = bit_1;
        out_stop_n = bit_1;
      })
      >> clock
      >> modify (λ b. record b {
        out_devsel_n = bit_1;
        out_trdy_n = bit_0;
        out_stop_n = bit_1;
        out_ad = replicate 64 bit_1;
      })
      >> clock
      >> modify (λ b. undrive_ad (lift_target b))
      >> clock
      >> modify (λ b. set_idle (undrive_bus b))
      >> clocks clock 10

  -- `do_target_memory_read_split`
  unfoldable pub memory_read_split : ℕ → ℕ → ℕ → ℕ → Cmd Bus (Unit {0})
  unfolding split_response drive_completion drive_completion_attribute put_all await_devsel
      completion_words undrive_bus
  memory_read_split bar addr attr count =
      let words = (addr % 4 + count + 3) / 4 in
      split_response
      >> request
      >> modify (drive_completion addr attr)
      >> clock
      >> modify (drive_completion_attribute count)
      >> clock
      >> modify (λ b. record b { out_c_be = put_all bit_1 4 0 b.out_c_be })
      >> await_devsel fuel
      >> completion_words bar words (round_down 4 addr)
      >> (if words == 1 then clock else ok tt)
      >> modify (λ b. record b { out_frame_n = bit_1; out_irdy_n = bit_1 })
      >> clock
      >> modify (λ b. set_idle (undrive_bus b))
      >> clock

  -- The word of a read, or `stale` where there is no function.
  unfoldable pub fetch : ℕ → ℕ → ℕ → ℕ → Cmd Bus ℕ
  fetch bar stale addr ben b = elim (region bar b).need32 [
    | none ↦ ok stale b
    | some fun ↦ h.on_need fun addr ben b
  ]

  -- The words of a clock on AD.
  unfoldable pub fetch_words : ℕ → ℕ → ℕ → ℕ → Cmd Bus (Unit {0})
  unfolding fetch get_c_be drive_word drive_words
  fetch_words bar word stale addr b =
      and_then (fetch bar stale (round_down 4 addr) (if pcix_mode b then 0 else get_c_be 4 b) b)
        (λ low b₁.
          if word == 8
          then and_then (fetch bar stale (round_down 4 ((addr + 4) % 2 ^ 64)) 0 b₁)
              (λ high b₂. ok tt (drive_words low high (record b₂ { out_trdy_n = bit_0 })))
          else ok tt (drive_word low (record b₁ { out_trdy_n = bit_0 })))

  -- The loop of `do_target_memory_read`. The loops that drive the words leave them zero.
  unfoldable pub read_words : ℕ → ℕ → ℕ → ℕ → ℕ → ℕ → ℕ → Cmd Bus (Unit {0})
  unfolding fetch_words clock_irdy
  read_words zero bar word total stale addr burst b = out_of_fuel
  read_words (suc rounds) bar word total stale addr burst b =
      and_then ((fetch_words bar word stale addr >> clock_irdy clock fuel) b) (λ _ b'.
        elim ((pcix_mode b' && (burst + 1 == total)) || not (is_bit b'.pci_frame_n bit_0)) [
          | true ↦ ok tt b'
          | false ↦ read_words rounds bar word total 0 ((addr + word) % 2 ^ 64) (burst + 1) b'
        ])

  -- `do_target_memory_read` from DEVSEL# on.
  unfoldable pub read_burst : ℕ → ℕ → ℕ → ℕ → Cmd Bus (Unit {0})
  unfolding clock_pcix read_words undrive_bus
  read_burst bar word total addr =
      modify (λ b. record b {
        out_devsel_n = bit_0;
        out_ack64_n = if word == 8 then bit_0 else bit_1;
        out_stop_n = bit_1;
      })
      >> clock_pcix clock
      >> modify (λ b. record b { out_trdy_n = bit_1 })
      >> clock
      >> read_words fuel bar word total all_ones addr 0
      >> modify (λ b. undrive_ad (lift_target b))
      >> clock
      >> modify (λ b. set_idle (undrive_bus b))

  -- The part of `do_target_memory_read` that a PCI-X bus adds: the attributes, and whether the read
  -- is split.
  unfoldable pub read_pcix : ℕ → ℕ → Cmd Bus (Unit {0})
  unfolding get_ad get_c_be memory_read_split read_burst
  read_pcix bar addr b = and_then (clock b) (λ _ b'.
      let attr = get_ad 32 b' in
      let count = get_c_be 4 b' * 256 + attr % 256 in
      if split_mode bar b'
      then memory_read_split bar addr attr count b'
      else if pci64_mode bar b' && ltb 4 (addr % 4 + count)
      then read_burst bar 8 ((addr % 8 + count + 7) / 8) addr b'
      else read_burst bar 4 ((addr % 4 + count + 3) / 4) addr b')

  -- `do_target_memory_read`, which the multiple and the line reads only call.
  unfoldable pub memory_read : ℕ → Cmd Bus (Unit {0})
  unfolding get_addr choose_to_retry memory_rw_retry read_pcix read_burst
  memory_read bar b =
      let addr = get_addr b in
      and_then (choose_to_retry 3 bar b) (λ retry b'.
        if retry
        then memory_rw_retry clock b'
        else if pcix_mode b'
        then read_pcix bar addr b'
        else read_burst bar 4 0 addr b')
