-- ===== src/Pci/Transfers.antt =====
-- libsimbus/simbus_pci_config.c, libsimbus/simbus_pci_rw32.c and libsimbus/simbus_pci_rw64.c: the
-- transfers that a PCI master offers, given the clock and the request for the bus.
use Prim.Native.Nat.{bit_or}
use simbus.Base.{
  ℕ, zero, suc, ◌+◌, ◌-◌, ◌*◌, ◌/◌, ◌%◌, ◌^◌, ltb, ◌==◌, if◌then◌else◌, true, false, ◌&&◌, ◌||◌,
  List, [], ◌∷◌, length, ℤ, pos, negsuc, ok, fault, out_of_fuel, Cmd, and_then, assert, ◌>>=◌, ◌>>◌,
}
use simbus.Wire.{bit_0, bit_1, is_bit}
use simbus.Pci.{Bus}
use simbus.Pci.Master.{
  completed, master_abort, target_retry, Outcome, all_ones, address_command, drive_read,
  wait_for_devsel, wait_for_read, wait_trdy, release, setup_for_write, generic_read32,
  generic_write32,
}

-- `make_type0_addr`: the three parts do not overlap.
unfoldable pub make_type0_addr : ℕ → ℕ → ℕ
make_type0_addr dfn dw_addr = dw_addr % 256 / 4 * 4 + dfn * 256 + 0x10000 * 2 ^ (dfn / 8)

-- The byte enables of the word at `idx` of a burst of `words`.
abbrev pub burst_enables : ℕ → ℕ → ℕ → ℕ → ℕ
burst_enables idx words first last =
    if idx == 0 then first else if idx + 1 == words then last else 0

module _ (fuel : ℕ) (clock request : Cmd Bus (Unit {0})) where
  -- `simbus_pci_config_read`
  unfoldable pub config_read : ℕ → ℕ → Cmd Bus ℕ
  unfolding make_type0_addr generic_read32
  config_read dfn dw_addr b =
      and_then (generic_read32 clock request (make_type0_addr dfn dw_addr) 0xfa 0xf0 0 b) (λ got.
        elim got.code [
          | completed ↦ ok got.val
          | master_abort ↦ ok all_ones
          | target_retry ↦ ok all_ones
        ])

  -- `simbus_pci_config_write`
  unfoldable pub config_write : ℕ → ℕ → ℕ → ℕ → Cmd Bus (Unit {0})
  unfolding make_type0_addr generic_write32
  config_write dfn dw_addr val ben =
      generic_write32 clock fuel request (make_type0_addr dfn dw_addr) 0xfb val ben >>= λ _. ok tt

  -- The loop of `simbus_pci_read32_xz`: a retry starts again.
  unfoldable pub read_retries : ℕ → ℕ → ℕ → ℕ → Cmd Bus Outcome
  unfolding generic_read32
  read_retries zero addr ben oldx b = out_of_fuel
  read_retries (suc rounds) addr ben oldx b =
      and_then (generic_read32 clock request addr 0xf6 ben oldx b) (λ got. elim got.code [
        | completed ↦ ok got
        | master_abort ↦ ok got
        | target_retry ↦ read_retries rounds addr ben got.valx
      ])

  -- `simbus_pci_read32_xz`; `master_abort` stands for SIMBUS_PCI_ERROR.
  unfoldable pub read32_xz : ℕ → ℕ → Cmd Bus Outcome
  unfolding read_retries
  read32_xz addr ben = read_retries fuel addr ben all_ones

  -- `simbus_pci_read32`
  unfoldable pub read32 : ℕ → ℕ → Cmd Bus ℕ
  unfolding read32_xz
  read32 addr ben b =
      and_then (read32_xz addr ben b) (λ got. ok (if got.valx == 0 then got.val else all_ones))

  -- `simbus_pci_write32`
  unfoldable pub write32 : ℕ → ℕ → ℕ → Cmd Bus (Unit {0})
  unfolding generic_write32
  write32 addr val ben = generic_write32 clock fuel request addr 0xf7 val ben >>= λ _. ok tt

  -- The words after the first of `simbus_pci_write32b`; the result is the number of words left.
  unfoldable pub burst_words : List ℕ → ℕ → Cmd Bus ℕ
  unfolding setup_for_write wait_trdy
  burst_words [] last b = ok 0 b
  burst_words (v ∷ rest) last b =
      let final = length rest == 0 in
      let ready = if final then record b { out_frame_n = bit_1 } else b in
      let ben = if final then last else 0 in
      and_then ((setup_for_write clock v ben false >> wait_trdy clock fuel) ready) (λ _ b'.
        elim (is_bit b'.pci_stop_n bit_0) [
          | true ↦
              and_then (clock (record b' { out_frame_n = bit_1; out_irdy_n = bit_1 }))
                (λ _. ok (length rest))
          | false ↦ burst_words rest last b'
        ])

  -- `simbus_pci_write32b` with more than one word; a master abort is the result -1.
  unfoldable pub burst32 : ℕ → ℕ → List ℕ → ℕ → ℕ → Cmd Bus ℤ
  unfolding address_command setup_for_write wait_for_devsel wait_trdy burst_words release
  burst32 addr v rest first last b =
      and_then
        ((request
            >> (λ b'. ok tt (record b' { out_req_n = bit_1 }))
            >> address_command clock addr 0xf7 first false true
            >> setup_for_write clock v first false
            >> wait_for_devsel clock)
          b)
        (λ found b₁. elim found [
          | master_abort ↦ ok (negsuc 0) b₁
          | target_retry ↦ ok (negsuc 1) b₁
          | completed ↦
              and_then ((wait_trdy clock fuel >> burst_words rest last) b₁)
                (λ left b₂. and_then (release clock b₂) (λ _. ok (pos (suc (length rest) - left))))
        ])

  -- `simbus_pci_write32b`
  unfoldable pub write32b : ℕ → List ℕ → ℕ → ℕ → Cmd Bus ℤ
  unfolding write32 burst32
  write32b addr [] first last b = fault
  write32b addr (v ∷ []) first last b =
      if first == last then (write32 addr v first >> ok (pos 1)) b else fault
  write32b addr (v ∷ (w ∷ rest)) first last b = burst32 addr v (w ∷ rest) first last b

  -- The second word of a 64-bit read whose target is 32 bits wide.
  unfoldable pub read_high : ℕ → Cmd Bus ℕ
  unfolding wait_for_read release
  read_high low b =
      and_then (clock (record b { out_frame_n = bit_1; out_req64_n = bit_1 })) (λ _ b₁.
        and_then (wait_for_read clock b₁) (λ high b₂. elim high.code [
          | completed ↦ (release clock >> ok (bit_or low (high.val * 2 ^ 32 % 2 ^ 64))) b₂
          | master_abort ↦ fault
          | target_retry ↦ fault
        ]))

  -- The loop of `simbus_pci_read64`; the word of a master abort has 48 ones.
  unfoldable pub read64_retries : ℕ → ℕ → ℕ → Cmd Bus ℕ
  unfolding address_command drive_read wait_for_devsel wait_for_read release read_high
  read64_retries zero addr ben b = out_of_fuel
  read64_retries (suc rounds) addr ben b =
      and_then
        ((request
            >> (λ b'. ok tt (record b' { out_req_n = bit_1 }))
            >> address_command clock addr 0xf6 ben true false
            >> (λ b'. ok tt (drive_read 8 ben b'))
            >> wait_for_devsel clock)
          b)
        (λ found b₁. elim found [
          | master_abort ↦ ok 0xffffffffffff b₁
          | target_retry ↦ ok 0xffffffffffff b₁
          | completed ↦ and_then (wait_for_read clock b₁) (λ got b₂. elim got.code [
            | target_retry ↦ (release clock >> read64_retries rounds addr ben) b₂
            | master_abort ↦ fault
            | completed ↦ elim (is_bit b₂.out_frame_n bit_0) [
              | false ↦ (release clock >> ok got.val) b₂
              | true ↦ read_high got.val b₂
            ]
          ])
        ])

  -- `simbus_pci_read64`
  unfoldable pub read64 : ℕ → ℕ → Cmd Bus ℕ
  unfolding read64_retries
  read64 = read64_retries fuel

  -- The second word of a 64-bit write whose target is 32 bits wide.
  unfoldable pub write_high : ℕ → ℕ → Cmd Bus (Unit {0})
  unfolding setup_for_write wait_trdy release
  write_high val ben b =
      (setup_for_write clock (val / 2 ^ 32) (ben / 16) false
          >> wait_trdy clock fuel
          >> release clock)
        (record b { out_frame_n = bit_1; out_req64_n = bit_1 })

  -- `simbus_pci_write64`
  unfoldable pub write64 : ℕ → ℕ → ℕ → Cmd Bus (Unit {0})
  unfolding address_command setup_for_write wait_for_devsel wait_trdy release write_high
  write64 addr val ben b =
      and_then
        ((request
            >> (λ b'. ok tt (record b' { out_req_n = bit_1 }))
            >> address_command clock addr 0xf7 ben true false
            >> setup_for_write clock val ben true
            >> wait_for_devsel clock)
          b)
        (λ found b₁. elim found [
          | master_abort ↦ ok tt b₁
          | target_retry ↦ ok tt b₁
          | completed ↦ and_then (wait_trdy clock fuel b₁) (λ _ b₂.
              elim (is_bit b₂.out_frame_n bit_1) [
                | true ↦ release clock b₂
                | false ↦ write_high val ben b₂
              ])
        ])

  -- The loop of `simbus_pci_write64b`.
  unfoldable pub write64_words : ℕ → ℕ → ℕ → List ℕ → ℕ → ℕ → Cmd Bus (Unit {0})
  unfolding write64
  write64_words idx words addr [] first last b = ok tt b
  write64_words idx words addr (v ∷ vals) first last b =
      and_then (write64 addr v (burst_enables idx words first last) b)
        (λ _. write64_words (idx + 1) words ((addr + 4) % 2 ^ 64) vals first last)

  -- `simbus_pci_write64b`
  unfoldable pub write64b : ℕ → List ℕ → ℕ → ℕ → Cmd Bus ℕ
  unfolding write64_words
  write64b addr vals first last b =
      let words = length vals in
      (assert (ltb 0 words && (ltb 1 words || (first == last)))
          >> write64_words 0 words addr vals first last
          >> ok words)
        b
