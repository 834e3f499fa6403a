-- ===== src/Pci/Target/Writes.antt =====
-- libsimbus/simbus_pci_target.c: the memory writes of a PCI target.
use simbus.Base.{
  ℕ, zero, suc, ◌+◌, ◌*◌, ◌/◌, ◌%◌, ◌^◌, ltb, ◌==◌, if◌then◌else◌, Bool, true, false, not, ◌&&◌,
  ◌||◌, none, some, ok, out_of_fuel, Cmd, modify, and_then, ◌>>◌,
}
use simbus.Wire.{bit_0, bit_1, is_bit}
use simbus.Pci.{Bus}
use simbus.Pci.Target.Enables.{make_ben4x, make_ben8x}
use simbus.Pci.Target.Memory.{
  Handlers, get_c_be, get_ad, get_addr, region, pcix_mode, pci64_mode, to_int32, delay_of, genrand,
  choose_to_retry, release_target, set_idle, round_down, clocks, clock_pcix, clock_irdy,
  memory_rw_retry,
}

-- What a write knows from the start: the size of a word in bytes, the number of words and the byte
-- enables of the first and the last.
pub record Burst : Type 0 where
  pub word : ℕ
  pub total : ℕ
  pub first_ben : ℕ
  pub last_ben : ℕ

-- A write on a PCI bus, whose length FRAME# tells.
abbrev pub plain_burst : Burst
plain_burst = record { word = 4; total = 0; first_ben = 0; last_ben = 0 }

-- The byte enables of the word at `burst`.
unfoldable pub word_enables : Burst → ℕ → Bus → ℕ
unfolding get_c_be
word_enables w burst b =
    if pcix_mode b
    then if burst == 0 then w.first_ben else if burst + 1 == w.total then w.last_ben else 0
    else get_c_be w.word b

-- The burst of a PCI-X write of `count` bytes.
unfoldable pub pcix_burst : ℕ → ℕ → ℕ → Bus → Burst
unfolding make_ben4x make_ben8x
pcix_burst bar addr count b =
    if pci64_mode bar b && ltb 4 (addr % 4 + count)
    then record {
      word = 8;
      total = (addr % 8 + count + 7) / 8;
      first_ben = (make_ben8x addr count).0;
      last_ben = (make_ben8x addr count).1;
    }
    else record {
      word = 4;
      total = (addr % 4 + count + 3) / 4;
      first_ben = (make_ben4x addr count).0;
      last_ben = (make_ben4x addr count).1;
    }

-- The loop goes on: FRAME# is active, or PCI-X has one or two words left.
abbrev pub more_words : Burst → ℕ → Bus → Bool
more_words w burst b =
    is_bit b.pci_frame_n bit_0
    || (pcix_mode b && ((burst + 1 == w.total) || (burst + 2 == w.total)))

module _ (h : Handlers) (fuel : ℕ) (clock request : Cmd Bus (Unit {0})) where
  -- bar->recv32, where it is set: one word, or two.
  unfoldable pub store_words : ℕ → Burst → ℕ → ℕ → Cmd Bus (Unit {0})
  unfolding word_enables get_ad
  store_words bar w addr burst b = elim (region bar b).recv32 [
    | none ↦ ok tt b
    | some fun ↦
        let ben = word_enables w burst b in
        if w.word == 4
        then h.on_recv fun (round_down 4 addr) (get_ad 32 b) ben b
        else (h.on_recv fun (round_down 8 addr) (get_ad 64 b % 2 ^ 32) (ben % 16)
              >> h.on_recv fun (round_down 8 addr + 4) (get_ad 64 b / 2 ^ 32) (ben / 16 % 16))
            b
  ]

  -- The loop of `do_target_memory_write`.
  unfoldable pub write_words : ℕ → ℕ → Burst → ℕ → ℕ → Cmd Bus (Unit {0})
  unfolding clock_irdy store_words
  write_words zero bar w addr burst b = out_of_fuel
  write_words (suc rounds) bar w addr burst b =
      and_then ((clock_irdy clock fuel >> store_words bar w addr burst) b) (λ _ b'.
        elim ((pcix_mode b' && (burst + 1 == w.total)) || not (more_words w (burst + 1) b')) [
          | true ↦ ok tt b'
          | false ↦ write_words rounds bar w ((addr + w.word) % 2 ^ 64) (burst + 1) b'
        ])

  -- `do_target_memory_write` from DEVSEL# on.
  unfoldable pub write_burst : ℕ → ℕ → Burst → Cmd Bus (Unit {0})
  unfolding clock_pcix write_words
  write_burst bar addr w =
      modify (λ b. record b {
        out_devsel_n = bit_0;
        out_ack64_n = if w.word == 8 then bit_0 else bit_1;
        out_stop_n = bit_1;
      })
      >> clock_pcix clock
      >> modify (λ b. record b { out_trdy_n = bit_0 })
      >> write_words fuel bar w addr 0
      >> modify release_target
      >> clock
      >> modify set_idle

  -- The part of `do_target_memory_write` that a PCI-X bus adds: the attributes, and up to two clocks
  -- before DEVSEL#.
  unfoldable pub write_pcix : ℕ → ℕ → Cmd Bus (Unit {0})
  unfolding get_ad get_c_be pcix_burst genrand clocks write_burst
  write_pcix bar addr b = and_then (clock b) (λ _ b₁.
      let count = get_c_be 4 b₁ * 256 + get_ad 32 b₁ % 256 in
      let w = pcix_burst bar addr count b₁ in
      and_then (genrand b₁)
        (λ u b₂. (clocks clock (delay_of (to_int32 u)) >> write_burst bar addr w) b₂))

  -- `do_target_memory_write`
  unfoldable pub memory_write : ℕ → Cmd Bus (Unit {0})
  unfolding get_addr choose_to_retry memory_rw_retry write_pcix write_burst
  memory_write bar b =
      let addr = get_addr b in
      and_then (choose_to_retry 2 bar b) (λ retry b'.
        if retry
        then memory_rw_retry clock b'
        else if pcix_mode b'
        then write_pcix bar addr b'
        else write_burst bar addr plain_burst b')
