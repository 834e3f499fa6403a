-- ===== src/Tlp/Stream.antt =====
-- libsimbus/simbus_pcie_tlp_tlp.c: one clock of the two AXI streams. `do_send_tlp_raw` drives one or
-- two words of a TLP, and `__pcie_tlp_recv_tlp` collects the words of a clock.
pub mod Lanes
pub mod Beats
pub mod Swap
use simbus.Base.{
  ℕ, zero, suc, ◌+◌, ◌*◌, ◌/◌, ◌%◌, ◌^◌, ltb, ◌==◌, if◌then◌else◌, true, false, Bool, List, [], ◌∷◌,
  ◌++◌, get_or, set, replicate, ok, fault, Cmd, and_then, drop, take,
}
use simbus.Wire.{Bit, bit_0, bit_1, bit_x, is_bit, bit_of, word_bits}
use simbus.Tlp.{Bus, max_tlp}

-- The body of `byte_swap32`, for one word: the low bytes of `src` go out into `dst`.
unfoldable pub swap_word : ℕ → ℕ
swap_word src =
    ((src % 256 * 256 + src / 256 % 256) * 256 + src / 65536 % 256) * 256 + src / 16777216 % 256

-- `byte_swap32` on the `n` words of an array from index `idx` on.
unfoldable pub byte_swap32 : ℕ → ℕ → List ℕ → List ℕ
unfolding swap_word
byte_swap32 zero idx words = words
byte_swap32 (suc n) idx words =
    byte_swap32 n (idx + 1) (set words idx (swap_word (get_or words idx 0)))

abbrev pub no_words : List ℕ → Bool
no_words [] = true
no_words (w ∷ ws) = false

-- The signals of a round of `do_send_tlp_raw`, up to the clock.
unfoldable pub drive : List ℕ → Bus → Bus
unfolding word_bits
drive [] b = b
drive (w ∷ []) b = record b {
  m_axis_rx_tdata = word_bits 32 w ++ replicate 32 bit_0;
  m_axis_rx_tkeep = replicate 4 bit_1 ++ replicate 4 bit_0;
  m_axis_rx_tlast = bit_1;
  m_axis_rx_tvalid = bit_1;
}
drive (w ∷ v ∷ rest) b = record b {
  m_axis_rx_tdata = word_bits 32 w ++ word_bits 32 v;
  m_axis_rx_tkeep = replicate 4 bit_1 ++ replicate 4 bit_1;
  m_axis_rx_tlast = bit_of (no_words rest);
  m_axis_rx_tvalid = bit_1;
}

-- What is left of the TLP when the receiver was ready.
unfoldable pub advance : List ℕ → List ℕ
advance [] = []
advance (w ∷ []) = []
advance (w ∷ v ∷ rest) = rest

-- The signals once the receiver took a clock, with the words that are left.
unfoldable pub settle : List ℕ → Bus → Bus
settle (w ∷ rest) b = b
settle [] b = record b {
  m_axis_rx_tvalid = bit_0;
  m_axis_rx_tlast = bit_0;
  m_axis_rx_tkeep = replicate 8 bit_x;
  m_axis_rx_tdata = replicate 64 bit_x;
}

-- 1 for a bit that is BIT_1, else 0.
abbrev pub one_if : Bit → ℕ
one_if v = if is_bit v bit_1 then 1 else 0

-- val <<= 1; val |= bit: the bits from index `base + n - 1` down to `base`, in 32 bits.
unfoldable pub shift_in : ℕ → ℕ → List Bit → ℕ → ℕ
shift_in zero base bits val = val
shift_in (suc n) base bits val =
    shift_in n base bits ((val * 2 + one_if (get_or bits (base + n) bit_x)) % 2 ^ 32)

-- `crank_recv_tlp`
unfoldable pub crank_recv : ℕ → Cmd Bus (Unit {0})
crank_recv val b =
    if ltb b.s_tlp_cnt max_tlp
    then ok tt
        (record b { s_tlp_buf = set b.s_tlp_buf b.s_tlp_cnt val; s_tlp_cnt = b.s_tlp_cnt + 1 })
    else fault

-- The loop over the byte lanes that are left; the result is `bytes` at its end.
unfoldable pub recv_lanes : List ℕ → ℕ → ℕ → Cmd Bus ℕ
unfolding shift_in crank_recv
recv_lanes [] val bytes b = ok bytes b
recv_lanes (lane ∷ lanes) val bytes b = elim (is_bit (get_or b.s_axis_tx_tkeep lane bit_x) bit_1) [
  | false ↦ recv_lanes lanes val bytes b
  | true ↦
      let val' = shift_in 8 (8 * lane) b.s_axis_tx_tdata val in
      elim (bytes + 1 == 4) [
        | true ↦ and_then (crank_recv val' b) (λ _. recv_lanes lanes 0 0)
        | false ↦ recv_lanes lanes val' (bytes + 1) b
      ]
]

-- (idx&4) | (3-(idx&3)) for idx from 0 to 7
abbrev pub lane_order : List ℕ
lane_order = 3 ∷ 2 ∷ 1 ∷ 0 ∷ 7 ∷ 6 ∷ 5 ∷ 4 ∷ []
