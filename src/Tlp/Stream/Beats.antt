-- ===== src/Tlp/Stream/Beats.antt =====
-- One clock between the sender and the receiver of libsimbus/simbus_pcie_tlp_tlp.c.
use simbus.Base.{
  ℕ, ◌+◌, ◌*◌, ◌^◌, ◌<◌, ◌≡◌, ◌∙◌, refl, ap, List, [], ◌∷◌, ◌++◌, arith, get_or, set, replicate, ok,
  and_then,
}
use simbus.Wire.{bit_0, bit_1, bit_x, word_bits}
use simbus.Tlp.{Bus, max_tlp}
use simbus.Tlp.Stream.{swap_word, drive, shift_in, crank_recv, recv_lanes, lane_order}
use simbus.Tlp.Stream.Lanes.{lanes_value, lanes_value-low, lanes_value-high}

-- Reversing the bytes of a 32-bit word twice gives the word.
pub swap_word-swap_word : (w : ℕ) → w < 2 ^ 32 → swap_word (swap_word w) ≡ w
unfolding swap_word
swap_word-swap_word w h = omega arith

-- A word's four lanes that are all kept hand the word to the buffer.
recv_lanes-word :
    (l₃ l₂ l₁ l₀ : ℕ) (lanes : List ℕ) (b : Bus)
    → get_or b.s_axis_tx_tkeep l₃ bit_x ≡ bit_1
    → get_or b.s_axis_tx_tkeep l₂ bit_x ≡ bit_1
    → get_or b.s_axis_tx_tkeep l₁ bit_x ≡ bit_1
    → get_or b.s_axis_tx_tkeep l₀ bit_x ≡ bit_1
    → recv_lanes (l₃ ∷ l₂ ∷ l₁ ∷ l₀ ∷ lanes) 0 0 b
      ≡ and_then
          (crank_recv
            (shift_in 8 (8 * l₀) b.s_axis_tx_tdata (
              shift_in 8
                (8 * l₁)
                b.s_axis_tx_tdata
                (shift_in 8 (8 * l₂) b.s_axis_tx_tdata (shift_in 8 (8 * l₃) b.s_axis_tx_tdata 0))))
            b)
          (λ _. recv_lanes lanes 0 0)
unfolding recv_lanes
recv_lanes-word l₃ l₂ l₁ l₀ lanes b k₃ k₂ k₁ k₀ =
    rw (k₃, recv_lanes) (rw (k₂, recv_lanes) (rw (k₁, recv_lanes) (rw (k₀, recv_lanes) refl)))

-- The words that are put at the end of the buffer, if there is room.
abbrev pub stored : List ℕ → Bus → Bus
stored [] b = b
stored (w ∷ ws) b =
    stored ws (record b { s_tlp_buf = set b.s_tlp_buf b.s_tlp_cnt w; s_tlp_cnt = b.s_tlp_cnt + 1 })

-- The words that a clock carries when `words` are still to send.
abbrev pub beat : List ℕ → List ℕ
beat [] = []
beat (w ∷ []) = w ∷ []
beat (w ∷ v ∷ rest) = w ∷ v ∷ []

abbrev pub AllWord32 : List ℕ → Type 0
AllWord32 [] = Unit {0}
AllWord32 (w ∷ ws) = (w < 2 ^ 32) × AllWord32 ws

crank_recv-ok :
    (w : ℕ) (b : Bus) → b.s_tlp_cnt < max_tlp → crank_recv w b ≡ ok tt (stored (w ∷ []) b)
unfolding crank_recv
crank_recv-ok w b h = ground arith

two_words :
    (w v : ℕ) (b : Bus)
    → b.s_axis_tx_tdata ≡ word_bits 32 w ++ word_bits 32 v
    → b.s_axis_tx_tkeep ≡ replicate 4 bit_1 ++ replicate 4 bit_1
    → w < 2 ^ 32
    → v < 2 ^ 32
    → b.s_tlp_cnt + 1 < max_tlp
    → recv_lanes lane_order 0 0 b ≡ ok 0 (stored (w ∷ v ∷ []) b)
two_words w v b d k hw hv room =
    let b' = stored (w ∷ []) b in
    recv_lanes-word 3 2 1 0 (7 ∷ 6 ∷ 5 ∷ 4 ∷ []) b (rw k) (rw k) (rw k) (rw k)
    ∙ ap (λ t. and_then (crank_recv t b) (λ _. recv_lanes (7 ∷ 6 ∷ 5 ∷ 4 ∷ []) 0 0))
        (ap (lanes_value 0) d ∙ lanes_value-low w (word_bits 32 v) hw)
    ∙ ap (λ t. and_then t (λ _. recv_lanes (7 ∷ 6 ∷ 5 ∷ 4 ∷ []) 0 0))
        (crank_recv-ok w b (omega arith))
    ∙ recv_lanes-word 7 6 5 4 [] b' (rw k) (rw k) (rw k) (rw k)
    ∙ ap (λ t. and_then (crank_recv t b') (λ _. recv_lanes [] 0 0))
        (ap (lanes_value 32) d ∙ lanes_value-high w v hv)
    ∙ ap (λ t. and_then t (λ _. recv_lanes [] 0 0)) (crank_recv-ok v b' (omega arith))
    ∙ end
  where
    end : recv_lanes [] 0 0 (stored (w ∷ v ∷ []) b) ≡ ok 0 (stored (w ∷ v ∷ []) b)
    end = unfold recv_lanes in refl

-- Lanes that are not kept are passed over.
recv_lanes-skip :
    (b : Bus)
    → get_or b.s_axis_tx_tkeep 7 bit_x ≡ bit_0
    → get_or b.s_axis_tx_tkeep 6 bit_x ≡ bit_0
    → get_or b.s_axis_tx_tkeep 5 bit_x ≡ bit_0
    → get_or b.s_axis_tx_tkeep 4 bit_x ≡ bit_0
    → recv_lanes (7 ∷ 6 ∷ 5 ∷ 4 ∷ []) 0 0 b ≡ ok 0 b
unfolding recv_lanes
recv_lanes-skip b k₇ k₆ k₅ k₄ =
    rw (k₇, recv_lanes) (rw (k₆, recv_lanes) (rw (k₅, recv_lanes) (rw (k₄, recv_lanes) refl)))

one_word :
    (w : ℕ) (b : Bus)
    → b.s_axis_tx_tdata ≡ word_bits 32 w ++ replicate 32 bit_0
    → b.s_axis_tx_tkeep ≡ replicate 4 bit_1 ++ replicate 4 bit_0
    → w < 2 ^ 32
    → b.s_tlp_cnt < max_tlp
    → recv_lanes lane_order 0 0 b ≡ ok 0 (stored (w ∷ []) b)
one_word w b d k hw room =
    recv_lanes-word 3 2 1 0 (7 ∷ 6 ∷ 5 ∷ 4 ∷ []) b (rw k) (rw k) (rw k) (rw k)
    ∙ ap (λ t. and_then (crank_recv t b) (λ _. recv_lanes (7 ∷ 6 ∷ 5 ∷ 4 ∷ []) 0 0))
        (ap (lanes_value 0) d ∙ lanes_value-low w (replicate 32 bit_0) hw)
    ∙ ap (λ t. and_then t (λ _. recv_lanes (7 ∷ 6 ∷ 5 ∷ 4 ∷ []) 0 0)) (crank_recv-ok w b room)
    ∙ recv_lanes-skip (stored (w ∷ []) b) (rw k) (rw k) (rw k) (rw k)

-- A receiver whose data and keep signals are those that `do_send_tlp_raw` drives for the words that
-- are left stores the words of that clock, one or two, in their order, if its buffer has room; no
-- byte is left over.
pub recv_lanes-drive :
    (a b : Bus) (w : ℕ) (words : List ℕ)
    → b.s_axis_tx_tdata ≡ (drive (w ∷ words) a).m_axis_rx_tdata
    → b.s_axis_tx_tkeep ≡ (drive (w ∷ words) a).m_axis_rx_tkeep
    → AllWord32 (beat (w ∷ words))
    → b.s_tlp_cnt + 1 < max_tlp
    → recv_lanes lane_order 0 0 b ≡ ok 0 (stored (beat (w ∷ words)) b)
unfolding drive
recv_lanes-drive a b w [] d k h room = one_word w b d k h.0 (omega arith)
recv_lanes-drive a b w (v ∷ words) d k h room = two_words w v b d k h.0 h.1.0 room
