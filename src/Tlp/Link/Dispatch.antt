-- ===== src/Tlp/Link/Dispatch.antt =====
-- What `complete_recv_tlp`, libsimbus/simbus_pcie_tlp_tlp.c, does with interrupt messages.
use simbus.Base.{
  ℕ, ◌*◌, ◌/◌, ◌%◌, ◌<◌, ◌≡◌, ◌≢◌, ◌∙◌, refl, ap, none, List, arith, get_or, ok, true, false, Cmd,
  test_bit, set_bit, clear_bit, test_bit-set_bit_self, test_bit-set_bit_ne, test_bit-clear_bit_self,
  test_bit-clear_bit_ne,
}
use simbus.Tlp.{Bus}
use simbus.Tlp.Link.{Handlers, dispatch, complete_recv, recv_message, assert_intx, deassert_intx}

module _ (h : Handlers) (send : List ℕ → Cmd Bus (Unit {0})) (b : Bus) where
  dispatch-message :
      get_or b.s_tlp_buf 0 0 / 16777216 ≡ 0x30 → dispatch h b ≡ ok none (recv_message b)
  unfolding dispatch
  dispatch-message e = rw (e, dispatch) refl

  complete_recv-nothing :
      {b' : Bus}
      → 0 < b.s_tlp_cnt
      → dispatch h b ≡ ok none b'
      → complete_recv h send b ≡ ok tt (record b' { s_tlp_cnt = 0 })
  unfolding complete_recv
  complete_recv-nothing some_words e = ground arith

  -- The interrupt line that a message names.
  abbrev line : ℕ
  line = get_or b.s_tlp_buf 1 0 % 4

  recv_message-assert :
      get_or b.s_tlp_buf 1 0 % 256 / 4 * 4 ≡ 0x20
      → recv_message b ≡ record b { intx_mask = set_bit b.intx_mask line }
  unfolding recv_message assert_intx
  recv_message-assert e = rw (e, recv_message) refl

  recv_message-deassert :
      get_or b.s_tlp_buf 1 0 % 256 / 4 * 4 ≡ 0x24
      → recv_message b ≡ record b { intx_mask = clear_bit b.intx_mask line }
  unfolding recv_message deassert_intx
  recv_message-deassert e = rw (e, recv_message) refl

  -- An Assert_INTx message (codes 0x20 to 0x23) raises its interrupt line, a Deassert_INTx message
  -- (0x24 to 0x27) clears it, and neither touches another line; the receive buffer is emptied and
  -- the rest of the bus is as it was.
  pub complete_recv-intx :
      0 < b.s_tlp_cnt
      → get_or b.s_tlp_buf 0 0 / 16777216 ≡ 0x30
      → (get_or b.s_tlp_buf 1 0 % 256 / 4 * 4 ≡ 0x20
          → (mask : ℕ) × (complete_recv h send b
              ≡ ok tt (record b { intx_mask = mask; s_tlp_cnt = 0 }))
            × (test_bit mask line ≡ true)
            × ((j : ℕ) → line ≢ j → test_bit mask j ≡ test_bit b.intx_mask j))
        × (get_or b.s_tlp_buf 1 0 % 256 / 4 * 4 ≡ 0x24
            → (mask : ℕ) × (complete_recv h send b
                ≡ ok tt (record b { intx_mask = mask; s_tlp_cnt = 0 }))
              × (test_bit mask line ≡ false)
              × ((j : ℕ) → line ≢ j → test_bit mask j ≡ test_bit b.intx_mask j))
  complete_recv-intx words kind = (
    λ e. (
      set_bit b.intx_mask line,
      complete_recv-nothing words (dispatch-message kind ∙ ap (ok none) (recv_message-assert e)),
      test_bit-set_bit_self b.intx_mask line,
      λ j ne. test_bit-set_bit_ne b.intx_mask line j ne,
    ),
    λ e. (
      clear_bit b.intx_mask line,
      complete_recv-nothing words (dispatch-message kind ∙ ap (ok none) (recv_message-deassert e)),
      test_bit-clear_bit_self b.intx_mask line,
      λ j ne. test_bit-clear_bit_ne b.intx_mask line j ne,
    ),
  )
