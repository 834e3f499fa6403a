-- ===== src/Tlp/Requests/Headers.antt =====
-- The memory writes of libsimbus/simbus_pcie_tlp_write.c at the side that receives them, in
-- `complete_recv_tlp` of libsimbus/simbus_pcie_tlp_tlp.c.
use simbus.Base.{
  ℕ, ◌+◌, ◌*◌, ◌/◌, ◌%◌, ◌^◌, ◌<◌, ◌≡◌, ◌∙◌, refl, ap, sym, ◌==◌, Bool-cases, inl, inr, none, some,
  List, [], ◌∷◌, ◌++◌, map, arith, length, get_or, drop, take, and_then, ok,
}
use simbus.Tlp.{Bus}
use simbus.Tlp.Stream.{swap_word, byte_swap32}
use simbus.Tlp.Stream.Beats.{AllWord32}
use simbus.Tlp.Stream.Swap.{
  byte_swap32-map, map-swap_word, drop-append, take-append, length-map-swap_word,
}
use simbus.Tlp.Link.{Handlers, call_write, recv_write, dispatch, nothing, wide_addr}
use simbus.Tlp.Requests.{write_enables, write_tlp, addr_high, addr_low}

module _ (h : Handlers) (b : Bus) where
  dispatch-write32 :
      get_or b.s_tlp_buf 0 0 / 16777216 ≡ 0x40
      → dispatch h b ≡ nothing (recv_write h (get_or b.s_tlp_buf 2 0) 3) b
  unfolding dispatch
  dispatch-write32 e = rw (e, dispatch) refl

  dispatch-write64 :
      get_or b.s_tlp_buf 0 0 / 16777216 ≡ 0x60
      → dispatch h b ≡ nothing (recv_write h (wide_addr b) 4) b
  unfolding dispatch
  dispatch-write64 e = rw (e, dispatch) refl

  -- The callback of a write sees the data in the sender's byte order.
  recv_write-words :
      (fun cookie addr : ℕ) (pre words rest : List ℕ)
      → b.write_fun ≡ some (fun, cookie)
      → b.s_tlp_buf ≡ pre ++ (map swap_word words ++ rest)
      → get_or b.s_tlp_buf 0 0 % 1024 ≡ length words
      → AllWord32 words
      → recv_write h addr (length pre) b
        ≡ h.on_write fun cookie addr words
            (get_or b.s_tlp_buf 1 0 % 16)
            (get_or b.s_tlp_buf 1 0 / 16 % 16)
            (record b { s_tlp_buf = pre ++ (words ++ rest) })
  unfolding recv_write
  recv_write-words fun cookie addr pre words rest f e n all =
      let first = get_or b.s_tlp_buf 1 0 % 16 in
      let last = get_or b.s_tlp_buf 1 0 / 16 % 16 in
      let ndata = get_or b.s_tlp_buf 0 0 % 1024 in
      let swapped : byte_swap32 ndata (length pre) b.s_tlp_buf ≡ pre ++ (words ++ rest) =
        ap (λ k. byte_swap32 k (length pre) b.s_tlp_buf) (n ∙ sym (length-map-swap_word words))
        ∙ ap (byte_swap32 (length (map swap_word words)) (length pre)) e
        ∙ byte_swap32-map pre (map swap_word words) rest
        ∙ ap (λ t. pre ++ (t ++ rest)) (map-swap_word words all) in
      let handed : take ndata (drop (length pre) (pre ++ (words ++ rest))) ≡ words =
        ap (take ndata) (drop-append pre (words ++ rest))
        ∙ ap (λ k. take k (words ++ rest)) n
        ∙ take-append words rest in
      ap (λ t. call_write h t addr (length pre) b) f
      ∙ ap
          (λ t.
            h.on_write fun cookie addr (take ndata (drop (length pre) t)) first last
              (record b { s_tlp_buf = t }))
          swapped
      ∙ ap
          (λ t.
            h.on_write fun cookie addr t first last
              (record b { s_tlp_buf = pre ++ (words ++ rest) }))
          handed

enables_word :
    (e id : ℕ) → ((e + id * 65536) % 16 ≡ e % 16) × ((e + id * 65536) / 16 % 16 ≡ e / 16 % 16)
enables_word e id = omega arith

-- The callback's turn, when the buffer holds a header with the enables `e` and then the data.
module _ (h : Handlers) (b : Bus) (fun cookie addr e id : ℕ) (pre words rest : List ℕ)
    (named : b.write_fun ≡ some (fun, cookie))
    (buf : b.s_tlp_buf ≡ pre ++ (map swap_word words ++ rest))
    (count : get_or b.s_tlp_buf 0 0 % 1024 ≡ length words)
    (second : get_or b.s_tlp_buf 1 0 ≡ e + id * 65536) (all : AllWord32 words) where
  called :
      nothing (recv_write h addr (length pre)) b
      ≡ nothing
          (h.on_write fun cookie addr words (e % 16) (e / 16 % 16))
          (record b { s_tlp_buf = pre ++ (words ++ rest) })
  called =
      let b' : Bus = record b { s_tlp_buf = pre ++ (words ++ rest) } in
      ap (λ t. and_then t (λ _. ok none))
        (recv_write-words h b fun cookie addr pre words rest named buf count all
          ∙ ap (λ t. h.on_write fun cookie addr words (t % 16) (t / 16 % 16) b') second
          ∙ ap (λ t. h.on_write fun cookie addr words t ((e + id * 65536) / 16 % 16) b')
              (enables_word e id).0
          ∙ ap (λ t. h.on_write fun cookie addr words (e % 16) t b') (enables_word e id).1)

-- What the dispatch of a write comes to.
abbrev pub Delivers : Handlers → Bus → ℕ → ℕ → ℕ → List ℕ → ℕ → Type 0
Delivers h b fun cookie addr words e =
    (buf : List ℕ) × (dispatch h b
      ≡ nothing (h.on_write fun cookie addr words (e % 16) (e / 16 % 16))
          (record b { s_tlp_buf = buf }))

module _ (h : Handlers) (b : Bus) (fun cookie addr e id : ℕ) (words rest : List ℕ)
    (named : b.write_fun ≡ some (fun, cookie)) (n : length words < 1024)
    (all : AllWord32 words) where
  Delivers-low :
      b.s_tlp_buf
        ≡ (0x40000000 + length words) ∷ (e + id * 65536) ∷ addr ∷ (map swap_word words ++ rest)
      → Delivers h b fun cookie addr words e
  Delivers-low buf =
      let pre : List ℕ = (0x40000000 + length words) ∷ (e + id * 65536) ∷ addr ∷ [] in
      let first : get_or b.s_tlp_buf 0 0 ≡ 0x40000000 + length words = ap (λ t. get_or t 0 0) buf in
      (
        pre ++ (words ++ rest),
        dispatch-write32 h b (omega (arith, first))
            ∙ ap (λ a. nothing (recv_write h a 3) b) (ap (λ t. get_or t 2 0) buf)
            ∙ called h b fun cookie addr e id pre words rest named buf (omega (arith, first))
                (ap (λ t. get_or t 1 0) buf) all,
      )

  Delivers-high :
      (high low : ℕ)
      → addr ≡ high * 2 ^ 32 + low
      → b.s_tlp_buf
        ≡ (0x60000000 + length words)
          ∷ (e + id * 65536)
          ∷ high
          ∷ low
          ∷ (map swap_word words ++ rest)
      → Delivers h b fun cookie addr words e
  Delivers-high high low split buf =
      let pre : List ℕ = (0x60000000 + length words) ∷ (e + id * 65536) ∷ high ∷ low ∷ [] in
      let first : get_or b.s_tlp_buf 0 0 ≡ 0x60000000 + length words = ap (λ t. get_or t 0 0) buf in
      let third : get_or b.s_tlp_buf 2 0 ≡ high = ap (λ t. get_or t 2 0) buf in
      let fourth : get_or b.s_tlp_buf 3 0 ≡ low = ap (λ t. get_or t 3 0) buf in
      let whole : wide_addr b ≡ addr = omega (arith, third, fourth) in
      (
        pre ++ (words ++ rest),
        dispatch-write64 h b (omega (arith, first))
            ∙ ap (λ a. nothing (recv_write h a 4) b) whole
            ∙ called h b fun cookie addr e id pre words rest named buf (omega (arith, first))
                (ap (λ t. get_or t 1 0) buf) all,
      )

-- A bus whose buffer begins with the TLP that `simbus_pcie_tlp_write` builds calls its write
-- callback with the address, the data words and the byte enables of that write, be the address one
-- of 32 or of 64 bits; the TLP is answered by nothing, and only the buffer's contents change.
pub dispatch-write_tlp :
    (h : Handlers) (b : Bus) (fun cookie id addr off len : ℕ) (words rest : List ℕ)
    → b.write_fun ≡ some (fun, cookie)
    → b.s_tlp_buf ≡ write_tlp id addr words off len ++ rest
    → length words < 1024
    → AllWord32 words
    → addr < 2 ^ 64
    → Delivers h b fun cookie addr words (write_enables (length words) off len)
unfolding write_tlp
dispatch-write_tlp h b fun cookie id addr off len words rest f e n all range =
    let enables = write_enables (length words) off len in
    elim (Bool-cases (addr_high addr == 0)) [
      | inl low ↦
          let same : addr_low addr ≡ addr = ground arith in
          let buf : b.s_tlp_buf
              ≡ (0x40000000 + length words)
                ∷ (enables + id * 65536)
                ∷ addr_low addr
                ∷ (map swap_word words ++ rest) =
            rw low at e in
          Delivers-low h b fun cookie addr enables id words rest f n all (
            buf
            ∙ ap
                (λ t.
                  (0x40000000 + length words)
                  ∷ (enables + id * 65536)
                  ∷ t
                  ∷ (map swap_word words ++ rest))
                same)
      | inr high ↦
          Delivers-high h b fun cookie addr enables id words rest f n all (addr_high addr)
            (addr_low addr) (omega arith) (rw high at e)
    ]
