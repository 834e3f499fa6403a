-- ===== src/Tlp/Requests/Reads.antt =====
-- The memory reads of libsimbus/simbus_pcie_tlp_read.c and the completions that
-- `complete_recv_tlp` of libsimbus/simbus_pcie_tlp_tlp.c sends back.
use simbus.Base.{
  ℕ, ◌/◌, ◌%◌, ◌<◌, ◌≡◌, ◌∙◌, refl, ap, sym, some, List, [], ◌∷◌, ◌++◌, map, arith, length, get_or,
  take, replicate, ok, Cmd, and_then, ◌⊎◌, inl, inr,
}
use mathlib.Core.List.{append-nil}
use simbus.Tlp.{Bus}
use simbus.Tlp.Stream.{swap_word, byte_swap32}
use simbus.Tlp.Stream.Beats.{AllWord32}
use simbus.Tlp.Stream.Swap.{byte_swap32-map, map-swap_word, take-append, length-map-swap_word}
use simbus.Tlp.Link.{
  Handlers, call_read, recv_read, completion_header, dispatch, complete_recv, fit, wide_addr,
}
use simbus.Tlp.Requests.{read_result}

-- The words of the callback in the byte order of the link.
byte_swap32-all : (words : List ℕ) → byte_swap32 (length words) 0 words ≡ map swap_word words
byte_swap32-all words =
    ap (byte_swap32 (length words) 0) (sym (append-nil words))
    ∙ byte_swap32-map [] words []
    ∙ append-nil (map swap_word words)

module _ (h : Handlers) (b : Bus) where
  dispatch-read32 :
      get_or b.s_tlp_buf 0 0 / 16777216 ≡ 0
      → dispatch h b ≡ and_then (recv_read h (get_or b.s_tlp_buf 2 0) b) (λ tlp. ok (some tlp))
  unfolding dispatch
  dispatch-read32 e = rw (e, dispatch) refl

  dispatch-read64 :
      get_or b.s_tlp_buf 0 0 / 16777216 ≡ 0x20
      → dispatch h b ≡ and_then (recv_read h (wide_addr b) b) (λ tlp. ok (some tlp))
  unfolding dispatch
  dispatch-read64 e = rw (e, dispatch) refl

module _ (h : Handlers) (send : List ℕ → Cmd Bus (Unit {0})) (b : Bus) where
  complete_recv-some :
      {tlp : List ℕ} {b' : Bus}
      → 0 < b.s_tlp_cnt
      → dispatch h b ≡ ok (some tlp) b'
      → complete_recv h send b ≡ send tlp (record b' { s_tlp_cnt = 0 })
  unfolding complete_recv
  complete_recv-some words e = ground arith

dispatch-read :
    (h : Handlers) (b : Bus) (addr : ℕ)
    → ((get_or b.s_tlp_buf 0 0 / 16777216 ≡ 0) × (addr ≡ get_or b.s_tlp_buf 2 0))
      ⊎ ((get_or b.s_tlp_buf 0 0 / 16777216 ≡ 0x20) × (addr ≡ wide_addr b))
    → dispatch h b ≡ and_then (recv_read h addr b) (λ tlp. ok (some tlp))
dispatch-read h b addr (inl (kind, e)) =
    dispatch-read32 h b kind ∙ ap (λ a. and_then (recv_read h a b) (λ tlp. ok (some tlp))) (sym e)
dispatch-read h b addr (inr (kind, e)) =
    dispatch-read64 h b kind ∙ ap (λ a. and_then (recv_read h a b) (λ tlp. ok (some tlp))) (sym e)

take-length : (words : List ℕ) → take (length words) words ≡ words
take-length [] = refl
take-length (w ∷ words) = ap (λ t. w ∷ t) (take-length words)

take-length_replicate :
    (words rest : List ℕ) (n : ℕ) → n ≡ length words → take n (words ++ rest) ≡ words
take-length_replicate words rest n e = ap (λ k. take k (words ++ rest)) e ∙ take-append words rest

-- The requester takes from the completion the words that the callback gave.
read_result-completion :
    (addr : ℕ) (words : List ℕ) (b c : Bus)
    → get_or b.s_tlp_buf 0 0 % 1024 ≡ length words
    → AllWord32 words
    → read_result (length words) (completion_header addr b ++ map swap_word words) c ≡ ok words c
unfolding read_result
read_result-completion addr words b c n all =
    let swapped = map swap_word words in
    let taken : map swap_word (take (length words) swapped) ≡ words =
      ap (λ k. map swap_word (take k swapped)) (sym (length-map-swap_word words))
      ∙ ap (map swap_word) (take-length swapped)
      ∙ map-swap_word words all in
    ground (arith, taken, length-map-swap_word words)

-- The words that a read's callback leaves, in the byte order of the link.
recv_read-words :
    (h : Handlers) (b b' : Bus) (fun cookie addr : ℕ) (words : List ℕ)
    → b.read_fun ≡ some (fun, cookie)
    → get_or b.s_tlp_buf 0 0 % 1024 ≡ length words
    → h.on_read fun cookie addr
        (replicate (length words) 0)
        (get_or b.s_tlp_buf 1 0 % 16)
        (get_or b.s_tlp_buf 1 0 / 16 % 16)
        b
      ≡ ok words b'
    → recv_read h addr b ≡ ok (completion_header addr b ++ map swap_word words) b'
unfolding recv_read
recv_read-words h b b' fun cookie addr words named n called =
    let count = get_or b.s_tlp_buf 0 0 % 1024 in
    let first = get_or b.s_tlp_buf 1 0 % 16 in
    let last = get_or b.s_tlp_buf 1 0 / 16 % 16 in
    let header = completion_header addr b in
    let answered : call_read h b.read_fun addr b ≡ ok (map swap_word words) b' =
      ap (λ t. call_read h t addr b) named
      ∙ ap
          (λ k.
            and_then (h.on_read fun cookie addr (replicate k 0) first last b)
              (λ ws. ok (byte_swap32 k 0 (fit k ws))))
          n
      ∙ ap (λ t. and_then t (λ ws. ok (byte_swap32 (length words) 0 (fit (length words) ws))))
          called
      ∙ ap (λ t. ok (byte_swap32 (length words) 0 t) b')
          (take-length_replicate words (replicate (length words) 0) (length words) refl)
      ∙ ap (λ t. ok t b') (byte_swap32-all words) in
    ap (λ t. and_then t (λ ws. ok (header ++ ws))) answered

-- A memory read, with a 32-bit or a 64-bit address, whose callback leaves as many words as are
-- asked for is answered by one TLP: it carries the tag and the requester's id of the request, and
-- `simbus_pcie_tlp_read` of the requester takes exactly the callback's words from it. The receive
-- buffer is emptied before that TLP is sent.
pub complete_recv-read :
    (h : Handlers) (send : List ℕ → Cmd Bus (Unit {0})) (b b' c : Bus) (fun cookie addr : ℕ)
    (words : List ℕ)
    → 0 < b.s_tlp_cnt
    → ((get_or b.s_tlp_buf 0 0 / 16777216 ≡ 0) × (addr ≡ get_or b.s_tlp_buf 2 0))
      ⊎ ((get_or b.s_tlp_buf 0 0 / 16777216 ≡ 0x20) × (addr ≡ wide_addr b))
    → b.read_fun ≡ some (fun, cookie)
    → get_or b.s_tlp_buf 0 0 % 1024 ≡ length words
    → AllWord32 words
    → h.on_read fun cookie addr
        (replicate (length words) 0)
        (get_or b.s_tlp_buf 1 0 % 16)
        (get_or b.s_tlp_buf 1 0 / 16 % 16)
        b
      ≡ ok words b'
    → (tlp : List ℕ) × (complete_recv h send b ≡ send tlp (record b' { s_tlp_cnt = 0 }))
      × (get_or tlp 2 0 / 256 ≡ get_or b.s_tlp_buf 1 0 / 256)
      × (read_result (length words) tlp c ≡ ok words c)
complete_recv-read h send b b' c fun cookie addr words some_words kind named n all called =
    let tlp = completion_header addr b ++ map swap_word words in
    (
      tlp,
      complete_recv-some h send b some_words (
          dispatch-read h b addr kind
          ∙ ap (λ t. and_then t (λ tlp'. ok (some tlp')))
              (recv_read-words h b b' fun cookie addr words named n called)),
      omega arith,
      read_result-completion addr words b c n all,
    )
