-- ===== src/Wire/RoundTrip.antt =====
-- Words that libsimbus puts on a vector of bits and takes from it.
use simbus.Base.{
  ℕ, ◌+◌, ◌%◌, ◌^◌, ◌≤◌, ◌<◌, ◌≡◌, ◌∙◌, inl, inr, ap, sym, ltb, Bool-cases, List, arith, length,
  get_or, test_bit, test_bit_high, eq_of_test_bit, test_bit-zero, test_bit-mod, mod_pow-small,
}
use simbus.Wire.{Bit, bit_1, bit_x, bit_of, is_bit}
use simbus.Wire.Vectors.{is_bit-bit_of}
use simbus.Wire.Words.{
  put_word, take_word, get_or-put_word, test_bit-take_word_in, test_bit-take_word_out,
}

-- A word put on the lanes is taken back as it was.
pub take_word-put_word :
    (n base word : ℕ) (bits : List Bit)
    → word < 2 ^ n
    → base + n ≤ length bits
    → take_word n 0 base (put_word n 0 word base bits) 0 ≡ word
take_word-put_word n base word bits small room =
    let lanes = put_word n 0 word base bits in
    eq_of_test_bit _ _ (λ k. elim (Bool-cases (ltb k n)) [
      | inl low ↦
          test_bit-take_word_in n 0 base lanes 0 k (omega arith) (ground arith) (test_bit-zero k)
          ∙ ap (λ t. is_bit t bit_1)
              (get_or-put_word n 0 word base bits k (omega arith) (ground arith) (ground arith))
          ∙ is_bit-bit_of (test_bit word k)
      | inr high ↦
          test_bit-take_word_out n 0 base lanes 0 k (inr (ground arith))
          ∙ test_bit-zero k
          ∙ sym (test_bit_high word n k small (ground arith))
    ])

-- A vector that starts with the low `n` bits of a word holds the word without its other bits.
pub take_word-low_bits :
    (n word : ℕ) (bits : List Bit)
    → ((k : ℕ) → k < n → get_or bits k bit_x ≡ bit_of (test_bit word k))
    → take_word n 0 0 bits 0 ≡ word % 2 ^ n
take_word-low_bits n word bits same = eq_of_test_bit _ _ (λ k. elim (Bool-cases (ltb k n)) [
  | inl low ↦
      test_bit-take_word_in n 0 0 bits 0 k (omega arith) (ground arith) (test_bit-zero k)
      ∙ ap (λ t. is_bit (get_or bits t bit_x) bit_1) {x = 0 + k} {y = k} (omega arith)
      ∙ ap (λ t. is_bit t bit_1) (same k (ground arith))
      ∙ is_bit-bit_of (test_bit word k)
      ∙ sym (test_bit-mod word n k (ground arith))
  | inr high ↦
      test_bit-take_word_out n 0 0 bits 0 k (inr (ground arith))
      ∙ test_bit-zero k
      ∙ sym (test_bit_high (word % 2 ^ n) n k (mod_pow-small word n) (ground arith))
])
