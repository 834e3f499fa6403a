-- ===== src/Axi4/Read/Words.antt =====
-- The words that the reads of libsimbus/simbus_axi4_read.c take from the data lanes.
use simbus.Base.{
  ℕ, ◌+◌, ◌*◌, ◌≤◌, ◌≡◌, ◌∙◌, inl, inr, ap, ltb, Bool-cases, List, arith, length, test_bit,
  test_bit-zero, ◌&&◌,
}
use simbus.Wire.{Bit, bit_1, is_bit}
use simbus.Wire.Vectors.{is_bit-bit_of}
use simbus.Axi4.Write.{data_lanes}
use simbus.Axi4.Write.Lanes.{get_or-data_lanes}
use simbus.Wire.Words.{take_word, test_bit-take_word_out, test_bit-take_word_in}

-- A read takes from the data lanes the word that a write of the same number of bits, at the same
-- first lane, drives on them: bit by bit, and it has no other bits. The X values of the write may
-- start at any bit after the word.
pub take_word-data_lanes :
    (width first n tail word : ℕ) (bits : List Bit) (j : ℕ)
    → n ≤ tail
    → first * 8 + n ≤ length bits
    → test_bit (take_word n 0 (first * 8) (data_lanes width first n tail word bits) 0) j
      ≡ (ltb j n && test_bit word j)
take_word-data_lanes width first n tail word bits j late room =
    let lanes = data_lanes width first n tail word bits in
    elim (Bool-cases (ltb j n)) [
      | inl low ↦ rw low (
          test_bit-take_word_in n 0 (first * 8) lanes 0 j (omega arith) (ground arith)
            (test_bit-zero j)
          ∙ ap (λ t. is_bit t bit_1)
              (get_or-data_lanes width first n tail word bits j (ground arith) (ground arith) room)
          ∙ is_bit-bit_of (test_bit word j))
      | inr high ↦
          rw high (
            test_bit-take_word_out n 0 (first * 8) lanes 0 j (inr (ground arith)) ∙ test_bit-zero j)
    ]
