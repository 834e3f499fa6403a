-- ===== src/Pci/Lines.antt =====
-- The bits of the words that libsimbus/simbus_pci.c collects from the interrupt lines and from AD.
use simbus.Base.{
  ℕ, zero, suc, ◌+◌, ◌*◌, ◌^◌, ◌<◌, ◌≡◌, ◌∙◌, inl, inr, refl, ap, ltb, if◌then◌else◌, Bool, true,
  ◌&&◌, Bool-cases, List, arith, get_or, test_bit, test_bit-zero, test_bit-over_low,
  test_bit-over_high, lt_of_test_bit,
}
use simbus.Wire.{Bit, bit_0, bit_x, is_bit}
use simbus.Wire.Words.{take_bits, test_bit-take_bits_in, test_bit-take_bits_out}
use simbus.Pci.{Bus}
use simbus.Pci.Clock.{intr_active, is_low}
use simbus.Pci.Master.{read_value, not_low, unknown}

-- A word of the low `n` lines has the bits that the test says, and no other.
test_bit-take_low :
    (test : Bit → Bool) (n : ℕ) (bits : List Bit) (k : ℕ)
    → test_bit (take_bits test n 0 0 bits 0) k ≡ (ltb k n && test (get_or bits k bit_x))
test_bit-take_low test n bits k = elim (Bool-cases (ltb k n)) [
  | inl low ↦ rw low (
      test_bit-take_bits_in test n 0 0 bits 0 k (omega arith) (ground arith) (test_bit-zero k)
      ∙ ap (λ t. test (get_or bits t bit_x)) {x = 0 + k} {y = k} (omega arith))
  | inr high ↦
      rw high (test_bit-take_bits_out test n 0 0 bits 0 k (inr (ground arith)) ∙ test_bit-zero k)
]

-- The word and the mask that a read collects from AD, over 64 bits if ACK64# is 0 and over 32 if not: a bit
-- of the word is 1 if and only if its line is not 0, and a bit of the mask if and only if its line
-- is neither 0 nor 1.
read_value_lem :
    (b : Bus) (k : ℕ)
    → (test_bit (read_value b).0 k ≡ (
        ltb k (if is_bit b.pci_ack64_n bit_0 then 64 else 32) && not_low (get_or b.pci_ad k bit_x)))
      × (test_bit (read_value b).1 k ≡ (
          ltb k (if is_bit b.pci_ack64_n bit_0 then 64 else 32)
          && unknown (get_or b.pci_ad k bit_x)))
unfolding read_value
read_value_lem b k =
    let n = if is_bit b.pci_ack64_n bit_0 then 64 else 32 in
    (test_bit-take_low not_low n b.pci_ad k, test_bit-take_low unknown n b.pci_ad k)

-- The lines of a group: INTA#, INTB#, INTC#, INTD#.
unfoldable pub group : ℕ → Bus → List Bit
group zero b = b.pci_inta_n
group (suc zero) b = b.pci_intb_n
group (suc (suc zero)) b = b.pci_intc_n
group (suc (suc (suc g))) b = b.pci_intd_n

abbrev lines : List Bit → ℕ
lines bits = take_bits is_low 16 0 0 bits 0

lines-small : (bits : List Bit) → lines bits < 2 ^ 16
lines-small bits =
    lt_of_test_bit (lines bits) 16
      (λ k h. test_bit-take_bits_out is_low 16 0 0 bits 0 k (inr (omega arith)) ∙ test_bit-zero k)

line_bit :
    (bits : List Bit) (k : ℕ) → k < 16 → test_bit (lines bits) k ≡ is_low (get_or bits k bit_x)
line_bit bits k h =
    let inside : ltb k 16 ≡ true = ground arith in
    test_bit-take_low is_low 16 bits k ∙ rw inside refl

nested :
    (a b c d : ℕ)
    → a + b * 2 ^ 16 + c * 2 ^ 32 + d * 2 ^ 48 ≡ a + (b + (c + d * 2 ^ 16) * 2 ^ 16) * 2 ^ 16
nested a b c d = omega arith

above :
    (bits : List Bit) (rest k : ℕ)
    → test_bit (lines bits + rest * 2 ^ 16) (16 + k) ≡ test_bit rest k
above bits rest k = test_bit-over_high (lines bits) rest 16 k (lines-small bits)

below :
    (bits : List Bit) (rest k : ℕ)
    → k < 16
    → test_bit (lines bits + rest * 2 ^ 16) k ≡ is_low (get_or bits k bit_x)
below bits rest k low = test_bit-over_low (lines bits) rest 16 k low ∙ line_bit bits k low

-- The mask, with each group over the next.
abbrev stacked : Bus → ℕ
stacked b =
    lines b.pci_inta_n
    + (lines b.pci_intb_n + (lines b.pci_intc_n + lines b.pci_intd_n * 2 ^ 16) * 2 ^ 16) * 2 ^ 16

at_index : (b : Bus) (i j : ℕ) → i ≡ j → test_bit (intr_active b) i ≡ test_bit (stacked b) j
unfolding intr_active
at_index b i j e =
    ap (λ t. test_bit t i)
      (nested (lines b.pci_inta_n) (lines b.pci_intb_n) (lines b.pci_intc_n) (lines b.pci_intd_n))
    ∙ ap (test_bit (stacked b)) e

-- For each group g of the four and each of its 16 lines k, the bit 16 g + k of the mask of the active
-- interrupts is 1 if and only if the line is 0.
intr_active_lem :
    (b : Bus) (g k : ℕ)
    → g < 4
    → k < 16
    → test_bit (intr_active b) (g * 16 + k) ≡ is_low (get_or (group g b) k bit_x)
unfolding group
intr_active_lem b zero k few low =
    at_index b (0 * 16 + k) k (omega arith) ∙ below b.pci_inta_n _ k low
intr_active_lem b (suc zero) k few low =
    at_index b (1 * 16 + k) (16 + k) (omega arith)
    ∙ above b.pci_inta_n _ k
    ∙ below b.pci_intb_n _ k low
intr_active_lem b (suc (suc zero)) k few low =
    at_index b (2 * 16 + k) (16 + (16 + k)) (omega arith)
    ∙ above b.pci_inta_n _ (16 + k)
    ∙ above b.pci_intb_n _ k
    ∙ below b.pci_intc_n _ k low
intr_active_lem b (suc (suc (suc zero))) k few low =
    at_index b (3 * 16 + k) (16 + (16 + (16 + k))) (omega arith)
    ∙ above b.pci_inta_n _ (16 + (16 + k))
    ∙ above b.pci_intb_n _ (16 + k)
    ∙ above b.pci_intc_n (lines b.pci_intd_n) k
    ∙ line_bit b.pci_intd_n k low
intr_active_lem b (suc (suc (suc (suc g)))) k few low = absurd (omega arith)
