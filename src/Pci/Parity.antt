-- ===== src/Pci/Parity.antt =====
-- The parity and the interrupts that libsimbus/simbus_pci.c computes, against the ones counted.
use simbus.Base.{
  ℕ, zero, suc, ◌+◌, ◌%◌, ◌≤◌, ◌<◌, ◌≡◌, ◌∙◌, inl, inr, refl, ap, if◌then◌else◌, true, false,
  Bool-cases, List, arith, get_or, ◌==◌,
}
use simbus.Wire.{Bit, bit_0, bit_1, bit_x, bit_z, is_bit, bit_of}
use simbus.Pci.{Bus}
use simbus.Pci.Clock.{bit_xor, xor_bits, some_driven, parity, par_enables}

-- The number of ones among the `n` bits from `idx` on.
unfoldable pub ones : ℕ → ℕ → List Bit → ℕ
ones zero idx bits = 0
ones (suc n) idx bits =
    let rest = ones n (idx + 1) bits in
    if is_bit (get_or bits idx bit_x) bit_1 then suc rest else rest

-- A bit that is 0 or 1.
pub data Known : Bit → Type 0 where
  known_0 : Known bit_0
  known_1 : Known bit_1

abbrev odd : ℕ → Bit
odd n = bit_of (n % 2 == 1)

odd-suc : (n : ℕ) → bit_xor (odd n) bit_1 ≡ odd (suc n)
unfolding bit_xor
odd-suc n = elim (Bool-cases (n % 2 == 1)) [
  | inl e ↦ let f : (suc n % 2 == 1) ≡ false = ground arith in rw (e, f) refl
  | inr e ↦ let f : (suc n % 2 == 1) ≡ true = ground arith in rw (e, f) refl
]

odd-same : (n : ℕ) → bit_xor (odd n) bit_0 ≡ odd n
unfolding bit_xor
odd-same n = elim (Bool-cases (n % 2 == 1)) [ inl e ↦ rw e refl | inr e ↦ rw e refl ]

xor_step :
    (v : Bit) (n idx : ℕ) (bits : List Bit) (m : ℕ)
    → Known v
    → ((k : ℕ) → xor_bits n idx bits (odd k) ≡ odd (k + ones n idx bits))
    → xor_bits n idx bits (bit_xor (odd m) v)
      ≡ odd (m + (if is_bit v bit_1 then suc (ones n idx bits) else ones n idx bits))
xor_step _ n idx bits m known_0 later = ap (xor_bits n idx bits) (odd-same m) ∙ later m
xor_step _ n idx bits m known_1 later =
    ap (xor_bits n idx bits) (odd-suc m)
    ∙ later (suc m)
    ∙ ap odd {x = suc m + ones n idx bits} {y = m + suc (ones n idx bits)} (omega arith)

xor_bits-ones :
    (n idx : ℕ) (bits : List Bit) (m : ℕ)
    → ((i : ℕ) → idx ≤ i → i < idx + n → Known (get_or bits i bit_x))
    → xor_bits n idx bits (odd m) ≡ odd (m + ones n idx bits)
unfolding xor_bits ones
xor_bits-ones zero idx bits m known = ap odd {x = m} {y = m + 0} (omega arith)
xor_bits-ones (suc n) idx bits m known =
    xor_step (get_or bits idx bit_x) n (idx + 1) bits m (known idx (omega arith) (omega arith))
      (λ k. xor_bits-ones n (idx + 1) bits k (λ i low high. known i (omega arith) (omega arith)))

not_z : (v : Bit) → Known v → is_bit v bit_z ≡ false
not_z _ known_0 = refl
not_z _ known_1 = refl

some_driven-Known :
    (n idx : ℕ) (bits : List Bit)
    → Known (get_or bits idx bit_x)
    → some_driven (suc n) idx bits ≡ true
unfolding some_driven
some_driven-Known n idx bits known = rw (not_z (get_or bits idx bit_x) known) refl

-- When the bits of AD[31:0] and the C/BE#[3:0] that PAR covers are each 0 or 1, PAR makes the number of
-- ones among all of them and itself even: it is 1 if and only if their number is odd.
pub parity-even :
    (b : Bus)
    → ((i : ℕ) → i < 32 → Known (get_or b.out_ad i bit_x))
    → ((i : ℕ) → i < 4 → Known (get_or (par_enables b) i bit_x))
    → parity b ≡ bit_of ((ones 32 0 b.out_ad + ones 4 0 (par_enables b)) % 2 == 1)
unfolding parity
parity-even b ad enables =
    let driven = some_driven-Known 31 0 b.out_ad (ad 0 (omega arith)) in
    rw driven (
      ap (xor_bits 4 0 (par_enables b)) (
        xor_bits-ones 32 0 b.out_ad 0 (λ i low high. ad i (omega arith))
        ∙ ap odd {x = 0 + ones 32 0 b.out_ad} {y = ones 32 0 b.out_ad} (omega arith))
      ∙ xor_bits-ones 4 0 (par_enables b) (ones 32 0 b.out_ad)
          (λ i low high. enables i (omega arith)))
