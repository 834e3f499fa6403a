-- ===== src/Tlp/Stream/Lanes.antt =====
-- The shift register of the receiver of libsimbus/simbus_pcie_tlp_tlp.c over the bits of a word, byte
-- lane by byte lane.
use simbus.Base.{
  ℕ, zero, suc, ◌+◌, ◌*◌, ◌/◌, ◌%◌, ◌^◌, ◌<◌, ◌≡◌, ◌∙◌, refl, ap, sym, ◌==◌, List, [], ◌++◌, arith,
  get_or,
}
use simbus.Wire.{Bit, bit_x, bit_of, word_bits}
use simbus.Tlp.Stream.{one_if, shift_in}

one_if-bit_of : (n : ℕ) → one_if (bit_of (n % 2 == 1)) ≡ n % 2
one_if-bit_of n = ground arith

-- Eight bits at a time.
word_bits-byte :
    (n w : ℕ)
    → word_bits (suc (suc (suc (suc (suc (suc (suc (suc n)))))))) w
      ≡ word_bits 8 w ++ word_bits n (w / 256)
unfolding word_bits
word_bits-byte n w =
    ap (λ t. word_bits 8 w ++ word_bits n t) {x = w / 2 / 2 / 2 / 2 / 2 / 2 / 2 / 2} {y = w / 256}
      (omega arith)

-- The bits of a byte, after any number of earlier ones, are shifted in as the byte.
shift_in-byte :
    (rest : List Bit) (x val : ℕ)
    → val < 2 ^ 24
    → shift_in 8 0 (word_bits 8 x ++ rest) val ≡ val * 256 + x % 256
unfolding shift_in word_bits
shift_in-byte rest x val h = simp (one_if-bit_of) (omega arith)

shift_in-skip :
    (n base w : ℕ) (xs : List Bit) (val : ℕ)
    → shift_in n (base + 8) (word_bits 8 w ++ xs) val ≡ shift_in n base xs val
unfolding shift_in word_bits
shift_in-skip zero base w xs val = refl
shift_in-skip (suc n) base w xs val =
    let later : get_or (word_bits 8 w ++ xs) (base + 8 + n) bit_x ≡ get_or xs (base + n) bit_x =
      ap (λ i. get_or (word_bits 8 w ++ xs) i bit_x) {x = base + 8 + n}
        {y = suc (suc (suc (suc (suc (suc (suc (suc (base + n))))))))} (omega arith) in
    ap (λ t. shift_in n (base + 8) (word_bits 8 w ++ xs) ((val * 2 + one_if t) % 2 ^ 32)) later
    ∙ shift_in-skip n base w xs ((val * 2 + one_if (get_or xs (base + n) bit_x)) % 2 ^ 32)

-- The four bytes of a word, the lowest first, in front of `xs`.
abbrev four_bytes : ℕ → List Bit → List Bit
four_bytes w xs =
    word_bits 8 w
    ++ (word_bits 8 (w / 256)
        ++ (word_bits 8 (w / 256 / 256) ++ (word_bits 8 (w / 256 / 256 / 256) ++ xs)))

word_bits-four_bytes : (w : ℕ) (xs : List Bit) → word_bits 32 w ++ xs ≡ four_bytes w xs
word_bits-four_bytes w xs =
    ap (λ t. t ++ xs)
      (word_bits-byte 24 w
        ∙ ap (λ t. word_bits 8 w ++ t)
            (word_bits-byte 16 (w / 256)
              ∙ ap (λ t. word_bits 8 (w / 256) ++ t)
                  (word_bits-byte 8 (w / 256 / 256)
                    ∙ ap (λ t. word_bits 8 (w / 256 / 256) ++ t)
                        (word_bits-byte 0 (w / 256 / 256 / 256)))))
    ∙ nested w xs
  where
    nested :
        (w : ℕ) (xs : List Bit)
        → (word_bits 8 w
              ++ (word_bits 8 (w / 256)
                  ++ (word_bits 8 (w / 256 / 256)
                      ++ (word_bits 8 (w / 256 / 256 / 256)
                          ++ word_bits 0 (w / 256 / 256 / 256 / 256)))))
            ++ xs
          ≡ four_bytes w xs
    nested w xs = unfold word_bits in refl

-- The lanes of one word, at the bytes `base`, `base + 8`, ... of the stream.
abbrev pub lanes_value : ℕ → List Bit → ℕ
lanes_value base bits =
    shift_in 8 base bits
      (shift_in 8 (base + 8) bits (shift_in 8 (base + 16) bits (shift_in 8 (base + 24) bits 0)))

module _ (w : ℕ) (xs : List Bit) (val : ℕ) (small : val < 2 ^ 24) where
  byte_0 : shift_in 8 0 (four_bytes w xs) val ≡ val * 256 + w % 256
  byte_0 = shift_in-byte _ w val small

  byte_1 : shift_in 8 8 (four_bytes w xs) val ≡ val * 256 + w / 256 % 256
  byte_1 = shift_in-skip 8 0 w _ val ∙ shift_in-byte _ (w / 256) val small

  byte_2 : shift_in 8 16 (four_bytes w xs) val ≡ val * 256 + w / 256 / 256 % 256
  byte_2 =
      shift_in-skip 8 8 w _ val
      ∙ shift_in-skip 8 0 (w / 256) _ val
      ∙ shift_in-byte _ (w / 256 / 256) val small

  byte_3 : shift_in 8 24 (four_bytes w xs) val ≡ val * 256 + w / 256 / 256 / 256 % 256
  byte_3 =
      shift_in-skip 8 16 w _ val
      ∙ shift_in-skip 8 8 (w / 256) _ val
      ∙ shift_in-skip 8 0 (w / 256 / 256) _ val
      ∙ shift_in-byte _ (w / 256 / 256 / 256) val small

pub lanes_value-low :
    (w : ℕ) (xs : List Bit) → w < 2 ^ 32 → lanes_value 0 (word_bits 32 w ++ xs) ≡ w
lanes_value-low w xs h =
    let v₃ : ℕ = 0 * 256 + w / 256 / 256 / 256 % 256 in
    let v₂ : ℕ = v₃ * 256 + w / 256 / 256 % 256 in
    let v₁ : ℕ = v₂ * 256 + w / 256 % 256 in
    rw (word_bits-four_bytes w xs) (
      rw (byte_3 w xs 0 (omega arith)) (
        rw (byte_2 w xs v₃ (omega arith))
          (rw (byte_1 w xs v₂ (omega arith)) (byte_0 w xs v₁ (omega arith) ∙ omega arith))))

shift_in-skip_word :
    (n base w : ℕ) (xs : List Bit) (val : ℕ)
    → shift_in n (base + 32) (word_bits 32 w ++ xs) val ≡ shift_in n base xs val
shift_in-skip_word n base w xs val =
    ap (λ t. shift_in n (base + 32) t val) (word_bits-four_bytes w xs)
    ∙ ap (λ k. shift_in n k (four_bytes w xs) val) {x = base + 32} {y = base + 8 + 8 + 8 + 8}
        (omega arith)
    ∙ shift_in-skip n (base + 8 + 8 + 8) w _ val
    ∙ shift_in-skip n (base + 8 + 8) (w / 256) _ val
    ∙ shift_in-skip n (base + 8) (w / 256 / 256) _ val
    ∙ shift_in-skip n base (w / 256 / 256 / 256) xs val

word_bits-nil : (v : ℕ) → word_bits 32 v ++ [] ≡ word_bits 32 v
unfolding word_bits
word_bits-nil v = refl

pub lanes_value-high :
    (w v : ℕ) → v < 2 ^ 32 → lanes_value 32 (word_bits 32 w ++ word_bits 32 v) ≡ v
lanes_value-high w v h =
    rw
      (
        shift_in-skip_word 8 24 w (word_bits 32 v) 0,
        shift_in-skip_word 8 16 w (word_bits 32 v) _,
        shift_in-skip_word 8 8 w (word_bits 32 v) _,
        shift_in-skip_word 8 0 w (word_bits 32 v) _,
      )
      (ap (lanes_value 0) (sym (word_bits-nil v)) ∙ lanes_value-low v [] h)
