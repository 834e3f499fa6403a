-- ===== src/Axi4/Interrupts.antt =====
-- The interrupts that `__axi4_test_interrupts` of libsimbus/simbus_axi4.c reports.
use simbus.Base.{
  ℕ, zero, suc, ◌+◌, ◌≤◌, ◌<◌, ◌≡◌, ◌≢◌, ◌∙◌, ◌⊎◌, inl, inr, refl, ap, sym, subst, ltb,
  if◌then◌else◌, ◌&&◌, Bool-cases, ℕ_discrete, List, arith, get_or, some, test_bit, clear_bit,
  test_bit-clear_bit_self, test_bit-clear_bit_ne,
}
use simbus.Wire.{Bit, bit_1, bit_x, is_bit}
use simbus.Axi4.{Bus}
use simbus.Axi4.Clock.{masked, test_interrupts}

-- One round of the loop.
abbrev keep : List Bit → ℕ → ℕ → ℕ
keep irq idx rc = if is_bit (get_or irq idx bit_x) bit_1 then rc else clear_bit rc idx

test_bit-keep_ne :
    (irq : List Bit) (idx rc k : ℕ) → idx ≢ k → test_bit (keep irq idx rc) k ≡ test_bit rc k
test_bit-keep_ne irq idx rc k ne = elim (Bool-cases (is_bit (get_or irq idx bit_x) bit_1)) [
  | inl e ↦ rw e refl
  | inr e ↦ rw e (test_bit-clear_bit_ne rc idx k ne)
]

test_bit-keep_self :
    (irq : List Bit) (k rc : ℕ)
    → test_bit (keep irq k rc) k ≡ (is_bit (get_or irq k bit_x) bit_1 && test_bit rc k)
test_bit-keep_self irq k rc = elim (Bool-cases (is_bit (get_or irq k bit_x) bit_1)) [
  | inl e ↦ rw e refl
  | inr e ↦ rw e (test_bit-clear_bit_self rc k)
]

test_bit-masked_out :
    (n idx : ℕ) (irq : List Bit) (rc k : ℕ)
    → (k < idx) ⊎ (idx + n ≤ k)
    → test_bit (masked n idx irq rc) k ≡ test_bit rc k
unfolding masked
test_bit-masked_out zero idx irq rc k out = refl
test_bit-masked_out (suc n) idx irq rc k out =
    test_bit-masked_out n (idx + 1) irq (keep irq idx rc) k (ground arith)
    ∙ test_bit-keep_ne irq idx rc k (λ e. ground arith)

test_bit-masked :
    (n idx : ℕ) (irq : List Bit) (rc k : ℕ)
    → idx ≤ k
    → k < idx + n
    → test_bit (masked n idx irq rc) k ≡ (is_bit (get_or irq k bit_x) bit_1 && test_bit rc k)
unfolding masked
test_bit-masked zero idx irq rc k low high = absurd (omega arith)
test_bit-masked (suc n) idx irq rc k low high = elim (ℕ_discrete idx k) [
  | yes e ↦
      test_bit-masked_out n (idx + 1) irq (keep irq idx rc) k (inl (omega arith))
      ∙ subst
          (λ t. test_bit (keep irq t rc) k ≡ (is_bit (get_or irq k bit_x) bit_1 && test_bit rc k))
          (sym e) (test_bit-keep_self irq k rc)
  | no ne ↦
      test_bit-masked n (idx + 1) irq (keep irq idx rc) k (ground arith) (omega arith)
      ∙ ap (λ t. is_bit (get_or irq k bit_x) bit_1 && t) (test_bit-keep_ne irq idx rc k ne)
]

-- With a mask, a bit below the number of interrupt lines is reported if and only if the mask has it
-- and its line is 1; a bit of the mask from that number on is reported as it stands in the mask.
test_interrupts_lem :
    (b : Bus) (mask k : ℕ)
    → test_bit (test_interrupts (some mask) b) k ≡ (
        if ltb k b.irq_width
        then is_bit (get_or b.irq k bit_x) bit_1 && test_bit mask k
        else test_bit mask k)
unfolding test_interrupts
test_interrupts_lem b mask k = elim (Bool-cases (ltb k b.irq_width)) [
  | inl e ↦ rw e (test_bit-masked b.irq_width 0 b.irq mask k (omega arith) (ground arith))
  | inr e ↦ rw e (test_bit-masked_out b.irq_width 0 b.irq mask k (inr (ground arith)))
]
