-- ===== src/Base/Words.antt =====
-- Unsigned machine words as numbers, bit by bit.
use Prim.Native.Nat.{ℕ, zero, suc, ◌+◌, ◌*◌, ◌/◌, ◌%◌, ◌^◌, ◌≤◌, ◌<◌}
use mathlib.Core.Path.{◌≡◌, ◌∙◌, refl, ap, sym, subst}
use mathlib.Core.Bool.{Bool, true, false}
use mathlib.Core.Logic.{◌≢◌}
use native.Mathlib.Omega.{arith}
use native.Mathlib.Nat.{two-pow-succ, mul-add, mod-add-div', mod-lt, pow-le-pow_right}
use simbus.Base.Tests.{◌==◌}

-- (w >> k) & 1
unfoldable pub test_bit : ℕ → ℕ → Bool
test_bit w zero = w % 2 == 1
test_bit w (suc k) = test_bit (w / 2) k

-- w | (1 << k)
unfoldable pub set_bit : ℕ → ℕ → ℕ
set_bit w zero = w / 2 * 2 + 1
set_bit w (suc k) = set_bit (w / 2) k * 2 + w % 2

-- w & ~(1 << k)
unfoldable pub clear_bit : ℕ → ℕ → ℕ
clear_bit w zero = w / 2 * 2
clear_bit w (suc k) = clear_bit (w / 2) k * 2 + w % 2

half_of_double : (a r : ℕ) → r < 2 → (a * 2 + r) / 2 ≡ a
half_of_double a r h = omega arith

pub test_bit-set_bit_self : (w k : ℕ) → test_bit (set_bit w k) k ≡ true
unfolding test_bit set_bit
test_bit-set_bit_self w zero = ground arith
test_bit-set_bit_self w (suc k) =
    rw (half_of_double (set_bit (w / 2) k) (w % 2) (omega arith)) (test_bit-set_bit_self (w / 2) k)

pub test_bit-set_bit_ne : (w k j : ℕ) → k ≢ j → test_bit (set_bit w k) j ≡ test_bit w j
unfolding test_bit set_bit
test_bit-set_bit_ne w zero zero h = absurd (h refl)
test_bit-set_bit_ne w zero (suc j) h =
    ap (λ t. test_bit t j) (half_of_double (w / 2) 1 (omega arith))
test_bit-set_bit_ne w (suc k) zero h = ground arith
test_bit-set_bit_ne w (suc k) (suc j) h =
    rw (half_of_double (set_bit (w / 2) k) (w % 2) (omega arith))
      (test_bit-set_bit_ne (w / 2) k j (λ e. h (ap suc e)))

pub test_bit-clear_bit_self : (w k : ℕ) → test_bit (clear_bit w k) k ≡ false
unfolding test_bit clear_bit
test_bit-clear_bit_self w zero = ground arith
test_bit-clear_bit_self w (suc k) =
    rw (half_of_double (clear_bit (w / 2) k) (w % 2) (omega arith))
      (test_bit-clear_bit_self (w / 2) k)

pub test_bit-clear_bit_ne : (w k j : ℕ) → k ≢ j → test_bit (clear_bit w k) j ≡ test_bit w j
unfolding test_bit clear_bit
test_bit-clear_bit_ne w zero zero h = absurd (h refl)
test_bit-clear_bit_ne w zero (suc j) h = ap (λ t. test_bit t j) (omega arith)
test_bit-clear_bit_ne w (suc k) zero h = ground arith
test_bit-clear_bit_ne w (suc k) (suc j) h =
    rw (half_of_double (clear_bit (w / 2) k) (w % 2) (omega arith))
      (test_bit-clear_bit_ne (w / 2) k j (λ e. h (ap suc e)))

pub test_bit-zero : (k : ℕ) → test_bit 0 k ≡ false
unfolding test_bit
test_bit-zero zero = refl
test_bit-zero (suc k) = test_bit-zero k

div-lt_pow : (w n : ℕ) → w < 2 ^ suc n → w / 2 < 2 ^ n
div-lt_pow w n h =
    let small : w < 2 ^ n + 2 ^ n = subst (λ t. w < t) (two-pow-succ n) h in omega arith

-- A number has no bit from its width on.
pub test_bit_high : (w n k : ℕ) → w < 2 ^ n → n ≤ k → test_bit w k ≡ false
unfolding test_bit
test_bit_high w zero k h le =
    let none : w ≡ 0 = omega arith in subst (λ t. test_bit t k ≡ false) (sym none) (test_bit-zero k)
test_bit_high w (suc n) zero h le = absurd (omega arith)
test_bit_high w (suc n) (suc k) h le = test_bit_high (w / 2) n k (div-lt_pow w n h) (omega arith)

odd_of_test : (a b : ℕ) → (a % 2 == 1) ≡ (b % 2 == 1) → a % 2 ≡ b % 2
odd_of_test a b h = ground arith

eq_of_halves : (a b : ℕ) → a / 2 ≡ b / 2 → a % 2 ≡ b % 2 → a ≡ b
eq_of_halves a b h k = omega arith

eq_of_test_bit_below : (n a b : ℕ) → a < n → b < n → ((k : ℕ) → test_bit a k ≡ test_bit b k) → a ≡ b
unfolding test_bit
eq_of_test_bit_below zero a b la lb h = absurd (omega arith)
eq_of_test_bit_below (suc zero) a b la lb h = omega arith
eq_of_test_bit_below (suc (suc n)) a b la lb h =
    eq_of_halves a b
      (eq_of_test_bit_below (suc n) (a / 2) (b / 2) (omega arith) (omega arith) (λ k. h (suc k)))
      (odd_of_test a b (h 0))

-- Numbers with the same bits are equal.
pub eq_of_test_bit : (a b : ℕ) → ((k : ℕ) → test_bit a k ≡ test_bit b k) → a ≡ b
eq_of_test_bit a b h = eq_of_test_bit_below (a + b + 1) a b (omega arith) (omega arith) h

double_pow : (x n : ℕ) → x * 2 ^ suc n ≡ x * 2 ^ n + x * 2 ^ n
double_pow x n = ap (λ t. x * t) (two-pow-succ n) ∙ mul-add x (2 ^ n) (2 ^ n)

half_over : (a y : ℕ) → (a + (y + y)) / 2 ≡ a / 2 + y
half_over a y = omega arith

odd_over : (a y : ℕ) → (a + (y + y)) % 2 ≡ a % 2
odd_over a y = omega arith

-- Below the bit `n` a multiple of 2^n changes nothing.
pub test_bit-over_low : (a x n k : ℕ) → k < n → test_bit (a + x * 2 ^ n) k ≡ test_bit a k
unfolding test_bit
test_bit-over_low a x zero k h = absurd (omega arith)
test_bit-over_low a x (suc n) zero h =
    ap (λ t. (a + t) % 2 == 1) (double_pow x n) ∙ ap (λ t. t == 1) (odd_over a (x * 2 ^ n))
test_bit-over_low a x (suc n) (suc k) h =
    ap (λ t. test_bit ((a + t) / 2) k) (double_pow x n)
    ∙ ap (λ t. test_bit t k) (half_over a (x * 2 ^ n))
    ∙ test_bit-over_low (a / 2) x n k (omega arith)

-- A number below 2^n under a multiple of 2^n: the high bits are those of the factor.
pub test_bit-over_high : (a x n k : ℕ) → a < 2 ^ n → test_bit (a + x * 2 ^ n) (n + k) ≡ test_bit x k
unfolding test_bit
test_bit-over_high a x zero k h =
    let none : a ≡ 0 = omega arith in
    ap (λ t. test_bit (t + x * 1) (0 + k)) none
    ∙ ap (λ t. test_bit t (0 + k)) {x = 0 + x * 1} {y = x} (omega arith)
    ∙ ap (test_bit x) {x = 0 + k} {y = k} (omega arith)
test_bit-over_high a x (suc n) k h =
    ap (test_bit (a + x * 2 ^ suc n)) {x = suc n + k} {y = suc (n + k)} (omega arith)
    ∙ ap (λ t. test_bit ((a + t) / 2) (n + k)) (double_pow x n)
    ∙ ap (λ t. test_bit t (n + k)) (half_over a (x * 2 ^ n))
    ∙ test_bit-over_high (a / 2) x n k (div-lt_pow a n h)

-- A word cut to `n` bits keeps the bits below `n`.
pub test_bit-mod : (w n k : ℕ) → k < n → test_bit (w % 2 ^ n) k ≡ test_bit w k
test_bit-mod w n k h =
    sym (test_bit-over_low (w % 2 ^ n) (w / 2 ^ n) n k h)
    ∙ ap (λ t. test_bit t k) (mod-add-div' w (2 ^ n))

-- A number without bits from `n` on is below 2^n.
pub lt_of_test_bit : (w n : ℕ) → ((k : ℕ) → n ≤ k → test_bit w k ≡ false) → w < 2 ^ n
unfolding test_bit
lt_of_test_bit w zero h =
    let none : w ≡ 0 = eq_of_test_bit w 0 (λ k. h k (omega arith) ∙ sym (test_bit-zero k)) in
    omega arith
lt_of_test_bit w (suc n) h =
    let half : w / 2 < 2 ^ n = lt_of_test_bit (w / 2) n (λ k le. h (suc k) (omega arith)) in
    let twice : 2 ^ suc n ≡ 2 ^ n + 2 ^ n = two-pow-succ n in omega arith

pub mod_pow-small : (w n : ℕ) → w % 2 ^ n < 2 ^ n
mod_pow-small w n =
    let positive : 2 ^ 0 ≤ 2 ^ n = pow-le-pow_right (omega arith) {i = 0} {j = n} (omega arith) in
    mod-lt w (omega arith)
