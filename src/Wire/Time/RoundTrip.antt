-- ===== src/Wire/Time/RoundTrip.antt =====
-- The time token of a READY line and `__parse_time_token` of libsimbus/simbus.c.
use native.Mathlib.Nat.{pow-suc}
use simbus.Base.{
  ℕ, zero, suc, ◌+◌, ◌*◌, ◌/◌, ◌%◌, ◌^◌, ◌<◌, ◌≡◌, refl, true, false, some, List, [], ◌∷◌, arith,
  get_or, ℤ, pos, negsuc,
}
use simbus.Wire.Time.{
  Time, decimal, print_u64, print_int, print_time, is_digit, read_digits, plus, minus, read_number,
  strtoul, strtol_int, parse_time_token,
}

-- The digits of a number read as the number, before what follows them.
read_digits-decimal :
    (f n : ℕ) (rest : List ℕ) → n < 10 ^ f → read_digits 0 (decimal f n rest) ≡ read_digits n rest
unfolding decimal read_digits
read_digits-decimal zero zero rest h = refl
read_digits-decimal zero (suc n) rest h = absurd (omega arith)
read_digits-decimal (suc f) n rest h =
    let bound : n < 10 ^ f * 10 = omega (arith, pow-suc 10 f) in
    ground (arith, read_digits-decimal f (n / 10) ((48 + n % 10) ∷ rest))

head_of_decimal :
    (f n : ℕ) (rest : List ℕ)
    → is_digit (get_or rest 0 0) ≡ true
    → is_digit (get_or (decimal f n rest) 0 0) ≡ true
unfolding decimal
head_of_decimal zero n rest h = h
head_of_decimal (suc f) n rest h = ground (arith, head_of_decimal f (n / 10) ((48 + n % 10) ∷ rest))

head_of_digits : (f n : ℕ) (rest : List ℕ) → is_digit (get_or (decimal (suc f) n rest) 0 0) ≡ true
unfolding decimal
head_of_digits f n rest = ground (arith, head_of_decimal f (n / 10) ((48 + n % 10) ∷ rest))

read_number-digits :
    (src : List ℕ)
    → is_digit (get_or src 0 0) ≡ true
    → read_number src ≡ some (plus, (read_digits 0 src).0, (read_digits 0 src).1)
unfolding read_number
read_number-digits [] h = cc
read_number-digits (c ∷ cs) h = ground arith

pub read_number-decimal :
    (f n : ℕ) (rest : List ℕ)
    → n < 10 ^ suc f
    → read_number (decimal (suc f) n rest)
      ≡ some (plus, (read_digits n rest).0, (read_digits n rest).1)
read_number-decimal f n rest h =
    rw (read_number-digits _ (head_of_digits f n rest), read_digits-decimal (suc f) n rest h) refl

-- The number is read up to the first character that is no digit.
pub strtoul-print_u64 :
    (n c : ℕ) (rest : List ℕ)
    → n < 2 ^ 64
    → is_digit c ≡ false
    → strtoul (print_u64 n (c ∷ rest)) ≡ (n, c ∷ rest)
unfolding strtoul print_u64 read_digits
strtoul-print_u64 n c rest h stop =
    rw (read_number-decimal 19 n (c ∷ rest) (omega arith), strtoul) (ground arith)

-- The exponents that a C `int` holds.
abbrev pub FitsInt : ℤ → Type 0
FitsInt (pos n) = n < 2 ^ 31
FitsInt (negsuc n) = n < 2 ^ 31

pub read_number-minus :
    (n : ℕ) → n < 10 ^ 10 → read_number (b'-' ∷ decimal 10 n []) ≡ some (minus, n, [])
unfolding read_number
read_number-minus n h = ground (arith, head_of_digits 9 n [], read_digits-decimal 10 n [])

pub strtol_int-print_int : (e : ℤ) → FitsInt e → strtol_int (print_int e []) ≡ e
unfolding strtol_int print_int
strtol_int-print_int (pos n) h =
    rw (read_number-decimal 9 n [] (omega arith), strtol_int) (ground arith)
strtol_int-print_int (negsuc n) h =
    rw (read_number-minus (suc n) (omega arith), strtol_int) (ground arith)

-- A time with a 64-bit mantissa and an exponent that fits an `int` is parsed back from its token.
pub parse_time_token-print_time :
    (t : Time) → t.mant < 2 ^ 64 → FitsInt t.exp → parse_time_token (print_time t) ≡ some t
unfolding parse_time_token print_time
parse_time_token-print_time t h k =
    rw (strtoul-print_u64 t.mant b'e' (print_int t.exp []) h refl, strtol_int-print_int t.exp k)
      refl
