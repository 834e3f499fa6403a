-- ===== src/Wire/Time.antt =====
-- libsimbus/simbus_priv.h and `__parse_time_token` of libsimbus/simbus.c: a time is a mantissa and
-- a power of ten, printed as %PRIu64 "e" %d. `strtoul` and `strtol` are those of the C library, in
-- base 10, with a 64-bit `long`.
use simbus.Base.{
  ℕ, zero, suc, ◌+◌, ◌-◌, ◌*◌, ◌/◌, ◌%◌, ◌^◌, ltb, leb, ◌==◌, if◌then◌else◌, Bool, ◌&&◌, ◌||◌,
  Option, none, some, List, [], ◌∷◌, ◌++◌, get_or, ℤ, pos, negsuc,
}
pub mod RoundTrip

-- `struct simbus_time_s`
pub record Time : Type 0 where
  pub mant : ℕ
  pub exp : ℤ

-- `init_simbus_time`
abbrev pub init_time : Time
init_time = record { mant = 0; exp = pos 0 }

-- The decimal digits of `n` in front of `rest`; the first number bounds how many there are.
unfoldable pub decimal : ℕ → ℕ → List ℕ → List ℕ
decimal zero n rest = rest
decimal (suc f) n rest =
    let digit = b'0' + n % 10 in
    let longer = decimal f (n / 10) (digit ∷ rest) in if ltb n 10 then digit ∷ rest else longer

-- printf("%" PRIu64)
unfoldable pub print_u64 : ℕ → List ℕ → List ℕ
unfolding decimal
print_u64 n rest = decimal 20 n rest

-- printf("%d")
unfoldable pub print_int : ℤ → List ℕ → List ℕ
unfolding decimal
print_int (pos n) rest = decimal 10 n rest
print_int (negsuc n) rest = b'-' ∷ decimal 10 (suc n) rest

-- The time token, as every READY line begins it.
unfoldable pub print_time : Time → List ℕ
unfolding print_u64 print_int
print_time t = print_u64 t.mant (b'e' ∷ print_int t.exp [])

abbrev pub is_digit : ℕ → Bool
is_digit c = leb b'0' c && leb c b'9'

abbrev pub is_space : ℕ → Bool
is_space c = c == 32 || (leb 9 c && leb c 13)

unfoldable pub read_digits : ℕ → List ℕ → ℕ × List ℕ
read_digits acc [] = (acc, [])
read_digits acc (c ∷ cs) =
    if is_digit c then read_digits (acc * 10 + (c - b'0')) cs else (acc, c ∷ cs)

unfoldable pub skip_space : List ℕ → List ℕ
skip_space [] = []
skip_space (c ∷ cs) = if is_space c then skip_space cs else c ∷ cs

pub data Sign : Type 0 where
  plus minus : Sign

-- The sign, if there is one, and what follows it.
unfoldable pub read_sign : List ℕ → Sign × List ℕ
read_sign [] = (plus, [])
read_sign (c ∷ cs) =
    if c == b'-' then (minus, cs) else if c == b'+' then (plus, cs) else (plus, c ∷ cs)

-- Sign and digits after the white space; `none` if no digit stands there.
unfoldable pub read_number : List ℕ → Option (Sign × ℕ × List ℕ)
unfolding read_digits skip_space read_sign
read_number src =
    let (sign, body) = read_sign (skip_space src) in
    let (n, rest) = read_digits 0 body in
    if is_digit (get_or body 0 0) then some (sign, n, rest) else none

abbrev pub ulong_max : ℕ
ulong_max = 2 ^ 64 - 1

-- strtoul(src, &cp, 10): the value, and the text at `cp`.
unfoldable pub strtoul : List ℕ → ℕ × List ℕ
unfolding read_number
strtoul src = elim (read_number src) [
  | none ↦ (0, src)
  | some (sign, n, rest) ↦ elim sign [
    | plus ↦ (if ltb ulong_max n then ulong_max else n, rest)
    | minus ↦ (if ltb ulong_max n then ulong_max else (2 ^ 64 - n) % 2 ^ 64, rest)
  ]
]

-- A `long` that does not fit an `int` keeps its low 32 bits.
unfoldable pub int_of_bits : ℕ → ℤ
int_of_bits w = if ltb w (2 ^ 31) then pos w else negsuc (2 ^ 32 - 1 - w)

-- (int) strtol(src, 0, 10)
unfoldable pub strtol_int : List ℕ → ℤ
unfolding read_number int_of_bits
strtol_int src = elim (read_number src) [
  | none ↦ pos 0
  | some (sign, n, rest) ↦ elim sign [
    | plus ↦ int_of_bits ((if ltb n (2 ^ 63) then n else 2 ^ 63 - 1) % 2 ^ 32)
    | minus ↦ int_of_bits ((2 ^ 64 - (if ltb n (2 ^ 63) then n else 2 ^ 63)) % 2 ^ 32)
  ]
]

-- What follows the mantissa: an 'e' and the exponent; `none` is the failed assertion.
unfoldable pub parse_exponent : ℕ → List ℕ → Option Time
unfolding strtol_int
parse_exponent mant [] = none
parse_exponent mant (c ∷ cs) =
    if c == b'e' then some (record { mant = mant; exp = strtol_int cs }) else none

-- `__parse_time_token`
unfoldable pub parse_time_token : List ℕ → Option Time
unfolding strtoul parse_exponent
parse_time_token token = let (mant, rest) = strtoul token in parse_exponent mant rest
