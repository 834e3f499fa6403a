-- ===== src/Wire.antt =====
-- libsimbus/simbus.c and libsimbus/simbus_priv.h: the four-valued bits and the signal tokens of
-- the READY and UNTIL lines. Text is a list of character codes.
pub mod Time
pub mod Vectors
pub mod Words
pub mod RoundTrip
mod Tests
use simbus.Base.{
  ℕ, zero, suc, ◌/◌, ◌%◌, ◌==◌, if◌then◌else◌, Bool, true, false, Option, none, some, List, [], ◌∷◌,
  ◌++◌,
}
use simbus.Base.{length, get_or, set}

-- `bus_bitval_t`
pub data Bit : Type 0 where
  bit_0 bit_1 bit_x bit_z : Bit

-- (b)? BIT_1 : BIT_0
abbrev pub bit_of : Bool → Bit
bit_of b = if b then bit_1 else bit_0

-- a == b
abbrev pub is_bit : Bit → Bit → Bool
is_bit bit_0 bit_0 = true
is_bit bit_1 bit_1 = true
is_bit bit_x bit_x = true
is_bit bit_z bit_z = true
is_bit _ _ = false

-- `__bitval_to_char`
unfoldable pub bitval_to_char : Bit → ℕ
bitval_to_char bit_0 = b'0'
bitval_to_char bit_1 = b'1'
bitval_to_char bit_x = b'x'
bitval_to_char bit_z = b'z'

-- `__char_to_bitval`
unfoldable pub char_to_bitval : ℕ → Bit
char_to_bitval c =
    if c == b'0' then bit_0 else if c == b'1' then bit_1 else if c == b'z' then bit_z else bit_x

-- The characters of `val[n-1]` down to `val[0]`.
unfoldable pub chars_msb_first : List Bit → ℕ → List ℕ
chars_msb_first val zero = []
chars_msb_first val (suc n) = bitval_to_char (get_or val n bit_x) ∷ chars_msb_first val n

-- `__ready_signal`: the text that it appends.
unfoldable pub ready_signal : List ℕ → List Bit → ℕ → List ℕ
unfolding chars_msb_first bitval_to_char
ready_signal name val nval = b' ' ∷ (name ++ (b'=' ∷ chars_msb_first val nval))

-- The loop of `__until_signal`: the first character goes to the highest index.
unfoldable pub fill_msb_first : List ℕ → List Bit → List Bit
fill_msb_first [] val = val
fill_msb_first (c ∷ src) val = fill_msb_first src (set val (length src) (char_to_bitval c))

-- `__until_signal`; `none` is its failed assertion.
unfoldable pub until_signal : List ℕ → List Bit → ℕ → Option (List Bit)
unfolding fill_msb_first
until_signal src val nval = if nval == length src then some (fill_msb_first src val) else none

-- `__until_signal` for a single bit.
unfoldable pub until_bit : List ℕ → Bit → Option Bit
unfolding until_signal fill_msb_first char_to_bitval
until_bit src b = elim (until_signal src (b ∷ []) 1) [
  | none ↦ none
  | some bits ↦ some (get_or bits 0 b)
]

-- The low `n` bits of a word, the least significant first.
unfoldable pub word_bits : ℕ → ℕ → List Bit
word_bits zero w = []
word_bits (suc n) w = bit_of (w % 2 == 1) ∷ word_bits n (w / 2)
