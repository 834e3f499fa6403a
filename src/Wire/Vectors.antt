-- ===== src/Wire/Vectors.antt =====
-- A vector written by `__ready_signal` and read by `__until_signal` of libsimbus/simbus.c.
use simbus.Base.{
  Bool, true, false, ℕ, zero, suc, ◌<◌, ◌≡◌, refl, ap, ltb, if◌then◌else◌, some, List, [], ◌∷◌,
  arith, length, get_or, set, length-set, get_or-set_self, get_or-set_ne, eq_of_get_or,
}
use simbus.Wire.{
  is_bit, bit_of, Bit, bit_0, bit_1, bit_x, bit_z, bitval_to_char, char_to_bitval, chars_msb_first,
  fill_msb_first, until_signal,
}

pub char_to_bitval-bitval_to_char : (b : Bit) → char_to_bitval (bitval_to_char b) ≡ b
unfolding char_to_bitval bitval_to_char
char_to_bitval-bitval_to_char bit_0 = refl
char_to_bitval-bitval_to_char bit_1 = refl
char_to_bitval-bitval_to_char bit_x = refl
char_to_bitval-bitval_to_char bit_z = refl

pub length-chars_msb_first : (val : List Bit) (n : ℕ) → length (chars_msb_first val n) ≡ n
unfolding chars_msb_first
length-chars_msb_first val zero = refl
length-chars_msb_first val (suc n) = ap suc (length-chars_msb_first val n)

pub length-fill_msb_first :
    (src : List ℕ) (old : List Bit) → length (fill_msb_first src old) ≡ length old
unfolding fill_msb_first
length-fill_msb_first [] old = refl
length-fill_msb_first (c ∷ src) old =
    rw (length-fill_msb_first src (set old (length src) (char_to_bitval c)))
      (length-set old (length src) (char_to_bitval c))

fill-chars-suc :
    (val old : List Bit) (n : ℕ)
    → fill_msb_first (chars_msb_first val (suc n)) old
      ≡ fill_msb_first (chars_msb_first val n) (set old n (get_or val n bit_x))
unfolding fill_msb_first chars_msb_first
fill-chars-suc val old n =
    ap (fill_msb_first (chars_msb_first val n))
      (cc (length-chars_msb_first val n, char_to_bitval-bitval_to_char (get_or val n bit_x)))

-- A character of the text lands at the index that its distance from the end gives.
pub get_or-fill-chars :
    (val old : List Bit) (n i : ℕ) (d : Bit)
    → n < suc (length old)
    → i < length old
    → get_or (fill_msb_first (chars_msb_first val n) old) i d
      ≡ (if ltb i n then get_or val i bit_x else get_or old i d)
get_or-fill-chars val old zero i d fits lt = unfold fill_msb_first chars_msb_first in ground arith
get_or-fill-chars val old (suc n) i d fits lt =
    let b = get_or val n bit_x in
    rw (fill-chars-suc val old n) (
      ground (
        arith,
        get_or-fill-chars val (set old n b) n i d,
        length-set old n b,
        get_or-set_self old n b d,
        get_or-set_ne old n i b d,
      ))

-- What `__ready_signal` writes for a vector of any width, `__until_signal` reads back, whatever the
-- receiver's vector of that width held before.
pub until_signal-chars_msb_first :
    (val old : List Bit)
    → length old ≡ length val
    → until_signal (chars_msb_first val (length val)) old (length val) ≡ some val
unfolding until_signal
until_signal-chars_msb_first val old same = rw (length-chars_msb_first val (length val)) (
    ground (
      arith,
      eq_of_get_or bit_x (fill_msb_first (chars_msb_first val (length val)) old) val
          (omega (arith, length-fill_msb_first (chars_msb_first val (length val)) old))
          λ i lt. ground (arith, get_or-fill-chars val old (length val) i bit_x),
    ))

pub is_bit-bit_of : (b : Bool) → is_bit (bit_of b) bit_1 ≡ b
is_bit-bit_of true = refl
is_bit-bit_of false = refl
