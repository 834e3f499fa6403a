-- ===== src/P2p/Vector.antt =====
-- What the DATA_I and DATA_O branches of `send_ready_p2p`, libsimbus/simbus_p2p.c, make of a value
-- of any length.
use simbus.Base.{
  ℕ, zero, suc, ◌+◌, ◌-◌, ◌<◌, ◌≡◌, ◌∙◌, refl, ap, ltb, leb, if◌then◌else◌, ◌&&◌, some, List, arith,
  length, get_or, set, length-set, get_or-set_self, get_or-set_ne, eq_of_get_or,
}
use simbus.Wire.{Bit, bit_x, bitval_to_char, char_to_bitval, chars_msb_first}
use simbus.Wire.Vectors.{char_to_bitval-bitval_to_char, length-chars_msb_first}
use simbus.P2p.{pad_x, place, receive_vector}

length-pad_x : (n idx : ℕ) (bits : List Bit) → length (pad_x n idx bits) ≡ length bits
unfolding pad_x
length-pad_x zero idx bits = refl
length-pad_x (suc n) idx bits =
    length-pad_x n (idx + 1) (set bits idx bit_x) ∙ length-set bits idx bit_x

get_or-pad_x :
    (n idx : ℕ) (bits : List Bit) (i : ℕ)
    → i < length bits
    → get_or (pad_x n idx bits) i bit_x
      ≡ (if leb idx i && ltb i (idx + n) then bit_x else get_or bits i bit_x)
unfolding pad_x
get_or-pad_x zero idx bits i h = ground arith
get_or-pad_x (suc n) idx bits i h = ground (
  arith,
  get_or-pad_x n (idx + 1) (set bits idx bit_x) i,
  length-set bits idx bit_x,
  get_or-set_self bits idx bit_x bit_x,
  get_or-set_ne bits idx i bit_x bit_x,
)

length-place :
    (top : ℕ) (cp : List ℕ) (width : ℕ) (bits : List Bit)
    → length (place top cp width bits) ≡ length bits
unfolding place
length-place zero cp width bits = refl
length-place (suc top) cp width bits =
    let v = char_to_bitval (get_or cp top 0) in
    ground (
      arith,
      length-place top cp width (set bits (width - suc top) v),
      length-place top cp width bits,
      length-set bits (width - suc top) v,
    )

get_or-place :
    (top : ℕ) (cp : List ℕ) (width : ℕ) (bits : List Bit) (i : ℕ)
    → length bits ≡ width
    → i < width
    → get_or (place top cp width bits) i bit_x ≡ (
        if leb width (i + top)
        then char_to_bitval (get_or cp (width - suc i) 0)
        else get_or bits i bit_x)
unfolding place
get_or-place zero cp width bits i e h = ground arith
get_or-place (suc top) cp width bits i e h =
    let v = char_to_bitval (get_or cp top 0) in
    ground (
      arith,
      get_or-place top cp width (set bits (width - suc top) v) i,
      get_or-place top cp width bits i,
      length-set bits (width - suc top) v,
      get_or-set_self bits (width - suc top) v bit_x,
      get_or-set_ne bits (width - suc top) i v bit_x,
    )

-- A value with at least one character is accepted, and the vector keeps its width. With as many
-- characters as the vector has bits, or more, each bit is that of its character, the last character
-- at index 0 if they are as many, and the characters behind the width are dropped. This is not
-- what the comment in the code says of a short value, that it is padded with X: the value stands at
-- the most significant end, below it the bits from the index `length cp` on are X, and the bits
-- below that index stay as they were before.
pub receive_vector-aligned :
    (cp : List ℕ) (width : ℕ) (bits : List Bit)
    → 0 < length cp
    → length bits ≡ width
    → (bits' : List Bit) × (receive_vector cp width bits ≡ some bits')
      × (length bits' ≡ width)
      × ((i : ℕ)
          → i < width
          → get_or bits' i bit_x ≡ (
              if leb width (i + length cp)
              then char_to_bitval (get_or cp (width - suc i) 0)
              else if leb (length cp) i
              then bit_x
              else get_or bits i bit_x))
unfolding receive_vector
receive_vector-aligned cp width bits h e =
    let top = length cp in
    let padded = pad_x (width - top) top bits in
    (
      place top cp width padded,
      ground arith,
      omega (arith, length-place top cp width padded, length-pad_x (width - top) top bits),
      λ i lt. ground (
        arith,
        get_or-place top cp width padded i,
        get_or-pad_x (width - top) top bits i,
        length-pad_x (width - top) top bits,
      ),
    )

pub get_or-chars_msb_first :
    (val : List Bit) (n j : ℕ)
    → j < n
    → get_or (chars_msb_first val n) j 0 ≡ bitval_to_char (get_or val (n - suc j) bit_x)
unfolding chars_msb_first
get_or-chars_msb_first val zero j h = absurd (omega arith)
get_or-chars_msb_first val (suc n) zero h =
    ap (λ k. bitval_to_char (get_or val k bit_x)) (omega arith)
get_or-chars_msb_first val (suc n) (suc j) h =
    get_or-chars_msb_first val n j (omega arith)
    ∙ ap (λ k. bitval_to_char (get_or val k bit_x)) (omega arith)

-- A vector of the bus's full width that is written most significant bit first is received as it
-- was, whatever stood there before.
receive_vector-chars_msb_first :
    (val bits : List Bit)
    → 0 < length val
    → length bits ≡ length val
    → receive_vector (chars_msb_first val (length val)) (length val) bits ≡ some val
receive_vector-chars_msb_first val bits h e =
    let w = length val in
    let cp = chars_msb_first val w in
    let count : length cp ≡ w = length-chars_msb_first val w in
    let (bits', eq, len, at) = receive_vector-aligned cp w bits (omega arith) e in
    let same : bits' ≡ val = eq_of_get_or bit_x bits' val len λ i lt. ground (
      arith,
      at i lt,
      get_or-chars_msb_first val w (w - suc i),
      char_to_bitval-bitval_to_char (get_or val i bit_x),
      ap (λ k. get_or val k bit_x) (exact w i lt),
    ) in
    eq ∙ ap some same
  where
    exact : (w i : ℕ) → i < w → w - suc (w - suc i) ≡ i
    exact w i lt = omega arith
