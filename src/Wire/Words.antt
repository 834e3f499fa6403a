-- ===== src/Wire/Words.antt =====
-- Words on a vector of bits, as libsimbus drives them and reads them back: bit by bit, from the least
-- significant one on.
use simbus.Base.{
  ℕ, zero, suc, ◌+◌, ◌≤◌, ◌<◌, ◌≡◌, ◌≢◌, ◌∙◌, ◌⊎◌, inl, inr, refl, sym, subst, Bool, false,
  if◌then◌else◌, Bool-cases, ℕ_discrete, List, arith, length, get_or, set, length-set,
  get_or-set_self, get_or-set_ne, test_bit, set_bit, test_bit-set_bit_self, test_bit-set_bit_ne,
}
use simbus.Wire.{Bit, bit_1, bit_x, is_bit, bit_of}

-- for (k = 0; k < n; k++) bits[base + k] = word & (1 << k)? BIT_1 : BIT_0, with `n` rounds left.
unfoldable pub put_word : ℕ → ℕ → ℕ → ℕ → List Bit → List Bit
put_word zero k word base bits = bits
put_word (suc n) k word base bits =
    put_word n (k + 1) word base (set bits (base + k) (bit_of (test_bit word k)))

-- for (; idx < end; idx++) bits[idx] = v, with `n` rounds left.
unfoldable pub put_all : Bit → ℕ → ℕ → List Bit → List Bit
put_all v zero idx bits = bits
put_all v (suc n) idx bits = put_all v n (idx + 1) (set bits idx v)

-- word |= test(bits[base + k])? 1 << k : 0, with `n` rounds left.
unfoldable pub take_bits : (Bit → Bool) → ℕ → ℕ → ℕ → List Bit → ℕ → ℕ
take_bits test zero k base bits word = word
take_bits test (suc n) k base bits word =
    take_bits test n (k + 1) base bits
      (if test (get_or bits (base + k) bit_x) then set_bit word k else word)

-- The same with the test for BIT_1.
unfoldable pub take_word : ℕ → ℕ → ℕ → List Bit → ℕ → ℕ
unfolding take_bits
take_word n k base bits word = take_bits (λ v. is_bit v bit_1) n k base bits word

pub length-put_word :
    (n k word base : ℕ) (bits : List Bit) → length (put_word n k word base bits) ≡ length bits
unfolding put_word
length-put_word zero k word base bits = refl
length-put_word (suc n) k word base bits =
    length-put_word n (k + 1) word base (set bits (base + k) (bit_of (test_bit word k)))
    ∙ length-set bits (base + k) (bit_of (test_bit word k))

pub length-put_all :
    (v : Bit) (n idx : ℕ) (bits : List Bit) → length (put_all v n idx bits) ≡ length bits
unfolding put_all
length-put_all v zero idx bits = refl
length-put_all v (suc n) idx bits =
    length-put_all v n (idx + 1) (set bits idx v) ∙ length-set bits idx v

pub get_or-put_word_out :
    (n k word base : ℕ) (bits : List Bit) (i : ℕ)
    → (i < base + k) ⊎ (base + k + n ≤ i)
    → get_or (put_word n k word base bits) i bit_x ≡ get_or bits i bit_x
unfolding put_word
get_or-put_word_out zero k word base bits i out = refl
get_or-put_word_out (suc n) k word base bits i out =
    let v = bit_of (test_bit word k) in
    get_or-put_word_out n (k + 1) word base (set bits (base + k) v) i (ground arith)
    ∙ get_or-set_ne bits (base + k) i v bit_x (λ e. ground arith)

pub get_or-put_word :
    (n k word base : ℕ) (bits : List Bit) (j : ℕ)
    → k ≤ j
    → j < k + n
    → base + j < length bits
    → get_or (put_word n k word base bits) (base + j) bit_x ≡ bit_of (test_bit word j)
unfolding put_word
get_or-put_word zero k word base bits j low high room = absurd (omega arith)
get_or-put_word (suc n) k word base bits j low high room =
    let v = bit_of (test_bit word k) in
    elim (ℕ_discrete k j) [
      | yes e ↦
          get_or-put_word_out n (k + 1) word base (set bits (base + k) v) (base + j)
            (inl (omega arith))
          ∙ subst (λ t. get_or (set bits (base + k) v) (base + t) bit_x ≡ bit_of (test_bit word t))
              e (get_or-set_self bits (base + k) v bit_x (omega arith))
      | no ne ↦
          get_or-put_word n (k + 1) word base (set bits (base + k) v) j (ground arith) (omega arith)
            (rw (length-set bits (base + k) v) room)
    ]

pub get_or-put_all_below :
    (v : Bit) (n idx : ℕ) (bits : List Bit) (i : ℕ)
    → i < idx
    → get_or (put_all v n idx bits) i bit_x ≡ get_or bits i bit_x
unfolding put_all
get_or-put_all_below v zero idx bits i h = refl
get_or-put_all_below v (suc n) idx bits i h =
    get_or-put_all_below v n (idx + 1) (set bits idx v) i (omega arith)
    ∙ get_or-set_ne bits idx i v bit_x (λ e. omega arith)

pub get_or-put_all :
    (v : Bit) (n idx : ℕ) (bits : List Bit) (i : ℕ)
    → idx ≤ i
    → i < idx + n
    → i < length bits
    → get_or (put_all v n idx bits) i bit_x ≡ v
unfolding put_all
get_or-put_all v zero idx bits i low high room = absurd (omega arith)
get_or-put_all v (suc n) idx bits i low high room = elim (ℕ_discrete idx i) [
  | yes e ↦
      get_or-put_all_below v n (idx + 1) (set bits idx v) i (omega arith)
      ∙ subst (λ t. get_or (set bits idx v) t bit_x ≡ v) e
          (get_or-set_self bits idx v bit_x (omega arith))
  | no ne ↦
      get_or-put_all v n (idx + 1) (set bits idx v) i (ground arith) (omega arith)
        (rw (length-set bits idx v) room)
]

-- One round of the loop.
abbrev add_bit : (Bit → Bool) → List Bit → ℕ → ℕ → ℕ → ℕ
add_bit test bits base k word = if test (get_or bits (base + k) bit_x) then set_bit word k else word

test_bit-add_bit_ne :
    (test : Bit → Bool) (bits : List Bit) (base k word j : ℕ)
    → k ≢ j
    → test_bit (add_bit test bits base k word) j ≡ test_bit word j
test_bit-add_bit_ne test bits base k word j ne =
    elim (Bool-cases (test (get_or bits (base + k) bit_x))) [
      | inl e ↦ rw e (test_bit-set_bit_ne word k j ne)
      | inr e ↦ rw e refl
    ]

test_bit-add_bit_self :
    (test : Bit → Bool) (bits : List Bit) (base k word : ℕ)
    → test_bit word k ≡ false
    → test_bit (add_bit test bits base k word) k ≡ test (get_or bits (base + k) bit_x)
test_bit-add_bit_self test bits base k word clear =
    elim (Bool-cases (test (get_or bits (base + k) bit_x))) [
      | inl e ↦ rw e (test_bit-set_bit_self word k)
      | inr e ↦ rw e clear
    ]

pub test_bit-take_bits_out :
    (test : Bit → Bool) (n k base : ℕ) (bits : List Bit) (word j : ℕ)
    → (j < k) ⊎ (k + n ≤ j)
    → test_bit (take_bits test n k base bits word) j ≡ test_bit word j
unfolding take_bits
test_bit-take_bits_out test zero k base bits word j out = refl
test_bit-take_bits_out test (suc n) k base bits word j out =
    test_bit-take_bits_out test n (k + 1) base bits (add_bit test bits base k word) j (ground arith)
    ∙ test_bit-add_bit_ne test bits base k word j (λ e. ground arith)

pub test_bit-take_bits_in :
    (test : Bit → Bool) (n k base : ℕ) (bits : List Bit) (word j : ℕ)
    → k ≤ j
    → j < k + n
    → test_bit word j ≡ false
    → test_bit (take_bits test n k base bits word) j ≡ test (get_or bits (base + j) bit_x)
unfolding take_bits
test_bit-take_bits_in test zero k base bits word j low high clear = absurd (omega arith)
test_bit-take_bits_in test (suc n) k base bits word j low high clear = elim (ℕ_discrete k j) [
  | yes e ↦
      test_bit-take_bits_out test n (k + 1) base bits (add_bit test bits base k word) j
        (inl (omega arith))
      ∙ subst
          (λ t. test_bit (add_bit test bits base t word) j ≡ test (get_or bits (base + j) bit_x))
          (sym e) (test_bit-add_bit_self test bits base j word clear)
  | no ne ↦
      test_bit-take_bits_in test n (k + 1) base bits (add_bit test bits base k word) j
        (ground arith) (omega arith) (test_bit-add_bit_ne test bits base k word j ne ∙ clear)
]

pub test_bit-take_word_out :
    (n k base : ℕ) (bits : List Bit) (word j : ℕ)
    → (j < k) ⊎ (k + n ≤ j)
    → test_bit (take_word n k base bits word) j ≡ test_bit word j
unfolding take_word
test_bit-take_word_out = test_bit-take_bits_out (λ v. is_bit v bit_1)

pub test_bit-take_word_in :
    (n k base : ℕ) (bits : List Bit) (word j : ℕ)
    → k ≤ j
    → j < k + n
    → test_bit word j ≡ false
    → test_bit (take_word n k base bits word) j ≡ is_bit (get_or bits (base + j) bit_x) bit_1
unfolding take_word
test_bit-take_word_in = test_bit-take_bits_in (λ v. is_bit v bit_1)
