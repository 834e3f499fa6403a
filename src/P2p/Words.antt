-- ===== src/P2p/Words.antt =====
-- The words that `simbus_p2p_in` and `simbus_p2p_out_peek` of libsimbus/simbus_p2p.c read from a
-- vector.
use simbus.Base.{
  ℕ, zero, suc, ◌+◌, ◌*◌, ◌/◌, ◌%◌, ◌<◌, ◌≤◌, ◌≡◌, ◌≢◌, ◌∙◌, refl, ap, if◌then◌else◌, Bool, true,
  false, List, arith, length, get_or, set, length-set, get_or-set_self, get_or-set_ne, ℤ, pos,
  negsuc, test_bit, set_bit, test_bit-set_bit_self, test_bit-set_bit_ne, test_bit-zero, ℕ_discrete,
  sym, subst, ◌||◌, pred_ℤ,
}
use simbus.Wire.{Bit, bit_0, bit_1, bit_x, bit_z, is_bit}
use simbus.P2p.{Bus, start_word, collect_bit, collect, in_words}

-- Bit `j` of an array of 32-bit words.
abbrev pub bit_at : List ℕ → ℕ → Bool
bit_at words j = test_bit (get_or words (j / 32) 0) (j % 32)

-- The bits below `idx` are read, and the word in hand holds no bit from `idx` on.
pub record Collected (bits : List Bit) (idx : ℕ) (words : List ℕ) : Type 0 where
  pub before : (j : ℕ) → j < idx → bit_at words j ≡ is_bit (get_or bits j bit_x) bit_1
  pub fresh : (k : ℕ) → idx % 32 ≢ 0 → idx % 32 ≤ k → test_bit (get_or words (idx / 32) 0) k ≡ false

length-start_word : (idx : ℕ) (words : List ℕ) → length (start_word idx words) ≡ length words
unfolding start_word
length-start_word idx words = ground (arith, length-set words (idx / 32) 0)

length-collect_bit :
    (b : Bit) (idx : ℕ) (words : List ℕ) (rc : ℤ)
    → length (collect_bit b idx words rc).0 ≡ length words
unfolding collect_bit
length-collect_bit bit_0 idx words rc = refl
length-collect_bit bit_1 idx words rc =
    length-set words (idx / 32) (set_bit (get_or words (idx / 32) 0) (idx % 32))
length-collect_bit bit_x idx words rc = refl
length-collect_bit bit_z idx words rc = refl

start_word-clear :
    (bits : List Bit) (idx : ℕ) (words : List ℕ) (k : ℕ)
    → Collected bits idx words
    → idx / 32 < length words
    → idx % 32 ≤ k
    → test_bit (get_or (start_word idx words) (idx / 32) 0) k ≡ false
unfolding start_word
start_word-clear bits idx words k inv fits h =
    ground (arith, inv.fresh k, get_or-set_self words (idx / 32) 0 0, test_bit-zero k)

bit_at-start_word :
    (idx : ℕ) (words : List ℕ) (j : ℕ) → j < idx → bit_at (start_word idx words) j ≡ bit_at words j
unfolding start_word
bit_at-start_word idx words j h = ground (arith, get_or-set_ne words (idx / 32) (j / 32) 0 0)

-- A round sets the bit in hand or leaves every word alone.
module _ (idx : ℕ) (words : List ℕ) (fits : idx / 32 < length words) where
  abbrev new_word : ℕ
  new_word = set_bit (get_or words (idx / 32) 0) (idx % 32)

  bit_at-set_self : bit_at (set words (idx / 32) new_word) idx ≡ true
  bit_at-set_self =
      rw (get_or-set_self words (idx / 32) new_word 0 fits)
        (test_bit-set_bit_self (get_or words (idx / 32) 0) (idx % 32))

  test_bit-set_above :
      (k : ℕ)
      → idx % 32 < k
      → test_bit (get_or (set words (idx / 32) new_word) (idx / 32) 0) k
        ≡ test_bit (get_or words (idx / 32) 0) k
  test_bit-set_above k h =
      rw (get_or-set_self words (idx / 32) new_word 0 fits)
        (test_bit-set_bit_ne (get_or words (idx / 32) 0) (idx % 32) k (omega arith))

  bit_at-set_ne : (j : ℕ) → j < idx → bit_at (set words (idx / 32) new_word) j ≡ bit_at words j
  bit_at-set_ne j h = elim (ℕ_discrete (j / 32) (idx / 32)) [
    | yes e ↦
        rw (e, get_or-set_self words (idx / 32) new_word 0 fits)
          (test_bit-set_bit_ne (get_or words (idx / 32) 0) (idx % 32) (j % 32) (omega arith))
    | no ne ↦ rw (get_or-set_ne words (idx / 32) (j / 32) new_word 0 (λ e. ne (sym e))) refl
  ]

  collect_bit-before :
      (b : Bit) (rc : ℤ) (j : ℕ)
      → j < idx
      → bit_at (collect_bit b idx words rc).0 j ≡ bit_at words j
  unfolding collect_bit
  collect_bit-before bit_0 rc j h = refl
  collect_bit-before bit_1 rc j h = bit_at-set_ne j h
  collect_bit-before bit_x rc j h = refl
  collect_bit-before bit_z rc j h = refl

  collect_bit_self :
      (b : Bit) (rc : ℤ)
      → bit_at words idx ≡ false
      → bit_at (collect_bit b idx words rc).0 idx ≡ is_bit b bit_1
  unfolding collect_bit
  collect_bit_self bit_0 rc h = h
  collect_bit_self bit_1 rc h = bit_at-set_self
  collect_bit_self bit_x rc h = h
  collect_bit_self bit_z rc h = h

  collect_bit-above :
      (b : Bit) (rc : ℤ) (k : ℕ)
      → idx % 32 < k
      → test_bit (get_or (collect_bit b idx words rc).0 (idx / 32) 0) k
        ≡ test_bit (get_or words (idx / 32) 0) k
  unfolding collect_bit
  collect_bit-above bit_0 rc k h = refl
  collect_bit-above bit_1 rc k h = test_bit-set_above k h
  collect_bit-above bit_x rc k h = refl
  collect_bit-above bit_z rc k h = refl

-- One round keeps the invariant, at the next index.
round-Collected :
    (bits : List Bit) (idx : ℕ) (words : List ℕ) (rc : ℤ)
    → Collected bits idx words
    → idx / 32 < length words
    → Collected bits (idx + 1) (collect_bit (get_or bits idx bit_x) idx (start_word idx words) rc).0
round-Collected bits idx words rc inv fits =
    let b = get_or bits idx bit_x in
    let words' = start_word idx words in
    let fits' : idx / 32 < length words' = omega (arith, length-start_word idx words) in
    record {
      before = λ j lt. elim (ℕ_discrete j idx) [
        | yes e ↦ rw e (
            collect_bit_self idx words' fits' b rc
              (start_word-clear bits idx words (idx % 32) inv fits (omega arith)))
        | no ne ↦
            collect_bit-before idx words' fits' b rc j (omega arith)
            ∙ bit_at-start_word idx words j (omega arith)
            ∙ inv.before j (omega arith)
      ];
      fresh = λ k part h.
          let same : (idx + 1) / 32 ≡ idx / 32 = omega arith in
          rw same (
            collect_bit-above idx words' fits' b rc k (omega arith)
            ∙ start_word-clear bits idx words k inv fits (omega arith));
    }

pub collect-Collected :
    (bits : List Bit) (n idx width : ℕ) (words : List ℕ) (rc : ℤ)
    → idx + n ≡ width
    → width ≤ 32 * length words
    → Collected bits idx words
    → Collected bits width (collect bits n idx words rc).0
unfolding collect
collect-Collected bits zero idx width words rc e fits inv =
    subst (λ i. Collected bits i words) (omega arith) inv
collect-Collected bits (suc n) idx width words rc e fits inv =
    let b = get_or bits idx bit_x in
    let r = collect_bit b idx (start_word idx words) rc in
    collect-Collected bits n (idx + 1) width r.0 r.1 (omega arith)
      (omega
        (arith, length-start_word idx words, length-collect_bit b idx (start_word idx words) rc))
      (round-Collected bits idx words rc inv (omega arith))

pub start-Collected : (bits : List Bit) (words : List ℕ) → Collected bits 0 words
start-Collected bits words = record {
  before = λ j h. absurd (omega arith);
  fresh = λ k h. absurd (h refl);
}

-- The result of a count of bits that are X or Z.
abbrev pub minus : ℕ → ℤ
minus zero = pos 0
minus (suc n) = negsuc n

-- How many of the `n` bits from `idx` on are X or Z.
abbrev pub unknowns : List Bit → ℕ → ℕ → ℕ
unknowns bits zero idx = 0
unknowns bits (suc n) idx =
    (if is_bit (get_or bits idx bit_x) bit_0 || is_bit (get_or bits idx bit_x) bit_1 then 0 else 1)
    + unknowns bits n (idx + 1)

pred_ℤ-minus-suc : (n : ℕ) → pred_ℤ (minus n) ≡ minus (suc n)
pred_ℤ-minus-suc zero = refl
pred_ℤ-minus-suc (suc n) = refl

pred_ℤ-minus : (n : ℕ) → pred_ℤ (minus n) ≡ minus (n + 1)
pred_ℤ-minus n = pred_ℤ-minus-suc n ∙ ap minus {x = suc n} {y = n + 1} (omega arith)

collect_bit-minus :
    (b : Bit) (idx : ℕ) (words : List ℕ) (c : ℕ)
    → (collect_bit b idx words (minus c)).1
      ≡ minus (c + (if is_bit b bit_0 || is_bit b bit_1 then 0 else 1))
unfolding collect_bit
collect_bit-minus bit_0 idx words c = ap minus (omega arith)
collect_bit-minus bit_1 idx words c = ap minus (omega arith)
collect_bit-minus bit_x idx words c = pred_ℤ-minus c
collect_bit-minus bit_z idx words c = pred_ℤ-minus c

pub collect-minus :
    (bits : List Bit) (n idx : ℕ) (words : List ℕ) (c : ℕ)
    → (collect bits n idx words (minus c)).1 ≡ minus (c + unknowns bits n idx)
unfolding collect
collect-minus bits zero idx words c = ap minus (omega arith)
collect-minus bits (suc n) idx words c =
    let b = get_or bits idx bit_x in
    let d : ℕ = if is_bit b bit_0 || is_bit b bit_1 then 0 else 1 in
    let words' = (collect_bit b idx (start_word idx words) (minus c)).0 in
    ap (λ t. (collect bits n (idx + 1) words' t).1)
      (collect_bit-minus b idx (start_word idx words) c)
    ∙ collect-minus bits n (idx + 1) words' (c + d)
    ∙ ap minus {x = c + d + unknowns bits n (idx + 1)} {y = c + (d + unknowns bits n (idx + 1))}
        (omega arith)

-- `simbus_p2p_in` fills an array that is large enough with the bits of the vector, X and Z as 0,
-- clears what is left of the last word, and returns minus the number of bits that are X or Z.
in_words_lem :
    (b : Bus) (words : List ℕ)
    → b.width_i ≤ 32 * length words
    → ((j : ℕ)
        → j < b.width_i
        → bit_at (in_words b words).0 j ≡ is_bit (get_or b.data_i j bit_x) bit_1)
      × ((k : ℕ)
          → b.width_i % 32 ≢ 0
          → b.width_i % 32 ≤ k
          → test_bit (get_or (in_words b words).0 (b.width_i / 32) 0) k ≡ false)
      × ((in_words b words).1 ≡ minus (unknowns b.data_i b.width_i 0))
unfolding in_words
in_words_lem b words fits =
    let inv =
      collect-Collected b.data_i b.width_i 0 b.width_i words (pos 0) (omega arith) fits
        (start-Collected b.data_i words) in
    (inv.before, inv.fresh, collect-minus b.data_i b.width_i 0 words 0 ∙ ap minus (omega arith))
