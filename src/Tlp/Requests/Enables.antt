-- ===== src/Tlp/Requests/Enables.antt =====
-- The byte enables of `simbus_pcie_tlp_write`, libsimbus/simbus_pcie_tlp_write.c.
use Prim.Native.Nat.{bit_and}
use simbus.Base.{
  ℕ, ◌+◌, ◌-◌, ◌*◌, ◌%◌, ◌^◌, ◌≤◌, ◌<◌, ◌≡◌, ◌≢◌, ◌∙◌, ap, refl, true, false, Bool, ltb, leb, ◌==◌,
  ◌&&◌, arith, test_bit, if◌then◌else◌, below_holds, below_holds_at, agree, eq_of_agree,
}
use simbus.Tlp.Requests.{write_enables, not_32}

-- Every case of a single word, by evaluation.
single_table :
    below_holds 4 (λ off. below_holds 5 (λ len.
      below_holds 4 (λ k. agree (test_bit (write_enables 1 off len) k) (leb off k && ltb k len))))
    ≡ true
unfolding below_holds write_enables test_bit
single_table = refl

-- The code enables the bytes from `off` on whose number is below `len`.
single_enables :
    (off len k : ℕ)
    → off < 4
    → len < 5
    → k < 4
    → test_bit (write_enables 1 off len) k ≡ (leb off k && ltb k len)
single_enables off len k a b c =
    eq_of_agree _ _
      (below_holds_at 4 _ k (below_holds_at 5 _ len (below_holds_at 4 _ off single_table a) b) c)

-- A write of one word at offset 0 enables exactly its `len` bytes. A write of one word at a later
-- offset never enables its last byte.
pub write_enables_single :
    (off len : ℕ)
    → off < 4
    → off + len ≤ 4
    → 0 < len
    → (off ≡ 0 → (k : ℕ) → k < 4 → test_bit (write_enables 1 off len) k ≡ ltb k len)
      × (0 < off → test_bit (write_enables 1 off len) (off + len - 1) ≡ false)
write_enables_single off len a b c = (
  λ e k lt. ground (arith, single_enables off len k),
  λ e. ground (arith, single_enables off len (off + len - 1)),
)

-- The burst case, by the end of the range in its last word.
abbrev burst : ℕ → ℕ → ℕ
burst off olen = bit_and 0xf0 (not_32 (0xf0 * 2 ^ olen)) + bit_and 0x0f (0x0f * 2 ^ off)

burst_table :
    below_holds 4 (λ off. below_holds 5 (λ olen. below_holds 4 (λ k.
      agree (test_bit (burst off olen) k) (leb off k)
      && agree (test_bit (burst off olen) (4 + k)) (ltb k olen))))
    ≡ true
unfolding below_holds test_bit
burst_table = refl

both_true : (a b : Bool) → (a && b) ≡ true → (a ≡ true) × (b ≡ true)
both_true a b h = ground arith

burst_enables :
    (off olen k : ℕ)
    → off < 4
    → olen < 5
    → k < 4
    → (test_bit (burst off olen) k ≡ leb off k) × (test_bit (burst off olen) (4 + k) ≡ ltb k olen)
burst_enables off olen k a b c =
    let both =
      both_true (agree (test_bit (burst off olen) k) (leb off k))
        (agree (test_bit (burst off olen) (4 + k)) (ltb k olen))
        (below_holds_at 4 _ k (below_holds_at 5 _ olen (below_holds_at 4 _ off burst_table a) b)
          c) in
    (eq_of_agree _ _ both.0, eq_of_agree _ _ both.1)

write_enables-burst :
    (ndata off len : ℕ)
    → ndata ≢ 1
    → write_enables ndata off len ≡ burst off (if (off + len) % 4 == 0 then 4 else (off + len) % 4)
unfolding write_enables
write_enables-burst ndata off len h = ground arith

-- A write of several words that starts in its first and ends in its last word enables exactly the
-- bytes of the range in these two words: in the first those from `off` on, in the last those whose
-- place, counted from the start of the first word, is below `off + len`.
write_enables_burst :
    (ndata off len k : ℕ)
    → off < 4
    → 1 < ndata
    → 4 * (ndata - 1) < off + len
    → off + len ≤ 4 * ndata
    → k < 4
    → (test_bit (write_enables ndata off len) k ≡ leb off k)
      × (test_bit (write_enables ndata off len) (4 + k) ≡ ltb (4 * (ndata - 1) + k) (off + len))
write_enables_burst ndata off len k a b c d e =
    let olen : ℕ = if (off + len) % 4 == 0 then 4 else (off + len) % 4 in
    let parts = burst_enables off olen k a (ground arith) e in
    let same = write_enables-burst ndata off len (omega arith) in
    (
      ap (λ t. test_bit t k) same ∙ parts.0,
      ap (λ t. test_bit t (4 + k)) same ∙ parts.1 ∙ ground arith,
    )
