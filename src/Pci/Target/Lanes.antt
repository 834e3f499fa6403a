-- ===== src/Pci/Target/Lanes.antt =====
-- The byte lanes that `make_ben4x` of libsimbus/simbus_pci_target.c enables.
use simbus.Base.{
  ℕ, ◌+◌, ◌*◌, ◌/◌, ◌%◌, ◌≤◌, ◌<◌, ◌≡◌, ◌∙◌, inl, inr, refl, ap, sym, subst, ltb, leb, ◌==◌, Bool,
  true, false, not, ◌&&◌, ◌||◌, Bool-cases, arith, test_bit, below_holds, below_holds_at, agree,
  eq_of_agree,
}
use simbus.Pci.Target.Enables.{first_ben4, make_ben4x}

-- The lane has a byte of the `count` bytes from the lane `a` on.
abbrev pub lane_used : ℕ → ℕ → ℕ → Bool
lane_used a count lane = leb a lane && ltb lane (a + count)

or-false : (b : Bool) → (b || false) ≡ b
or-false true = refl
or-false false = refl

abbrev first_ok : ℕ → ℕ → ℕ → Bool
first_ok a count lane =
    agree (test_bit (0xf0 + first_ben4 a count) lane) (not (lane_used a count lane))

-- Every first lane, up to four bytes, every lane.
first_table : below_holds 80 (λ k. first_ok (k / 20) (k / 4 % 5) (k % 4) || (k / 4 % 5 == 0)) ≡ true
unfolding below_holds test_bit first_ben4
first_table = refl

first_ben4-long : (a count : ℕ) → 4 ≤ count → first_ben4 a count ≡ first_ben4 a 4
unfolding first_ben4
first_ben4-long a count h =
    let e1 : (count == 1) ≡ false = ground arith in
    let e2 : (count == 2) ≡ false = ground arith in
    let e3 : (count == 3) ≡ false = ground arith in rw (e1, e2, e3) refl

first_row :
    (a count lane : ℕ)
    → (count == 0) ≡ false
    → (first_ok a count lane || (count == 0)) ≡ true
    → first_ok a count lane ≡ true
first_row a count lane none row =
    sym (or-false (first_ok a count lane)) ∙ ap (λ t. first_ok a count lane || t) (sym none) ∙ row

first_ben4-short :
    (a count lane : ℕ)
    → a < 4
    → 0 < count
    → count < 5
    → lane < 4
    → test_bit (0xf0 + first_ben4 a count) lane ≡ not (lane_used a count lane)
first_ben4-short a count lane la lc hc ll =
    let k = a * 20 + count * 4 + lane in
    let e1 : k / 20 ≡ a = omega arith in
    let e2 : k / 4 % 5 ≡ count = omega arith in
    let e3 : k % 4 ≡ lane = omega arith in
    let none : (count == 0) ≡ false = ground arith in
    let row =
      below_holds_at 80 (λ k. first_ok (k / 20) (k / 4 % 5) (k % 4) || (k / 4 % 5 == 0)) k
        first_table (omega arith) in
    eq_of_agree (test_bit (0xf0 + first_ben4 a count) lane) (not (lane_used a count lane)) (
      first_row a count lane none (
        subst (λ t. (first_ok a count t || (count == 0)) ≡ true) e3
          (subst (λ t. (first_ok a t (k % 4) || (t == 0)) ≡ true) e2
            (subst (λ t. (first_ok t (k / 4 % 5) (k % 4) || (k / 4 % 5 == 0)) ≡ true) e1 row))))

-- In the first word of a burst of `count` bytes at `addr`, for a burst of one byte or more, `make_ben4x`
-- enables the lanes from that of the address on that have a byte of the burst, and no other.
pub make_ben4x-first :
    (addr count lane : ℕ)
    → 0 < count
    → lane < 4
    → test_bit (make_ben4x addr count).0 lane ≡ not (lane_used (addr % 4) count lane)
unfolding make_ben4x
make_ben4x-first addr count lane some low = elim (Bool-cases (ltb count 5)) [
  | inl short ↦ first_ben4-short (addr % 4) count lane (omega arith) some (ground arith) low
  | inr long ↦
      ap (λ t. test_bit (0xf0 + t) lane) (first_ben4-long (addr % 4) count (ground arith))
      ∙ first_ben4-short (addr % 4) 4 lane (omega arith) (omega arith) (omega arith) low
      ∙ ap (λ t. not (leb (addr % 4) lane && t)) (ground arith)
]
