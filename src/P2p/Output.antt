-- ===== src/P2p/Output.antt =====
-- The vector that `simbus_p2p_out` and `simbus_p2p_in_poke` of libsimbus/simbus_p2p.c write from
-- words, and what `simbus_p2p_out_peek` reads back from it.
use simbus.Base.{
  ℕ, zero, suc, ◌+◌, ◌*◌, ◌<◌, ◌≤◌, ◌≡◌, ◌∙◌, refl, ap, ltb, leb, if◌then◌else◌, ◌&&◌, Bool, true,
  false, List, arith, length, get_or, set, length-set, get_or-set_self, get_or-set_ne, pos,
  ℕ_discrete, ◌||◌,
}
use simbus.Wire.{Bit, bit_0, bit_1, bit_x, bit_of, is_bit}
use simbus.P2p.{Bus, out_peek, spread, out}
use simbus.Wire.Vectors.{is_bit-bit_of}
use simbus.P2p.Words.{collect-Collected, start-Collected, minus, unknowns, collect-minus, bit_at}

length-spread :
    (words : List ℕ) (n idx : ℕ) (bits : List Bit) → length (spread words n idx bits) ≡ length bits
unfolding spread
length-spread words zero idx bits = refl
length-spread words (suc n) idx bits =
    let v = bit_of (bit_at words idx) in
    length-spread words n (idx + 1) (set bits idx v) ∙ length-set bits idx v

get_or-spread :
    (words : List ℕ) (n idx : ℕ) (bits : List Bit) (j : ℕ)
    → idx + n ≤ length bits
    → get_or (spread words n idx bits) j bit_x
      ≡ (if leb idx j && ltb j (idx + n) then bit_of (bit_at words j) else get_or bits j bit_x)
unfolding spread
get_or-spread words zero idx bits j h = ground arith
get_or-spread words (suc n) idx bits j h =
    let v = bit_of (bit_at words idx) in
    elim (ℕ_discrete idx j) [
      | yes e ↦ rw (← e) (
          ground (
            arith,
            get_or-spread words n (idx + 1) (set bits idx v) idx,
            length-set bits idx v,
            get_or-set_self bits idx v bit_x,
          ))
      | no ne ↦ ground (
        arith,
        get_or-spread words n (idx + 1) (set bits idx v) j,
        length-set bits idx v,
        get_or-set_ne bits idx j v bit_x ne,
      )
    ]

known-bit_of : (t : Bool) → (is_bit (bit_of t) bit_0 || is_bit (bit_of t) bit_1) ≡ true
known-bit_of true = refl
known-bit_of false = refl

unknowns-known :
    (words : List ℕ) (bits : List Bit) (n idx : ℕ)
    → ((j : ℕ) → idx ≤ j → j < idx + n → get_or bits j bit_x ≡ bit_of (bit_at words j))
    → unknowns bits n idx ≡ 0
unknowns-known words bits zero idx h = refl
unknowns-known words bits (suc n) idx h =
    rw (h idx (omega arith) (omega arith), known-bit_of (bit_at words idx))
      (omega
        (arith, unknowns-known words bits n (idx + 1) (λ j lo hi. h j (omega arith) (omega arith))))

-- `simbus_p2p_out_peek` gives back each bit that `simbus_p2p_out` was given, with the result 0,
-- whatever the vector and the caller's array held before.
pub out_peek-out :
    (b : Bus) (words into : List ℕ)
    → length b.data_o ≡ b.width_o
    → b.width_o ≤ 32 * length into
    → ((j : ℕ) → j < b.width_o → bit_at (out_peek (out words b) into).0 j ≡ bit_at words j)
      × ((out_peek (out words b) into).1 ≡ pos 0)
unfolding out_peek out
out_peek-out b words into len fits =
    let bits = spread words b.width_o 0 b.data_o in
    let written : (j : ℕ) → j < b.width_o → get_or bits j bit_x ≡ bit_of (bit_at words j) =
      λ j lt. ground (arith, get_or-spread words b.width_o 0 b.data_o j) in
    let known : unknowns bits b.width_o 0 ≡ 0 =
      unknowns-known words bits b.width_o 0 (λ j lo hi. written j (omega arith)) in
    let inv =
      collect-Collected bits b.width_o 0 b.width_o into (pos 0) (omega arith) fits
        (start-Collected bits into) in
    (
      λ j lt.
          inv.before j lt
          ∙ ap (λ t. is_bit t bit_1) (written j lt)
          ∙ is_bit-bit_of (bit_at words j),
      collect-minus bits b.width_o 0 into 0
          ∙ ap minus {x = 0 + unknowns bits b.width_o 0} {y = 0} (omega (arith, known)),
    )
