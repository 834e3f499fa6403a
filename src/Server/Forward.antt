-- ===== src/Server/Forward.antt =====
-- What a step of server/PointToPoint.cc sends to the two ends of the bus.
use simbus.Base.{ℕ, ◌<◌, ◌≡◌, refl, arith, true, false, List, [], ◌∷◌, get_or, length, same_text}
use simbus.Wire.{Bit, bit_x, bit_z}
use simbus.Server.{Map, lookup, assign}
use simbus.Server.Point.{Point}

pub same_text_self : (k : List ℕ) → same_text k k ≡ true
same_text_self [] = refl
same_text_self (x ∷ k) = ground (arith, same_text_self k)

pub eq_of_same_text : (a b : List ℕ) → same_text a b ≡ true → a ≡ b
eq_of_same_text [] [] h = refl
eq_of_same_text [] (y ∷ b) h = absurd (ground arith)
eq_of_same_text (x ∷ a) [] h = absurd (ground arith)
eq_of_same_text (x ∷ a) (y ∷ b) h = ground (arith, eq_of_same_text a b)

pub lookup-assign :
    {A : Type 0} (d : A) (key : List ℕ) (v : A) (m : Map A) → lookup d key (assign key v m) ≡ v
unfolding lookup assign
lookup-assign d key v [] = rw (same_text_self key) refl
lookup-assign d key v ((k, w) ∷ m) = ground (arith, lookup-assign d key v m)

pub lookup-assign_ne :
    {A : Type 0} (d : A) (key other : List ℕ) (v : A) (m : Map A)
    → same_text other key ≡ false
    → lookup d key (assign other v m) ≡ lookup d key m
unfolding lookup assign
lookup-assign_ne d key other v [] h = rw h refl
lookup-assign_ne d key other v ((k, w) ∷ m) h =
    ground (arith, lookup-assign_ne d key other v m h, eq_of_same_text k other)

-- `out` is the first `width` bits of `source`, with Z where `source` has none.
abbrev pub Carries : ℕ → List Bit → List Bit → Type 0
Carries width source out =
    (length out ≡ width) × ((i : ℕ) → i < width → get_or out i bit_x ≡ get_or source i bit_z)
