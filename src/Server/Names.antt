-- ===== src/Server/Names.antt =====
-- Lists of signal names with no name twice.
use simbus.Base.{ℕ, ◌≡◌, refl, Bool, true, false, not, ◌&&◌, List, [], ◌∷◌, same_text, arith, ◌∙◌}
use simbus.Server.{Signals}

abbrev pub names_of : Signals → List (List ℕ)
names_of [] = []
names_of ((name, val) ∷ signals) = name ∷ names_of signals

abbrev pub absent : List ℕ → List (List ℕ) → Bool
absent key [] = true
absent key (name ∷ names) = not (same_text name key) && absent key names

abbrev pub distinct : List (List ℕ) → Bool
distinct [] = true
distinct (name ∷ names) = absent name names && distinct names

pub left_of : (a b : Bool) → (a && b) ≡ true → a ≡ true
left_of true b h = refl
left_of false b h = h

pub right_of : (a b : Bool) → (a && b) ≡ true → b ≡ true
right_of true b h = h
right_of false b h = absurd (ground arith)

pub eq_false_of_not : (a : Bool) → not a ≡ true → a ≡ false
eq_false_of_not true h = absurd (ground arith)
eq_false_of_not false h = refl

same_text_comm : (a b : List ℕ) → same_text a b ≡ same_text b a
same_text_comm [] [] = refl
same_text_comm [] (y ∷ b) = refl
same_text_comm (x ∷ a) [] = refl
same_text_comm (x ∷ a) (y ∷ b) = ground (arith, same_text_comm a b)

-- A name that is absent from a list differs from its first name.
pub other_of_absent :
    (other name : List ℕ) (names : List (List ℕ))
    → absent other (name ∷ names) ≡ true
    → same_text other name ≡ false
other_of_absent other name names h =
    same_text_comm other name
    ∙ eq_false_of_not (same_text name other)
        (left_of (not (same_text name other)) (absent other names) h)

pub rest_of_absent :
    (other name : List ℕ) (names : List (List ℕ))
    → absent other (name ∷ names) ≡ true
    → absent other names ≡ true
rest_of_absent other name names h = right_of (not (same_text name other)) (absent other names) h
