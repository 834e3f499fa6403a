-- ===== src/Server/Client/Words.antt =====
-- The words that the server makes of a line, in server/client.cc.
use simbus.Base.{
  ℕ, zero, suc, ◌<◌, ◌≡◌, ◌≢◌, refl, some, List, [], ◌∷◌, ◌++◌, arith, length, leb, Bool, true,
  ◌&&◌,
}
use simbus.Session.{Token}
use simbus.Session.Lines.{join}
use simbus.Server.Names.{left_of, right_of}
use simbus.Server.Client.Reading.{skip_white, span_word, after_word, words, split_line}

-- A character of a word of the server: no white space, no newline, no terminator.
abbrev pub IsLetter : ℕ → Type 0
IsLetter c = (c ≢ 32) × (c ≢ 13) × (c ≢ 10) × (c ≢ 0)

abbrev pub AllLetters : List ℕ → Type 0
AllLetters [] = Unit {0}
AllLetters (c ∷ cs) = IsLetter c × AllLetters cs

-- A word has a character.
abbrev pub IsWord : Token → Type 0
IsWord [] = ⊥
IsWord (c ∷ cs) = IsLetter c × AllLetters cs

abbrev pub AllWords : List Token → Type 0
AllWords [] = Unit {0}
AllWords (w ∷ ws) = IsWord w × AllWords ws

-- A test for words of visible characters.
abbrev pub is_visible : List ℕ → Bool
is_visible [] = true
is_visible (c ∷ cs) = leb 33 c && is_visible cs

pub is_visible-AllLetters : (w : List ℕ) → is_visible w ≡ true → AllLetters w
is_visible-AllLetters [] h = tt
is_visible-AllLetters (c ∷ w) h =
    let seen = left_of (leb 33 c) (is_visible w) h in
    (
      (ground arith, ground arith, ground arith, ground arith),
      is_visible-AllLetters w (right_of (leb 33 c) (is_visible w) h),
    )

span_word-end : (w : List ℕ) → AllLetters w → span_word (w ++ []) ≡ (w, [])
unfolding span_word
span_word-end [] h = refl
span_word-end (x ∷ w) h = ground (arith, span_word-end w h.1)

span_word-blank :
    (w : List ℕ) (rest : List ℕ) → AllLetters w → span_word (w ++ (32 ∷ rest)) ≡ (w, 32 ∷ rest)
unfolding span_word
span_word-blank [] rest h = refl
span_word-blank (x ∷ w) rest h = ground (arith, span_word-blank w rest h.1)

skip_white-join :
    (w : Token) (ws : List Token) → IsWord w → skip_white (join (w ∷ ws) []) ≡ join (w ∷ ws) []
unfolding skip_white
skip_white-join [] ws h = absurd h
skip_white-join (x ∷ w) [] h = ground arith
skip_white-join (x ∷ w) (v ∷ ws) h = ground arith

words-end : (n : ℕ) → words (suc n) [] ≡ some []
unfolding words
words-end n = refl

-- Words with one blank between neighbours are found again.
pub words-join :
    (n : ℕ) (ws : List Token) → AllWords ws → length ws < n → words n (join ws []) ≡ some ws
unfolding words after_word
words-join zero ws h fits = absurd (omega arith)
words-join (suc n) [] h fits = refl
words-join (suc zero) (w ∷ ws) h fits = absurd (omega arith)
words-join (suc (suc n)) ([] ∷ ws) h fits = absurd h.0
words-join (suc (suc n)) ((c ∷ w) ∷ []) h fits = rw (span_word-end (c ∷ w) h.0) refl
words-join (suc (suc n)) ((c ∷ w) ∷ v ∷ ws) h fits =
    rw (span_word-blank (c ∷ w) (join (v ∷ ws) []) h.0)
      (rw (skip_white-join v ws h.1.0) (rw (words-join (suc n) (v ∷ ws) h.1 (omega arith)) refl))

split_line-append :
    (w rest : List ℕ) {line left : List ℕ}
    → AllLetters w
    → split_line rest ≡ some (line, left)
    → split_line (w ++ rest) ≡ some (w ++ line, left)
unfolding split_line
split_line-append [] rest h e = e
split_line-append (c ∷ w) rest h e = ground (arith, split_line-append w rest h.1 e)

pub letters_of : (w : Token) → IsWord w → AllLetters w
letters_of [] h = absurd h
letters_of (c ∷ w) h = h

-- The line that ends in a newline is cut off.
pub split_line-join :
    (ws : List Token) (left : List ℕ)
    → AllWords ws
    → split_line (join ws (10 ∷ left)) ≡ some (join ws [], left)
unfolding split_line
split_line-join [] left h = refl
split_line-join (w ∷ []) left h = split_line-append w (10 ∷ left) (letters_of w h.0) refl
split_line-join (w ∷ v ∷ ws) left h =
    split_line-append w (32 ∷ join (v ∷ ws) (10 ∷ left)) (letters_of w h.0)
      (ground (arith, split_line-join (v ∷ ws) left h.1))
