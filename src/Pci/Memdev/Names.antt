-- ===== src/Pci/Memdev/Names.antt =====
-- The file names of libsimbus/simbus_pci_memdev.c, four characters to a word.
use simbus.Base.{
  ℕ, ◌+◌, ◌*◌, ◌/◌, ◌%◌, ◌<◌, ◌≡◌, refl, ap, List, [], ◌∷◌, ◌==◌, if◌then◌else◌, arith, false,
}

-- A word from its bytes, the first the lowest.
abbrev pub word_of : ℕ → ℕ → ℕ → ℕ → ℕ
word_of a b c d = a % 256 + b % 256 * 256 + c % 256 * 65536 + d % 256 * 16777216

-- The words of `simbus_pci_memdev_load` and `simbus_pci_memdev_save` for a name; the pointer stays at
-- the nul once it has reached it.
unfoldable pub name_words : List ℕ → List ℕ
name_words [] = []
name_words (a ∷ []) = word_of a 0 0 0 ∷ []
name_words (a ∷ (b ∷ [])) = word_of a b 0 0 ∷ []
name_words (a ∷ (b ∷ (c ∷ []))) = word_of a b c 0 ∷ []
name_words (a ∷ (b ∷ (c ∷ (d ∷ file)))) = word_of a b c d ∷ name_words file

-- The characters of a word up to the first that is zero, before `rest`.
abbrev chars_of : ℕ → List ℕ → List ℕ
chars_of w rest =
    let a = w % 256 in
    let b = w / 256 % 256 in
    let c = w / 65536 % 256 in
    let d = w / 16777216 in
    if a == 0
    then []
    else a
      ∷ (if b == 0 then [] else b ∷ (if c == 0 then [] else c ∷ (if d == 0 then [] else d ∷ rest)))

-- The name that a device reads from its registers, up to the first zero byte.
unfoldable pub read_name : List ℕ → List ℕ
read_name [] = []
read_name (w ∷ words) = chars_of w (read_name words)

-- A character of a name: a byte that is not the nul.
pub data Chars : List ℕ → Type 0 where
  no_chars : Chars []
  char : (a : ℕ) (file : List ℕ) → 0 < a → a < 256 → Chars file → Chars (a ∷ file)

bytes_of :
    (a b c d : ℕ)
    → a < 256
    → b < 256
    → c < 256
    → d < 256
    → (word_of a b c d % 256 ≡ a)
      × (word_of a b c d / 256 % 256 ≡ b)
      × (word_of a b c d / 65536 % 256 ≡ c)
      × (word_of a b c d / 16777216 ≡ d)
bytes_of a b c d la lb lc ld = (omega arith, omega arith, omega arith, omega arith)

nonzero : (a : ℕ) → 0 < a → (a == 0) ≡ false
nonzero a h = ground arith

-- The device reads back the name that loading and saving write to its registers, whatever its length.
read_name-name_words : (file : List ℕ) → Chars file → read_name (name_words file) ≡ file
unfolding name_words read_name
read_name-name_words [] h = refl
read_name-name_words (a ∷ []) (char _ _ pa la h) =
    let w = bytes_of a 0 0 0 la (omega arith) (omega arith) (omega arith) in
    rw (w.0, w.1, nonzero a pa) refl
read_name-name_words (a ∷ (b ∷ [])) (char _ _ pa la (char _ _ pb lb h)) =
    let w = bytes_of a b 0 0 la lb (omega arith) (omega arith) in
    rw (w.0, w.1, w.2, nonzero a pa, nonzero b pb) refl
read_name-name_words (a ∷ (b ∷ (c ∷ []))) (char _ _ pa la (char _ _ pb lb (char _ _ pc lc h))) =
    let w = bytes_of a b c 0 la lb lc (omega arith) in
    rw (w.0, w.1, w.2, w.3, nonzero a pa, nonzero b pb, nonzero c pc) refl
read_name-name_words (a ∷ (b ∷ (c ∷ (d ∷ file))))
      (char _ _ pa la (char _ _ pb lb (char _ _ pc lc (char _ _ pd ld h)))) =
    let w = bytes_of a b c d la lb lc ld in
    rw (w.0, w.1, w.2, w.3, nonzero a pa, nonzero b pb, nonzero c pc, nonzero d pd)
      (ap (λ t. a ∷ (b ∷ (c ∷ (d ∷ t)))) (read_name-name_words file h))
