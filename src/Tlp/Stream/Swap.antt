-- ===== src/Tlp/Stream/Swap.antt =====
-- `byte_swap32`, libsimbus/simbus_pcie_tlp_tlp.c, on a part of an array.
use mathlib.Core.List.{append_assoc}
use simbus.Base.{
  ℕ, suc, ◌+◌, ◌≡◌, ◌∙◌, refl, ap, List, [], ◌∷◌, ◌++◌, map, arith, length, get_or, set, take, drop,
  sym,
}
use simbus.Tlp.Stream.{swap_word, byte_swap32}
use simbus.Tlp.Stream.Beats.{AllWord32, swap_word-swap_word}

get_or-middle :
    (pre : List ℕ) (x : ℕ) (rest : List ℕ) → get_or (pre ++ (x ∷ rest)) (length pre) 0 ≡ x
get_or-middle [] x rest = refl
get_or-middle (p ∷ pre) x rest = get_or-middle pre x rest

set-middle :
    (pre : List ℕ) (x v : ℕ) (rest : List ℕ)
    → set (pre ++ (x ∷ rest)) (length pre) v ≡ (pre ++ (v ∷ [])) ++ rest
set-middle [] x v rest = refl
set-middle (p ∷ pre) x v rest = ap (λ t. p ∷ t) (set-middle pre x v rest)

length-snoc : (pre : List ℕ) (v : ℕ) → length (pre ++ (v ∷ [])) ≡ length pre + 1
length-snoc [] v = refl
length-snoc (p ∷ pre) v = omega (arith, length-snoc pre v)

-- The words from `length pre` on are swapped, and no other word changes.
pub byte_swap32-map :
    (pre words rest : List ℕ)
    → byte_swap32 (length words) (length pre) (pre ++ (words ++ rest))
      ≡ pre ++ (map swap_word words ++ rest)
unfolding byte_swap32
byte_swap32-map pre [] rest = refl
byte_swap32-map pre (w ∷ words) rest =
    let v = swap_word w in
    let first : set (pre ++ (w ∷ (words ++ rest))) (length pre)
          (swap_word (get_or (pre ++ (w ∷ (words ++ rest))) (length pre) 0))
        ≡ (pre ++ (v ∷ [])) ++ (words ++ rest) =
      ap (λ t. set (pre ++ (w ∷ (words ++ rest))) (length pre) (swap_word t))
        (get_or-middle pre w (words ++ rest))
      ∙ set-middle pre w v (words ++ rest) in
    ap (byte_swap32 (length words) (length pre + 1)) first
    ∙ ap (λ i. byte_swap32 (length words) i ((pre ++ (v ∷ [])) ++ (words ++ rest)))
        (sym (length-snoc pre v))
    ∙ byte_swap32-map (pre ++ (v ∷ [])) words rest
    ∙ append_assoc pre (v ∷ []) (map swap_word words ++ rest)

pub map-swap_word : (words : List ℕ) → AllWord32 words → map swap_word (map swap_word words) ≡ words
map-swap_word [] h = refl
map-swap_word (w ∷ words) h = cc (swap_word-swap_word w h.0, map-swap_word words h.1)

pub drop-append : (pre rest : List ℕ) → drop (length pre) (pre ++ rest) ≡ rest
drop-append [] rest = refl
drop-append (p ∷ pre) rest = drop-append pre rest

pub take-append : (pre rest : List ℕ) → take (length pre) (pre ++ rest) ≡ pre
take-append [] rest = refl
take-append (p ∷ pre) rest = ap (λ t. p ∷ t) (take-append pre rest)

pub length-map-swap_word : (words : List ℕ) → length (map swap_word words) ≡ length words
length-map-swap_word [] = refl
length-map-swap_word (w ∷ words) = ap suc (length-map-swap_word words)
