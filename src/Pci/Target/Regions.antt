-- ===== src/Pci/Target/Regions.antt =====
-- Which region of a PCI target `match_mem_target` of libsimbus/simbus_pci_target.c picks.
use Prim.Native.Nat.{bit_and}
use simbus.Base.{
  ℕ, zero, suc, ◌+◌, ◌<◌, ◌≡◌, inl, inr, refl, subst, Bool, true, false, not, ◌&&◌, Bool-cases,
  Option, some, none, List, [], ◌∷◌, ◌==◌, length, get_or, arith, and-false,
}
use simbus.Pci.{Bus, Translation, no_translation}
use simbus.Pci.Target.{match_regions, match_mem_target}
use simbus.Pci.Target.Memory.{get_addr}

-- The address is in the region, and the region is in use.
unfoldable pub in_region : ℕ → Translation → Bool
in_region addr t = not (t.mask == 0) && (bit_and t.mask t.base == bit_and t.mask addr)

-- The result picks a region.
unfoldable pub Picks : ℕ → List Translation → Option ℕ → Type 0
Picks addr regions none =
    (i : ℕ) → i < length regions → in_region addr (get_or regions i no_translation) ≡ false
Picks addr regions (some k) =
    (k < length regions)
    × (in_region addr (get_or regions k no_translation) ≡ true)
    × ((i : ℕ) → i < k → in_region addr (get_or regions i no_translation) ≡ false)

-- The result from the region `idx` on.
abbrev PicksFrom : ℕ → ℕ → List Translation → Option ℕ → Type 0
PicksFrom addr idx regions none =
    (i : ℕ) → i < length regions → in_region addr (get_or regions i no_translation) ≡ false
PicksFrom addr idx regions (some k) =
    (d : ℕ) × (k ≡ idx + d)
    × (d < length regions)
    × (in_region addr (get_or regions d no_translation) ≡ true)
    × ((i : ℕ) → i < d → in_region addr (get_or regions i no_translation) ≡ false)

PicksFrom-later :
    (addr idx : ℕ) (t : Translation) (rest : List Translation) (found : Option ℕ)
    → in_region addr t ≡ false
    → PicksFrom addr (idx + 1) rest found
    → PicksFrom addr idx (t ∷ rest) found
PicksFrom-later addr idx t rest none out h = skip_first out h
  where
    skip_first :
        in_region addr t ≡ false
        → ((i : ℕ) → i < length rest → in_region addr (get_or rest i no_translation) ≡ false)
        → (i : ℕ) → i < suc (length rest)
        → in_region addr (get_or (t ∷ rest) i no_translation) ≡ false
    skip_first out h zero lt = out
    skip_first out h (suc i) lt = h i (omega arith)
PicksFrom-later addr idx t rest (some k) out (d, e, lt, hit, before) =
    (suc d, omega arith, omega arith, hit, skip_hit out before)
  where
    skip_hit :
        in_region addr t ≡ false
        → ((i : ℕ) → i < d → in_region addr (get_or rest i no_translation) ≡ false)
        → (i : ℕ) → i < suc d
        → in_region addr (get_or (t ∷ rest) i no_translation) ≡ false
    skip_hit out h zero lt = out
    skip_hit out h (suc i) lt = h i (omega arith)

unused : (addr : ℕ) (t : Translation) → (t.mask == 0) ≡ true → in_region addr t ≡ false
unfolding in_region
unused addr t off = rw off refl

used :
    (addr : ℕ) (t : Translation)
    → (t.mask == 0) ≡ false
    → (bit_and t.mask t.base == bit_and t.mask addr) ≡ true
    → in_region addr t ≡ true
unfolding in_region
used addr t on hit = rw (on, hit) refl

missed :
    (addr : ℕ) (t : Translation)
    → (bit_and t.mask t.base == bit_and t.mask addr) ≡ false
    → in_region addr t ≡ false
unfolding in_region
missed addr t miss = rw (miss, and-false (not (t.mask == 0))) refl

match_regions-PicksFrom :
    (addr idx : ℕ) (regions : List Translation)
    → PicksFrom addr idx regions (match_regions addr idx regions)
unfolding match_regions
match_regions-PicksFrom addr idx [] = λ i lt. absurd (omega arith)
match_regions-PicksFrom addr idx (t ∷ rest) =
    let later = match_regions-PicksFrom addr (idx + 1) rest in
    elim (Bool-cases (t.mask == 0)) [
      | inl off ↦ rw off (
          PicksFrom-later addr idx t rest (match_regions addr (idx + 1) rest) (unused addr t off)
            later)
      | inr on ↦ rw on (elim (Bool-cases (bit_and t.mask t.base == bit_and t.mask addr)) [
        | inl hit ↦
            rw hit (0, omega arith, omega arith, used addr t on hit, λ i lt. absurd (omega arith))
        | inr miss ↦ rw miss (
            PicksFrom-later addr idx t rest (match_regions addr (idx + 1) rest) (missed addr t miss)
              later)
      ])
    ]

Picks-at_zero :
    (addr : ℕ) (regions : List Translation) (found : Option ℕ)
    → PicksFrom addr 0 regions found
    → Picks addr regions found
unfolding Picks
Picks-at_zero addr regions none h = h
Picks-at_zero addr regions (some k) (d, e, lt, hit, before) =
    let same : d ≡ k = omega arith in
    subst
      (λ t.
        (t < length regions)
        × (in_region addr (get_or regions t no_translation) ≡ true)
        × ((i : ℕ) → i < t → in_region addr (get_or regions i no_translation) ≡ false))
      same (lt, hit, before)

-- The target picks the first of its regions that is in use and has the address on the bus under its
-- mask, and none if and only if no region has it.
pub match_mem_target-Picks : (b : Bus) → Picks (get_addr b) b.mem_target (match_mem_target b)
unfolding match_mem_target
match_mem_target-Picks b =
    Picks-at_zero (get_addr b) b.mem_target (match_regions (get_addr b) 0 b.mem_target)
      (match_regions-PicksFrom (get_addr b) 0 b.mem_target)
