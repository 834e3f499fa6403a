-- ===== src/Base/Tests.antt =====
-- Boolean tests on the native numbers, and the conditional.
use Prim.Native.Nat.{ℕ, zero, suc, ◌<◌, compare, Ordering}
use mathlib.Core.Path.{◌≡◌, refl}
use mathlib.Core.Logic.{◌↔◌, ◌⊎◌, inl, inr}
use mathlib.Core.Bool.{Bool, true, false, ◌&&◌, ◌||◌}
use mathlib.Core.Option.{Option, none, some}
use native.Mathlib.Omega.{arith}

abbrev pub ltb : ℕ → ℕ → Bool
ltb a b = elim (compare a b) [ Ordering.lt ↦ true | _ ↦ false ]

abbrev pub leb : ℕ → ℕ → Bool
leb a b = elim (compare a b) [ Ordering.gt ↦ false | _ ↦ true ]

infix 50 ◌==◌
abbrev pub ◌==◌ : ℕ → ℕ → Bool
a == b = elim (compare a b) [ Ordering.eq ↦ true | _ ↦ false ]

infix 1 if◌then◌else◌
abbrev pub if◌then◌else◌ {ℓ} : {A : Type ℓ} → Bool → A → A → A
if true then x else y = x
if false then x else y = y

pub Bool-cases : (b : Bool) → (b ≡ true) ⊎ (b ≡ false)
Bool-cases true = inl refl
Bool-cases false = inr refl

pub ==_iff : (a b : ℕ) → ((a == b) ≡ true) ↔ (a ≡ b)
==_iff a b = ground arith

pub Option-cases {ℓ} : {A : Type ℓ} (o : Option A) → (o ≡ none) ⊎ ((a : A) × (o ≡ some a))
Option-cases none = inl refl
Option-cases (some a) = inr (a, refl)

-- Over a small range, check every value by evaluation.
unfoldable pub below_holds : ℕ → (ℕ → Bool) → Bool
below_holds zero test = true
below_holds (suc bound) test = below_holds bound test && test bound

pub below_holds_at :
    (bound : ℕ) (test : ℕ → Bool) (k : ℕ)
    → below_holds bound test ≡ true
    → k < bound
    → test k ≡ true
unfolding below_holds
below_holds_at zero test k all less = absurd (omega arith)
below_holds_at (suc bound) test k all less = ground (arith, below_holds_at bound test k)

-- Two Boolean values are the same.
abbrev pub agree : Bool → Bool → Bool
agree true b = b
agree false true = false
agree false false = true

pub eq_of_agree : (a b : Bool) → agree a b ≡ true → a ≡ b
eq_of_agree true b h = ground arith
eq_of_agree false true h = h
eq_of_agree false false h = refl

pub or-true : (a : Bool) → (a || true) ≡ true
or-true true = refl
or-true false = refl

pub and-false : (a : Bool) → (a && false) ≡ false
and-false true = refl
and-false false = refl

-- A step that can fail, and what follows it.
abbrev pub opt_then : {A B : Type 0} → Option A → (A → Option B) → Option B
opt_then none f = none
opt_then (some a) f = f a

pub opt_then-some :
    {A B : Type 0} (m : Option A) (f : A → Option B) {b : B}
    → opt_then m f ≡ some b
    → (a : A) × (m ≡ some a) × (f a ≡ some b)
opt_then-some none f e = cc
opt_then-some (some a) f e = (a, refl, e)

-- Either branch has the property.
pub either_branch :
    {A : Type 0} (P : A → Type 0) (c : Bool) {x y : A} → P x → P y → P (if c then x else y)
either_branch P true h k = h
either_branch P false h k = k

pub eq_of_some : {A : Type 0} {a b : A} → some a ≡ some b → a ≡ b
eq_of_some e = cc
