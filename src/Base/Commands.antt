-- ===== src/Base/Commands.antt =====
-- Commands over an explicit state. `fault` is a failed assertion or an access outside of an
-- object; `out_of_fuel` says that a loop was cut off, never that the code returned.
use mathlib.Core.Bool.{Bool, true, false}
use simbus.Base.Tests.{if◌then◌else◌}

pub data Run (S A : Type 0) : Type 0 where
  ok : A → S → Run S A
  fault : Run S A
  out_of_fuel : Run S A

abbrev pub Cmd : Type 0 → Type 0 → Type 0
Cmd S A = S → Run S A

abbrev pub pure : {S A : Type 0} → A → Cmd S A
pure = ok

module _ {S A B : Type 0} where
  abbrev pub and_then : Run S A → (A → Cmd S B) → Run S B
  and_then (ok a s) k = k a s
  and_then fault k = fault
  and_then out_of_fuel k = out_of_fuel

  infixl 5 ◌>>=◌
  abbrev pub ◌>>=◌ : Cmd S A → (A → Cmd S B) → Cmd S B
  m >>= k = λ s. and_then (m s) k

infixl 5 ◌>>◌
abbrev pub ◌>>◌ : {S B : Type 0} → Cmd S (Unit {0}) → Cmd S B → Cmd S B
m >> n = m >>= λ _. n

-- assert(b)
abbrev pub assert : {S : Type 0} → Bool → Cmd S (Unit {0})
assert true s = ok tt s
assert false s = fault

abbrev pub modify : {S : Type 0} → (S → S) → Cmd S (Unit {0})
modify f s = ok tt (f s)

abbrev pub gets : {S A : Type 0} → (S → A) → Cmd S A
gets f s = ok (f s) s

-- The command ends, in a fault or in a result and a state with `P`.
abbrev pub Ends : {S A : Type 0} → (A → S → Type 0) → Run S A → Type 0
Ends P (ok a s) = P a s
Ends P fault = Unit {0}
Ends P out_of_fuel = ⊥

pub Ends-bind :
    {S A B : Type 0} (P : A → S → Type 0) (Q : B → S → Type 0) (r : Run S A) (k : A → Cmd S B)
    → Ends P r
    → ((a : A) (s : S) → P a s → Ends Q (k a s))
    → Ends Q (and_then r k)
Ends-bind P Q (ok a s) k h f = f a s h
Ends-bind P Q fault k h f = tt
Ends-bind P Q out_of_fuel k h f = absurd h

pub Ends-map :
    {S A : Type 0} (P Q : A → S → Type 0) (r : Run S A)
    → Ends P r
    → ((a : A) (s : S) → P a s → Q a s)
    → Ends Q r
Ends-map P Q (ok a s) h f = f a s h
Ends-map P Q fault h f = tt
Ends-map P Q out_of_fuel h f = absurd h

-- The command returns, with a result and a state that have `P`.
abbrev pub Returns : {S A : Type 0} → (A → S → Type 0) → Run S A → Type 0
Returns P (ok a s) = P a s
Returns P fault = ⊥
Returns P out_of_fuel = ⊥

pub Returns-map :
    {S A : Type 0} (P Q : A → S → Type 0) (r : Run S A)
    → Returns P r
    → ((a : A) (s : S) → P a s → Q a s)
    → Returns Q r
Returns-map P Q (ok a s) h f = f a s h
Returns-map P Q fault h f = h
Returns-map P Q out_of_fuel h f = h

abbrev pub Holds : {S A : Type 0} → (A → S → Type 0) → Run S A → Type 0
Holds P (ok a s) = P a s
Holds P fault = Unit {0}
Holds P out_of_fuel = Unit {0}

-- If the command returns, its result and state have `P`.
pub record After {S A : Type 0} (P : A → S → Type 0) (r : Run S A) : Type 0 where
  pub holds : Holds P r

pub After-ok : {S A : Type 0} (P : A → S → Type 0) (a : A) (s : S) → P a s → After P (ok a s)
After-ok P a s h = record { holds = h }

pub After-fault : {S A : Type 0} (P : A → S → Type 0) → After P fault
After-fault P = record { holds = tt }

After-bind_at :
    {S A B : Type 0} (P : A → S → Type 0) (Q : B → S → Type 0) (r : Run S A) (k : A → Cmd S B)
    → Holds P r
    → ((a : A) (s : S) → P a s → After Q (k a s))
    → After Q (and_then r k)
After-bind_at P Q (ok a s) k h f = f a s h
After-bind_at P Q fault k h f = record { holds = tt }
After-bind_at P Q out_of_fuel k h f = record { holds = tt }

pub After-bind :
    {S A B : Type 0} (P : A → S → Type 0) (Q : B → S → Type 0) (r : Run S A) (k : A → Cmd S B)
    → After P r
    → ((a : A) (s : S) → P a s → After Q (k a s))
    → After Q (and_then r k)
After-bind P Q r k h f = After-bind_at P Q r k h.holds f

pub After-if :
    {S A : Type 0} (P : A → S → Type 0) (c : Bool) (x y : Run S A)
    → After P x
    → After P y
    → After P (if c then x else y)
After-if P true x y h k = h
After-if P false x y h k = k

After-map_at :
    {S A : Type 0} (P Q : A → S → Type 0) (r : Run S A)
    → Holds P r
    → ((a : A) (s : S) → P a s → Q a s)
    → After Q r
After-map_at P Q (ok a s) h f = record { holds = f a s h }
After-map_at P Q fault h f = record { holds = tt }
After-map_at P Q out_of_fuel h f = record { holds = tt }

pub After-map :
    {S A : Type 0} (P Q : A → S → Type 0) (r : Run S A)
    → After P r
    → ((a : A) (s : S) → P a s → Q a s)
    → After Q r
After-map P Q r h f = After-map_at P Q r h.holds f
