-- ===== src/Server/Protocol/Order.antt =====
-- The order in which server/protocol.cc meets the signals of a device.
use simbus.Base.{
  ◌≡◌, refl, ap, subst, ◌∙◌, List, [], ◌∷◌, arith, ℕ, suc, length, true, false, if◌then◌else◌,
  same_text, either_branch, Bool-cases, inl, inr,
}
use simbus.Wire.{Bit}
use simbus.Server.Forward.{eq_of_same_text}
use simbus.Server.{lookup, Signals}
use simbus.Server.Client.Ready.{AllNames}
use simbus.Server.Protocol.{text_less, insert_signal, in_order}

insert_signal-AllNames :
    (name : List ℕ) (val : List Bit) (signals : Signals)
    → AllNames ((name, val) ∷ signals)
    → AllNames (insert_signal name val signals)
unfolding insert_signal
insert_signal-AllNames name val [] h = h
insert_signal-AllNames name val ((n, v) ∷ signals) h =
    either_branch AllNames (text_less n name)
      (h.1.0, insert_signal-AllNames name val signals (h.0, h.1.1)) h

pub in_order-AllNames : (signals : Signals) → AllNames signals → AllNames (in_order signals)
unfolding in_order
in_order-AllNames [] h = h
in_order-AllNames ((name, val) ∷ signals) h =
    insert_signal-AllNames name val (in_order signals) (h.0, in_order-AllNames signals h.1)

length-insert_signal :
    (name : List ℕ) (val : List Bit) (signals : Signals)
    → length (insert_signal name val signals) ≡ suc (length signals)
unfolding insert_signal
length-insert_signal name val [] = refl
length-insert_signal name val ((n, v) ∷ signals) =
    either_branch (λ (s : Signals). length s ≡ suc (suc (length signals))) (text_less n name)
      (ap suc (length-insert_signal name val signals)) refl

pub length-in_order : (signals : Signals) → length (in_order signals) ≡ length signals
unfolding in_order
length-in_order [] = refl
length-in_order ((name, val) ∷ signals) =
    length-insert_signal name val (in_order signals) ∙ ap suc (length-in_order signals)

text_less_self : (a : List ℕ) → text_less a a ≡ false
unfolding text_less
text_less_self [] = refl
text_less_self (x ∷ a) = ground (arith, text_less_self a)

-- A name in front of another differs from it.
other_of_less : (a b : List ℕ) → text_less a b ≡ true → same_text b a ≡ false
other_of_less a b h = elim (Bool-cases (same_text b a)) [
  | inl same ↦ absurd (
      ground
        (arith, text_less_self a, subst (λ c. text_less a c ≡ true) (eq_of_same_text b a same) h))
  | inr other ↦ other
]

lookup-insert_signal :
    (key name : List ℕ) (val : List Bit) (signals : Signals)
    → lookup [] key (insert_signal name val signals)
      ≡ (if same_text name key then val else lookup [] key signals)
unfolding lookup insert_signal
lookup-insert_signal key name val [] = refl
lookup-insert_signal key name val ((n, v) ∷ signals) = elim (Bool-cases (text_less n name)) [
  | inl less ↦
      let apart : same_text n key ≡ true → same_text name key ≡ false = λ same.
        subst (λ k. same_text name k ≡ false) (eq_of_same_text n key same)
          (other_of_less n name less) in
      rw less (ground (arith, lookup-insert_signal key name val signals, apart))
  | inr not_less ↦ rw not_less refl
]

-- The order does not matter to a look at one name.
pub lookup-in_order :
    (key : List ℕ) (signals : Signals) → lookup [] key (in_order signals) ≡ lookup [] key signals
unfolding lookup in_order
lookup-in_order key [] = refl
lookup-in_order key ((name, val) ∷ signals) =
    lookup-insert_signal key name val (in_order signals)
    ∙ ap (λ other. if same_text name key then val else other) (lookup-in_order key signals)
