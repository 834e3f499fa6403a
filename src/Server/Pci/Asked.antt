-- ===== src/Server/Pci/Asked.antt =====
-- Where the requests that `track_req_n_` of server/PciProtocol.cc samples come from.
use simbus.Base.{
  eq_of_some, ℕ, zero, suc, ◌==◌, ◌≡◌, ◌⊎◌, inl, inr, refl, sym, ap, subst, ◌∙◌, arith, Bool, true,
  false, if◌then◌else◌, none, some, List, [], ◌∷◌, length, length-set, set, replicate, ltb,
  opt_then-some, Bool-cases, get_or-set_ne, ℕ_discrete,
}
use simbus.Wire.{Bit, bit_0, bit_1, bit_z, is_bit}
use simbus.Session.Text.{codes}
use simbus.Server.{Device, receive}
use simbus.Server.Pci.{PciBus}
use simbus.Server.Pci.Arbiter.{dev_at, find_ident, requests, store_req, collect_req}
use simbus.Server.Pci.Blend.{none-eq-some}

contradiction : true ≡ false → ⊥
contradiction h = cc

-- Each of the sixteen requests that is low comes from a device.
pub record Asked (p : PciBus) : Type 0 where
  pub sixteen : length p.req_n ≡ 16
  pub from : (i : ℕ) → requests p.req_n i ≡ true → (g : ℕ) × (find_ident i p.devices ≡ some g)

find_ident_self :
    (j : ℕ) (dev : Device) (devices : List Device)
    → dev_at j devices ≡ some dev
    → (g : ℕ) × (find_ident dev.ident devices ≡ some g)
unfolding find_ident dev_at
find_ident_self j dev [] at = absurd (none-eq-some at)
find_ident_self zero dev (d ∷ devices) at =
    let same : (d.ident == dev.ident) ≡ true = ground (arith, eq_of_some at) in (0, rw same)
find_ident_self (suc j) dev (d ∷ devices) at = elim (Bool-cases (d.ident == dev.ident)) [
  | inl same ↦ (0, rw same)
  | inr other ↦ let (g, e) = find_ident_self j dev devices at in (suc g, rw (other, e))
]

-- What a request may come from once a bit was stored, and how many there are.
record Stored (dev : Device) (req_n req_n' : List Bit) : Type 0 where
  source : (i : ℕ) → requests req_n' i ≡ true → (requests req_n i ≡ true) ⊎ (i ≡ dev.ident)
  count : length req_n' ≡ length req_n

Stored-keep :
    (dev : Device) (req_n req_n' : List Bit) → some req_n ≡ some req_n' → Stored dev req_n req_n'
Stored-keep dev req_n req_n' e =
    subst (Stored dev req_n) (eq_of_some e) (record { source = λ i r. inl r; count = refl })

Stored-set : (dev : Device) (b : Bit) (req_n : List Bit) → Stored dev req_n (set req_n dev.ident b)
unfolding requests
Stored-set dev b req_n = record {
  source = λ i r. elim (ℕ_discrete dev.ident i) [
    | yes same ↦ inr (sym same)
    | no other ↦
        inl (ap (λ x. is_bit x bit_0) (sym (get_or-set_ne req_n dev.ident i b bit_1 other)) ∙ r)
  ];
  count = length-set req_n dev.ident b;
}

stored_if :
    (floats fits : Bool) (b : Bit) (dev : Device) (req_n req_n' : List Bit)
    → (if floats then some req_n else if fits then some (set req_n dev.ident b) else none)
      ≡ some req_n'
    → Stored dev req_n req_n'
stored_if true fits b dev req_n req_n' e = Stored-keep dev req_n req_n' e
stored_if false true b dev req_n req_n' e =
    subst (Stored dev req_n) (eq_of_some e) (Stored-set dev b req_n)
stored_if false false b dev req_n req_n' e = cc

store_req-Stored :
    (bits : List Bit) (dev : Device) (req_n req_n' : List Bit)
    → store_req bits dev req_n ≡ some req_n'
    → Stored dev req_n req_n'
unfolding store_req
store_req-Stored [] dev req_n req_n' e = Stored-keep dev req_n req_n' e
store_req-Stored (b ∷ bits) dev req_n req_n' e =
    stored_if (is_bit b bit_z) (ltb dev.ident 16) b dev req_n req_n' e

-- Every request has a device of its number among `devices`.
Answered : List Device → List Bit → Type 0
Answered devices req_n =
    (i : ℕ) → requests req_n i ≡ true → (g : ℕ) × (find_ident i devices ≡ some g)

collect_req-Asked :
    (devices left : List Device) (req_n req_n' : List Bit)
    → ((j : ℕ) (dev : Device)
        → dev_at j left ≡ some dev
        → (g : ℕ) × (find_ident dev.ident devices ≡ some g))
    → Answered devices req_n
    → collect_req left req_n ≡ some req_n'
    → Answered devices req_n' × (length req_n' ≡ length req_n)
unfolding collect_req dev_at Answered
collect_req-Asked devices [] req_n req_n' known h e =
    subst (λ l. Answered devices l × (length l ≡ length req_n)) (eq_of_some e) (h, refl)
collect_req-Asked devices (dev ∷ left) req_n req_n' known h e =
    let (next, one, more) =
      opt_then-some (store_req (receive (codes "REQ#") dev) dev req_n) (collect_req left) e in
    let stored = store_req-Stored (receive (codes "REQ#") dev) dev req_n next one in
    let (answered, count) =
      collect_req-Asked devices left next req_n' (λ j. known (suc j))
        (λ i r. elim (stored.source i r) [
          | inl before ↦ h i before
          | inr is ↦
              subst (λ k. (g : ℕ) × (find_ident k devices ≡ some g)) (sym is) (known zero dev refl)
        ])
        more in
    (answered, count ∙ stored.count)

none_low : (n i : ℕ) → requests (replicate n bit_1) i ≡ false
unfolding requests
none_low zero i = refl
none_low (suc n) zero = refl
none_low (suc n) (suc i) = none_low n i

-- What is sampled at the rising edge is asked for by devices.
pub sampled-Asked :
    (p : PciBus) (req_n : List Bit)
    → collect_req p.devices (replicate 16 bit_1) ≡ some req_n
    → Asked (record p { req_n = req_n })
unfolding Answered
sampled-Asked p req_n e =
    let (answered, count) =
      collect_req-Asked p.devices p.devices (replicate 16 bit_1) req_n
        (λ j dev at. find_ident_self j dev p.devices at)
        (λ i r. absurd (contradiction (sym r ∙ none_low 16 i))) e in
    record { sixteen = count; from = answered }
