-- ===== src/Server/Pci/Rounds.antt =====
-- The order in which `arbitrate_` of server/PciProtocol.cc serves the requests.
use simbus.Base.{
  ℕ, zero, suc, ◌+◌, ◌-◌, ◌%◌, ◌<◌, ◌≡◌, inl, inr, refl, arith, true, false, some, List, [], ◌∷◌,
  length, subst, ◌∙◌, ap, ◌≢◌, Bool-cases,
}
use simbus.Wire.{Bit, bit_0, bit_1, bit_x, bit_z}
use simbus.Server.Pci.Arbiter.{requests, count_requests, next_request}

-- `d` rounds after `n` comes the first number that requests.
abbrev pub First : List Bit → ℕ → ℕ → Type 0
First req_n n d =
    (requests req_n ((n + suc d) % 16) ≡ true)
    × ((e : ℕ) → e < d → requests req_n ((n + suc e) % 16) ≡ false)

-- One more round before those from the next number on.
First-suc :
    (req_n : List Bit) (n d : ℕ)
    → requests req_n ((n + 1) % 16) ≡ false
    → First req_n ((n + 1) % 16) d
    → First req_n n (suc d)
First-suc req_n n d free (yes_d, none_e) =
    (subst (λ i. requests req_n i ≡ true) (around d) yes_d, λ e. earlier e)
  where
    around : (e : ℕ) → ((n + 1) % 16 + suc e) % 16 ≡ (n + suc (suc e)) % 16
    around e = omega arith

    earlier : (e : ℕ) → e < suc d → requests req_n ((n + suc e) % 16) ≡ false
    earlier zero h = free
    earlier (suc e) h = subst (λ i. requests req_n i ≡ false) (around e) (none_e e (omega arith))

next_request_lem :
    (fuel : ℕ) (req_n : List Bit) (n k : ℕ)
    → k < fuel
    → requests req_n ((n + suc k) % 16) ≡ true
    → (d : ℕ) × (d < fuel) × (next_request fuel req_n n ≡ some ((n + suc d) % 16)) × First req_n n d
unfolding next_request
next_request_lem zero req_n n k h r = absurd (omega arith)
next_request_lem (suc fuel) req_n n zero h r =
    (0, omega arith, rw r, (r, λ e lt. absurd (omega arith)))
next_request_lem (suc fuel) req_n n (suc k) h r =
    elim (Bool-cases (requests req_n ((n + 1) % 16))) [
      | inl found ↦ (0, omega arith, rw found, (found, λ e lt. absurd (omega arith)))
      | inr free ↦
          let same : (n + suc (suc k)) % 16 ≡ ((n + 1) % 16 + suc k) % 16 = omega arith in
          let (d, d_lt, e, first) =
            next_request_lem fuel req_n ((n + 1) % 16) k (omega arith)
              (subst (λ i. requests req_n i ≡ true) same r) in
          let around : ((n + 1) % 16 + suc d) % 16 ≡ (n + suc (suc d)) % 16 = omega arith in
          (suc d, omega arith, rw free (e ∙ ap some around), First-suc req_n n d free first)
    ]

requests_of_count :
    (req_n : List Bit)
    → count_requests req_n ≢ 0
    → (i : ℕ) × (i < length req_n) × (requests req_n i ≡ true)
unfolding count_requests requests
requests_of_count [] h = absurd (h refl)
requests_of_count (bit_0 ∷ req_n) h = (0, omega arith, refl)
requests_of_count (bit_1 ∷ req_n) h =
    let (i, lt, e) = requests_of_count req_n (λ z. h (omega arith)) in (suc i, omega arith, e)
requests_of_count (bit_x ∷ req_n) h =
    let (i, lt, e) = requests_of_count req_n (λ z. h (omega arith)) in (suc i, omega arith, e)
requests_of_count (bit_z ∷ req_n) h =
    let (i, lt, e) = requests_of_count req_n (λ z. h (omega arith)) in (suc i, omega arith, e)

-- Sixteen rounds come to each of the sixteen numbers.
pub next_request-First :
    (req_n : List Bit) (n : ℕ)
    → length req_n ≡ 16
    → count_requests req_n ≢ 0
    → (d : ℕ) × (d < 16) × (next_request 16 req_n n ≡ some ((n + suc d) % 16)) × First req_n n d
next_request-First req_n n sixteen some_request =
    let (i, lt, r) = requests_of_count req_n some_request in
    let k = (i + 31 - n % 16) % 16 in
    let there : i ≡ (n + suc k) % 16 = omega arith in
    next_request_lem 16 req_n n k (omega arith) (subst (λ j. requests req_n j ≡ true) there r)
