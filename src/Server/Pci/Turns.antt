-- ===== src/Server/Pci/Turns.antt =====
-- Who is granted next in `arbitrate_` of server/PciProtocol.cc.
use simbus.Base.{
  ℕ, suc, ◌+◌, ◌%◌, ◌==◌, ◌≡◌, ◌≢◌, inl, inr, refl, sym, ap, subst, ◌∙◌, arith, true, false, Option,
  none, some, Returns, Returns-map, Bool-cases,
}
use simbus.Server.{Device}
use simbus.Server.Pci.{PciBus}
use simbus.Server.Pci.Arbiter.{
  dev_at, find_ident, requests, count_requests, move_grant, grant_device, grant_number,
  grant_request, grant_after, keep_grant, new_request, arbitrate, lrand,
}
use simbus.Server.Pci.Places.{find_ident-dev_at, same_device}
use simbus.Server.Pci.Asked.{Asked}
use simbus.Server.Pci.Rounds.{First, next_request-First}

contradiction : true ≡ false → ⊥
contradiction h = cc

none-ne-some : (g : ℕ) → none ≡ some g → ⊥
none-ne-some g h = cc

same_place : (g o : ℕ) → some g ≡ some o → g ≡ o
same_place g o h = cc

-- The device at the place `g` requests, and is granted.
pub record Wins (g : ℕ) (p q : PciBus) : Type 0 where
  pub dev : Device
  pub at : dev_at g p.devices ≡ some dev
  pub asks : requests p.req_n dev.ident ≡ true
  pub grants : q.granted ≡ some g

-- Between two states: a device that requests is granted. If another one was granted before that
-- does not request, the new one has the first number after its that requests.
pub record Serves (p q : PciBus) : Type 0 where
  pub g : ℕ
  pub wins : Wins g p q
  pub keeps :
      (o : ℕ) (old : Device)
      → p.granted ≡ some o
      → dev_at o p.devices ≡ some old
      → requests p.req_n old.ident ≡ true
      → g ≡ o
  pub turn :
      (o : ℕ) (old : Device)
      → p.granted ≡ some o
      → dev_at o p.devices ≡ some old
      → requests p.req_n old.ident ≡ false
      → (d : ℕ) × First p.req_n old.ident d × (wins.dev.ident ≡ (old.ident + suc d) % 16)

abbrev WinsFor : ℕ → PciBus → Unit {0} → PciBus → Type 0
WinsFor n p u q = (g : ℕ) × (w : Wins g p q) × (w.dev.ident ≡ n)

move_grant-granted :
    (g : ℕ) (granted : Option ℕ) (p : PciBus)
    → Returns (λ u q. q.granted ≡ some g) (move_grant g granted p)
unfolding move_grant
move_grant-granted g none p = refl
move_grant-granted g (some o) p = refl

grant_device-WinsFor :
    (n g : ℕ) (p : PciBus)
    → find_ident n p.devices ≡ some g
    → requests p.req_n n ≡ true
    → Returns (WinsFor n p) (grant_device (find_ident n p.devices) p)
unfolding grant_device
grant_device-WinsFor n g p e r =
    let (dev, at, is) = find_ident-dev_at n g p.devices e in
    rw e (
      Returns-map (λ u q. q.granted ≡ some g) (WinsFor n p) (move_grant g p.granted p)
        (move_grant-granted g p.granted p)
        (λ u q granted. (
          g,
          record {
            dev = dev;
            at = at;
            asks = subst (λ i. requests p.req_n i ≡ true) (sym is) r;
            grants = granted;
          },
          is,
        )))

-- The number that is granted already does not request.
grant_number-WinsFor :
    (old_grant : Option ℕ) (n g : ℕ) (p : PciBus)
    → ((k : ℕ) → old_grant ≡ some k → requests p.req_n k ≡ false)
    → find_ident n p.devices ≡ some g
    → requests p.req_n n ≡ true
    → Returns (WinsFor n p) (grant_number old_grant n p)
unfolding grant_number
grant_number-WinsFor none n g p free e r = grant_device-WinsFor n g p e r
grant_number-WinsFor (some k) n g p free e r = elim (Bool-cases (n == k)) [
  | inl same ↦
      let equal : n ≡ k = ground arith in
      let asks : requests p.req_n k ≡ true = subst (λ i. requests p.req_n i ≡ true) equal r in
      absurd (contradiction (sym asks ∙ free k refl))
  | inr other ↦ rw other (grant_device-WinsFor n g p e r)
]

grant_after-WinsFor :
    (start : ℕ) (old_grant : Option ℕ) (p : PciBus)
    → ((k : ℕ) → old_grant ≡ some k → requests p.req_n k ≡ false)
    → Asked p
    → count_requests p.req_n ≢ 0
    → (d : ℕ) × First p.req_n start d
      × Returns (WinsFor ((start + suc d) % 16) p) (grant_after start old_grant p)
unfolding grant_after grant_request
grant_after-WinsFor start old_grant p free asked some_request =
    let (d, lt, e, first) = next_request-First p.req_n start asked.sixteen some_request in
    let (g, from) = asked.from ((start + suc d) % 16) first.0 in
    (d, first, rw e (grant_number-WinsFor old_grant ((start + suc d) % 16) g p free from first.0))

keep_grant-Serves :
    (g : ℕ) (dev : Device) (p : PciBus)
    → p.granted ≡ some g
    → dev_at g p.devices ≡ some dev
    → Asked p
    → count_requests p.req_n ≢ 0
    → Returns (λ u q. Serves p q) (keep_grant (some dev) p)
unfolding keep_grant
keep_grant-Serves g dev p e at asked some_request = elim (Bool-cases (requests p.req_n dev.ident)) [
  | inl asks ↦ rw asks (record {
    g = g;
    wins = record { dev = dev; at = at; asks = asks; grants = e };
    keeps = λ o old e' at' r. same_place g o (sym e ∙ e');
    turn = λ o old e' at' r.
        let same = same_device dev old g o p.devices (same_place g o (sym e ∙ e')) at at' in
        absurd (contradiction (sym asks ∙ ap (λ (d : Device). requests p.req_n d.ident) same ∙ r));
  })
  | inr free ↦
      let (d, first, returns) =
        grant_after-WinsFor dev.ident (some dev.ident) p
          (λ k same. subst (λ i. requests p.req_n i ≡ false) (cc same) free) asked some_request in
      rw free (
        Returns-map (WinsFor ((dev.ident + suc d) % 16) p) (λ u q. Serves p q)
          (grant_after dev.ident (some dev.ident) p) returns
          (λ u q (g', wins, is). record {
            g = g';
            wins = wins;
            keeps = λ o old e' at' r.
                let same = same_device dev old g o p.devices (same_place g o (sym e ∙ e')) at at' in
                absurd (
                  contradiction
                    (sym r ∙ ap (λ (x : Device). requests p.req_n x.ident) (sym same) ∙ free));
            turn = λ o old e' at' r.
                subst
                  (λ (x : Device).
                    (d : ℕ) × First p.req_n x.ident d × (wins.dev.ident ≡ (x.ident + suc d) % 16))
                  (same_device dev old g o p.devices (same_place g o (sym e ∙ e')) at at')
                  (d, first, is);
          }))
]

new_request-Serves :
    (granted : Option ℕ) (p : PciBus)
    → p.granted ≡ granted
    → ((g : ℕ) → granted ≡ some g → (dev : Device) × (dev_at g p.devices ≡ some dev))
    → Asked p
    → count_requests p.req_n ≢ 0
    → Returns (λ u q. Serves p q) (new_request granted p)
unfolding new_request lrand
new_request-Serves none p e there asked some_request =
    let start = p.numbers 0 % 16 in
    let drawn = record p { numbers = λ n. p.numbers (suc n) } in
    let (d, first, returns) =
      grant_after-WinsFor start none drawn (λ k h. absurd (none-ne-some k h))
        (record { sixteen = asked.sixteen; from = asked.from }) some_request in
    Returns-map (WinsFor ((start + suc d) % 16) drawn) (λ u q. Serves p q)
      (grant_after start none drawn) returns
      (λ u q (g, wins, is). record {
        g = g;
        wins = record { dev = wins.dev; at = wins.at; asks = wins.asks; grants = wins.grants };
        keeps = λ o old e' at' r. absurd (none-ne-some o (sym e ∙ e'));
        turn = λ o old e' at' r. absurd (none-ne-some o (sym e ∙ e'));
      })
new_request-Serves (some g) p e there asked some_request =
    let (dev, at) = there g refl in rw at (keep_grant-Serves g dev p e at asked some_request)

-- In phase 1, with at least one of the sixteen requests low, each from a device, and a device where
-- the grant points to, the arbitration returns, and a device that requests is granted. The device
-- that was granted before keeps the grant if it requests. If it does not, the grant goes to the
-- device with the first number after its, going round the sixteen, that requests.
pub arbitrate-Serves :
    (p : PciBus)
    → p.phase ≡ 1
    → ((g : ℕ) → p.granted ≡ some g → (dev : Device) × (dev_at g p.devices ≡ some dev))
    → Asked p
    → count_requests p.req_n ≢ 0
    → Returns (λ u q. Serves p q) (arbitrate p)
unfolding arbitrate
arbitrate-Serves p phase there asked some_request =
    let at_one : (p.phase == 1) ≡ true = ground arith in
    let requested : (count_requests p.req_n == 0) ≡ false = ground arith in
    rw (at_one, requested) (new_request-Serves p.granted p refl there asked some_request)
