-- ===== src/Server/Pci/Grants.antt =====
-- The grants that `arbitrate_` of server/PciProtocol.cc sends.
use simbus.Base.{
  ℕ, zero, suc, ◌%◌, ◌==◌, ◌≡◌, ◌≢◌, inl, inr, refl, sym, ap, subst, ◌∙◌, arith, false,
  if◌then◌else◌, Option, none, some, List, [], ◌∷◌, Run, ok, fault, Returns, After, After-ok,
  After-fault, After-if, out_of_fuel, Bool-cases,
}
use simbus.Wire.{bit_0, bit_1}
use simbus.Session.Text.{codes}
use simbus.Server.{Device, poke}
use simbus.Server.Pci.{ParkMode, gnt_park_none, gnt_park_last, PciBus}
use simbus.Server.Pci.Arbiter.{
  dev_at, set_gnt, find_ident, requests, count_requests, next_request, move_grant, grant_device,
  grant_number, grant_request, grant_after, recall_if, recall, keep_grant, no_request, new_request,
  arbitrate, lrand,
}
use simbus.Server.Pci.Places.{
  gnt_of, GrantsOne, set_gnt-sent, modify_at-there, find_ident-dev_at, same_device,
}

abbrev pub KeepsOne : Unit {0} → PciBus → Type 0
KeepsOne u q = GrantsOne q.granted q.devices

-- The grant goes from nobody to a device that is there.
grant_first :
    (new : ℕ) (dev : Device) (devices : List Device)
    → dev_at new devices ≡ some dev
    → GrantsOne none devices
    → GrantsOne (some new) (set_gnt new bit_0 devices)
unfolding set_gnt
grant_first new dev devices e h = record {
  there = λ g same.
      subst (λ i. (d : Device) × (dev_at i (set_gnt new bit_0 devices) ≡ some d)) (ground arith)
        (modify_at-there (poke (codes "GNT#") 0 bit_0) new new devices e);
  only = λ i. set_gnt-sent new i bit_0 (gnt_of none) devices h.only;
}

-- The grant goes from one device to another.
grant_next :
    (new old : ℕ) (dev : Device) (devices : List Device)
    → dev_at new devices ≡ some dev
    → old ≢ new
    → GrantsOne (some old) devices
    → GrantsOne (some new) (set_gnt old bit_1 (set_gnt new bit_0 devices))
unfolding set_gnt
grant_next new old dev devices e differ h =
    let (dev', e') = modify_at-there (poke (codes "GNT#") 0 bit_0) new new devices e in
    record {
      there = λ g same.
          subst
            (λ i.
              (d : Device) × (dev_at i (set_gnt old bit_1 (set_gnt new bit_0 devices)) ≡ some d))
            (ground arith)
            (modify_at-there (poke (codes "GNT#") 0 bit_1) old new (set_gnt new bit_0 devices) e');
      only = λ i d at.
          set_gnt-sent old i bit_1 (λ k. if new == k then bit_0 else gnt_of (some old) k)
            (set_gnt new bit_0 devices)
            (λ k. set_gnt-sent new k bit_0 (gnt_of (some old)) devices h.only) d at
          ∙ ap (λ b. b ∷ []) (ground arith);
    }

-- The grant goes from a device to nobody.
grant_none :
    (old : ℕ) (devices : List Device)
    → GrantsOne (some old) devices
    → GrantsOne none (set_gnt old bit_1 devices)
grant_none old devices h = record {
  there = λ g e. absurd (ground arith);
  only = λ i d at.
      set_gnt-sent old i bit_1 (gnt_of (some old)) devices h.only d at
      ∙ ap (λ b. b ∷ []) (ground arith);
}

move_grant-GrantsOne :
    (n new : ℕ) (granted : Option ℕ) (p : PciBus)
    → find_ident n p.devices ≡ some new
    → ((o : ℕ) (old : Device) → granted ≡ some o → dev_at o p.devices ≡ some old → old.ident ≢ n)
    → GrantsOne granted p.devices
    → Returns KeepsOne (move_grant new granted p)
unfolding move_grant
move_grant-GrantsOne n new none p e differ h =
    let (dev, at, is) = find_ident-dev_at n new p.devices e in grant_first new dev p.devices at h
move_grant-GrantsOne n new (some o) p e differ h =
    let (dev, at, is) = find_ident-dev_at n new p.devices e in
    let (old, at_old) = h.there o refl in
    grant_next new o dev p.devices at
      (λ same.
        differ o old refl at_old
          (ap (λ d. d.ident) (same_device old dev o new p.devices same at_old at) ∙ is))
      h

Returns-After : {S A : Type 0} (P : A → S → Type 0) (r : Run S A) → Returns P r → After P r
Returns-After P (ok a s) h = After-ok P a s h
Returns-After P fault h = absurd h
Returns-After P out_of_fuel h = absurd h

differs : (k n i : ℕ) → (n == k) ≡ false → some k ≡ some i → i ≢ n
differs k n i other e is = ground arith

grant_device-GrantsOne :
    (n : ℕ) (p : PciBus) (found : Option ℕ)
    → find_ident n p.devices ≡ found
    → ((o : ℕ) (old : Device) → p.granted ≡ some o → dev_at o p.devices ≡ some old → old.ident ≢ n)
    → GrantsOne p.granted p.devices
    → After KeepsOne (grant_device found p)
unfolding grant_device
grant_device-GrantsOne n p none e differ h = After-fault KeepsOne
grant_device-GrantsOne n p (some new) e differ h =
    Returns-After KeepsOne (move_grant new p.granted p)
      (move_grant-GrantsOne n new p.granted p e differ h)

-- `old_grant` is the number of the device that is granted.
abbrev Names : Option ℕ → PciBus → Type 0
Names old_grant p =
    (o : ℕ) (old : Device)
    → p.granted ≡ some o
    → dev_at o p.devices ≡ some old
    → old_grant ≡ some old.ident

grant_number-GrantsOne :
    (old_grant : Option ℕ) (n : ℕ) (p : PciBus)
    → Names old_grant p
    → GrantsOne p.granted p.devices
    → After KeepsOne (grant_number old_grant n p)
unfolding grant_number
grant_number-GrantsOne none n p known h =
    grant_device-GrantsOne n p (find_ident n p.devices) refl (λ o old e at. cc (known o old e at)) h
grant_number-GrantsOne (some k) n p known h = elim (Bool-cases (n == k)) [
  | inl same ↦ rw same (After-ok KeepsOne tt p h)
  | inr other ↦ rw other (
      grant_device-GrantsOne n p (find_ident n p.devices) refl
        (λ o old e at. differs k n old.ident other (known o old e at)) h)
]

grant_request-GrantsOne :
    (old_grant found : Option ℕ) (p : PciBus)
    → Names old_grant p
    → GrantsOne p.granted p.devices
    → After KeepsOne (grant_request old_grant found p)
unfolding grant_request
grant_request-GrantsOne old_grant none p known h = record { holds = tt }
grant_request-GrantsOne old_grant (some n) p known h = grant_number-GrantsOne old_grant n p known h

recall_if-GrantsOne :
    (linger u g : ℕ) (p : PciBus)
    → GrantsOne (some g) p.devices
    → GrantsOne p.granted p.devices
    → After KeepsOne (recall_if linger u g p)
unfolding recall_if
recall_if-GrantsOne zero u g p h k = After-fault KeepsOne
recall_if-GrantsOne (suc linger) u g p h k =
    After-if KeepsOne (u % suc linger == 0) _ _
      (After-ok KeepsOne tt (record p { granted = none; devices = set_gnt g bit_1 p.devices })
        (grant_none g p.devices h))
      (After-ok KeepsOne tt p k)

recall-GrantsOne :
    (mode : ParkMode) (g : ℕ) (p : PciBus)
    → GrantsOne (some g) p.devices
    → GrantsOne p.granted p.devices
    → After KeepsOne (recall mode g p)
unfolding recall lrand
recall-GrantsOne gnt_park_last g p h k = After-ok KeepsOne tt p k
recall-GrantsOne gnt_park_none g p h k =
    recall_if-GrantsOne p.gnt_linger (p.numbers 0) g (record p { numbers = λ n. p.numbers (suc n) })
      h k

no_request-GrantsOne :
    (master granted : Option ℕ) (p : PciBus)
    → GrantsOne granted p.devices
    → GrantsOne p.granted p.devices
    → After KeepsOne (no_request master granted p)
unfolding no_request
no_request-GrantsOne none granted p h k = After-ok KeepsOne tt p k
no_request-GrantsOne (some m) none p h k = After-ok KeepsOne tt p k
no_request-GrantsOne (some m) (some g) p h k = recall-GrantsOne p.park_mode g p h k

keep_grant-GrantsOne :
    (g : ℕ) (granted : Option Device) (p : PciBus)
    → p.granted ≡ some g
    → dev_at g p.devices ≡ granted
    → GrantsOne p.granted p.devices
    → After KeepsOne (keep_grant granted p)
unfolding keep_grant grant_after
keep_grant-GrantsOne g none p e at h = After-fault KeepsOne
keep_grant-GrantsOne g (some dev) p e at h =
    After-if KeepsOne (requests p.req_n dev.ident) _ _ (After-ok KeepsOne tt p h) (
      grant_request-GrantsOne (some dev.ident) (next_request 16 p.req_n dev.ident) p
        (λ o old e' at'.
          let same : some g ≡ some o = sym e ∙ e' in
          ap (λ d. some d.ident) (same_device dev old g o p.devices (cc same) at at'))
        h)

new_request-GrantsOne :
    (granted : Option ℕ) (p : PciBus)
    → p.granted ≡ granted
    → GrantsOne p.granted p.devices
    → After KeepsOne (new_request granted p)
unfolding new_request grant_after lrand
new_request-GrantsOne none p e h =
    let q = record p { numbers = λ n. p.numbers (suc n) } in
    grant_request-GrantsOne none (next_request 16 p.req_n (p.numbers 0 % 16)) q
      (λ o old e' at. cc (e, e')) h
new_request-GrantsOne (some g) p e h = keep_grant-GrantsOne g (dev_at g p.devices) p e refl h

-- Whatever the requests are, if the arbitration returns, no more than one device is granted: the
-- device that is granted has its GNT# at 0, and every other device has it at 1, as it was before.
pub arbitrate-GrantsOne :
    (p : PciBus) → GrantsOne p.granted p.devices → After KeepsOne (arbitrate p)
unfolding arbitrate
arbitrate-GrantsOne p h =
    After-if KeepsOne (p.phase == 1) _ _
      (After-if KeepsOne (count_requests p.req_n == 0) _ _
        (no_request-GrantsOne p.master p.granted p h h) (new_request-GrantsOne p.granted p refl h))
      (After-ok KeepsOne tt p h)
