-- ===== src/Server/Pci/Arbiter.antt =====
-- The requests and the grant of server/PciProtocol.cc.
use simbus.Base.{
  ℕ, zero, suc, ◌+◌, ◌%◌, ltb, ◌==◌, if◌then◌else◌, Bool, true, Option, none, some, opt_then, List,
  [], ◌∷◌, get_or, set, replicate, ok, fault, out_of_fuel, Cmd, and_then, ◌>>=◌,
}
use simbus.Wire.{Bit, bit_0, bit_1, bit_z, is_bit}
use simbus.Session.Text.{codes}
use simbus.Server.{lookup, assign, Device, receive, poke}
use simbus.Server.Pci.{ParkMode, gnt_park_none, gnt_park_last, PciBus}

-- The device that a pointer refers to.
unfoldable pub dev_at : ℕ → List Device → Option Device
dev_at i [] = none
dev_at zero (dev ∷ devices) = some dev
dev_at (suc i) (dev ∷ devices) = dev_at i devices

-- A change of that device.
unfoldable pub modify_at : ℕ → (Device → Device) → List Device → List Device
modify_at i f [] = []
modify_at zero f (dev ∷ devices) = f dev ∷ devices
modify_at (suc i) f (dev ∷ devices) = dev ∷ modify_at i f devices

-- The REQ# of a device in req_n_; `none` is a store outside of its 16 bits.
unfoldable pub store_req : List Bit → Device → List Bit → Option (List Bit)
store_req [] dev req_n = some req_n
store_req (b ∷ _) dev req_n =
    if is_bit b bit_z
    then some req_n
    else if ltb dev.ident 16
    then some (set req_n dev.ident b)
    else none

-- req_n_ with the REQ# of the devices.
unfoldable pub collect_req : List Device → List Bit → Option (List Bit)
unfolding store_req lookup
collect_req [] req_n = some req_n
collect_req (dev ∷ devices) req_n =
    opt_then (store_req (receive (codes "REQ#") dev) dev req_n) (collect_req devices)

-- The first bit of a client signal of the device, which must have one.
unfoldable pub first_bit : List ℕ → ℕ → Cmd PciBus Bit
unfolding dev_at lookup
first_bit name i p = elim (dev_at i p.devices) [
  | none ↦ fault
  | some dev ↦ elim (receive name dev) [ [] ↦ fault | b ∷ _ ↦ ok b p ]
]

-- The device drives FRAME# or IRDY# low.
unfoldable pub holds_bus : ℕ → Cmd PciBus Bool
unfolding first_bit
holds_bus m = first_bit (codes "FRAME#") m >>= λ frame.
    if is_bit frame bit_0
    then ok true
    else first_bit (codes "IRDY#") m >>= λ irdy. ok (is_bit irdy bit_0)

unfoldable pub set_master : Option ℕ → Cmd PciBus (Unit {0})
set_master master p = ok tt (record p { master = master })

-- The handover of the bus at the end of `track_req_n_`, for `master_` and `granted_`.
unfoldable pub hand_over : Option ℕ → Option ℕ → Cmd PciBus (Unit {0})
unfolding first_bit holds_bus set_master
hand_over none none = ok tt
hand_over none (some g) = first_bit (codes "FRAME#") g >>= λ frame.
    if is_bit frame bit_0 then set_master (some g) else ok tt
hand_over (some m) (some g) =
    if m == g then ok tt else holds_bus m >>= λ holds. if holds then ok tt else set_master (some g)
hand_over (some m) none = holds_bus m >>= λ holds. if holds then ok tt else set_master none

-- `track_req_n_`
unfoldable pub track_req_n : Cmd PciBus (Unit {0})
unfolding collect_req hand_over
track_req_n p =
    if p.phase == 0
    then elim (collect_req p.devices (replicate 16 bit_1)) [
      | none ↦ fault
      | some req_n ↦ hand_over p.master p.granted (record p { req_n = req_n })
    ]
    else ok tt p

-- req_n_[i] == BIT_0
unfoldable pub requests : List Bit → ℕ → Bool
requests req_n i = is_bit (get_or req_n i bit_1) bit_0

unfoldable pub count_requests : List Bit → ℕ
count_requests [] = 0
count_requests (b ∷ req_n) = (if is_bit b bit_0 then 1 else 0) + count_requests req_n

-- The loop for `new_grant`, from its value on. The fuel bounds its rounds.
unfoldable pub next_request : ℕ → List Bit → ℕ → Option ℕ
unfolding requests
next_request zero req_n n = none
next_request (suc fuel) req_n n =
    let rest = next_request fuel req_n ((n + 1) % 16) in
    if requests req_n ((n + 1) % 16) then some ((n + 1) % 16) else rest

-- The first device with the number.
unfoldable pub find_ident : ℕ → List Device → Option ℕ
find_ident n [] = none
find_ident n (dev ∷ devices) =
    let rest : Option ℕ = elim (find_ident n devices) [ none ↦ none | some i ↦ some (suc i) ] in
    if dev.ident == n then some 0 else rest

unfoldable pub lrand : Cmd PciBus ℕ
lrand p = ok (p.numbers 0) (record p { numbers = λ n. p.numbers (suc n) })

-- dev->send_signals["GNT#"][0] = bit
unfoldable pub set_gnt : ℕ → Bit → List Device → List Device
unfolding modify_at assign lookup
set_gnt i bit devices = modify_at i (poke (codes "GNT#") 0 bit) devices

-- The grant is taken back if the number `u` leaves no remainder.
unfoldable pub recall_if : ℕ → ℕ → ℕ → Cmd PciBus (Unit {0})
unfolding set_gnt
recall_if zero u g p = fault
recall_if (suc linger) u g p =
    if u % suc linger == 0
    then ok tt (record p { granted = none; devices = set_gnt g bit_1 p.devices })
    else ok tt p

-- Nobody requests, and a master holds the bus.
unfoldable pub recall : ParkMode → ℕ → Cmd PciBus (Unit {0})
unfolding lrand recall_if
recall gnt_park_last g p = ok tt p
recall gnt_park_none g p = and_then (lrand p) (λ u q. recall_if q.gnt_linger u g q)

-- The GNT# of the new device is set, and that of the old one is cleared.
unfoldable pub move_grant : ℕ → Option ℕ → Cmd PciBus (Unit {0})
unfolding set_gnt
move_grant new none p =
    ok tt (record p { granted = some new; devices = set_gnt new bit_0 p.devices })
move_grant new (some old) p =
    ok tt
      (record p { granted = some new; devices = set_gnt old bit_1 (set_gnt new bit_0 p.devices) })

-- `new_dev`, which the assertion wants.
unfoldable pub grant_device : Option ℕ → Cmd PciBus (Unit {0})
unfolding move_grant
grant_device none p = fault
grant_device (some new) p = move_grant new p.granted p

-- The grant goes to the first device of the number, if that was not granted already.
unfoldable pub grant_number : Option ℕ → ℕ → Cmd PciBus (Unit {0})
unfolding find_ident grant_device
grant_number none n p = grant_device (find_ident n p.devices) p
grant_number (some old) n p = if n == old then ok tt p else grant_device (find_ident n p.devices) p

unfoldable pub grant_request : Option ℕ → Option ℕ → Cmd PciBus (Unit {0})
unfolding grant_number
grant_request old_grant none p = out_of_fuel
grant_request old_grant (some n) p = grant_number old_grant n p

-- The loop for `new_grant`, which comes after `start`, and what follows it.
unfoldable pub grant_after : ℕ → Option ℕ → Cmd PciBus (Unit {0})
unfolding next_request grant_request
grant_after start old_grant p = grant_request old_grant (next_request 16 p.req_n start) p

unfoldable pub no_request : Option ℕ → Option ℕ → Cmd PciBus (Unit {0})
unfolding recall
no_request (some m) (some g) p = recall p.park_mode g p
no_request (some m) none p = ok tt p
no_request none granted p = ok tt p

-- The device that is granted keeps the bus as long as it requests.
unfoldable pub keep_grant : Option Device → Cmd PciBus (Unit {0})
unfolding requests grant_after
keep_grant none p = fault
keep_grant (some dev) p =
    if requests p.req_n dev.ident then ok tt p else grant_after dev.ident (some dev.ident) p

unfoldable pub new_request : Option ℕ → Cmd PciBus (Unit {0})
unfolding dev_at keep_grant grant_after lrand
new_request none p = and_then (lrand p) (λ u. grant_after (u % 16) none)
new_request (some g) p = keep_grant (dev_at g p.devices) p

-- `arbitrate_`
unfoldable pub arbitrate : Cmd PciBus (Unit {0})
unfolding count_requests no_request new_request
arbitrate p =
    if p.phase == 1
    then if count_requests p.req_n == 0
      then no_request p.master p.granted p
      else new_request p.granted p
    else ok tt p
