-- ===== src/Server.antt =====
-- server/priv.h, server/protocol.cc and server/simtime.h: the devices of a bus as its protocol
-- sees them, and the time of the bus. The bits are the server's own `bit_state_t`, which has the
-- four values of the client's.
pub mod Clock
pub mod Point
pub mod Axi4
pub mod Pcie
pub mod Pci
pub mod Client
pub mod Protocol
mod Names
mod Period
mod Forward
mod Sizes
mod Widths
mod Channels
mod Arrivals
mod Tests
use simbus.Base.{
  ℕ, zero, suc, ◌+◌, ◌-◌, ◌*◌, ◌%◌, ◌^◌, if◌then◌else◌, ltb, length, Bool, Option, none, some, List,
  [], ◌∷◌, set, same_text, ℤ, pos, negsuc,
}
use simbus.Wire.{Bit}
use simbus.Wire.Time.{Time}

-- A std::map whose keys are texts.
abbrev pub Map : Type 0 → Type 0
Map A = List (List ℕ × A)

-- m[key], where a missing key has the value `d` that the map makes for it.
unfoldable pub lookup : {A : Type 0} → A → List ℕ → Map A → A
lookup d key [] = d
lookup d key ((k, v) ∷ m) = if same_text k key then v else lookup d key m

-- m[key] = value
unfoldable pub assign : {A : Type 0} → List ℕ → A → Map A → Map A
assign key value [] = (key, value) ∷ []
assign key value ((k, v) ∷ m) =
    if same_text k key then (k, value) ∷ m else (k, v) ∷ assign key value m

-- `signal_state_map_t`
abbrev pub Signals : Type 0
Signals = Map (List Bit)

-- `struct bus_device_plug`; `outgoing` is what was written to the connection `fd`, the last first.
pub record Device : Type 0 where
  pub name : List ℕ
  pub host_flag : Bool
  pub ident : ℕ
  pub ready_flag : Bool
  pub exited_flag : Bool
  pub ready_time : Time
  pub outgoing : List (List ℕ)
  pub client_signals : Signals
  pub send_signals : Signals

-- dev.client_signals[name]
abbrev pub receive : List ℕ → Device → List Bit
receive name dev = lookup [] name dev.client_signals

-- dev.send_signals[name] = value
abbrev pub send : List ℕ → List Bit → Device → Device
send name value dev = record dev { send_signals = assign name value dev.send_signals }

-- dev.client_signals[name] = value
abbrev pub drive : List ℕ → List Bit → Device → Device
drive name value dev = record dev { client_signals = assign name value dev.client_signals }

-- dev.send_signals[name]
abbrev pub sent : List ℕ → Device → List Bit
sent name dev = lookup [] name dev.send_signals

-- dev.send_signals[name][idx] = bit
abbrev pub poke : List ℕ → ℕ → Bit → Device → Device
poke name idx bit dev = send name (set (sent name dev) idx bit) dev

-- The assertion of `set_trace_` on a vector, which must fit its buffer.
unfoldable pub is_traceable : List Bit → Bool
is_traceable bits = ltb (length bits) 1025

-- The assignments of a `run_init`.
unfoldable pub send_all : Signals → Device → Device
unfolding assign
send_all [] dev = dev
send_all ((name, value) ∷ signals) dev = send_all signals (send name value dev)

-- The host and the other end of a bus of two devices; `none` is the failed assertion of
-- `PointToPoint::run_init` and `AXI4Protocol::run_init`.
unfoldable pub ends : Device → Device → Option (Device × Device)
ends dev0 dev1 =
    if dev0.host_flag
    then if dev1.host_flag then none else some (dev0, dev1)
    else if dev1.host_flag
    then some (dev1, dev0)
    else none

-- The number of steps of a loop that takes `a` down to `b`, one at a time.
unfoldable pub steps_down : ℤ → ℤ → ℕ
steps_down (pos a) (pos b) = a - b
steps_down (pos a) (negsuc b) = a + suc b
steps_down (negsuc a) (pos b) = 0
steps_down (negsuc a) (negsuc b) = b - a

-- `n` times mant *= 10
unfoldable pub scale : ℕ → ℕ → ℕ
scale zero mant = mant
scale (suc n) mant = scale n (mant * 10 % 2 ^ 64)

-- The exponent after `n` times exp -= 1.
unfoldable pub lower : ℕ → ℤ → ℤ
lower zero e = e
lower (suc n) (pos zero) = lower n (negsuc 0)
lower (suc n) (pos (suc e)) = lower n (pos e)
lower (suc n) (negsuc e) = lower n (negsuc (suc e))

-- `simtime_t::operator +=`
unfoldable pub add_time : Time → Time → Time
unfolding steps_down scale lower
add_time time that =
    let down = steps_down time.exp that.exp in
    let up = steps_down that.exp time.exp in
    record {
      mant = (scale down time.mant + scale up that.mant) % 2 ^ 64;
      exp = lower down time.exp;
    }
