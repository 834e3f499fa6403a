-- ===== src/Server/Protocol/Tells.antt =====
-- What `bus_ready` of server/protocol.cc tells the devices of a bus.
use simbus.Base.{
  arith, ◌+◌, ℕ, ◌^◌, ◌<◌, ◌≡◌, refl, some, List, [], ◌∷◌, length, ok, ltb, ◌&&◌, Bool, true, false,
  map, Returns,
}
use simbus.Wire.Time.{Time}
use simbus.Wire.Time.RoundTrip.{FitsInt}
use simbus.Server.{Device}
use simbus.Server.Names.{left_of, right_of}
use simbus.Server.Client.Ready.{are_names, are_names-AllNames}
use simbus.Server.Protocol.{
  Protocol, until_line, send_until, send_all_until, clear_ready, put_all, report, bus_ready,
}
use simbus.Server.Protocol.Until.{ReadsAs, until_line-ReadsAs}

-- The ports have `size` bytes in their buffers and `max` places in argv.
module _ (size max : ℕ) where
  -- The newest line of the device is read as the time and the device's signals.
  abbrev pub Tells : Time → Device → Type 0
  Tells t dev =
      (line : List ℕ) × (earlier : List (List ℕ)) × (dev.outgoing ≡ line ∷ earlier)
      × ReadsAs size max line t dev.send_signals

  abbrev pub AllTold : Time → List Device → Type 0
  AllTold t [] = Unit {0}
  AllTold t (dev ∷ devices) = Tells t dev × AllTold t devices

  -- The signals of the device have names, and its line fits the buffers.
  abbrev pub is_tellable : Time → Device → Bool
  is_tellable t dev =
      are_names dev.send_signals
      && (ltb (length dev.send_signals + 2) max
          && (ltb (length (until_line t dev.send_signals)) size
              && ltb (length (until_line t dev.send_signals)) 4098))

  abbrev pub are_tellable : Time → List Device → Bool
  are_tellable t [] = true
  are_tellable t (dev ∷ devices) = is_tellable t dev && are_tellable t devices

module _ (size max : ℕ) (t : Time) (h : t.mant < 2 ^ 64) (k : FitsInt t.exp) where
  send_until-Tells :
      (dev : Device)
      → is_tellable size max t dev ≡ true
      → (dev' : Device) × (send_until t dev ≡ some dev') × Tells size max t dev'
  unfolding send_until
  send_until-Tells dev fits =
      let line = until_line t dev.send_signals in
      let few = ltb (length dev.send_signals + 2) max in
      let inside = ltb (length line) size in
      let rest =
        right_of (are_names dev.send_signals) (few && (inside && ltb (length line) 4098)) fits in
      let names =
        left_of (are_names dev.send_signals) (few && (inside && ltb (length line) 4098)) fits in
      let is_few = left_of few (inside && ltb (length line) 4098) rest in
      let lengths = right_of few (inside && ltb (length line) 4098) rest in
      let is_inside = left_of inside (ltb (length line) 4098) lengths in
      (
        record dev { outgoing = line ∷ dev.outgoing },
        rw (right_of inside (ltb (length line) 4098) lengths) refl,
        (
          line,
          dev.outgoing,
          refl,
          until_line-ReadsAs size max t dev.send_signals h k
              (are_names-AllNames dev.send_signals names) (ground arith) (ground arith),
        ),
      )

  send_all_until-AllTold :
      (devices : List Device)
      → are_tellable size max t devices ≡ true
      → (devices' : List Device) × (send_all_until t devices ≡ some devices')
        × AllTold size max t devices'
  unfolding send_all_until
  send_all_until-AllTold [] fits = ([], refl, tt)
  send_all_until-AllTold (dev ∷ devices) fits =
      let now = is_tellable size max t dev in
      let later = are_tellable size max t devices in
      let (dev', e, d) = send_until-Tells dev (left_of now later fits) in
      let (devices', es, ds) = send_all_until-AllTold devices (right_of now later fits) in
      (dev' ∷ devices', rw (e, es) refl, (d, ds))

module _ {P : Type 0} (protocol : Protocol P) (size max : ℕ) where
  report-AllTold :
      (q : P)
      → (protocol.time_of q).mant < 2 ^ 64
      → FitsInt (protocol.time_of q).exp
      → are_tellable size max (protocol.time_of q) (protocol.devices_of q) ≡ true
      → Returns
          (λ u r. AllTold size max (protocol.time_of r) (protocol.devices_of r))
          (report protocol false q)
  unfolding report put_all
  report-AllTold q h k fits =
      let t = protocol.time_of q in
      let (devices, e, told_all) =
        send_all_until-AllTold size max t h k (protocol.devices_of q) fits in
      rw (e, put_all)
        (rw (protocol.devices_of-put devices q, protocol.time_of-put devices q) told_all)

  -- For every protocol: if the step returns, the time that it comes to has 64 bits and an int as its
  -- exponent, and every device has signals whose names are of characters above the blank other than
  -- '=' and a line that fits the buffers of the server and of the ports and the ports' argv, then
  -- `bus_ready` of a bus that is not finished returns. The newest line that each device was sent is
  -- read by its port as the time of the bus and the device's signals, each with its characters from
  -- the last bit to the first.
  pub bus_ready-AllTold :
      (p q : P)
      → protocol.step (protocol.put_devices (map clear_ready (protocol.devices_of p)) p) ≡ ok tt q
      → (protocol.time_of q).mant < 2 ^ 64
      → FitsInt (protocol.time_of q).exp
      → are_tellable size max (protocol.time_of q) (protocol.devices_of q) ≡ true
      → Returns
          (λ u r. AllTold size max (protocol.time_of r) (protocol.devices_of r))
          (bus_ready protocol false p)
  unfolding bus_ready
  bus_ready-AllTold p q e h k fits = rw e (report-AllTold q h k fits)
