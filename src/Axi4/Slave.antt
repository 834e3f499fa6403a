-- ===== src/Axi4/Slave.antt =====
-- libsimbus/simbus_axi4_slave.c and libsimbus/simbus_axi4s.h: the state of an AXI4 slave, its exchange
-- with the server and its loop. The signals are those of `Axi4.Bus`, driven from the other side.
pub mod Machine
pub mod Signals
pub mod Phases
pub mod Traces
pub mod Words
pub mod Errors
mod Tests
use simbus.Base.{
  ℕ, zero, suc, ◌/◌, ltb, leb, if◌then◌else◌, Bool, true, false, not, ◌&&◌, Option, none, some,
  List, [], ◌∷◌, ◌++◌, length, same_text, ℤ, pos, negsuc, replicate, Run, ok, fault, out_of_fuel,
  Cmd, assert, ◌>>=◌, ◌>>◌,
}
use simbus.Wire.{Bit, bit_0, bit_1, is_bit, ready_signal}
use simbus.Wire.Time.{print_time}
use simbus.Session.{Token, send_recv}
use simbus.Session.Text.{codes}
use simbus.Session.Reply.{Field, finished, until, read_reply}
use simbus.Axi4.{Address, Bus, on_socket}
use simbus.Axi4.Clock.{concat, read_vector, put_bits, first_bit}
use simbus.Axi4.Slave.Machine.{Device, Slave, slave_machine}

-- The READY line of `__axi4s_ready_command`. The bits of RID come from `bid`.
unfoldable pub ready_line : Bus → List ℕ
unfolding ready_signal
ready_line b = concat (
    codes "READY "
    ∷ print_time b.bus_time
    ∷ ready_signal (codes "AWREADY") (b.awready ∷ []) 1
    ∷ ready_signal (codes "WREADY") (b.wready ∷ []) 1
    ∷ ready_signal (codes "BVALID") (b.bvalid ∷ []) 1
    ∷ ready_signal (codes "BRESP") b.bresp 2
    ∷ ready_signal (codes "BID") b.bid b.wid_width
    ∷ ready_signal (codes "ARREADY") (b.arready ∷ []) 1
    ∷ ready_signal (codes "RVALID") (b.rvalid ∷ []) 1
    ∷ ready_signal (codes "RDATA") b.rdata b.data_width
    ∷ ready_signal (codes "RRESP") b.rresp 2
    ∷ ready_signal (codes "RID") b.bid b.rid_width
    ∷ (if ltb 0 b.irq_width then ready_signal (codes "IRQ") b.irq b.irq_width else [])
    ∷ (10 ∷ [])
    ∷ [])

-- What a field does to an address channel: `skip` is a field of another channel.
pub data Stored : Type 0 where
  skip : Stored
  bad_field : Stored
  stored : Address → Stored

abbrev store : Option (List Bit) → (List Bit → Address) → Stored
store none f = bad_field
store (some v) f = stored (f v)

-- The fields of an address channel whose names begin with `prefix`.
unfoldable pub address_field : List ℕ → Field → ℕ → ℕ → Address → Stored
unfolding read_vector
address_field prefix (name, cp) addr_width id_width a =
    if same_text name (prefix ++ codes "VALID")
    then stored (record a { valid = first_bit cp })
    else if same_text name (prefix ++ codes "ADDR")
    then store (read_vector cp addr_width 64 a.addr) (λ v. record a { addr = v })
    else if same_text name (prefix ++ codes "LEN")
    then store (read_vector cp 8 8 a.len) (λ v. record a { len = v })
    else if same_text name (prefix ++ codes "SIZE")
    then store (read_vector cp 3 3 a.size) (λ v. record a { size = v })
    else if same_text name (prefix ++ codes "BURST")
    then store (read_vector cp 2 2 a.burst) (λ v. record a { burst = v })
    else if same_text name (prefix ++ codes "LOCK")
    then store (read_vector cp 2 2 a.lock) (λ v. record a { lock = v })
    else if same_text name (prefix ++ codes "CACHE")
    then store (read_vector cp 4 4 a.cache) (λ v. record a { cache = v })
    else if same_text name (prefix ++ codes "PROT")
    then store (read_vector cp 3 3 a.prot) (λ v. record a { prot = v })
    else if same_text name (prefix ++ codes "QOS")
    then store (read_vector cp 4 4 a.qos) (λ v. record a { qos = v })
    else if same_text name (prefix ++ codes "ID")
    then store (read_vector cp id_width 64 a.id) (λ v. record a { id = v })
    else skip

-- The fields of the other channels.
unfoldable pub data_field : Field → Bus → Option Bus
unfolding put_bits read_vector
data_field (name, cp) b =
    if same_text name (codes "ACLK")
    then some (record b { aclk = first_bit cp })
    else if same_text name (codes "ARESETn")
    then some (record b { areset_n = first_bit cp })
    else if same_text name (codes "WVALID")
    then some (record b { wvalid = first_bit cp })
    else if same_text name (codes "WDATA")
    then put_bits (read_vector cp b.data_width 64 b.wdata) (λ v. record b { wdata = v })
    else if same_text name (codes "WSTRB")
    then put_bits (read_vector cp (b.data_width / 8) 8 b.wstrb) (λ v. record b { wstrb = v })
    else if same_text name (codes "BREADY")
    then some (record b { bready = first_bit cp })
    else if same_text name (codes "RREADY")
    then some (record b { rready = first_bit cp })
    else some b

-- A <name>=<value> field of an UNTIL response; `none` is a failed assertion.
unfoldable pub apply_field : Field → Bus → Option Bus
unfolding address_field data_field
apply_field f b = elim (address_field (codes "AW") f b.addr_width b.wid_width b.aw) [
  | stored a ↦ some (record b { aw = a })
  | bad_field ↦ none
  | skip ↦ elim (address_field (codes "AR") f b.addr_width b.rid_width b.ar) [
    | stored a ↦ some (record b { ar = a })
    | bad_field ↦ none
    | skip ↦ data_field f b
  ]
]

unfoldable pub apply_fields : List Field → Bus → Option Bus
apply_fields [] b = some b
apply_fields (f ∷ fs) b = elim (apply_field f b) [ none ↦ none | some b' ↦ apply_fields fs b' ]

-- What `__axi4s_ready_command` does with the tokens; -2 is SIMBUS_AXI4_FINISHED.
unfoldable pub answer : List Token → Cmd Bus ℤ
unfolding apply_fields
answer words b = elim (read_reply words) [
  | none ↦ fault
  | some reply ↦ elim reply [
    | finished ↦ ok (negsuc 1) b
    | until time fields ↦ elim (apply_fields fields (record b { bus_time = time })) [
      | none ↦ fault
      | some b' ↦ ok (pos 0) b'
    ]
  ]
]

-- The widths stay inside of the arrays that the READY line is drawn from.
abbrev pub in_arrays : Bus → Bool
in_arrays b =
    (leb b.data_width 64 && leb b.irq_width 32) && (leb b.wid_width 64 && leb b.rid_width 64)

-- `__axi4s_ready_command`; a read outside of an array, or a line that does not fit `buf`, is a fault.
unfoldable pub ready_command : Cmd Bus ℤ
unfolding on_socket ready_line answer
ready_command b =
    (assert (in_arrays b && ltb (length (ready_line b)) 4096)
        >> on_socket (send_recv 4096 2048 (ready_line b))
        >>= answer)
      b

-- while (bus->aclk != level) __axi4s_ready_command(bus); the result of the call is not looked at.
unfoldable pub wait_clk : ℕ → Bit → Cmd Bus (Unit {0})
unfolding ready_command
wait_clk zero level b = out_of_fuel
wait_clk (suc fuel) level b = elim (is_bit b.aclk level) [
  | true ↦ ok tt b
  | false ↦ (ready_command >>= λ _. wait_clk fuel level) b
]

-- `do_reset`
unfoldable pub do_reset : Bus → Bus
do_reset b = record b {
  awready = bit_1;
  wready = bit_0;
  bvalid = bit_0;
  bresp = bit_0 ∷ bit_0 ∷ [];
  bid = replicate 64 bit_0;
  arready = bit_1;
  rvalid = bit_0;
  rdata = replicate 64 bit_0;
  rresp = bit_0 ∷ bit_0 ∷ [];
  rid = replicate 64 bit_0;
  irq = replicate 32 bit_0;
}

-- if (bus->areset_n == BIT_0) do_reset(bus)
unfoldable pub reset_if_low : Bus → Bus
unfolding do_reset
reset_if_low b = if is_bit b.areset_n bit_0 then do_reset b else b

module _ {D : Type 0} where
  unfoldable pub with_bus : Slave D → Run Bus (Unit {0}) → Run (Slave D) (Unit {0})
  with_bus s (ok a b) = ok a (record s { bus = b })
  with_bus s fault = fault
  with_bus s out_of_fuel = out_of_fuel

  abbrev pub on_bus : Cmd Bus (Unit {0}) → Cmd (Slave D) (Unit {0})
  on_bus m s = with_bus s (m s.bus)

  -- What happens at the rising edge of the clock.
  unfoldable pub rising_edge : Device D → Cmd (Slave D) (Unit {0})
  unfolding slave_machine do_reset
  rising_edge dev s = elim (is_bit s.bus.areset_n bit_0) [
    | true ↦ ok tt (record s { bus = do_reset s.bus })
    | false ↦ slave_machine dev s
  ]

  -- The loop of `simbus_axi4_slave`, which has no exit.
  unfoldable pub slave_loop : ℕ → Device D → Cmd (Slave D) (Unit {0})
  unfolding wait_clk reset_if_low rising_edge with_bus
  slave_loop zero dev s = out_of_fuel
  slave_loop (suc fuel) dev s =
      (on_bus (wait_clk fuel bit_0)
          >> on_bus (λ b. ok tt (reset_if_low b))
          >> on_bus (wait_clk fuel bit_1)
          >> rising_edge dev
          >> slave_loop fuel dev)
        s

  -- `simbus_axi4_slave` with a device that is not null.
  unfoldable pub slave : ℕ → Device D → Cmd (Slave D) (Unit {0})
  unfolding slave_loop
  slave fuel dev s =
      (assert (not s.attached)
          >> (λ s'. ok tt (record s' { attached = true }))
          >> slave_loop fuel dev)
        s
