-- ===== src/Axi4.antt =====
-- libsimbus/simbus_axi4.c and libsimbus/simbus_axi4_priv.h: the state of an AXI4 master, and how a
-- session begins and ends. A vector of bits has its index 0 first.
pub mod Clock
pub mod Write
pub mod Read
pub mod Interrupts
pub mod Slave
mod Tests
use simbus.Base.{
  ℕ, zero, suc, ◌+◌, ◌-◌, ◌*◌, ◌^◌, ltb, leb, ◌==◌, if◌then◌else◌, Bool, true, false, ◌&&◌, Option,
  none, some, List, [], ◌∷◌, ◌++◌, length, get_or, set, replicate, same_text, ℤ, pos, negsuc,
  clear_bit, Run, ok, fault, out_of_fuel, Cmd, and_then, assert, ◌>>=◌, ◌>>◌,
}
use simbus.Wire.{
  Bit, bit_0, bit_1, bit_x, bit_z, is_bit, char_to_bitval, ready_signal, fill_msb_first,
}
use simbus.Wire.Time.{Time, init_time, print_time, print_u64}
use simbus.Session.{Socket, Token, send_recv, server_hello, server_finish}
use simbus.Session.Text.{codes}
use simbus.Session.Reply.{Field, Reply, finished, until, read_reply}

-- The signals of the write address channel, and those of the read address channel.
pub record Address : Type 0 where
  pub valid : Bit
  pub addr : List Bit
  pub len : List Bit
  pub size : List Bit
  pub burst : List Bit
  pub lock : List Bit
  pub cache : List Bit
  pub prot : List Bit
  pub qos : List Bit
  pub id : List Bit

-- `struct simbus_axi4_s` of a master. `socket` is the connection behind `fd`.
pub record Bus : Type 0 where
  pub name : List ℕ
  pub socket : Socket
  pub ident : ℕ
  pub data_width : ℕ
  pub addr_width : ℕ
  pub wid_width : ℕ
  pub rid_width : ℕ
  pub irq_width : ℕ
  pub axsize_word : ℕ
  pub bus_time : Time
  pub areset_n : Bit
  pub aw : Address
  pub wvalid : Bit
  pub wdata : List Bit
  pub wstrb : List Bit
  pub bready : Bit
  pub ar : Address
  pub rready : Bit
  pub aclk : Bit
  pub awready : Bit
  pub wready : Bit
  pub bvalid : Bit
  pub bresp : List Bit
  pub bid : List Bit
  pub arready : Bit
  pub rvalid : Bit
  pub rdata : List Bit
  pub rresp : List Bit
  pub rid : List Bit
  pub irq : List Bit

-- An address channel with `valid`, whose other signals are X.
abbrev pub idle_address : List Bit → Address
idle_address id = record {
  valid = bit_0;
  addr = replicate 64 bit_x;
  len = replicate 8 bit_x;
  size = replicate 3 bit_x;
  burst = replicate 2 bit_x;
  lock = replicate 2 bit_x;
  cache = replicate 4 bit_x;
  prot = replicate 3 bit_x;
  qos = replicate 4 bit_x;
  id = id;
}

-- while ((8 << w) < data_width) w += 1
unfoldable pub size_of_word : ℕ → ℕ → ℕ → ℕ
size_of_word zero w width = w
size_of_word (suc fuel) w width =
    let rest = size_of_word fuel (w + 1) width in if ltb (8 * 2 ^ w) width then rest else w

-- `calloc`, `init_simbus_axi4` and the rest of `simbus_axi4_connect` once the server has answered.
-- The store to `rresp[2]` is past that array: it falls on `rid[0]`, which follows it. The size of a
-- word needs at most three rounds for the widths that `connect` accepts.
abbrev pub init_bus : List ℕ → Socket → ℕ → ℕ → ℕ → ℕ → ℕ → ℕ → Bus
init_bus name s ident data_width addr_width wid_width rid_width irq_width = record {
  name = name;
  socket = s;
  ident = ident;
  data_width = data_width;
  addr_width = addr_width;
  wid_width = wid_width;
  rid_width = rid_width;
  irq_width = irq_width;
  axsize_word = size_of_word 4 0 data_width;
  bus_time = init_time;
  areset_n = bit_1;
  aw = idle_address (replicate 64 bit_x);
  wvalid = bit_0;
  wdata = replicate 64 bit_x;
  wstrb = replicate 8 bit_x;
  bready = bit_0;
  ar = idle_address (replicate 64 bit_z);
  rready = bit_0;
  aclk = bit_x;
  awready = bit_z;
  wready = bit_z;
  bvalid = bit_z;
  bresp = bit_z ∷ bit_z ∷ [];
  bid = replicate 64 bit_z;
  arready = bit_z;
  rvalid = bit_z;
  rdata = replicate 64 bit_z;
  rresp = bit_z ∷ bit_z ∷ [];
  rid = bit_z ∷ replicate 63 bit_0;
  irq = replicate 32 bit_0;
}

-- <key>=<number>, as snprintf prints it.
abbrev pub key_value : List ℕ → ℕ → List ℕ
key_value key n = key ++ (b'=' ∷ print_u64 n [])

-- `simbus_axi4_connect` from the open connection on; `none` is the null result.
unfoldable pub connect : List ℕ → ℕ → ℕ → ℕ → ℕ → ℕ → Cmd Socket (Option Bus)
connect name data_width addr_width wid_width rid_width irq_width s =
    and_then (assert (leb data_width 64 && leb addr_width 64) s) (λ _ s'.
      let args =
        key_value (codes "data_width") data_width
        ∷ key_value (codes "addr_width") addr_width
        ∷ key_value (codes "wid_width") wid_width
        ∷ key_value (codes "rid_width") rid_width
        ∷ key_value (codes "irq_width") irq_width
        ∷ [] in
      and_then (server_hello name args s') (λ answer s₂. elim answer [
        | none ↦ ok none s₂
        | some ident ↦
            ok (some (init_bus name s₂ ident data_width addr_width wid_width rid_width irq_width))
              s₂
      ]))

unfoldable pub with_socket : {A : Type 0} → Bus → Run Socket A → Run Bus A
with_socket b (ok a s) = ok a (record b { socket = s })
with_socket b fault = fault
with_socket b out_of_fuel = out_of_fuel

unfoldable pub on_socket : {A : Type 0} → Cmd Socket A → Cmd Bus A
unfolding with_socket
on_socket m b = with_socket b (m b.socket)

-- `simbus_axi4_disconnect`
unfoldable pub disconnect : Cmd Bus (Unit {0})
disconnect b = ok tt (record b { socket = record (b.socket) { closed = true } })

-- `simbus_axi4_end_simulation`
unfoldable pub end_simulation : Cmd Bus (Unit {0})
unfolding on_socket disconnect
end_simulation = on_socket server_finish >> disconnect
