-- ===== src/Pci.antt =====
-- libsimbus/simbus_pci.c and libsimbus/simbus_pci_priv.h: the state of a PCI device, how a session
-- begins and ends, and the exchange with the server. A vector of bits has its index 0 first.
pub mod Clock
pub mod Master
pub mod Transfers
pub mod Target
pub mod Parity
pub mod Lines
pub mod Address
pub mod Link
pub mod Memdev
pub mod Tests
use simbus.Base.{
  ℕ, zero, suc, if◌then◌else◌, Bool, true, false, Option, none, some, List, [], ◌∷◌, ◌++◌,
  same_text, ltb, set, ℤ, pos, negsuc, replicate, Run, ok, fault, out_of_fuel, Cmd, and_then, ◌>>=◌,
  ◌>>◌,
}
use simbus.Wire.{Bit, bit_0, bit_1, bit_x, bit_z, ready_signal}
use simbus.Wire.Time.{Time, init_time, print_time}
use simbus.Session.{Socket, Token, send_recv, server_hello, server_finish}
use simbus.Session.Text.{codes}
use simbus.Session.Reply.{Field, finished, until, read_reply}
use simbus.Axi4.Clock.{concat, read_vector, first_bit}

-- `enum target_machine_e`
pub data TargetState : Type 0 where
  targ_idle targ_dac targ_bus_busy : TargetState

-- `struct simbus_translation`: the functions by number, a null pointer is `none`. The two reserved
-- functions are never used.
pub record Translation : Type 0 where
  pub flags : ℕ
  pub base : ℕ
  pub mask : ℕ
  pub need32 : Option ℕ
  pub recv32 : Option ℕ

-- memset(&mem_target[idx], 0, ...)
abbrev pub no_translation : Translation
no_translation = record { flags = 0; base = 0; mask = 0; need32 = none; recv32 = none }

-- `struct simbus_pci_s`. `socket` is the connection behind `fd`, the functions are numbers, and
-- `random_state` is the list of the numbers that the generator will return.
pub record Bus : Type 0 where
  pub name : List ℕ
  pub socket : Socket
  pub ident : ℕ
  pub random_state : List ℕ
  pub retry_rate : ℤ
  pub bus_time : Time
  pub out_reset_n : Bit
  pub out_req_n : Bit
  pub out_req64_n : Bit
  pub out_frame_n : Bit
  pub out_irdy_n : Bit
  pub out_trdy_n : Bit
  pub out_stop_n : Bit
  pub out_devsel_n : Bit
  pub out_ack64_n : Bit
  pub out_c_be : List Bit
  pub out_ad : List Bit
  pub out_par : Bit
  pub out_par64 : Bit
  pub pcixcap : Bit
  pub pci_clk : Bit
  pub pci_gnt_n : Bit
  pub pci_inta_n : List Bit
  pub pci_intb_n : List Bit
  pub pci_intc_n : List Bit
  pub pci_intd_n : List Bit
  pub pci_frame_n : Bit
  pub pci_req64_n : Bit
  pub pci_irdy_n : Bit
  pub pci_trdy_n : Bit
  pub pci_stop_n : Bit
  pub pci_devsel_n : Bit
  pub pci_ack64_n : Bit
  pub pci_c_be : List Bit
  pub pci_ad : List Bit
  pub pci_par : Bit
  pub pci_par64 : Bit
  pub config_need32 : Option ℕ
  pub config_recv32 : Option ℕ
  pub mem_target : List Translation
  pub dac_addr_lo : ℕ
  pub break_flag : Bool
  pub target_state : TargetState

-- `calloc`, `init_simbus_pci` and the rest of `simbus_pci_connect` once the server has answered;
-- `random` are the numbers of the generator that is seeded with 111.
abbrev pub init_bus : List ℕ → List ℕ → Socket → ℕ → Bus
init_bus random name s ident = record {
  name = name;
  socket = s;
  ident = ident;
  random_state = random;
  retry_rate = pos 0;
  bus_time = init_time;
  out_reset_n = bit_1;
  out_req_n = bit_1;
  out_req64_n = bit_z;
  out_frame_n = bit_z;
  out_irdy_n = bit_z;
  out_trdy_n = bit_z;
  out_stop_n = bit_z;
  out_devsel_n = bit_z;
  out_ack64_n = bit_z;
  out_c_be = replicate 8 bit_z;
  out_ad = replicate 64 bit_z;
  out_par = bit_z;
  out_par64 = bit_z;
  pcixcap = bit_x;
  pci_clk = bit_x;
  pci_gnt_n = bit_x;
  pci_inta_n = replicate 16 bit_0;
  pci_intb_n = replicate 16 bit_0;
  pci_intc_n = replicate 16 bit_0;
  pci_intd_n = replicate 16 bit_0;
  pci_frame_n = bit_0;
  pci_req64_n = bit_0;
  pci_irdy_n = bit_0;
  pci_trdy_n = bit_0;
  pci_stop_n = bit_0;
  pci_devsel_n = bit_0;
  pci_ack64_n = bit_0;
  pci_c_be = replicate 8 bit_0;
  pci_ad = replicate 64 bit_x;
  pci_par = bit_0;
  pci_par64 = bit_0;
  config_need32 = none;
  config_recv32 = none;
  mem_target = replicate 8 no_translation;
  dac_addr_lo = 0;
  break_flag = false;
  target_state = targ_idle;
}

-- `simbus_pci_connect` from the open connection on; `none` is the null result.
unfoldable pub connect : List ℕ → List ℕ → Cmd Socket (Option Bus)
connect random name s = and_then (server_hello name [] s) (λ answer s'. elim answer [
  | none ↦ ok none s'
  | some ident ↦ ok (some (init_bus random name s' ident)) s'
])

-- `simbus_pci_config_need32`, `simbus_pci_config_recv32`, `simbus_pci_retry_rate` and
-- `simbus_pci_wait_break`
unfoldable pub set_config_need32 : Option ℕ → Bus → Bus
set_config_need32 fun b = record b { config_need32 = fun }

unfoldable pub set_config_recv32 : Option ℕ → Bus → Bus
set_config_recv32 fun b = record b { config_recv32 = fun }

unfoldable pub set_retry_rate : ℤ → Bus → Bus
set_retry_rate rate b = record b { retry_rate = rate }

unfoldable pub wait_break : Bus → Bus
wait_break b = record b { break_flag = true }

-- `simbus_pci_mem_xlate`; a null descriptor is `none`.
unfoldable pub mem_xlate : ℕ → Option Translation → Bus → Bus
mem_xlate idx none b =
    if ltb idx 8 then record b { mem_target = set b.mem_target idx no_translation } else b
mem_xlate idx (some drv) b =
    if ltb idx 8 then record b { mem_target = set b.mem_target idx drv } else b

unfoldable pub with_socket : {A : Type 0} → Bus → Run Socket A → Run Bus A
with_socket b (ok a s) = ok a (record b { socket = s })
with_socket b fault = fault
with_socket b out_of_fuel = out_of_fuel

-- `simbus_pci_disconnect`
unfoldable pub disconnect : Cmd Bus (Unit {0})
disconnect b = ok tt (record b { socket = record (b.socket) { closed = true } })

-- `simbus_pci_end_simulation`
unfoldable pub end_simulation : Cmd Bus (Unit {0})
unfolding with_socket disconnect
end_simulation = (λ b. with_socket b (server_finish b.socket)) >> disconnect

-- The READY line of `send_ready_command`.
unfoldable pub ready_line : Bus → List ℕ
unfolding ready_signal
ready_line b = concat (
    codes "READY "
    ∷ print_time b.bus_time
    ∷ ready_signal (codes "RESET#") (b.out_reset_n ∷ []) 1
    ∷ ready_signal (codes "REQ#") (b.out_req_n ∷ []) 1
    ∷ ready_signal (codes "REQ64#") (b.out_req64_n ∷ []) 1
    ∷ ready_signal (codes "FRAME#") (b.out_frame_n ∷ []) 1
    ∷ ready_signal (codes "IRDY#") (b.out_irdy_n ∷ []) 1
    ∷ ready_signal (codes "TRDY#") (b.out_trdy_n ∷ []) 1
    ∷ ready_signal (codes "STOP#") (b.out_stop_n ∷ []) 1
    ∷ ready_signal (codes "DEVSEL#") (b.out_devsel_n ∷ []) 1
    ∷ ready_signal (codes "ACK64#") (b.out_ack64_n ∷ []) 1
    ∷ ready_signal (codes "C/BE#") b.out_c_be 8
    ∷ ready_signal (codes "AD") b.out_ad 64
    ∷ ready_signal (codes "PAR") (b.out_par ∷ []) 1
    ∷ ready_signal (codes "PAR64") (b.out_par64 ∷ []) 1
    ∷ (10 ∷ [])
    ∷ [])

abbrev store : Option (List Bit) → (List Bit → Bus) → Option Bus
store none f = none
store (some v) f = some (f v)

-- A <name>=<value> field of an UNTIL response; `none` is a failed assertion.
unfoldable pub apply_field : Field → Bus → Option Bus
unfolding read_vector
apply_field (name, cp) b =
    if same_text name (codes "PCI_CLK")
    then some (record b { pci_clk = first_bit cp })
    else if same_text name (codes "PCIXCAP")
    then some (record b { pcixcap = first_bit cp })
    else if same_text name (codes "GNT#")
    then some (record b { pci_gnt_n = first_bit cp })
    else if same_text name (codes "INTA#")
    then store (read_vector cp 16 16 b.pci_inta_n) (λ v. record b { pci_inta_n = v })
    else if same_text name (codes "INTB#")
    then store (read_vector cp 16 16 b.pci_intb_n) (λ v. record b { pci_intb_n = v })
    else if same_text name (codes "INTC#")
    then store (read_vector cp 16 16 b.pci_intc_n) (λ v. record b { pci_intc_n = v })
    else if same_text name (codes "INTD#")
    then store (read_vector cp 16 16 b.pci_intd_n) (λ v. record b { pci_intd_n = v })
    else if same_text name (codes "FRAME#")
    then some (record b { pci_frame_n = first_bit cp })
    else if same_text name (codes "REQ64#")
    then some (record b { pci_req64_n = first_bit cp })
    else if same_text name (codes "IRDY#")
    then some (record b { pci_irdy_n = first_bit cp })
    else if same_text name (codes "TRDY#")
    then some (record b { pci_trdy_n = first_bit cp })
    else if same_text name (codes "STOP#")
    then some (record b { pci_stop_n = first_bit cp })
    else if same_text name (codes "DEVSEL#")
    then some (record b { pci_devsel_n = first_bit cp })
    else if same_text name (codes "ACK64#")
    then some (record b { pci_ack64_n = first_bit cp })
    else if same_text name (codes "C/BE#")
    then store (read_vector cp 8 8 b.pci_c_be) (λ v. record b { pci_c_be = v })
    else if same_text name (codes "AD")
    then store (read_vector cp 64 64 b.pci_ad) (λ v. record b { pci_ad = v })
    else if same_text name (codes "PAR")
    then some (record b { pci_par = first_bit cp })
    else if same_text name (codes "PAR64")
    then some (record b { pci_par64 = first_bit cp })
    else some b

unfoldable pub apply_fields : List Field → Bus → Option Bus
apply_fields [] b = some b
apply_fields (f ∷ fs) b = elim (apply_field f b) [ none ↦ none | some b' ↦ apply_fields fs b' ]

-- What `send_ready_command` does with the tokens; -2 is SIMBUS_PCI_FINISHED.
unfoldable pub answer : List Token → Cmd Bus ℤ
unfolding apply_fields
answer words b = elim (read_reply words) [
  | none ↦ fault
  | some reply ↦ elim reply [
    | finished ↦ ok (negsuc 1) b
    | until time fields ↦ elim (apply_fields fields (record b { bus_time = time })) [
      | none ↦ fault
      | some b' ↦ ok (pos 0) b'
    ]
  ]
]

-- `send_ready_command`; the line has at most some 300 characters and fits `buf`.
unfoldable pub send_ready : Cmd Bus ℤ
unfolding with_socket ready_line answer
send_ready b = and_then (with_socket b (send_recv 4096 2048 (ready_line b) b.socket)) answer
