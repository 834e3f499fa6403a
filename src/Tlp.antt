-- ===== src/Tlp.antt =====
-- libsimbus/simbus_pcie_tlp.c and libsimbus/simbus_pcie_tlp_priv.h: the state of the PCIe root that
-- talks to a Xilinx endpoint in TLPs, and its exchange with the server. A vector of bits has its
-- index 0 first.
pub mod Stream
pub mod Link
pub mod Requests
mod Tests
use simbus.Base.{
  ℕ, zero, suc, ◌+◌, ◌-◌, ◌*◌, ◌/◌, ◌%◌, ltb, leb, ◌==◌, if◌then◌else◌, Bool, true, false, Option,
  none, some, List, [], ◌∷◌, ◌++◌, length, get_or, set, replicate, same_text, ℤ, pos, negsuc,
  test_bit, Run, ok, fault, out_of_fuel, Cmd, and_then, assert, ◌>>=◌, ◌>>◌,
}
use simbus.Wire.{Bit, bit_0, bit_1, bit_x, bit_z, bit_of, ready_signal, until_signal, until_bit}
use simbus.Wire.Time.{Time, init_time, print_time}
use simbus.Session.{Socket, Token, send_recv, server_hello, server_finish}
use simbus.Session.Text.{codes}
use simbus.Session.Reply.{Field, Reply, finished, until, read_reply}

-- `MAX_TLP`
abbrev pub max_tlp : ℕ
max_tlp = 1032

-- A callback and its cookie, each by number; `Link.Handlers` says what they do.
abbrev pub Callback : Type 0
Callback = Option (ℕ × ℕ)

-- `struct simbus_pcie_tlp_s`. `socket` is the connection behind `fd`, a null completion is `none`,
-- and `tlp_out_list` lists the TLPs of the circular list, the one that goes out next first.
pub record Bus : Type 0 where
  pub name : List ℕ
  pub socket : Socket
  pub ident : ℕ
  pub intx_mask : ℕ
  pub s_tlp_buf : List ℕ
  pub s_tlp_cnt : ℕ
  pub write_fun : Callback
  pub read_fun : Callback
  pub request_id : ℕ
  pub tlp_next_tag : ℕ
  pub completions : List (Option (List ℕ))
  pub bus_time : Time
  pub tlp_out_list : List (List ℕ)
  pub user_clk : Bit
  pub user_reset_out : Bit
  pub user_lnk_up : Bit
  pub tx_buf_av : List Bit
  pub m_axis_rx_tdata : List Bit
  pub m_axis_rx_tkeep : List Bit
  pub m_axis_rx_tlast : Bit
  pub m_axis_rx_tvalid : Bit
  pub m_axis_rx_tready : Bit
  pub s_axis_tx_tready : Bit
  pub s_axis_tx_tdata : List Bit
  pub s_axis_tx_tkeep : List Bit
  pub s_axis_tx_tlast : Bit
  pub s_axis_tx_tvalid : Bit
  pub s_axis_tx_tuser : List Bit

-- `calloc`, `init_simbus_pcie_tlp` and the rest of `simbus_pcie_tlp_connect` once the server has
-- answered with `ident`.
abbrev pub init_bus : List ℕ → Socket → ℕ → Bus
init_bus name s ident = record {
  name = name;
  socket = s;
  ident = ident;
  intx_mask = 0;
  s_tlp_buf = replicate max_tlp 0;
  s_tlp_cnt = 0;
  write_fun = none;
  read_fun = none;
  request_id = 0x01f8;
  tlp_next_tag = 0;
  completions = replicate 256 none;
  bus_time = init_time;
  tlp_out_list = [];
  user_clk = bit_1;
  user_reset_out = bit_0;
  user_lnk_up = bit_1;
  tx_buf_av = bit_0 ∷ bit_0 ∷ bit_0 ∷ bit_0 ∷ bit_1 ∷ bit_0 ∷ [];
  m_axis_rx_tdata = replicate 64 bit_x;
  m_axis_rx_tkeep = replicate 8 bit_x;
  m_axis_rx_tlast = bit_0;
  m_axis_rx_tvalid = bit_0;
  m_axis_rx_tready = bit_0;
  s_axis_tx_tready = bit_1;
  s_axis_tx_tdata = replicate 64 bit_0;
  s_axis_tx_tkeep = replicate 8 bit_0;
  s_axis_tx_tlast = bit_0;
  s_axis_tx_tvalid = bit_0;
  s_axis_tx_tuser = replicate 4 bit_0;
}

-- `simbus_pcie_tlp_connect` from the open connection on; `none` is the null result.
unfoldable pub connect : List ℕ → Cmd Socket (Option Bus)
connect name s = and_then (server_hello name [] s) (λ answer s'. elim answer [
  | none ↦ ok none s'
  | some ident ↦ ok (some (init_bus name s' ident)) s'
])

unfoldable pub with_socket : {A : Type 0} → Bus → Run Socket A → Run Bus A
with_socket b (ok a s) = ok a (record b { socket = s })
with_socket b fault = fault
with_socket b out_of_fuel = out_of_fuel

unfoldable pub on_socket : {A : Type 0} → Cmd Socket A → Cmd Bus A
unfolding with_socket
on_socket m b = with_socket b (m b.socket)

-- `simbus_pcie_tlp_disconnect`
unfoldable pub disconnect : Cmd Bus (Unit {0})
disconnect b = ok tt (record b { socket = record (b.socket) { closed = true } })

-- `simbus_pcie_tlp_end_simulation`
unfoldable pub end_simulation : Cmd Bus (Unit {0})
unfolding on_socket disconnect
end_simulation = on_socket server_finish >> disconnect

-- The READY line of `send_ready_command`.
unfoldable pub ready_line : Bus → List ℕ
ready_line b =
    codes "READY "
    ++ (print_time b.bus_time
        ++ (ready_signal (codes "user_reset") (b.user_reset_out ∷ []) 1
            ++ (ready_signal (codes "user_lnk_up") (b.user_lnk_up ∷ []) 1
                ++ (ready_signal (codes "tx_buf_av") b.tx_buf_av 6
                    ++ (ready_signal (codes "m_axis_rx_tdata") b.m_axis_rx_tdata 64
                        ++ (ready_signal (codes "m_axis_rx_tkeep") b.m_axis_rx_tkeep 8
                            ++ (ready_signal (codes "m_axis_rx_tlast") (b.m_axis_rx_tlast ∷ []) 1
                                ++ (ready_signal (codes "m_axis_rx_tvalid")
                                      (b.m_axis_rx_tvalid ∷ []) 1
                                    ++ (ready_signal (codes "s_axis_tx_tready")
                                          (b.s_axis_tx_tready ∷ []) 1
                                        ++ (10 ∷ []))))))))))

unfoldable pub put_bit : Option Bit → (Bit → Bus) → Option Bus
put_bit none store = none
put_bit (some v) store = some (store v)

unfoldable pub put_bits : Option (List Bit) → (List Bit → Bus) → Option Bus
put_bits none store = none
put_bits (some v) store = some (store v)

-- One <name>=<value> field of an UNTIL response; `none` is a failed assertion.
unfoldable pub apply_field : Field → Bus → Option Bus
unfolding put_bit put_bits until_bit until_signal
apply_field (name, cp) b =
    if same_text name (codes "user_clk")
    then put_bit (until_bit cp b.user_clk) (λ v. record b { user_clk = v })
    else if same_text name (codes "m_axis_rx_tready")
    then put_bit (until_bit cp b.m_axis_rx_tready) (λ v. record b { m_axis_rx_tready = v })
    else if same_text name (codes "s_axis_tx_tdata")
    then put_bits (until_signal cp b.s_axis_tx_tdata 64) (λ v. record b { s_axis_tx_tdata = v })
    else if same_text name (codes "s_axis_tx_tkeep")
    then put_bits (until_signal cp b.s_axis_tx_tkeep 8) (λ v. record b { s_axis_tx_tkeep = v })
    else if same_text name (codes "s_axis_tx_tlast")
    then put_bit (until_bit cp b.s_axis_tx_tlast) (λ v. record b { s_axis_tx_tlast = v })
    else if same_text name (codes "s_axis_tx_tvalid")
    then put_bit (until_bit cp b.s_axis_tx_tvalid) (λ v. record b { s_axis_tx_tvalid = v })
    else if same_text name (codes "s_axis_tx_tuser")
    then put_bits (until_signal cp b.s_axis_tx_tuser 4) (λ v. record b { s_axis_tx_tuser = v })
    else some b

unfoldable pub apply_fields : List Field → Bus → Option Bus
apply_fields [] b = some b
apply_fields (f ∷ fs) b = elim (apply_field f b) [ none ↦ none | some b' ↦ apply_fields fs b' ]

-- What `send_ready_command` does with the tokens; -2 is SIMBUS_PCIE_TLP_FINISHED.
unfoldable pub answer : List Token → Cmd Bus ℤ
unfolding apply_fields
answer words b = elim (read_reply words) [
  | none ↦ fault
  | some reply ↦ elim reply [
    | finished ↦ ok (negsuc 1) b
    | until time fields ↦ elim (apply_fields fields (record b { bus_time = time })) [
      | none ↦ fault
      | some b' ↦ ok (pos 0) b'
    ]
  ]
]

-- `send_ready_command`; a line that does not fit `buf` is a fault.
unfoldable pub send_ready : Cmd Bus ℤ
unfolding on_socket ready_line answer
send_ready b =
    (assert (ltb (length (ready_line b)) 4096)
        >> on_socket (send_recv 4096 2048 (ready_line b))
        >>= answer)
      b

-- `__pcie_tlp_choose_tag`
unfoldable pub choose_tag : Cmd Bus ℕ
choose_tag b = ok b.tlp_next_tag (record b { tlp_next_tag = (b.tlp_next_tag + 1) % 32 })

-- `simbus_pcie_tlp_write_handle` and `simbus_pcie_tlp_read_handle`
unfoldable pub write_handle : Callback → Cmd Bus (Unit {0})
write_handle fun b = ok tt (record b { write_fun = fun })

unfoldable pub read_handle : Callback → Cmd Bus (Unit {0})
read_handle fun b = ok tt (record b { read_fun = fun })

-- The loop of `simbus_pcie_tlp_buf_avail`, with `n` rounds left.
unfoldable pub count_bits : ℕ → ℕ → ℕ → List Bit → List Bit
count_bits zero idx nbuf bits = bits
count_bits (suc n) idx nbuf bits =
    count_bits n (idx + 1) nbuf (set bits idx (bit_of (test_bit nbuf idx)))

-- `simbus_pcie_tlp_buf_avail`
unfoldable pub buf_avail : ℕ → Cmd Bus ℕ
unfolding count_bits
buf_avail nbuf b =
    let n = if ltb 0x3f nbuf then 0x3f else nbuf in
    ok n (record b { tx_buf_av = count_bits 6 0 n b.tx_buf_av })
