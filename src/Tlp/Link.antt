-- ===== src/Tlp/Link.antt =====
-- libsimbus/simbus_pcie_tlp_tlp.c and the clock of libsimbus/simbus_pcie_tlp.c: dispatch of a TLP
-- that came in, the queue of TLPs that go out, and `__pcie_tlp_next_posedge`, which runs both.
--
-- A callback may call back into the bus, so it is a command of the bus. The clock calls the
-- dispatch and the dispatch may send, which waits for the clock: the fuel bounds the clock waits
-- and how deep they nest.
pub mod Dispatch
pub mod Finish
pub mod Sending
use Prim.Native.Nat.{bit_and}
use simbus.Base.{
  ℕ, zero, suc, ◌+◌, ◌-◌, ◌*◌, ◌/◌, ◌%◌, ◌^◌, ltb, leb, ◌==◌, if◌then◌else◌, Bool, true, false,
  ◌&&◌, Option, none, some, List, [], ◌∷◌, ◌++◌, get_or, set, take, drop, replicate, set_bit,
  clear_bit, ok, fault, out_of_fuel, Cmd, and_then, assert, ◌>>=◌, ◌>>◌, length,
}
use simbus.Wire.{Bit, bit_0, bit_1, is_bit}
use simbus.Tlp.{Bus, Callback, send_ready}
use simbus.Tlp.Stream.{byte_swap32, drive, advance, settle, recv_lanes, lane_order, no_words}

-- What the callbacks of a program do, by number and cookie: a write is given the address, the data
-- and the byte enables of the first and the last word; a read is given the address, the zeroed
-- array of the result and the byte enables, and leaves the array's contents.
pub record Handlers : Type 0 where
  pub on_write : ℕ → ℕ → ℕ → List ℕ → ℕ → ℕ → Cmd Bus (Unit {0})
  pub on_read : ℕ → ℕ → ℕ → List ℕ → ℕ → ℕ → Cmd Bus (List ℕ)

-- `process_Assert_INTx` and `process_Deassert_INTx`
unfoldable pub assert_intx : Bus → Bus
assert_intx b = record b { intx_mask = set_bit b.intx_mask (get_or b.s_tlp_buf 1 0 % 4) }

unfoldable pub deassert_intx : Bus → Bus
deassert_intx b = record b { intx_mask = clear_bit b.intx_mask (get_or b.s_tlp_buf 1 0 % 4) }

abbrev pub is_none : {A : Type 0} → Option A → Bool
is_none none = true
is_none (some a) = false

-- `copy_tlp_to_completion`
unfoldable pub copy_to_completion : ℕ → ℕ → Cmd Bus (Unit {0})
copy_to_completion tag words b =
    if is_none (get_or b.completions tag none) && (leb 3 words && leb words b.s_tlp_cnt)
    then ok tt (record b { completions = set b.completions tag (some (take words b.s_tlp_buf)) })
    else fault

-- The array of `n` words that holds what a callback left.
abbrev pub fit : ℕ → List ℕ → List ℕ
fit n words = take n (words ++ replicate n 0)

-- tlp[2] = s_tlp_buf[1] & 0xffffff00, with the low seven bits of the address.
abbrev pub completion_id : ℕ → ℕ → ℕ
completion_id request addr = request / 256 * 256 + addr % 128

-- The header of the completion that answers the read in the buffer.
abbrev pub completion_header : ℕ → Bus → List ℕ
completion_header addr b =
    (0x4a000000 + get_or b.s_tlp_buf 0 0 % 1024)
    ∷ (b.request_id * 65536 + get_or b.s_tlp_buf 0 0 % 1024 * 4 % 4096)
    ∷ completion_id (get_or b.s_tlp_buf 1 0) addr
    ∷ []

-- The messages that are routed to the root.
unfoldable pub recv_message : Bus → Bus
unfolding assert_intx deassert_intx
recv_message b =
    let message = get_or b.s_tlp_buf 1 0 % 256 / 4 * 4 in
    if message == 0x20 then assert_intx b else if message == 0x24 then deassert_intx b else b

-- The 64-bit address of a header with four words.
abbrev pub wide_addr : Bus → ℕ
wide_addr b = get_or b.s_tlp_buf 2 0 * 2 ^ 32 + get_or b.s_tlp_buf 3 0

abbrev pub nothing : Cmd Bus (Unit {0}) → Cmd Bus (Option (List ℕ))
nothing m = m >>= λ _. ok none

module _ (h : Handlers) where
  -- if (bus->write_fun): the data are swapped in the buffer and handed to the callback.
  unfoldable pub call_write : Callback → ℕ → ℕ → Cmd Bus (Unit {0})
  unfolding byte_swap32
  call_write none addr header b = ok tt b
  call_write (some (fun, cookie)) addr header b =
      let ndata = get_or b.s_tlp_buf 0 0 % 1024 in
      let buf = byte_swap32 ndata header b.s_tlp_buf in
      let enables = get_or b.s_tlp_buf 1 0 in
      h.on_write fun cookie addr (take ndata (drop header buf)) (enables % 16) (enables / 16 % 16)
        (record b { s_tlp_buf = buf })

  -- The branches for a write, with the number of words in its header.
  unfoldable pub recv_write : ℕ → ℕ → Cmd Bus (Unit {0})
  unfolding call_write
  recv_write addr header b = call_write b.write_fun addr header b

  -- if (bus->read_fun): the callback fills the array, which is swapped; the zeroed array if not.
  unfoldable pub call_read : Callback → ℕ → Cmd Bus (List ℕ)
  unfolding byte_swap32
  call_read none addr b = ok (replicate (get_or b.s_tlp_buf 0 0 % 1024) 0) b
  call_read (some (fun, cookie)) addr b =
      let ndata = get_or b.s_tlp_buf 0 0 % 1024 in
      let enables = get_or b.s_tlp_buf 1 0 in
      and_then (h.on_read fun cookie addr (replicate ndata 0) (enables % 16) (enables / 16 % 16) b)
        (λ words. ok (byte_swap32 ndata 0 (fit ndata words)))

  -- The branches for a read: the completion that goes back.
  unfoldable pub recv_read : ℕ → Cmd Bus (List ℕ)
  unfolding call_read
  recv_read addr b =
      and_then (call_read b.read_fun addr b) (λ words. ok (completion_header addr b ++ words))

  -- The dispatch of `complete_recv_tlp`: the TLP to send back, if there is one.
  unfoldable pub dispatch : Cmd Bus (Option (List ℕ))
  unfolding recv_write recv_read recv_message copy_to_completion
  dispatch b =
      let word = get_or b.s_tlp_buf 0 0 in
      let kind = word / 16777216 in
      let tag = get_or b.s_tlp_buf 2 0 / 256 % 256 in
      if kind == 0x0a
      then nothing (copy_to_completion tag 3) b
      else if kind == 0x4a
      then nothing (copy_to_completion tag (3 + word % 1024)) b
      else if kind == 0x40
      then nothing (recv_write (get_or b.s_tlp_buf 2 0) 3) b
      else if kind == 0x60
      then nothing (recv_write (wide_addr b) 4) b
      else if kind == 0
      then (recv_read (get_or b.s_tlp_buf 2 0) >>= λ tlp. ok (some tlp)) b
      else if kind == 0x20
      then (recv_read (wide_addr b) >>= λ tlp. ok (some tlp)) b
      else if kind == 0x30
      then ok none (recv_message b)
      else ok none b

  -- `complete_recv_tlp`, given how a TLP is sent.
  unfoldable pub complete_recv : (List ℕ → Cmd Bus (Unit {0})) → Cmd Bus (Unit {0})
  unfolding dispatch
  complete_recv send b =
      if leb 1 b.s_tlp_cnt
      then and_then (dispatch b) (λ answer b'.
        let b'' = record b' { s_tlp_cnt = 0 } in
        elim answer [ none ↦ ok tt b'' | some tlp ↦ send tlp b'' ])
      else fault

  -- `__pcie_tlp_recv_tlp`, given how a TLP is sent.
  unfoldable pub recv_tlp : (List ℕ → Cmd Bus (Unit {0})) → Cmd Bus (Unit {0})
  unfolding complete_recv recv_lanes
  recv_tlp send b =
      if is_bit b.s_axis_tx_tvalid bit_1 && is_bit b.s_axis_tx_tready bit_1
      then and_then (recv_lanes lane_order 0 0 b) (λ bytes b'.
        if bytes == 0
        then if is_bit b'.s_axis_tx_tlast bit_1 then complete_recv send b' else ok tt b'
        else fault)
      else ok tt b

-- while (bus->user_clk == level) send_ready_command(bus); the result of the call is not looked at.
unfoldable pub wait_clk : ℕ → Bit → Cmd Bus (Unit {0})
wait_clk zero level b = out_of_fuel
wait_clk (suc fuel) level b = elim (is_bit b.user_clk level) [
  | false ↦ ok tt b
  | true ↦ (send_ready >>= λ _. wait_clk fuel level) b
]

-- `do_send_tlp_raw`, given the clock.
unfoldable pub send_raw : Cmd Bus (Unit {0}) → ℕ → List ℕ → Cmd Bus (Unit {0})
unfolding drive advance settle
send_raw clock zero words b = out_of_fuel
send_raw clock (suc fuel) [] b = ok tt b
send_raw clock (suc fuel) (w ∷ words) b = and_then (clock (drive (w ∷ words) b)) (λ _ b'.
    elim (is_bit b'.m_axis_rx_tready bit_1) [
      | true ↦ let rest = advance (w ∷ words) in send_raw clock fuel rest (settle rest b')
      | false ↦ send_raw clock fuel (w ∷ words) b'
    ])

-- The queue without the TLP that went out; the code's assertion is that it is still the next.
unfoldable pub unqueue : Cmd Bus (Unit {0})
unqueue b = elim b.tlp_out_list [
  | [] ↦ fault
  | cur ∷ queued ↦ ok tt (record b { tlp_out_list = queued })
]

-- while (bus->tlp_out_list)
unfoldable pub drain : Cmd Bus (Unit {0}) → ℕ → Cmd Bus (Unit {0})
unfolding send_raw unqueue
drain clock zero b = out_of_fuel
drain clock (suc fuel) b = elim b.tlp_out_list [
  | [] ↦ ok tt b
  | cur ∷ queued ↦ (send_raw clock (suc fuel) cur >> unqueue >> drain clock fuel) b
]

-- `__pcie_tlp_send_tlp`: start on the queue, or only add to the one that is being worked on.
unfoldable pub send_tlp : Cmd Bus (Unit {0}) → ℕ → List ℕ → Cmd Bus (Unit {0})
unfolding drain
send_tlp clock fuel tlp b = elim b.tlp_out_list [
  | [] ↦ drain clock fuel (record b { tlp_out_list = tlp ∷ [] })
  | cur ∷ queued ↦ ok tt (record b { tlp_out_list = (cur ∷ queued) ++ (tlp ∷ []) })
]

-- irq_mask? *irq_mask : 0
abbrev pub enabled : Option ℕ → ℕ
enabled none = 0
enabled (some mask) = mask

module _ (h : Handlers) where
  -- `__pcie_tlp_next_posedge`
  unfoldable pub next_posedge : ℕ → Cmd Bus (Unit {0})
  unfolding recv_tlp
  next_posedge zero b = out_of_fuel
  next_posedge (suc fuel) b =
      (wait_clk (suc fuel) bit_1
          >> wait_clk (suc fuel) bit_0
          >> recv_tlp h (λ tlp. send_tlp (λ b'. next_posedge fuel b') fuel tlp))
        b

  -- The loop of `simbus_pcie_tlp_wait`: the clocks that are left, and the interrupts seen.
  unfoldable pub wait_loop : ℕ → ℕ → ℕ → Cmd Bus (ℕ × ℕ)
  wait_loop fuel zero enable b = ok (0, 0) b
  wait_loop fuel (suc clks) enable b = and_then (next_posedge fuel b) (λ _ b'.
      let mask = bit_and enable b'.intx_mask in
      elim (mask == 0) [ true ↦ wait_loop fuel clks enable b' | false ↦ ok (clks, mask) b' ])

  -- `simbus_pcie_tlp_wait`; the mask that comes back stands beside the result.
  unfoldable pub wait : ℕ → ℕ → Option ℕ → Cmd Bus (ℕ × ℕ)
  unfolding wait_loop
  wait fuel zero irq b = ok (0, bit_and (enabled irq) b.intx_mask) b
  wait fuel (suc clks) irq b = wait_loop fuel (suc clks) (enabled irq) b

  -- `simbus_pcie_tlp_reset`
  unfoldable pub reset : ℕ → ℕ → ℕ → Cmd Bus (Unit {0})
  unfolding wait
  reset fuel width settle_clks b =
      (assert (ltb 0 width)
          >> (λ b'. ok tt (record b' { user_reset_out = bit_1 }))
          >> (wait fuel width none >>= λ _ b'. ok tt (record b' { user_reset_out = bit_0 }))
          >> (if ltb 0 settle_clks then wait fuel settle_clks none >>= (λ _. ok tt) else ok tt))
        b
