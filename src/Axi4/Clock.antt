-- ===== src/Axi4/Clock.antt =====
-- libsimbus/simbus_axi4.c: the exchange of an AXI4 master with the server, the clock, the interrupts
-- and the reset.
use simbus.Base.{
  ℕ, zero, suc, ◌+◌, ◌-◌, ◌/◌, ltb, leb, ◌==◌, if◌then◌else◌, Bool, true, false, ◌&&◌, Option, none,
  some, List, [], ◌∷◌, ◌++◌, length, get_or, set, same_text, ℤ, pos, negsuc, clear_bit, ok, fault,
  out_of_fuel, Cmd, and_then, assert, ◌>>=◌, ◌>>◌,
}
use simbus.Wire.{Bit, bit_0, bit_1, bit_x, is_bit, char_to_bitval, ready_signal, fill_msb_first}
use simbus.Wire.Time.{print_time}
use simbus.Session.{Token, send_recv}
use simbus.Session.Text.{codes}
use simbus.Session.Reply.{Field, finished, until, read_reply}
use simbus.Axi4.{Address, Bus, on_socket}

abbrev pub concat : List (List ℕ) → List ℕ
concat [] = []
concat (text ∷ texts) = text ++ concat texts

-- The part of the READY line for an address channel whose names begin with `prefix`.
unfoldable pub address_signals : List ℕ → Address → ℕ → ℕ → List ℕ
unfolding ready_signal
address_signals prefix a addr_width id_width = concat (
    ready_signal (prefix ++ codes "VALID") (a.valid ∷ []) 1
    ∷ ready_signal (prefix ++ codes "ADDR") a.addr addr_width
    ∷ ready_signal (prefix ++ codes "LEN") a.len 8
    ∷ ready_signal (prefix ++ codes "SIZE") a.size 3
    ∷ ready_signal (prefix ++ codes "BURST") a.burst 2
    ∷ ready_signal (prefix ++ codes "LOCK") a.lock 2
    ∷ ready_signal (prefix ++ codes "CACHE") a.cache 4
    ∷ ready_signal (prefix ++ codes "PROT") a.prot 3
    ∷ ready_signal (prefix ++ codes "QOS") a.qos 4
    ∷ ready_signal (prefix ++ codes "ID") a.id id_width
    ∷ [])

-- The READY line of `__axi4_ready_command`.
unfoldable pub ready_line : Bus → List ℕ
unfolding address_signals
ready_line b = concat (
    codes "READY "
    ∷ print_time b.bus_time
    ∷ ready_signal (codes "ARESETn") (b.areset_n ∷ []) 1
    ∷ address_signals (codes "AW") b.aw b.addr_width b.wid_width
    ∷ ready_signal (codes "WVALID") (b.wvalid ∷ []) 1
    ∷ ready_signal (codes "WDATA") b.wdata b.data_width
    ∷ ready_signal (codes "WSTRB") b.wstrb (b.data_width / 8)
    ∷ ready_signal (codes "BREADY") (b.bready ∷ []) 1
    ∷ address_signals (codes "AR") b.ar b.addr_width b.rid_width
    ∷ ready_signal (codes "RREADY") (b.rready ∷ []) 1
    ∷ (10 ∷ [])
    ∷ [])

-- The characters of `cp`, which must be `width` many, the first to the highest index; an index
-- outside of an array of `cap` bits is a fault.
unfoldable pub read_vector : List ℕ → ℕ → ℕ → List Bit → Option (List Bit)
read_vector cp width cap bits =
    if length cp == width && leb width cap then some (fill_msb_first cp bits) else none

-- bid[wid_width-1-idx] for each character: `idx` is the place of the field, not that of the
-- character. An index outside of the array is a fault.
unfoldable pub store_bid : List ℕ → ℕ → ℕ → List Bit → Option (List Bit)
store_bid [] width idx bits = some bits
store_bid (c ∷ cp) width idx bits =
    let place = width - 1 - idx in
    let rest = store_bid cp width idx (set bits place (char_to_bitval c)) in
    if ltb idx width && ltb place 64 then rest else none

unfoldable pub put_bits : Option (List Bit) → (List Bit → Bus) → Option Bus
put_bits none store = none
put_bits (some v) store = some (store v)

-- *cp as a bit
abbrev pub first_bit : List ℕ → Bit
first_bit cp = char_to_bitval (get_or cp 0 0)

-- The <name>=<value> field at index `idx` of an UNTIL response; `none` is a failed assertion.
unfoldable pub apply_field : ℕ → Field → Bus → Option Bus
unfolding put_bits read_vector store_bid
apply_field idx (name, cp) b =
    if same_text name (codes "ACLK")
    then some (record b { aclk = first_bit cp })
    else if same_text name (codes "AWREADY")
    then some (record b { awready = first_bit cp })
    else if same_text name (codes "WREADY")
    then some (record b { wready = first_bit cp })
    else if same_text name (codes "BVALID")
    then some (record b { bvalid = first_bit cp })
    else if same_text name (codes "BRESP")
    then put_bits (read_vector cp 2 2 b.bresp) (λ v. record b { bresp = v })
    else if same_text name (codes "BID")
    then if length cp == b.wid_width
      then put_bits (store_bid cp b.wid_width idx b.bid) (λ v. record b { bid = v })
      else none
    else if same_text name (codes "ARREADY")
    then some (record b { arready = first_bit cp })
    else if same_text name (codes "RVALID")
    then some (record b { rvalid = first_bit cp })
    else if same_text name (codes "RDATA")
    then put_bits (read_vector cp b.data_width 64 b.rdata) (λ v. record b { rdata = v })
    else if same_text name (codes "RRESP")
    then put_bits (read_vector cp 2 2 b.rresp) (λ v. record b { rresp = v })
    else if same_text name (codes "RID")
    then put_bits (read_vector cp b.rid_width 64 b.rid) (λ v. record b { rid = v })
    else if same_text name (codes "IRQ")
    then put_bits (read_vector cp b.irq_width 32 b.irq) (λ v. record b { irq = v })
    else some b

unfoldable pub apply_fields : ℕ → List Field → Bus → Option Bus
apply_fields idx [] b = some b
apply_fields idx (f ∷ fs) b = elim (apply_field idx f b) [
  | none ↦ none
  | some b' ↦ apply_fields (idx + 1) fs b'
]

-- What `__axi4_ready_command` does with the tokens; -2 is SIMBUS_AXI4_FINISHED.
unfoldable pub answer : List Token → Cmd Bus ℤ
unfolding apply_fields
answer words b = elim (read_reply words) [
  | none ↦ fault
  | some reply ↦ elim reply [
    | finished ↦ ok (negsuc 1) b
    | until time fields ↦ elim (apply_fields 2 fields (record b { bus_time = time })) [
      | none ↦ fault
      | some b' ↦ ok (pos 0) b'
    ]
  ]
]

-- The widths stay inside of the arrays that the READY line is drawn from.
abbrev pub in_arrays : Bus → Bool
in_arrays b =
    (leb b.data_width 64 && leb b.addr_width 64) && (leb b.wid_width 64 && leb b.rid_width 64)

-- `__axi4_ready_command`; a read outside of an array, or a line that does not fit `buf`, is a fault.
unfoldable pub ready_command : Cmd Bus ℤ
unfolding on_socket ready_line answer
ready_command b =
    (assert (in_arrays b && ltb (length (ready_line b)) 4096)
        >> on_socket (send_recv 4096 2048 (ready_line b))
        >>= answer)
      b

-- while (bus->aclk != level) __axi4_ready_command(bus); the result of the call is not looked at.
unfoldable pub wait_clk : ℕ → Bit → Cmd Bus (Unit {0})
unfolding ready_command
wait_clk zero level b = out_of_fuel
wait_clk (suc fuel) level b = elim (is_bit b.aclk level) [
  | true ↦ ok tt b
  | false ↦ (ready_command >>= λ _. wait_clk fuel level) b
]

-- `__axi4_next_posedge`
unfoldable pub next_posedge : ℕ → Cmd Bus (Unit {0})
unfolding wait_clk
next_posedge fuel = wait_clk fuel bit_0 >> wait_clk fuel bit_1

-- The loop of `__axi4_test_interrupts`, with `n` rounds left; the test of `irq[idx]` outside of the
-- array is left to `wait`.
unfoldable pub masked : ℕ → ℕ → List Bit → ℕ → ℕ
masked zero idx irq rc = rc
masked (suc n) idx irq rc =
    masked n (idx + 1) irq (if is_bit (get_or irq idx bit_x) bit_1 then rc else clear_bit rc idx)

-- `__axi4_test_interrupts`; a null mask is `none`.
unfoldable pub test_interrupts : Option ℕ → Bus → ℕ
unfolding masked
test_interrupts none b = 0
test_interrupts (some mask) b = masked b.irq_width 0 b.irq mask

-- irq_mask[0] where the mask is not null
abbrev pub store_mask : Option ℕ → ℕ → Option ℕ
store_mask none v = none
store_mask (some mask) v = some v

-- while (clks > 0); the result and what the mask holds afterwards.
unfoldable pub wait_loop : ℕ → ℕ → Option ℕ → Cmd Bus (ℕ × Option ℕ)
unfolding next_posedge test_interrupts
wait_loop fuel zero irq b = ok (0, store_mask irq 0) b
wait_loop fuel (suc clks) irq b = and_then (next_posedge fuel b) (λ _ b'.
    elim (test_interrupts irq b' == 0) [
      | true ↦ wait_loop fuel clks irq b'
      | false ↦ ok (1, store_mask irq (test_interrupts irq b')) b'
    ])

-- The interrupts that are looked at are within the array.
abbrev pub covers : Option ℕ → Bus → Bool
covers none b = true
covers (some mask) b = leb b.irq_width 32

-- `simbus_axi4_wait`; more interrupts than the array and the mask have bits are a fault.
unfoldable pub wait : ℕ → ℕ → Option ℕ → Cmd Bus (ℕ × Option ℕ)
unfolding wait_loop
wait fuel clks irq b =
    if covers irq b
    then if test_interrupts irq b == 0
      then wait_loop fuel clks irq b
      else ok (1, store_mask irq (test_interrupts irq b)) b
    else fault

-- `simbus_axi4_reset`
unfoldable pub reset : ℕ → ℕ → ℕ → Cmd Bus (Unit {0})
unfolding wait
reset fuel width settle b =
    (assert (ltb 0 width && ltb 0 settle)
        >> (λ b'. ok tt (record b' { areset_n = bit_0 }))
        >> (wait fuel width none >>= λ _ b'. ok tt (record b' { areset_n = bit_1 }))
        >> (wait fuel settle none >>= λ _. ok tt))
      b
