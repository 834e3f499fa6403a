-- ===== src/P2p.antt =====
-- libsimbus/simbus_p2p.c and libsimbus/simbus_p2p_priv.h: the client of a point-to-point bus.
-- A word array of the caller is a list of 32-bit words.
pub mod Clock
pub mod Words
pub mod Output
pub mod Vector
mod Tests
use simbus.Base.{
  ℕ, zero, suc, ◌+◌, ◌-◌, ◌*◌, ◌/◌, ◌%◌, ltb, leb, ◌==◌, if◌then◌else◌, Bool, true, false, not,
  ◌&&◌, ◌||◌, Option, none, some, List, [], ◌∷◌, ◌++◌, length, get_or, set, replicate, same_text, ℤ,
  pos, negsuc, is_negative, pred_ℤ, test_bit, set_bit, Run, ok, fault, out_of_fuel, Cmd, and_then,
  assert, ◌>>=◌, ◌>>◌,
}
use simbus.Wire.{
  Bit, bit_0, bit_1, bit_x, bit_z, bitval_to_char, char_to_bitval, chars_msb_first, bit_of, is_bit,
}
use simbus.Wire.Time.{Time, init_time, print_time}
use simbus.Session.{Socket, Token, send_recv, server_hello, server_finish}
use simbus.Session.Text.{codes}
use simbus.Session.Reply.{Field, Reply, finished, until, read_reply}

-- `struct simbus_p2p_s`; `socket` is the connection behind `fd`.
pub record Bus : Type 0 where
  pub name : List ℕ
  pub socket : Socket
  pub ident : ℕ
  pub bus_time : Time
  pub clock : Bit
  pub clock_mode_0 : Bit
  pub clock_mode_1 : Bit
  pub width_o : ℕ
  pub data_o : List Bit
  pub width_i : ℕ
  pub data_i : List Bit

-- A command of the connection, run by the bus.
unfoldable pub with_socket : {A : Type 0} → Bus → Run Socket A → Run Bus A
with_socket b (ok a s) = ok a (record b { socket = s })
with_socket b fault = fault
with_socket b out_of_fuel = out_of_fuel

unfoldable pub on_socket : {A : Type 0} → Cmd Socket A → Cmd Bus A
unfolding with_socket
on_socket m b = with_socket b (m b.socket)

-- `simbus_p2p_connect`, from the open connection on; `none` is the null result.
unfoldable pub connect : List ℕ → ℕ → ℕ → Cmd Socket (Option Bus)
connect name width_i width_o s =
    if ltb 0 width_i || ltb 0 width_o
    then and_then (server_hello name [] s) (λ answer s'. elim answer [
      | none ↦ ok none s'
      | some ident ↦
          ok
            (some (record {
              name = name;
              socket = s';
              ident = ident;
              bus_time = init_time;
              clock = bit_x;
              clock_mode_0 = bit_0;
              clock_mode_1 = bit_0;
              width_o = width_o;
              data_o = replicate width_o bit_x;
              width_i = width_i;
              data_i = replicate width_i bit_x;
            }))
            s'
    ])
    else fault

-- `simbus_p2p_is_host`
unfoldable pub is_host : Bus → Bool
is_host b = b.ident == 0

-- `simbus_p2p_disconnect`
unfoldable pub disconnect : Cmd Bus (Unit {0})
disconnect b = ok tt (record b { socket = record (b.socket) { closed = true } })

-- `simbus_p2p_end_simulation`
unfoldable pub end_simulation : Cmd Bus (Unit {0})
unfolding on_socket disconnect
end_simulation = on_socket server_finish >> disconnect

-- `simbus_p2p_clock_mode`
unfoldable pub clock_mode : ℕ → Cmd Bus (Unit {0})
clock_mode mode b =
    if b.ident == 0
    then ok tt (record b {
      clock_mode_0 = bit_of (test_bit mode 0);
      clock_mode_1 = bit_of (test_bit mode 1);
    })
    else fault

-- if (wbit == 0) data[word] = 0;
unfoldable pub start_word : ℕ → List ℕ → List ℕ
start_word idx data_words = if idx % 32 == 0 then set data_words (idx / 32) 0 else data_words

-- One round of the loop that reads the bits of a vector into words.
unfoldable pub collect_bit : Bit → ℕ → List ℕ → ℤ → List ℕ × ℤ
collect_bit bit_0 idx words rc = (words, rc)
collect_bit bit_1 idx words rc =
    (set words (idx / 32) (set_bit (get_or words (idx / 32) 0) (idx % 32)), rc)
collect_bit bit_x idx words rc = (words, pred_ℤ rc)
collect_bit bit_z idx words rc = (words, pred_ℤ rc)

-- The loop with `n` rounds left, at index `idx`.
unfoldable pub collect : List Bit → ℕ → ℕ → List ℕ → ℤ → List ℕ × ℤ
unfolding start_word collect_bit
collect bits zero idx words rc = (words, rc)
collect bits (suc n) idx words rc =
    let (words', rc') = collect_bit (get_or bits idx bit_x) idx (start_word idx words) rc in
    collect bits n (idx + 1) words' rc'

-- `simbus_p2p_in`: the words that the array then holds, and the result.
unfoldable pub in_words : Bus → List ℕ → List ℕ × ℤ
unfolding collect
in_words b words = collect b.data_i b.width_i 0 words (pos 0)

-- `simbus_p2p_out_peek`
unfoldable pub out_peek : Bus → List ℕ → List ℕ × ℤ
unfolding collect
out_peek b words = collect b.data_o b.width_o 0 words (pos 0)

-- The loop of `simbus_p2p_out`, with `n` rounds left.
unfoldable pub spread : List ℕ → ℕ → ℕ → List Bit → List Bit
spread words zero idx bits = bits
spread words (suc n) idx bits =
    spread words n (idx + 1)
      (set bits idx (bit_of (test_bit (get_or words (idx / 32) 0) (idx % 32))))

-- `simbus_p2p_out`
unfoldable pub out : List ℕ → Bus → Bus
unfolding spread
out words b = record b { data_o = spread words b.width_o 0 b.data_o }

-- `simbus_p2p_in_poke`
unfoldable pub in_poke : List ℕ → Bus → Bus
unfolding spread
in_poke words b = record b { data_i = spread words b.width_i 0 b.data_i }

-- The READY line of `send_ready_p2p`.
unfoldable pub ready_line : Bus → List ℕ
ready_line b =
    codes "READY "
    ++ (print_time b.bus_time
        ++ ((if b.ident == 0
              then codes " CLOCK_MODE="
                ++ (bitval_to_char b.clock_mode_1 ∷ bitval_to_char b.clock_mode_0 ∷ [])
              else [])
            ++ ((if b.ident == 0 && ltb 0 b.width_o
                  then codes " DATA_O=" ++ chars_msb_first b.data_o b.width_o
                  else [])
                ++ ((if not (b.ident == 0) && ltb 0 b.width_i
                      then codes " DATA_I=" ++ chars_msb_first b.data_i b.width_i
                      else [])
                    ++ (10 ∷ [])))))

-- for (pad = top; pad < width; pad++) data[pad] = BIT_X, with `n` rounds left.
unfoldable pub pad_x : ℕ → ℕ → List Bit → List Bit
pad_x zero idx bits = bits
pad_x (suc n) idx bits = pad_x n (idx + 1) (set bits idx bit_x)

-- while (top > 0): the characters from the last one on, where they fit the width.
unfoldable pub place : ℕ → List ℕ → ℕ → List Bit → List Bit
place zero cp width bits = bits
place (suc top) cp width bits = place top cp width (
    if leb (suc top) width
    then set bits (width - suc top) (char_to_bitval (get_or cp top 0))
    else bits)

-- The branch for DATA_I and DATA_O; `none` is its failed assertion.
unfoldable pub receive_vector : List ℕ → ℕ → List Bit → Option (List Bit)
unfolding pad_x place
receive_vector cp width bits =
    let top = length cp in
    if ltb 0 top then some (place top cp width (pad_x (width - top) top bits)) else none

-- One <name>=<value> field of an UNTIL response.
unfoldable pub apply_field : Field → Bus → Option Bus
unfolding receive_vector
apply_field (name, cp) b =
    if same_text name (codes "CLOCK")
    then some (record b { clock = char_to_bitval (get_or cp 0 0) })
    else if same_text name (codes "DATA_I")
    then elim (receive_vector cp b.width_i b.data_i) [
      | none ↦ none
      | some bits ↦ some (record b { data_i = bits })
    ]
    else if same_text name (codes "DATA_O")
    then elim (receive_vector cp b.width_o b.data_o) [
      | none ↦ none
      | some bits ↦ some (record b { data_o = bits })
    ]
    else some b

unfoldable pub apply_fields : List Field → Bus → Option Bus
apply_fields [] b = some b
apply_fields (f ∷ fs) b = elim (apply_field f b) [ none ↦ none | some b' ↦ apply_fields fs b' ]

-- What `send_ready_p2p` does with the tokens of the response.
unfoldable pub answer : List Token → Cmd Bus ℤ
unfolding apply_fields
answer words b = elim (read_reply words) [
  | none ↦ fault
  | some reply ↦ elim reply [
    | finished ↦ ok (negsuc 0) b
    | until time fields ↦ elim (apply_fields fields (record b { bus_time = time })) [
      | none ↦ fault
      | some b' ↦ ok (pos 0) b'
    ]
  ]
]

-- `send_ready_p2p`; a line that does not fit `buf` is a fault.
unfoldable pub send_ready : Cmd Bus ℤ
unfolding on_socket ready_line answer
send_ready b =
    (assert (ltb (length (ready_line b)) 4096)
        >> on_socket (send_recv 4096 2048 (ready_line b))
        >>= answer)
      b

-- while (bus->clock != level && rc >= 0) rc = send_ready_p2p(bus)
unfoldable pub wait_level : ℕ → Bit → ℤ → Cmd Bus ℤ
wait_level zero level rc b = out_of_fuel
wait_level (suc fuel) level rc b = elim (is_bit b.clock level || is_negative rc) [
  | true ↦ ok rc b
  | false ↦ (send_ready >>= wait_level fuel level) b
]

-- The loop over the cycles that are left; an edge is one level and then the other.
unfoldable pub edges : ℕ → Bit → Bit → ℕ → ℤ → Cmd Bus ℤ
edges fuel before after zero rc b = ok rc b
edges fuel before after (suc cycles) rc b = elim (is_negative rc) [
  | true ↦ ok rc b
  | false ↦
      (wait_level fuel before rc >>= wait_level fuel after >>= edges fuel before after cycles) b
]

-- `simbus_p2p_clock_posedge`
unfoldable pub clock_posedge : ℕ → ℕ → Cmd Bus ℤ
unfolding edges
clock_posedge fuel cycles = edges fuel bit_0 bit_1 cycles (pos 0)

-- `simbus_p2p_clock_negedge`
unfoldable pub clock_negedge : ℕ → ℕ → Cmd Bus ℤ
unfolding edges
clock_negedge fuel cycles = edges fuel bit_1 bit_0 cycles (pos 0)
