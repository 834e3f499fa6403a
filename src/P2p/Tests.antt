-- ===== src/P2p/Tests.antt =====
-- Runs of the point-to-point client of libsimbus/simbus_p2p.c, and the theorems about it at
-- concrete inputs.
use simbus.Base.{
  leb, if◌then◌else◌, suc, ◌-◌, ◌+◌, ℕ, ◌≡◌, ◌≤◌, ◌<◌, ◌⊎◌, refl, some, false, true, List, [], ◌∷◌,
  arith, pos, negsuc, set_bit, Ends, is_negative, get_or, replicate, length,
}
use simbus.Wire.{Bit, bit_0, bit_1, bit_x, bit_z, is_bit, char_to_bitval, chars_msb_first}
use simbus.Wire.Time.{init_time, print_time, parse_time_token}
use simbus.Session.{Socket, reads, send_recv}
use simbus.Session.Reply.{read_reply}
use simbus.Session.Text.{codes}
use simbus.P2p.{
  Bus, in_words, out, out_peek, receive_vector, clock_posedge, wait_level, send_ready, apply_field,
}
use simbus.P2p.Clock.{store, clock_posedge-Ends}
use simbus.P2p.Words.{bit_at}
use simbus.P2p.Output.{out_peek-out}
use simbus.P2p.Vector.{receive_vector-aligned}

abbrev server : Socket
server = record {
  incoming =
      reads (codes "UNTIL 1e0 CLOCK=0\n") ∷ reads (codes "UNTIL 2e0 CLOCK=1 DATA_I=1x0\n") ∷ [];
  sent = [];
  closed = false;
}

abbrev host : Bus
host = record {
  name = codes "host";
  socket = server;
  ident = 0;
  bus_time = init_time;
  clock = bit_x;
  clock_mode_0 = bit_0;
  clock_mode_1 = bit_0;
  width_o = 4;
  data_o = replicate 4 bit_x;
  width_i = 3;
  data_i = bit_0 ∷ bit_x ∷ bit_1 ∷ [];
}

-- The clock falls, then rises; a third exchange finds the end.
posedge_runs : Ends (λ rc b. rc ≡ pos 0) (clock_posedge 9 1 host)
unfolding clock_posedge wait_level send_ready send_recv read_reply parse_time_token char_to_bitval
    print_time chars_msb_first apply_field
posedge_runs = refl

posedge_at_end : Ends (λ rc b. rc ≡ negsuc 0) (clock_posedge 9 2 host)
unfolding clock_posedge wait_level send_ready send_recv read_reply parse_time_token char_to_bitval
    print_time chars_msb_first apply_field
posedge_at_end = refl

clock_posedge_example :
    Ends
      (λ rc b'.
        (store b' ≤ store host) × ((is_negative rc ≡ true) ⊎ (is_bit b'.clock bit_1 ≡ true)))
      (clock_posedge 60 1 host)
clock_posedge_example = clock_posedge-Ends 60 1 host (omega arith) (omega arith)

in_words_runs : in_words host (7 ∷ []) ≡ (4 ∷ [], negsuc 0)
unfolding in_words set_bit
in_words_runs = refl

out_peek_example :
    ((j : ℕ) → j < 4 → bit_at (out_peek (out (10 ∷ []) host) (255 ∷ [])).0 j ≡ bit_at (10 ∷ []) j)
    × ((out_peek (out (10 ∷ []) host) (255 ∷ [])).1 ≡ pos 0)
out_peek_example = out_peek-out host (10 ∷ []) (255 ∷ []) refl (omega arith)

-- A short value leaves the low bits as they were.
short_value :
    receive_vector (codes "1") 3 (bit_z ∷ bit_0 ∷ bit_0 ∷ []) ≡ some (bit_z ∷ bit_x ∷ bit_1 ∷ [])
unfolding receive_vector char_to_bitval
short_value = refl

aligned_example :
    (bits : List Bit) × (receive_vector (codes "1") 3 (replicate 3 bit_z) ≡ some bits)
    × (length bits ≡ 3)
    × ((i : ℕ)
        → i < 3
        → get_or bits i bit_x ≡ (
            if leb 3 (i + 1)
            then char_to_bitval (get_or (codes "1") (3 - suc i) 0)
            else if leb 1 i
            then bit_x
            else get_or (replicate 3 bit_z) i bit_x))
aligned_example = receive_vector-aligned (codes "1") 3 (replicate 3 bit_z) (omega arith) refl
