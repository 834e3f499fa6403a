-- ===== src/Axi4/Tests.antt =====
-- Runs of the AXI4 master of libsimbus/simbus_axi4.c, and the theorems about it at concrete inputs.
use simbus.Base.{
  ℕ, ◌≡◌, ◌≤◌, ◌<◌, ◌+◌, ◌*◌, ◌/◌, refl, true, false, List, [], ◌∷◌, ◌&&◌, arith, leb, ltb, get_or,
  ok, out_of_fuel, some, none, ◌++◌, replicate, test_bit, pos, Ends, length,
}
use simbus.Wire.{bit_0, bit_1, bit_x, bit_of, char_to_bitval, chars_msb_first, fill_msb_first}
use simbus.Wire.Time.{print_time, parse_time_token}
use simbus.Session.{Socket, reads, send_recv}
use simbus.Session.Text.{codes}
use simbus.Session.Reply.{read_reply}
use simbus.Axi4.{Bus, init_bus, idle_address}
use simbus.Axi4.Clock.{test_interrupts, ready_command, ready_line, next_posedge, apply_field}
use simbus.Axi4.Write.{
  Progress, drive_write, data_lanes, resp_loop, wait_for_resp, resp_code, resp_okay, resp_exokay,
  resp_slverr, write8,
}
use simbus.Axi4.Write.Lanes.{drive_write-lanes}
use simbus.Axi4.Write.Response.{resp_loop-hangs}
use simbus.Wire.Words.{take_word}
use simbus.Axi4.Read.{Capture}
use simbus.Axi4.Read.Words.{take_word-data_lanes}

abbrev closed_socket : Socket
closed_socket = record { incoming = []; sent = []; closed = false }

-- A master with a bus of 64 data bits, 16 address bits and 3 interrupt lines.
abbrev master : Bus
master = init_bus (codes "cpu") closed_socket 0 64 16 4 4 3

abbrev pending_irq : Bus
pending_irq = record master { irq = bit_0 ∷ bit_1 ∷ bit_1 ∷ replicate 29 bit_0 }

-- Line 1 is 1 and in the mask.
irq_run : test_interrupts (some 0x3) pending_irq ≡ 0x2
unfolding test_interrupts simbus.Base.clear_bit
irq_run = refl

drive_write_example :
    ((lane : ℕ)
      → lane < 8
      → get_or ((drive_write 1 16 16 0x12 0 0xbeef master).wstrb) lane bit_x
        ≡ bit_of (leb 2 lane && ltb lane (2 + 2)))
    × ((k : ℕ)
        → k < 16
        → get_or ((drive_write 1 16 16 0x12 0 0xbeef master).wdata) (2 * 8 + k) bit_x
          ≡ bit_of (test_bit 0xbeef k))
drive_write_example =
    drive_write-lanes master 1 2 0x12 0 0xbeef refl refl (omega arith) (omega arith)

-- A write is under way.
abbrev writing : Bus
writing = record master {
  aw = record (idle_address []) { valid = bit_1 };
  wvalid = bit_1;
  bready = bit_1;
}

-- The slave never responds.
abbrev mute : Bus → Bus
mute b = record b { awready = bit_1; wready = bit_1; bvalid = bit_0 }

abbrev at_limit : Progress
at_limit = record { timer = pos 0; code = resp_okay }

resp_loop_hangs_example : resp_loop (λ c. ok tt (mute c)) 5000 at_limit writing ≡ out_of_fuel
resp_loop_hangs_example =
    resp_loop-hangs mute 5000 at_limit writing (λ c ready. ready) (λ c. refl) refl

-- The slave answers with SLVERR.
abbrev answered : Bus
answered = record writing {
  awready = bit_1;
  wready = bit_1;
  bvalid = bit_1;
  bresp = bit_0 ∷ bit_1 ∷ [];
}

slave_error : resp_code answered.bresp ≡ resp_slverr
unfolding resp_code
slave_error = refl

take_word_example :
    test_bit (take_word 16 0 16 (data_lanes 64 2 16 16 0xbeef master.wdata) 0) 3
    ≡ (true && test_bit 0xbeef 3)
take_word_example =
    take_word-data_lanes 64 2 16 16 0xbeef master.wdata 3 (omega arith) (omega arith)

abbrev empty : Capture
empty = record { word = 0; code = resp_okay }

-- A read is under way, and the slave answers at once.
abbrev reading : Bus
reading = record master { ar = record (idle_address []) { valid = bit_1 }; rready = bit_1 }

abbrev data_there : Bus
data_there = record reading {
  arready = bit_1;
  rvalid = bit_1;
  rdata = replicate 4 bit_1 ++ replicate 60 bit_0;
  rresp = bit_0 ∷ bit_0 ∷ [];
}

read_run : take_word 8 0 0 data_there.rdata 0 ≡ 0x0f
unfolding take_word simbus.Base.set_bit
read_run = refl

-- A whole write of a byte, on a bus of 8 bits, against a server that lets the clock fall and rise.
abbrev live : Bus
live = record (init_bus (codes "cpu") closed_socket 0 8 2 1 1 0) {
  socket = record {
    incoming =
        reads (codes "UNTIL 1e0 ACLK=0\n")
        ∷ reads (codes "UNTIL 2e0 ACLK=1 AWREADY=1 WREADY=1 BVALID=1 BRESP=01\n")
        ∷ [];
    sent = [];
    closed = false;
  };
}

write8_run : Ends (λ code b. code ≡ resp_exokay) (write8 9 1 0 7 live)
unfolding write8 ready_command next_posedge apply_field drive_write wait_for_resp send_recv
    read_reply parse_time_token char_to_bitval print_time chars_msb_first ready_line fill_msb_first
    resp_code
write8_run = refl
