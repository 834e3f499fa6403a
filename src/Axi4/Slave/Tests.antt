-- ===== src/Axi4/Slave/Tests.antt =====
-- Runs of the AXI4 slave of libsimbus/simbus_axi4_slave.c, and the theorems about it at concrete
-- inputs.
use simbus.Base.{
  ℕ, ◌≡◌, ◌*◌, ◌/◌, ◌%◌, refl, [], ◌∷◌, arith, ok, some, none, Cmd, After, true, false,
}
use simbus.Wire.{bit_0, bit_1, chars_msb_first, fill_msb_first}
use simbus.Wire.Words.{take_word}
use simbus.Session.{Socket}
use simbus.Session.Text.{codes}
use simbus.Axi4.{Bus, init_bus}
use simbus.Axi4.Write.{Resp, resp_okay, resp_slverr, resp_code, drive_write}
use simbus.Axi4.Slave.{do_reset}
use simbus.Axi4.Slave.Machine.{
  Device, Slave, slave_machine, write_data, read_data, with_memory, resp_bits,
}
use simbus.Axi4.Slave.Phases.{
  wait_address, wait_request, InWrite, InRead, next_write, next_read, slave_machine-refines,
}
use simbus.Axi4.Slave.Traces.{started, edge, count, Sound, none_yet, Reach-Sound}
use simbus.Axi4.Slave.Words.{write_data-drive_write, read_data-take_word}
use simbus.Axi4.Slave.Errors.{resp_code-resp_bits}

abbrev closed_socket : Socket
closed_socket = record { incoming = []; sent = []; closed = false }

abbrev bus : Bus
bus = init_bus (codes "mem") closed_socket 0 64 16 4 4 3

-- A device that keeps the last word that it was given.
abbrev keep : ℕ → ℕ → ℕ → Cmd ℕ Resp
keep addr prot word old = ok resp_okay word

abbrev give : ℕ → ℕ → ℕ → Cmd ℕ (Resp × ℕ)
give addr prot word old = ok (resp_okay, old) old

abbrev latch : Device ℕ
latch = record {
  write64 = none;
  write32 = some keep;
  write16 = none;
  write8 = none;
  read64 = none;
  read32 = some give;
  read16 = none;
  read8 = none;
}

abbrev idle : Slave ℕ
idle = record {
  bus = do_reset bus;
  waddr = 0x14;
  wsize = 2;
  wlen = 0;
  wprot = 0;
  raddr = 0x14;
  rsize = 2;
  rlen = 0;
  rprot = 0;
  attached = true;
  memory = 0xcafe;
}

slave_machine-refines_example :
    After
      (λ _ s'.
        InWrite (next_write wait_address idle.bus) s'.bus
        × InRead (next_read wait_request idle.bus) s'.bus)
      (slave_machine latch idle)
unfolding do_reset
slave_machine-refines_example =
    slave_machine-refines latch idle wait_address wait_request refl refl tt

-- The master drives an address, and the slave takes it at the first edge.
abbrev asked : Bus
asked = record (do_reset bus) { aw = record bus.aw { valid = bit_1 }; bready = bit_1 }

abbrev taken : Slave ℕ
taken = record idle {
  bus = record asked { awready = bit_0; wready = bit_1 };
  waddr = 0;
  wsize = 0;
  wlen = 0;
}

first_edge : slave_machine latch (record idle { bus = asked }) ≡ ok tt taken
unfolding slave_machine do_reset
first_edge = refl

Reach-Sound_example : Sound taken.bus (count asked none_yet)
unfolding do_reset
Reach-Sound_example =
    Reach-Sound latch taken (count asked none_yet)
      (edge idle asked taken none_yet (started idle) (refl, refl) (λ _. refl) first_edge)

-- The lanes of a write are there.
abbrev given : Slave ℕ
given = record idle {
  bus = record bus { wdata = (drive_write 2 32 32 0x14 0 0xdeadbeef bus).wdata };
}

write_data_example : write_data latch given ≡ with_memory given (keep 0x14 0 0xdeadbeef 0xcafe)
write_data_example =
    write_data-drive_write latch keep given bus 0 0xdeadbeef refl refl refl refl refl refl
      (omega arith) refl (omega arith)

read_data_example :
    (s' : Slave ℕ) × (read_data latch idle ≡ ok resp_okay s')
    × (take_word 32 0 (0x14 % (64 / 8) * 8) s'.bus.rdata 0 ≡ 0xcafe)
unfolding do_reset
read_data_example =
    read_data-take_word latch give idle resp_okay 0xcafe 0xcafe refl refl refl refl refl
      (omega arith) refl (omega arith)

resp_code_example :
    resp_code (fill_msb_first (chars_msb_first (resp_bits resp_slverr) 2) (bit_0 ∷ bit_0 ∷ []))
    ≡ resp_okay
resp_code_example = resp_code-resp_bits resp_slverr (bit_0 ∷ bit_0 ∷ []) refl
