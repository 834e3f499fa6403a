-- ===== src/Axi4/Slave/Machine.antt =====
-- libsimbus/simbus_axi4_slave.c: the state machines of an AXI4 slave, which run at a rising edge of
-- the clock, and the transfers to and from its device.
use simbus.Base.{
  ℕ, zero, suc, ◌+◌, ◌*◌, ◌/◌, ◌%◌, ◌^◌, leb, ◌==◌, if◌then◌else◌, Bool, not, ◌&&◌, Option, none,
  some, List, [], ◌∷◌, get_or, Run, ok, fault, out_of_fuel, Cmd, and_then,
}
use simbus.Wire.{Bit, bit_0, bit_1, bit_x, is_bit}
use simbus.Wire.Words.{put_word, put_all}
use simbus.Axi4.{Bus}
use simbus.Axi4.Write.{Resp, resp_okay, resp_exokay, resp_slverr, resp_decerr}

-- `struct simbus_axi4s_slave_s` over a device whose own state is a `D`; a null pointer is `none`. A
-- write is given the address, the protection and the word, a read the address, the protection and
-- the word behind `data`, which it may replace. The bus that the functions of the code are also
-- given only says which device is meant.
pub record Device (D : Type 0) : Type 0 where
  pub write64 : Option (ℕ → ℕ → ℕ → Cmd D Resp)
  pub write32 : Option (ℕ → ℕ → ℕ → Cmd D Resp)
  pub write16 : Option (ℕ → ℕ → ℕ → Cmd D Resp)
  pub write8 : Option (ℕ → ℕ → ℕ → Cmd D Resp)
  pub read64 : Option (ℕ → ℕ → ℕ → Cmd D (Resp × ℕ))
  pub read32 : Option (ℕ → ℕ → ℕ → Cmd D (Resp × ℕ))
  pub read16 : Option (ℕ → ℕ → ℕ → Cmd D (Resp × ℕ))
  pub read8 : Option (ℕ → ℕ → ℕ → Cmd D (Resp × ℕ))

-- `struct simbus_axi4_s` of a slave: its signals, the members of `slave`, whether `device` is set,
-- and the state of the device. `wburst` and `rburst` are never used.
pub record Slave (D : Type 0) : Type 0 where
  pub bus : Bus
  pub waddr : ℕ
  pub wsize : ℕ
  pub wlen : ℕ
  pub wprot : ℕ
  pub raddr : ℕ
  pub rsize : ℕ
  pub rlen : ℕ
  pub rprot : ℕ
  pub attached : Bool
  pub memory : D

-- res *= 2; if (bits[base + n] == BIT_1) res |= 1; with `n` rounds left, in a word of `w` bits.
unfoldable pub gather : ℕ → ℕ → ℕ → List Bit → ℕ → ℕ
gather w zero base bits val = val
gather w (suc n) base bits val =
    gather w n base bits
      (val * 2 % 2 ^ w + (if is_bit (get_or bits (base + n) bit_x) bit_1 then 1 else 0))

-- `bits_to_addr`, `bits_to_uint32` and `bits_to_uint8`
unfoldable pub bits_to_addr : Bus → List Bit → ℕ
unfolding gather
bits_to_addr b bits = gather 64 b.addr_width 0 bits 0

unfoldable pub bits_to_uint32 : List Bit → ℕ → ℕ → ℕ
unfolding gather
bits_to_uint32 bits base nbits = gather 32 nbits base bits 0

unfoldable pub bits_to_uint8 : List Bit → ℕ → ℕ → ℕ
unfolding gather
bits_to_uint8 bits base nbits = gather 8 nbits base bits 0

-- resp & 1 and resp & 2, each stored as a bit: the value 2 is that of BIT_X.
unfoldable pub resp_bits : Resp → List Bit
resp_bits resp_okay = bit_0 ∷ bit_0 ∷ []
resp_bits resp_exokay = bit_1 ∷ bit_0 ∷ []
resp_bits resp_slverr = bit_0 ∷ bit_x ∷ []
resp_bits resp_decerr = bit_1 ∷ bit_x ∷ []

-- The `next_` values of `do_slave_machine`.
pub record Next : Type 0 where
  pub awready : Bit
  pub wready : Bit
  pub bvalid : Bit
  pub bresp : List Bit
  pub arready : Bit
  pub rvalid : Bit
  pub rresp : List Bit

abbrev pub sample : Bus → Next
sample b = record {
  awready = b.awready;
  wready = b.wready;
  bvalid = b.bvalid;
  bresp = b.bresp;
  arready = b.arready;
  rvalid = b.rvalid;
  rresp = b.rresp;
}

abbrev pub drive_next : Next → Bus → Bus
drive_next n b = record b {
  awready = n.awready;
  wready = n.wready;
  bvalid = n.bvalid;
  bresp = n.bresp;
  arready = n.arready;
  rvalid = n.rvalid;
  rresp = n.rresp;
}

-- The first bit of a word on the bus.
abbrev pub bit_offset : ℕ → Bus → ℕ
bit_offset addr b = addr % (b.data_width / 8) * 8

module _ {D : Type 0} where
  unfoldable pub with_memory : {A : Type 0} → Slave D → Run D A → Run (Slave D) A
  with_memory s (ok a d) = ok a (record s { memory = d })
  with_memory s fault = fault
  with_memory s out_of_fuel = out_of_fuel

  -- assert(device->write); device->write(addr, prot, word)
  unfoldable pub call_write : Option (ℕ → ℕ → ℕ → Cmd D Resp) → ℕ → Cmd (Slave D) Resp
  unfolding with_memory
  call_write none word s = fault
  call_write (some write) word s = with_memory s (write s.waddr s.wprot word s.memory)

  -- The word that a read left goes to the `n` bits from `base` on.
  unfoldable pub store_read : ℕ → ℕ → Resp × ℕ → Cmd (Slave D) Resp
  unfolding put_word
  store_read n base got s =
      if leb (base + n) 64
      then ok got.0
          (record s { bus = record (s.bus) { rdata = put_word n 0 got.1 base s.bus.rdata } })
      else fault

  -- assert(device->read); the word is zero before.
  unfoldable pub call_read : Option (ℕ → ℕ → ℕ → Cmd D (Resp × ℕ)) → ℕ → ℕ → Cmd (Slave D) Resp
  unfolding with_memory store_read
  call_read none n base s = fault
  call_read (some read) n base s =
      and_then (with_memory s (read s.raddr s.rprot 0 s.memory)) (store_read n base)

  -- `write_data`; only words of 32 and 8 bits are passed on. A read outside of `wdata` is a fault.
  unfoldable pub write_data : Device D → Cmd (Slave D) Resp
  unfolding call_write bits_to_uint32 bits_to_uint8
  write_data dev s =
      let use_wid = 8 * 2 ^ s.wsize in
      let base = bit_offset s.waddr s.bus in
      if leb use_wid s.bus.data_width && (s.waddr % (use_wid / 8) == 0)
      then if use_wid == 32
        then if leb (base + 32) 64
          then call_write dev.write32 (bits_to_uint32 s.bus.wdata base 32) s
          else fault
        else if use_wid == 8
        then if leb (base + 8) 64
          then call_write dev.write8 (bits_to_uint8 s.bus.wdata base 8) s
          else fault
        else ok resp_slverr s
      else fault

  -- `read_data`; only words of 32, 16 and 8 bits are asked for. A store outside of `rdata` is a fault.
  unfoldable pub read_data : Device D → Cmd (Slave D) Resp
  unfolding call_read put_all
  read_data dev s =
      let use_wid = 8 * 2 ^ s.rsize in
      let base = bit_offset s.raddr s.bus in
      let cleared = record s {
        bus = record (s.bus) { rdata = put_all bit_x s.bus.data_width 0 s.bus.rdata };
      } in
      if leb use_wid s.bus.data_width && leb s.bus.data_width 64
      then if use_wid == 32
        then call_read dev.read32 32 base cleared
        else if use_wid == 16
        then call_read dev.read16 16 base cleared
        else if use_wid == 8
        then call_read dev.read8 8 base cleared
        else ok resp_slverr cleared
      else fault

  -- Detect a write address.
  unfoldable pub detect_address : Next → Slave D → Next × Slave D
  unfolding bits_to_addr bits_to_uint8
  detect_address n s =
      if is_bit s.bus.aw.valid bit_1 && is_bit s.bus.awready bit_1
      then (
        record n { awready = bit_0; wready = bit_1 },
        record s {
          waddr = bits_to_addr s.bus s.bus.aw.addr;
          wsize = bits_to_uint8 s.bus.aw.size 0 3;
          wlen = bits_to_uint8 s.bus.aw.len 0 8;
        },
      )
      else if is_bit s.bus.awready bit_0 && is_bit s.bus.wready bit_0
      then (record n { awready = bit_1 }, s)
      else (n, s)

  -- Detect write data.
  unfoldable pub detect_data : Device D → Next → Cmd (Slave D) Next
  unfolding write_data resp_bits
  detect_data dev n s =
      if is_bit s.bus.wvalid bit_1 && is_bit s.bus.wready bit_1
      then and_then (write_data dev s)
          (λ resp s'. ok (record n { wready = bit_0; bvalid = bit_1; bresp = resp_bits resp }) s')
      else ok n s

  -- Detect that the response has been transmitted.
  unfoldable pub detect_response : Next → Slave D → Next
  detect_response n s =
      if is_bit s.bus.bvalid bit_1 && is_bit s.bus.bready bit_1
      then record n { awready = bit_1; bvalid = bit_0; bresp = bit_x ∷ bit_x ∷ [] }
      else n

  -- The address of a read is stashed.
  unfoldable pub stash_read : Slave D → Slave D
  unfolding bits_to_addr bits_to_uint8
  stash_read s = record s {
    raddr = bits_to_addr s.bus s.bus.ar.addr;
    rsize = bits_to_uint8 s.bus.ar.size 0 3;
    rlen = bits_to_uint8 s.bus.ar.len 0 8;
  }

  -- Detect a read request. The test of `arready` is whether it is not BIT_0.
  unfoldable pub detect_read : Device D → Next → Cmd (Slave D) Next
  unfolding read_data stash_read resp_bits
  detect_read dev n s =
      if is_bit s.bus.ar.valid bit_1 && not (is_bit s.bus.arready bit_0)
      then and_then (read_data dev (stash_read s))
          (λ resp s'. ok (record n { arready = bit_0; rvalid = bit_1; rresp = resp_bits resp }) s')
      else ok n s

  -- Detect that the read data have been transmitted.
  unfoldable pub detect_read_done : Next → Slave D → Next
  detect_read_done n s =
      if is_bit s.bus.rvalid bit_1 && is_bit s.bus.rready bit_1
      then record n { rvalid = bit_0; arready = bit_1 }
      else n

  -- The stages of the read channel, and the stores to the signals at the end.
  unfoldable pub finish_machine : Device D → Next → Cmd (Slave D) (Unit {0})
  unfolding detect_response detect_read detect_read_done
  finish_machine dev n s =
      and_then (detect_read dev (detect_response n s) s)
        (λ n' s'. ok tt (record s' { bus = drive_next (detect_read_done n' s') s'.bus }))

  -- `do_slave_machine`. The width of the address stays inside of its array.
  unfoldable pub slave_machine : Device D → Cmd (Slave D) (Unit {0})
  unfolding detect_address detect_data finish_machine
  slave_machine dev s =
      let (n, s') = detect_address (sample s.bus) s in
      if leb s.bus.addr_width 64
      then and_then (detect_data dev n s') (finish_machine dev)
      else fault
