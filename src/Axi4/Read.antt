-- ===== src/Axi4/Read.antt =====
-- libsimbus/simbus_axi4_read.c: the single-word reads of an AXI4 master.
pub mod Words
pub mod Response
use simbus.Base.{
  ℕ, zero, suc, ◌+◌, ◌*◌, ◌/◌, ◌%◌, leb, ◌==◌, if◌then◌else◌, Bool, true, false, ◌&&◌, ◌||◌, List,
  get_or, set_bit, ok, out_of_fuel, Cmd, and_then, assert, ◌>>=◌, ◌>>◌,
}
use simbus.Wire.{Bit, bit_0, bit_1, bit_x, is_bit}
use simbus.Wire.Words.{take_word}
use simbus.Axi4.{Bus}
use simbus.Axi4.Clock.{next_posedge}
use simbus.Axi4.Write.{Resp, resp_okay, resp_code, address_setup, cleared_address}

-- `raddr_setup`, and the signal that the master is ready for the response.
unfoldable pub drive_read : ℕ → ℕ → ℕ → Bus → Bus
unfolding address_setup
drive_read size addr prot b = record b {
  ar = address_setup b.addr_width addr size prot b.ar;
  rready = bit_1;
}

-- `raddr_check`
unfoldable pub check_address : Bus → Bus
check_address b =
    if is_bit b.ar.valid bit_1 && is_bit b.arready bit_1
    then record b { ar = cleared_address }
    else b

-- What the loop keeps: the word behind `data`, and the response code.
pub record Capture : Type 0 where
  pub word : ℕ
  pub code : Resp

-- The data response is received, if there is one: `n` bits from the bit `base` of the bus on.
unfoldable pub take_data : ℕ → ℕ → Capture → Bus → Capture × Bus
unfolding take_word resp_code
take_data n base got b =
    if is_bit b.rready bit_1 && is_bit b.rvalid bit_1
    then (
      record { word = take_word n 0 base b.rdata 0; code = resp_code b.rresp },
      record b { rready = bit_0 },
    )
    else (got, b)

-- The condition of the loop.
abbrev pub pending : Bus → Bool
pending b = is_bit b.ar.valid bit_1 || is_bit b.rready bit_1

module _ (clock : Cmd Bus (Unit {0})) where
  -- The loop of the four reads, given the clock.
  unfoldable pub read_loop : ℕ → ℕ → ℕ → Capture → Cmd Bus Capture
  unfolding check_address take_data
  read_loop zero n base got b = out_of_fuel
  read_loop (suc fuel) n base got b = elim (pending b) [
    | false ↦ ok got b
    | true ↦ and_then (clock b) (λ _ b'.
        let (got₂, b₂) = take_data n base got (check_address b') in read_loop fuel n base got₂ b₂)
  ]

-- What the four reads share; `old` is the word behind `data` before. The division by the lanes of
-- the bus and the accesses to the arrays of 64 bits must be possible.
unfoldable pub read_word : ℕ → ℕ → ℕ → ℕ → ℕ → ℕ → Cmd Bus Capture
unfolding drive_read read_loop
read_word fuel size n addr prot old b =
    let first = addr % (b.data_width / 8) in
    (assert (leb 8 b.data_width && (leb b.addr_width 64 && leb (first * 8 + n) 64))
        >> (λ b'. ok tt (drive_read size addr prot b'))
        >> read_loop (next_posedge fuel) fuel n (first * 8)
            (record { word = old; code = resp_okay }))
      b

-- `simbus_axi4_read64`
unfoldable pub read64 : ℕ → ℕ → ℕ → ℕ → Cmd Bus Capture
unfolding read_word
read64 fuel addr prot old b =
    (assert (leb 64 b.data_width && (addr % 8 == 0)) >> read_word fuel 3 64 addr prot old) b

-- `simbus_axi4_read32`
unfoldable pub read32 : ℕ → ℕ → ℕ → ℕ → Cmd Bus Capture
unfolding read_word
read32 fuel addr prot old b =
    (assert (leb 32 b.data_width && (addr % 4 == 0)) >> read_word fuel 2 32 addr prot old) b

-- `simbus_axi4_read16`
unfoldable pub read16 : ℕ → ℕ → ℕ → ℕ → Cmd Bus Capture
unfolding read_word
read16 fuel addr prot old b =
    (assert (leb 16 b.data_width && (addr % 2 == 0)) >> read_word fuel 1 16 addr prot old) b

-- `simbus_axi4_read8`
unfoldable pub read8 : ℕ → ℕ → ℕ → ℕ → Cmd Bus Capture
unfolding read_word
read8 fuel addr prot old = read_word fuel 0 8 addr prot old
