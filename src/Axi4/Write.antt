-- ===== src/Axi4/Write.antt =====
-- libsimbus/simbus_axi4_write.c: the single-word writes of an AXI4 master.
pub mod Lanes
pub mod Response
use simbus.Base.{
  ℕ, zero, suc, ◌+◌, ◌-◌, ◌*◌, ◌/◌, ◌%◌, ◌<◌, ltb, leb, ◌==◌, if◌then◌else◌, Bool, true, false,
  ◌&&◌, ◌||◌, List, [], ◌∷◌, get_or, set, replicate, test_bit, ℤ, pos, pred_ℤ, is_negative, ok,
  out_of_fuel, Cmd, and_then, assert, ◌>>=◌, ◌>>◌,
}
use simbus.Wire.{Bit, bit_0, bit_1, bit_x, is_bit, bit_of, word_bits}
use simbus.Wire.Words.{put_word, put_all}
use simbus.Axi4.{Address, Bus}
use simbus.Axi4.Clock.{next_posedge}

-- `simbus_axi4_resp_t`
pub data Resp : Type 0 where
  resp_okay resp_exokay resp_slverr resp_decerr : Resp

-- The strobes from `idx` on: those of the `bytes` lanes from `first` on are driven high.
unfoldable pub put_strobes : ℕ → ℕ → ℕ → ℕ → List Bit → List Bit
put_strobes zero idx first bytes bits = bits
put_strobes (suc n) idx first bytes bits =
    put_strobes n (idx + 1) first bytes
      (set bits idx (bit_of (leb first idx && ltb idx (first + bytes))))

-- The data lanes of a write of `n` bits whose first lane is `first`: X below it, the bits of the
-- word, and X from the bit `tail` of the word on.
unfoldable pub data_lanes : ℕ → ℕ → ℕ → ℕ → ℕ → List Bit → List Bit
unfolding put_word put_all
data_lanes width first n tail word bits =
    put_all bit_x (width - (first * 8 + tail)) (first * 8 + tail)
      (put_word n 0 word (first * 8) (put_all bit_x (first * 8) 0 bits))

-- `waddr_setup`, with `awvalid` raised as its callers do.
unfoldable pub address_setup : ℕ → ℕ → ℕ → ℕ → Address → Address
unfolding put_word
address_setup width addr size prot a = record {
  valid = bit_1;
  addr = put_word width 0 addr 0 a.addr;
  len = replicate 8 bit_0;
  size = word_bits 3 size;
  burst = bit_1 ∷ bit_0 ∷ [];
  lock = replicate 2 bit_0;
  cache = replicate 4 bit_0;
  prot = word_bits 3 prot;
  qos = replicate 4 bit_0;
  id = replicate 64 bit_0;
}

-- `waddr_clear`, with `awvalid` lowered as its caller does.
abbrev pub cleared_address : Address
cleared_address = record {
  valid = bit_0;
  addr = replicate 64 bit_x;
  len = replicate 8 bit_x;
  size = replicate 3 bit_x;
  burst = replicate 2 bit_x;
  lock = replicate 2 bit_x;
  cache = replicate 4 bit_x;
  prot = replicate 3 bit_x;
  qos = replicate 4 bit_x;
  id = replicate 64 bit_x;
}

-- The signals of a write of `n` bits with the AWSIZE `size`.
unfoldable pub drive_write : ℕ → ℕ → ℕ → ℕ → ℕ → ℕ → Bus → Bus
unfolding address_setup data_lanes put_strobes
drive_write size n tail addr prot word b =
    let first = addr % (b.data_width / 8) in
    record b {
      aw = address_setup b.addr_width addr size prot b.aw;
      wvalid = bit_1;
      wdata = data_lanes b.data_width first n tail word b.wdata;
      wstrb = put_strobes (b.data_width / 8) 0 first (n / 8) b.wstrb;
      bready = bit_1;
    }

-- The response code of BRESP.
unfoldable pub resp_code : List Bit → Resp
resp_code bresp =
    if is_bit (get_or bresp 1 bit_x) bit_1
    then if is_bit (get_or bresp 0 bit_x) bit_1 then resp_decerr else resp_slverr
    else if is_bit (get_or bresp 0 bit_x) bit_1
    then resp_exokay
    else resp_okay

-- The address is transferred.
unfoldable pub take_address : Bus → Bus
take_address b =
    if is_bit b.aw.valid bit_1 && is_bit b.awready bit_1
    then record b { aw = cleared_address }
    else b

-- The data are transferred.
unfoldable pub take_data : Bus → Bus
take_data b =
    if is_bit b.wvalid bit_1 && is_bit b.wready bit_1
    then record b { wvalid = bit_0; wdata = replicate 64 bit_x; wstrb = replicate 8 bit_x }
    else b

-- What the loop keeps: the timer and the response code.
pub record Progress : Type 0 where
  pub timer : ℤ
  pub code : Resp

-- The response is received, or a clock of the time limit is gone. When the limit is over, the code
-- compares `bready` with BIT_0 and drops the result: the signal stays as it is.
unfoldable pub take_response : Progress → Bus → Progress × Bus
unfolding resp_code
take_response p b =
    if is_bit b.bready bit_1 && is_bit b.bvalid bit_1
    then (record p { code = resp_code b.bresp }, record b { bready = bit_0 })
    else if is_bit b.bready bit_1
    then (
      record {
        timer = pred_ℤ p.timer;
        code = if is_negative (pred_ℤ p.timer) then resp_slverr else p.code;
      },
      b,
    )
    else (p, b)

-- The condition of the loop in `wait_for_resp`.
abbrev pub pending : Bus → Bool
pending b = (is_bit b.aw.valid bit_1 || is_bit b.wvalid bit_1) || is_bit b.bready bit_1

module _ (clock : Cmd Bus (Unit {0})) where
  -- The loop of `wait_for_resp`, given the clock.
  unfoldable pub resp_loop : ℕ → Progress → Cmd Bus Resp
  unfolding take_address take_data take_response
  resp_loop zero p b = out_of_fuel
  resp_loop (suc fuel) p b = elim (pending b) [
    | false ↦ ok p.code b
    | true ↦ and_then (clock b) (λ _ b'.
        let (p₂, b₂) = take_response p (take_data (take_address b')) in resp_loop fuel p₂ b₂)
  ]

  -- `wait_for_resp`; AXI4_RESP_TIMELIMIT is 1024.
  unfoldable pub wait_for_resp : ℕ → Cmd Bus Resp
  unfolding resp_loop
  wait_for_resp fuel = resp_loop fuel (record { timer = pos 1024; code = resp_okay })

-- What the four writes share. The division by the lanes of the bus and the stores to the arrays of
-- 64 bits must be possible.
unfoldable pub write_word : ℕ → ℕ → ℕ → ℕ → ℕ → ℕ → ℕ → Cmd Bus Resp
unfolding drive_write wait_for_resp
write_word fuel size n tail addr prot word b =
    let first = addr % (b.data_width / 8) in
    (assert (
          (leb 8 b.data_width && leb b.data_width 64)
          && (leb b.addr_width 64 && leb (first * 8 + n) 64))
        >> (λ b'. ok tt (drive_write size n tail addr prot word b'))
        >> wait_for_resp (next_posedge fuel) fuel)
      b

-- `simbus_axi4_write64`; the X values start 32 bits after the first lane, as in the code.
unfoldable pub write64 : ℕ → ℕ → ℕ → ℕ → Cmd Bus Resp
unfolding write_word
write64 fuel addr prot word b =
    (assert (leb 64 b.data_width && (addr % 8 == 0)) >> write_word fuel 3 64 32 addr prot word) b

-- `simbus_axi4_write32`
unfoldable pub write32 : ℕ → ℕ → ℕ → ℕ → Cmd Bus Resp
unfolding write_word
write32 fuel addr prot word b =
    (assert (leb 32 b.data_width && (addr % 4 == 0)) >> write_word fuel 2 32 32 addr prot word) b

-- `simbus_axi4_write16`
unfoldable pub write16 : ℕ → ℕ → ℕ → ℕ → Cmd Bus Resp
unfolding write_word
write16 fuel addr prot word b =
    (assert (leb 16 b.data_width && (addr % 2 == 0)) >> write_word fuel 1 16 16 addr prot word) b

-- `simbus_axi4_write8`
unfoldable pub write8 : ℕ → ℕ → ℕ → ℕ → Cmd Bus Resp
unfolding write_word
write8 fuel addr prot word = write_word fuel 0 8 8 addr prot word
