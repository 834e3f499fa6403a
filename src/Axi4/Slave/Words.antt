-- ===== src/Axi4/Slave/Words.antt =====
-- The words that libsimbus/simbus_axi4_slave.c takes from the data lanes and puts on them, against the
-- master of libsimbus/simbus_axi4_write.c and libsimbus/simbus_axi4_read.c.
use native.Mathlib.Nat.{mod-eq_of_lt, pow-le-pow_right, two-pow-succ}
use simbus.Base.{
  ℕ, zero, suc, ◌+◌, ◌-◌, ◌*◌, ◌/◌, ◌%◌, ◌^◌, ◌≤◌, ◌<◌, ◌≡◌, ◌∙◌, inl, inr, refl, ap, sym, ltb, leb,
  ◌==◌, if◌then◌else◌, true, Bool-cases, ℕ_discrete, List, arith, length, get_or, test_bit,
  test_bit_high, eq_of_test_bit, test_bit-zero, ok, Cmd, some,
}
use simbus.Wire.{Bit, bit_1, bit_x, is_bit}
use simbus.Wire.Vectors.{is_bit-bit_of}
use simbus.Wire.Words.{put_word, put_all, take_word, length-put_all}
use simbus.Wire.RoundTrip.{take_word-put_word}
use simbus.Axi4.{Bus}
use simbus.Axi4.Write.{Resp, data_lanes, drive_write}
use simbus.Axi4.Write.Lanes.{get_or-data_lanes}
use simbus.Axi4.Slave.Machine.{
  Device, Slave, gather, bits_to_uint32, with_memory, call_write, write_data, read_data, call_read,
  store_read,
}

-- The bit that a round adds, as a number.
abbrev bit_value : List Bit → ℕ → ℕ
bit_value bits i = if is_bit (get_or bits i bit_x) bit_1 then 1 else 0

bit_value-small : (bits : List Bit) (i : ℕ) → bit_value bits i < 2
bit_value-small bits i = elim (Bool-cases (is_bit (get_or bits i bit_x) bit_1)) [
  | inl e ↦ rw e (omega arith)
  | inr e ↦ rw e (omega arith)
]

bit_value-test :
    (bits : List Bit) (i x : ℕ)
    → ((x * 2 + bit_value bits i) % 2 == 1) ≡ is_bit (get_or bits i bit_x) bit_1
bit_value-test bits i x = elim (Bool-cases (is_bit (get_or bits i bit_x) bit_1)) [
  | inl e ↦ rw e (ground arith)
  | inr e ↦ rw e (ground arith)
]

-- One round of the loop in a word that has room for it: nothing is cut off, and the word stays small.
next_word : (w m x r : ℕ) → x < 2 ^ m → suc m ≤ w → r < 2 → x * 2 % 2 ^ w + r ≡ x * 2 + r
next_word w m x r small fits bit =
    let room : 2 ^ suc m ≤ 2 ^ w = pow-le-pow_right (omega arith) fits in
    let twice : 2 ^ suc m ≡ 2 ^ m + 2 ^ m = two-pow-succ m in
    ap (λ t. t + r) (mod-eq_of_lt (omega arith))

next_small : (m x r : ℕ) → x < 2 ^ m → r < 2 → x * 2 + r < 2 ^ suc m
next_small m x r small bit = let twice : 2 ^ suc m ≡ 2 ^ m + 2 ^ m = two-pow-succ m in omega arith

half_word : (x r : ℕ) → r < 2 → (x * 2 + r) / 2 ≡ x
half_word x r bit = omega arith

halved : (x r k : ℕ) → r < 2 → test_bit (x * 2 + r) (suc k) ≡ test_bit x k
unfolding test_bit
halved x r k bit = ap (λ t. test_bit t k) (half_word x r bit)

-- Above the gathered bits are those of the word before.
test_bit-gather_high :
    (w m n base : ℕ) (bits : List Bit) (x k : ℕ)
    → x < 2 ^ m
    → m + n ≤ w
    → test_bit (gather w n base bits x) (n + k) ≡ test_bit x k
unfolding gather
test_bit-gather_high w m zero base bits x k small fits = ap (test_bit x) (omega arith)
test_bit-gather_high w m (suc n) base bits x k small fits =
    let r = bit_value bits (base + n) in
    let bit = bit_value-small bits (base + n) in
    ap (λ t. test_bit (gather w n base bits t) (suc n + k))
      (next_word w m x r small (omega arith) bit)
    ∙ ap (test_bit (gather w n base bits (x * 2 + r))) (omega arith)
    ∙ test_bit-gather_high w (suc m) n base bits (x * 2 + r) (suc k) (next_small m x r small bit)
        (omega arith)
    ∙ halved x r k bit

-- The gathered bits are those of the lanes.
test_bit-gather :
    (w m n base : ℕ) (bits : List Bit) (x k : ℕ)
    → x < 2 ^ m
    → m + n ≤ w
    → k < n
    → test_bit (gather w n base bits x) k ≡ is_bit (get_or bits (base + k) bit_x) bit_1
unfolding gather test_bit
test_bit-gather w m zero base bits x k small fits low = absurd (omega arith)
test_bit-gather w m (suc n) base bits x k small fits low =
    let r = bit_value bits (base + n) in
    let bit = bit_value-small bits (base + n) in
    let small' = next_small m x r small bit in
    ap (λ t. test_bit (gather w n base bits t) k) (next_word w m x r small (omega arith) bit)
    ∙ elim (ℕ_discrete k n) [
      | yes e ↦
          ap (test_bit (gather w n base bits (x * 2 + r))) {x = k} {y = n + 0} (omega arith)
          ∙ test_bit-gather_high w (suc m) n base bits (x * 2 + r) 0 small' (omega arith)
          ∙ bit_value-test bits (base + n) x
          ∙ ap (λ t. is_bit (get_or bits (base + t) bit_x) bit_1) (sym e)
      | no ne ↦
          test_bit-gather w (suc m) n base bits (x * 2 + r) k small' (omega arith) (ground arith)
    ]

-- A word of `n` bits that the master drives on the lanes is gathered as it was.
gather-data_lanes :
    (w n width first tail word : ℕ) (bits : List Bit)
    → n ≤ w
    → word < 2 ^ n
    → n ≤ tail
    → first * 8 + n ≤ length bits
    → gather w n (first * 8) (data_lanes width first n tail word bits) 0 ≡ word
gather-data_lanes w n width first tail word bits fits small late room =
    let lanes = data_lanes width first n tail word bits in
    eq_of_test_bit _ _ (λ k. elim (Bool-cases (ltb k n)) [
      | inl low ↦
          test_bit-gather w 0 n (first * 8) lanes 0 k (omega arith) (omega arith) (ground arith)
          ∙ ap (λ t. is_bit t bit_1)
              (get_or-data_lanes width first n tail word bits k (ground arith) (ground arith) room)
          ∙ is_bit-bit_of (test_bit word k)
      | inr high ↦
          ap (test_bit (gather w n (first * 8) lanes 0)) (ground arith)
          ∙ test_bit-gather_high w 0 n (first * 8) lanes 0 (k - n) (omega arith) (omega arith)
          ∙ test_bit-zero (k - n)
          ∙ sym (test_bit_high word n k small (ground arith))
    ])

-- What `write32` does when its lanes reach the slave: if the bus of both has at least 32 bits, the
-- slave has stashed the size of four bytes and an address that is a multiple of four and whose lanes
-- end within 64 bits, and its data lanes are those that the master drives for that address and a
-- word below 2^32, then the slave calls `write32` of its device with that address and that word,
-- and answers with the response of the device.
pub write_data-drive_write :
    {D : Type 0} (dev : Device D) (write : ℕ → ℕ → ℕ → Cmd D Resp) (s : Slave D) (m : Bus)
    (prot word : ℕ)
    → dev.write32 ≡ some write
    → s.wsize ≡ 2
    → s.bus.data_width ≡ m.data_width
    → s.bus.wdata ≡ (drive_write 2 32 32 s.waddr prot word m).wdata
    → leb 32 m.data_width ≡ true
    → s.waddr % 4 ≡ 0
    → s.waddr % (m.data_width / 8) * 8 + 32 ≤ 64
    → length m.wdata ≡ 64
    → word < 2 ^ 32
    → write_data dev s ≡ with_memory s (write s.waddr s.wprot word s.memory)
unfolding write_data call_write bits_to_uint32 drive_write
write_data-drive_write dev write s m prot word has size width lanes wide aligned room len small =
    let inside : leb (s.waddr % (m.data_width / 8) * 8 + 32) 64 ≡ true = ground arith in
    let even : (s.waddr % 4 == 0) ≡ true = ground arith in
    let got : gather 32 32 (s.waddr % (m.data_width / 8) * 8) s.bus.wdata 0 ≡ word =
      ap (λ t. gather 32 32 (s.waddr % (m.data_width / 8) * 8) t 0) lanes
      ∙ gather-data_lanes 32 32 m.data_width (s.waddr % (m.data_width / 8)) 32 word m.wdata
          (omega arith) small (omega arith) (omega arith) in
    rw (has, size, width, wide, even, inside, got) refl

-- When `read32` of the device leaves a word below 2^32, for a stashed size of four bytes, `read_data`
-- returns the response of the device, and the master takes that word from the data lanes that it
-- leaves, if the bus has 32 to 64 bits and the lanes of the address end within 64 bits.
pub read_data-take_word :
    {D : Type 0} (dev : Device D) (read : ℕ → ℕ → ℕ → Cmd D (Resp × ℕ)) (s : Slave D) (resp : Resp)
    (word : ℕ) (after : D)
    → dev.read32 ≡ some read
    → read s.raddr s.rprot 0 s.memory ≡ ok (resp, word) after
    → s.rsize ≡ 2
    → leb 32 s.bus.data_width ≡ true
    → leb s.bus.data_width 64 ≡ true
    → s.raddr % (s.bus.data_width / 8) * 8 + 32 ≤ 64
    → length s.bus.rdata ≡ 64
    → word < 2 ^ 32
    → (s' : Slave D) × (read_data dev s ≡ ok resp s')
      × (take_word 32 0 (s.raddr % (s.bus.data_width / 8) * 8) s'.bus.rdata 0 ≡ word)
unfolding read_data call_read store_read with_memory
read_data-take_word dev read s resp word after has got size wide narrow room len small =
    let base = s.raddr % (s.bus.data_width / 8) * 8 in
    let inside : leb (base + 32) 64 ≡ true = ground arith in
    let cleared = put_all bit_x s.bus.data_width 0 s.bus.rdata in
    (
      record s { memory = after; bus = record (s.bus) { rdata = put_word 32 0 word base cleared } },
      rw (has, size, wide, narrow, got, inside) refl,
      take_word-put_word 32 base word cleared small
          (rw (length-put_all bit_x s.bus.data_width 0 s.bus.rdata) (omega arith)),
    )
