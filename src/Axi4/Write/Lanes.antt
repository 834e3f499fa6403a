-- ===== src/Axi4/Write/Lanes.antt =====
-- The data and strobe signals that the writes of libsimbus/simbus_axi4_write.c drive.
use simbus.Base.{
  ℕ, zero, suc, ◌+◌, ◌-◌, ◌*◌, ◌/◌, ◌%◌, ◌≤◌, ◌<◌, ◌≡◌, ◌∙◌, refl, subst, ltb, leb, ◌&&◌, List,
  ℕ_discrete, arith, length, get_or, set, length-set, get_or-set_self, get_or-set_ne, test_bit,
}
use simbus.Wire.{Bit, bit_x, bit_of}
use simbus.Axi4.{Bus}
use simbus.Wire.Words.{put_word, put_all, length-put_all, get_or-put_word, get_or-put_all_below}
use simbus.Axi4.Write.{put_strobes, data_lanes, drive_write}

-- A bit of the word stands on its lane, unless the X values from `tail` on reach it.
pub get_or-data_lanes :
    (width first n tail word : ℕ) (bits : List Bit) (j : ℕ)
    → j < n
    → j < tail
    → first * 8 + n ≤ length bits
    → get_or (data_lanes width first n tail word bits) (first * 8 + j) bit_x
      ≡ bit_of (test_bit word j)
unfolding data_lanes
get_or-data_lanes width first n tail word bits j inside early room =
    let below = put_all bit_x (first * 8) 0 bits in
    get_or-put_all_below bit_x (width - (first * 8 + tail)) (first * 8 + tail)
      (put_word n 0 word (first * 8) below) (first * 8 + j) (omega arith)
    ∙ get_or-put_word n 0 word (first * 8) below j (omega arith) (omega arith)
        (rw (length-put_all bit_x (first * 8) 0 bits) (omega arith))

get_or-put_strobes_below :
    (n idx first bytes : ℕ) (bits : List Bit) (i : ℕ)
    → i < idx
    → get_or (put_strobes n idx first bytes bits) i bit_x ≡ get_or bits i bit_x
unfolding put_strobes
get_or-put_strobes_below zero idx first bytes bits i h = refl
get_or-put_strobes_below (suc n) idx first bytes bits i h =
    let v = bit_of (leb first idx && ltb idx (first + bytes)) in
    get_or-put_strobes_below n (idx + 1) first bytes (set bits idx v) i (omega arith)
    ∙ get_or-set_ne bits idx i v bit_x (λ e. omega arith)

get_or-put_strobes :
    (n idx first bytes : ℕ) (bits : List Bit) (i : ℕ)
    → idx ≤ i
    → i < idx + n
    → i < length bits
    → get_or (put_strobes n idx first bytes bits) i bit_x
      ≡ bit_of (leb first i && ltb i (first + bytes))
unfolding put_strobes
get_or-put_strobes zero idx first bytes bits i low high room = absurd (omega arith)
get_or-put_strobes (suc n) idx first bytes bits i low high room =
    let v = bit_of (leb first idx && ltb idx (first + bytes)) in
    elim (ℕ_discrete idx i) [
      | yes e ↦
          get_or-put_strobes_below n (idx + 1) first bytes (set bits idx v) i (omega arith)
          ∙ subst
              (λ t. get_or (set bits idx v) t bit_x ≡ bit_of (leb first t && ltb t (first + bytes)))
              e (get_or-set_self bits idx v bit_x (omega arith))
      | no ne ↦
          get_or-put_strobes n (idx + 1) first bytes (set bits idx v) i (ground arith) (omega arith)
            (rw (length-set bits idx v) room)
    ]

bytes_of_bits : (bytes : ℕ) → bytes ≡ bytes * 8 / 8
bytes_of_bits bytes = omega arith

-- The lane of the bus on which a write at `addr` starts.
abbrev pub first_lane : Bus → ℕ → ℕ
first_lane b addr = addr % (b.data_width / 8)

-- A write of `bytes` bytes, driven as the 8-bit, 16-bit and 32-bit writes do, raises the strobes of
-- exactly the `bytes` lanes from that of its address on, and drives the bits of the word on these
-- lanes, on a bus of at most 64 bits that has room for them there.
pub drive_write-lanes :
    (b : Bus) (size bytes addr prot word : ℕ)
    → length b.wdata ≡ 64
    → length b.wstrb ≡ 8
    → b.data_width ≤ 64
    → first_lane b addr * 8 + bytes * 8 ≤ 64
    → ((lane : ℕ)
        → lane < b.data_width / 8
        → get_or ((drive_write size (bytes * 8) (bytes * 8) addr prot word b).wstrb) lane bit_x
          ≡ bit_of (leb (first_lane b addr) lane && ltb lane (first_lane b addr + bytes)))
      × ((k : ℕ)
          → k < bytes * 8
          → get_or
              ((drive_write size (bytes * 8) (bytes * 8) addr prot word b).wdata)
              (first_lane b addr * 8 + k)
              bit_x
            ≡ bit_of (test_bit word k))
unfolding drive_write
drive_write-lanes b size bytes addr prot word wide strobes width room = (
  (λ lane h.
      subst
        (λ t.
          get_or (put_strobes (b.data_width / 8) 0 (first_lane b addr) t b.wstrb) lane bit_x
          ≡ bit_of (leb (first_lane b addr) lane && ltb lane (first_lane b addr + bytes)))
        (bytes_of_bits bytes)
        (get_or-put_strobes (b.data_width / 8) 0 (first_lane b addr) bytes b.wstrb lane
          (omega arith) (omega arith) (omega arith))),
  (λ k h.
      get_or-data_lanes b.data_width (first_lane b addr) (bytes * 8) (bytes * 8) word b.wdata k h h
        (omega arith)),
)
