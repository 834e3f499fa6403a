-- ===== src/Pci/Address.antt =====
-- What the master of libsimbus/simbus_pci.c drives, as the target of libsimbus/simbus_pci_target.c reads it.
use native.Mathlib.Nat.{mod-eq_of_lt, two-pow-succ}
use simbus.Base.{
  ℕ, zero, suc, ◌+◌, ◌*◌, ◌/◌, ◌%◌, ◌^◌, ◌≤◌, ◌<◌, ◌≡◌, ◌∙◌, refl, ap, if◌then◌else◌, Bool, true,
  false, List, arith, length, get_or, test_bit, ◌==◌, test_bit-over_high, test_bit-zero,
}
use simbus.Wire.{Bit, bit_1, bit_x, bit_z, is_bit, bit_of}
use simbus.Wire.Vectors.{is_bit-bit_of}
use simbus.Wire.Words.{
  put_word, put_all, take_word, length-put_word, get_or-put_word, get_or-put_all_below,
}
use simbus.Wire.RoundTrip.{take_word-low_bits}
use simbus.Pci.{Bus}
use simbus.Pci.Master.{drive_address, drive_write}
use simbus.Pci.Transfers.{make_type0_addr}
use simbus.Pci.Target.{get_idsel}
use simbus.Pci.Target.Memory.{get_ad, get_c_be, get_addr}
use simbus.Pci.Target.Machine.{target_dac}

-- The low bits of a vector on which a word is put from its first bit on.
get_or-put_low :
    (n word : ℕ) (bits : List Bit) (k : ℕ)
    → k < n
    → n ≤ length bits
    → get_or (put_word n 0 word 0 bits) k bit_x ≡ bit_of (test_bit word k)
get_or-put_low n word bits k low room =
    ap (λ t. get_or (put_word n 0 word 0 bits) t bit_x) {x = k} {y = 0 + k} (omega arith)
    ∙ get_or-put_word n 0 word 0 bits k (omega arith) (omega arith) (omega arith)

take_word-put_low :
    (n m word : ℕ) (bits : List Bit)
    → n ≤ m
    → m ≤ length bits
    → take_word n 0 0 (put_word m 0 word 0 bits) 0 ≡ word % 2 ^ n
take_word-put_low n m word bits le room =
    take_word-low_bits n word (put_word m 0 word 0 bits)
      (λ k h. get_or-put_low m word bits k (omega arith) room)

take_word-put_fill :
    (v : Bit) (n tail word : ℕ) (bits : List Bit)
    → n ≤ length bits
    → word < 2 ^ n
    → take_word n 0 0 (put_all v tail n (put_word n 0 word 0 bits)) 0 ≡ word
take_word-put_fill v n tail word bits room small =
    take_word-low_bits n word (put_all v tail n (put_word n 0 word 0 bits)) (λ k h.
      get_or-put_all_below v tail n (put_word n 0 word 0 bits) k h
      ∙ get_or-put_low n word bits k h room)
    ∙ mod-eq_of_lt small

-- When the AD and C/BE# signals of a target are those that the master drives for a 32-bit write, of a
-- word below 2^32 with byte enables below 16, on vectors of 64 and 8 bits, the target reads that
-- word and those byte enables.
pub get_ad-drive_write :
    (m t : Bus) (val ben : ℕ)
    → val < 2 ^ 32
    → ben < 2 ^ 4
    → length m.out_ad ≡ 64
    → length m.out_c_be ≡ 8
    → t.pci_ad ≡ (drive_write val ben false m).out_ad
    → t.pci_c_be ≡ (drive_write val ben false m).out_c_be
    → (get_ad 32 t ≡ val) × (get_c_be 4 t ≡ ben)
unfolding get_ad get_c_be drive_write
get_ad-drive_write m t val ben small few ad_len be_len ad be = (
  ap (λ v. take_word 32 0 0 v 0) ad
      ∙ take_word-put_fill bit_z 32 32 val m.out_ad (omega arith) small,
  ap (λ v. take_word 4 0 0 v 0) be ∙ take_word-put_fill bit_1 4 4 ben m.out_c_be (omega arith) few,
)

low_half :
    (m : Bus) (addr : ℕ) (flag64 : Bool)
    → length m.out_ad ≡ 64
    → take_word 32 0 0 (drive_address addr flag64 m).out_ad 0 ≡ addr % 2 ^ 32
unfolding drive_address
low_half m addr true len = take_word-put_low 32 64 addr m.out_ad (omega arith) (omega arith)
low_half m addr false len = take_word-put_low 32 32 addr m.out_ad (omega arith) (omega arith)

length-drive_address :
    (m : Bus) (addr : ℕ) (flag64 : Bool)
    → length (drive_address addr flag64 m).out_ad ≡ length m.out_ad
unfolding drive_address
length-drive_address m addr flag64 = length-put_word (if flag64 then 64 else 32) 0 addr 0 m.out_ad

halves :
    (addr : ℕ) → addr < 2 ^ 64 → (addr / 2 ^ 32 % 2 ^ 32 * 2 ^ 32 + addr % 2 ^ 32) % 2 ^ 64 ≡ addr
halves addr small = omega arith

-- An address below 2^64 that a master drives on 64 bits of AD reaches the target: it stashes the low
-- half of the address in the dual address cycle, and in the cycle after it, where AD holds the high
-- half, the address that it decodes is that of the master.
pub get_addr-drive_address :
    (m t : Bus) (addr : ℕ) (flag64 : Bool)
    → addr < 2 ^ 64
    → length m.out_ad ≡ 64
    → t.pci_ad ≡ (drive_address addr flag64 m).out_ad
    → get_addr (record (target_dac t) {
      pci_ad = put_word 32 0 (addr / 2 ^ 32) 0 (drive_address addr flag64 m).out_ad;
    })
      ≡ addr
unfolding get_addr target_dac get_ad
get_addr-drive_address m t addr flag64 small len first =
    let room : 32 ≤ length (drive_address addr flag64 m).out_ad =
      rw (length-drive_address m addr flag64) (omega arith) in
    ap (λ v. (v * 2 ^ 32 + take_word 32 0 0 t.pci_ad 0) % 2 ^ 64)
      (take_word-put_low 32 32 (addr / 2 ^ 32) (drive_address addr flag64 m).out_ad (omega arith)
        room)
    ∙ ap (λ v. (addr / 2 ^ 32 % 2 ^ 32 * 2 ^ 32 + take_word 32 0 0 v 0) % 2 ^ 64) first
    ∙ ap (λ v. (addr / 2 ^ 32 % 2 ^ 32 * 2 ^ 32 + v) % 2 ^ 64) (low_half m addr flag64 len)
    ∙ halves addr small

never : (i : ℕ) → false ≡ (suc i == 0)
never i = ground arith

never_zero : (d : ℕ) → false ≡ (0 == suc d)
never_zero d = ground arith

same_suc : (i d : ℕ) → (i == d) ≡ (suc i == suc d)
same_suc i d = ground arith

test_bit-power : (d i : ℕ) → test_bit (2 ^ d) i ≡ (i == d)
unfolding test_bit
test_bit-power zero zero = refl
test_bit-power zero (suc i) = test_bit-zero i ∙ never i
test_bit-power (suc d) zero =
    let twice : 2 ^ suc d ≡ 2 ^ d + 2 ^ d = two-pow-succ d in
    let even : (2 ^ suc d % 2 == 1) ≡ false = ground arith in even ∙ never_zero d
test_bit-power (suc d) (suc i) =
    let twice : 2 ^ suc d ≡ 2 ^ d + 2 ^ d = two-pow-succ d in
    let half : 2 ^ suc d / 2 ≡ 2 ^ d = omega arith in
    ap (λ t. test_bit t i) half ∙ test_bit-power d i ∙ same_suc i d

-- A configuration cycle for a device and function number below 128 selects the device of its number
-- and no other: with the address of the cycle on AD, of 64 bits, the IDSEL of a target below 16 is
-- 1 if and only if its number is the device's.
pub get_idsel-make_type0_addr :
    (m t : Bus) (dfn reg : ℕ)
    → dfn < 128
    → t.ident < 16
    → length m.out_ad ≡ 64
    → t.pci_ad ≡ (drive_address (make_type0_addr dfn reg) false m).out_ad
    → get_idsel t ≡ (t.ident == dfn / 8)
unfolding get_idsel make_type0_addr drive_address
get_idsel-make_type0_addr m t dfn reg few below len ad =
    let rest = reg % 256 / 4 * 4 + dfn * 256 in
    ap (λ v. is_bit (get_or v (16 + t.ident) bit_x) bit_1) ad
    ∙ ap (λ v. is_bit v bit_1)
        (get_or-put_low 32 (make_type0_addr dfn reg) m.out_ad (16 + t.ident) (omega arith)
          (omega arith))
    ∙ is_bit-bit_of (test_bit (make_type0_addr dfn reg) (16 + t.ident))
    ∙ ap (λ v. test_bit v (16 + t.ident)) {x = rest + 0x10000 * 2 ^ (dfn / 8)}
        {y = rest + 2 ^ (dfn / 8) * 2 ^ 16} (omega arith)
    ∙ test_bit-over_high rest (2 ^ (dfn / 8)) 16 t.ident (omega arith)
    ∙ test_bit-power (dfn / 8) t.ident
