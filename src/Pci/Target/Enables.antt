-- ===== src/Pci/Target/Enables.antt =====
-- libsimbus/simbus_pci_target.c: the byte enables of the first and of the last word of a PCI-X burst. An
-- enable is active at 0.
use Prim.Native.Nat.{bit_or}
use simbus.Base.{ℕ, ◌+◌, ◌-◌, ◌%◌, ◌^◌, ltb, ◌==◌, if◌then◌else◌}

-- The first word's enables in `make_ben4x`.
unfoldable pub first_ben4 : ℕ → ℕ → ℕ
first_ben4 lane byte_count =
    if lane == 0
    then if byte_count == 1
      then 0xe
      else if byte_count == 2
      then 0xc
      else if byte_count == 3
      then 0x8
      else 0x0
    else if lane == 1
    then if byte_count == 1 then 0xd else if byte_count == 2 then 0x9 else 0x1
    else if lane == 2
    then if byte_count == 1 then 0xb else 0x3
    else 0x7

-- The last word's.
unfoldable pub last_ben4 : ℕ → ℕ
last_ben4 over = if over == 0 then 0 else if over == 1 then 0xe else if over == 2 then 0xc else 0x8

-- `make_ben4x`: the first and the last enables.
unfoldable pub make_ben4x : ℕ → ℕ → ℕ × ℕ
unfolding first_ben4 last_ben4
make_ben4x addr byte_count =
    (0xf0 + first_ben4 (addr % 4) byte_count, 0xf0 + last_ben4 ((addr % 4 + byte_count) % 4))

-- 0xff & (-1 << k) where k is not zero, and 0 where it is.
unfoldable pub last_ben8 : ℕ → ℕ
last_ben8 k = if k == 0 then 0 else 256 - 2 ^ k

-- `make_ben8x`
unfoldable pub make_ben8x : ℕ → ℕ → ℕ × ℕ
unfolding last_ben8
make_ben8x addr byte_count =
    let ben1 = 2 ^ (addr % 8) - 1 in
    let ben2 = last_ben8 ((addr + byte_count) % 2 ^ 64 % 8) in
    (if ltb (addr % 8 + byte_count) 8 then bit_or ben1 ben2 else ben1, ben2)
