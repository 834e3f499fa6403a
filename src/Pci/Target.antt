-- ===== src/Pci/Target.antt =====
-- libsimbus/simbus_pci_target.c: how a PCI target decodes what is on the bus.
pub mod Enables
pub mod Memory
pub mod Reads
pub mod Writes
pub mod Machine
pub mod Regions
pub mod Idle
pub mod Lanes
use Prim.Native.Nat.{bit_and}
use simbus.Base.{
  ℕ, suc, ◌+◌, ltb, ◌==◌, if◌then◌else◌, Bool, Option, none, some, List, [], ◌∷◌, get_or,
}
use simbus.Wire.{Bit, bit_1, bit_x, is_bit}
use simbus.Pci.{Bus, Translation}
use simbus.Pci.Target.Memory.{get_addr}

-- `get_idsel`
unfoldable pub get_idsel : Bus → Bool
get_idsel b = is_bit (get_or b.pci_ad (16 + b.ident) bit_x) bit_1

-- `match_mem_target`: the number of the first region from `idx` on that has the address.
unfoldable pub match_regions : ℕ → ℕ → List Translation → Option ℕ
match_regions addr idx [] = none
match_regions addr idx (cur ∷ rest) =
    let later = match_regions addr (idx + 1) rest in
    if cur.mask == 0
    then later
    else if bit_and cur.mask cur.base == bit_and cur.mask addr
    then some idx
    else later

unfoldable pub match_mem_target : Bus → Option ℕ
unfolding match_regions get_addr
match_mem_target b = match_regions (get_addr b) 0 b.mem_target
