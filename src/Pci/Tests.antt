-- ===== src/Pci/Tests.antt =====
-- Runs of the PCI port of libsimbus/simbus_pci.c, and the theorems about it at concrete inputs.
use simbus.Base.{
  ℕ, zero, suc, ◌+◌, ◌/◌, ◌%◌, ◌^◌, ◌<◌, ◌≡◌, ◌==◌, refl, true, false, not, List, [], ◌∷◌, ◌++◌,
  arith, get_or, replicate, test_bit, ok, out_of_fuel, none, some,
}
use simbus.Wire.{Bit, bit_0, bit_1, bit_x, bit_z, bit_of}
use simbus.Wire.Words.{put_word}
use simbus.Session.{Socket}
use simbus.Session.Text.{codes}
use simbus.Pci.{Bus, init_bus, targ_idle}
use simbus.Pci.Clock.{parity, par_enables}
use simbus.Pci.Master.{drive_address, drive_write}
use simbus.Pci.Transfers.{make_type0_addr}
use simbus.Pci.Parity.{ones, Known, known_0, known_1, parity-even}
use simbus.Pci.Address.{get_ad-drive_write, get_addr-drive_address, get_idsel-make_type0_addr}
use simbus.Pci.Target.{get_idsel, match_mem_target}
use simbus.Pci.Target.Enables.{make_ben4x}
use simbus.Pci.Target.Memory.{Handlers, get_ad, get_c_be, get_addr}
use simbus.Pci.Target.Machine.{target_dac, target_state_machine}
use simbus.Pci.Target.Regions.{Picks, match_mem_target-Picks}
use simbus.Pci.Target.Idle.{passed_over, target_state_machine-unaddressed}
use simbus.Pci.Target.Lanes.{lane_used, make_ben4x-first}

abbrev closed_socket : Socket
closed_socket = record { incoming = []; sent = []; closed = false }

-- The device 3 of a bus.
abbrev pub board : Bus
board = init_bus [] (codes "brd") closed_socket 3

-- The board drives a word of which the three lowest bits are 1, and all byte enables at 0.
abbrev driving : Bus
driving = record board {
  out_ad = (bit_1 ∷ (bit_1 ∷ (bit_1 ∷ replicate 29 bit_0))) ++ replicate 32 bit_z;
  out_c_be = replicate 8 bit_0;
}

zeros : (n i : ℕ) (rest : List Bit) → i < n → Known (get_or (replicate n bit_0 ++ rest) i bit_x)
zeros zero i rest h = absurd (omega arith)
zeros (suc n) zero rest h = known_0
zeros (suc n) (suc i) rest h = zeros n i rest (omega arith)

driving-Known : (i : ℕ) → i < 32 → Known (get_or driving.out_ad i bit_x)
driving-Known zero h = known_1
driving-Known (suc zero) h = known_1
driving-Known (suc (suc zero)) h = known_1
driving-Known (suc (suc (suc i))) h = zeros 29 i (replicate 32 bit_z) (omega arith)

enables-Known : (i : ℕ) → i < 4 → Known (get_or (par_enables driving) i bit_x)
enables-Known i h = zeros 4 i (replicate 4 bit_0) h

parity_example :
    parity driving ≡ bit_of ((ones 32 0 driving.out_ad + ones 4 0 (par_enables driving)) % 2 == 1)
parity_example = parity-even driving driving-Known enables-Known

parity_run : parity driving ≡ bit_1
unfolding parity
parity_run = refl

-- The board sees what the master drives.
abbrev written : Bus
written = record board {
  pci_ad = (drive_write 0xdeadbeef 6 false board).out_ad;
  pci_c_be = (drive_write 0xdeadbeef 6 false board).out_c_be;
}

get_ad_example : (get_ad 32 written ≡ 0xdeadbeef) × (get_c_be 4 written ≡ 6)
get_ad_example =
    get_ad-drive_write board written 0xdeadbeef 6 (omega arith) (omega arith) refl refl refl refl

abbrev addressed : Bus
addressed = record board { pci_ad = (drive_address 0x1234567890 true board).out_ad }

get_addr_example :
    get_addr (record (target_dac addressed) {
      pci_ad =
          put_word 32 0 (0x1234567890 / 2 ^ 32) 0 (drive_address 0x1234567890 true board).out_ad;
    })
    ≡ 0x1234567890
get_addr_example = get_addr-drive_address board addressed 0x1234567890 true (omega arith) refl refl

abbrev configured : Bus
configured = record board { pci_ad = (drive_address (make_type0_addr 0x19 16) false board).out_ad }

get_idsel_example : get_idsel configured ≡ (3 == 0x19 / 8)
get_idsel_example =
    get_idsel-make_type0_addr board configured 0x19 16 (omega arith) (omega arith) refl refl

abbrev no_handlers : Handlers
no_handlers = record { on_need = λ fun addr ben b. ok 0 b; on_recv = λ fun addr val ben b. ok tt b }

-- A memory write that is meant for another device.
abbrev elsewhere : Bus
elsewhere = record board {
  pci_ad = replicate 64 bit_0;
  pci_c_be = bit_1 ∷ (bit_1 ∷ (bit_1 ∷ replicate 5 bit_0));
}

unaddressed_example :
    target_state_machine no_handlers 0 (λ b. out_of_fuel) (λ b. out_of_fuel) elsewhere
    ≡ ok tt (passed_over targ_idle elsewhere)
unfolding match_mem_target get_idsel
unaddressed_example =
    target_state_machine-unaddressed no_handlers 0 (λ b. out_of_fuel) (λ b. out_of_fuel) elsewhere
      (omega arith) refl refl

-- Two regions that overlap.
abbrev mapped : Bus
mapped = record elsewhere {
  mem_target =
      record { flags = 0; base = 0x1000; mask = 0xf000; need32 = none; recv32 = none }
      ∷ (record { flags = 0; base = 0; mask = 0xff000000; need32 = none; recv32 = none }
          ∷ (record { flags = 0; base = 0; mask = 0xf0000000; need32 = none; recv32 = none } ∷ []));
}

regions_example : Picks (get_addr mapped) mapped.mem_target (match_mem_target mapped)
regions_example = match_mem_target-Picks mapped

regions_run : match_mem_target mapped ≡ some 1
unfolding match_mem_target
regions_run = refl

make_ben4x_example : test_bit (make_ben4x 0x1002 5).0 1 ≡ not (lane_used (0x1002 % 4) 5 1)
make_ben4x_example = make_ben4x-first 0x1002 5 1 (omega arith) (omega arith)

-- The name a.bin
abbrev file_name : List ℕ
file_name = 97 ∷ (46 ∷ (98 ∷ (105 ∷ (110 ∷ []))))
