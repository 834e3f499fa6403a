-- ===== src/Tlp/Tests.antt =====
-- Runs of the PCIe TLP root of libsimbus/simbus_pcie_tlp*.c, and the theorems about it at concrete
-- inputs.
use simbus.Base.{
  ℕ, ◌≡◌, ◌≢◌, ◌+◌, ◌<◌, ◌/◌, inl, refl, some, false, true, List, [], ◌∷◌, ◌++◌, arith, ok,
  out_of_fuel, Cmd, test_bit, ltb, get_or, replicate,
}
use simbus.Wire.{bit_1, word_bits, ready_signal}
use simbus.Wire.Time.{print_time}
use simbus.Session.{Socket}
use simbus.Session.Text.{codes}
use simbus.Tlp.{Bus, init_bus, ready_line}
use simbus.Tlp.Stream.{drive, recv_lanes, lane_order}
use simbus.Tlp.Stream.Beats.{stored, beat, recv_lanes-drive}
use simbus.Tlp.Link.{Handlers, complete_recv, next_posedge, send_tlp}
use simbus.Tlp.Link.Dispatch.{complete_recv-intx}
use simbus.Tlp.Link.Sending.{ticks, Idle, send_tlp-ready}
use simbus.Tlp.Link.Finish.{next_posedge-hangs}
use simbus.Tlp.Requests.{write_enables, write_tlp, read_result}
use simbus.Tlp.Requests.Enables.{write_enables_single}
use simbus.Tlp.Requests.Headers.{Delivers, dispatch-write_tlp}
use simbus.Tlp.Requests.Reads.{complete_recv-read}

-- Two callbacks: a write puts the sum of the address and the number of the callback in the
-- interrupt mask, a read gives two fixed words.
abbrev device : Handlers
device = record {
  on_write = λ fun cookie addr words first last b. ok tt (record b { intx_mask = addr + fun });
  on_read = λ fun cookie addr words first last b. ok (0x11223344 ∷ 0xff ∷ []) b;
}

abbrev idle : Socket
idle = record { incoming = []; sent = []; closed = false }

abbrev root : Bus
root = init_bus (codes "root") idle 0

-- A receiver that is driven two words.
abbrev driven : Bus
driven = record root {
  s_axis_tx_tdata = word_bits 32 0xdeadbeef ++ word_bits 32 5;
  s_axis_tx_tkeep = replicate 4 bit_1 ++ replicate 4 bit_1;
}

recv_lanes_example :
    recv_lanes lane_order 0 0 driven ≡ ok 0 (stored (beat (0xdeadbeef ∷ 5 ∷ 7 ∷ [])) driven)
unfolding drive
recv_lanes_example =
    recv_lanes-drive root driven 0xdeadbeef (5 ∷ 7 ∷ []) refl refl (omega arith) (omega arith)

abbrev loaded : List ℕ → Bus
loaded words = record root {
  s_tlp_buf = words ++ replicate 1024 0;
  s_tlp_cnt = 9;
  write_fun = some (4, 1);
  read_fun = some (5, 1);
}

dispatch_example :
    Delivers device
      (loaded (write_tlp 1 0x100000010 (9 ∷ 10 ∷ []) 1 6))
      4
      1
      0x100000010
      (9 ∷ 10 ∷ [])
      (write_enables 2 1 6)
dispatch_example =
    dispatch-write_tlp device (loaded (write_tlp 1 0x100000010 (9 ∷ 10 ∷ []) 1 6)) 4 1 1 0x100000010
      1 6 (9 ∷ 10 ∷ []) (replicate 1024 0) refl refl (omega arith) (omega arith) (omega arith)

abbrev no_send : List ℕ → Cmd Bus (Unit {0})
no_send tlp b = ok tt b

abbrev asked : Bus
asked = loaded (2 ∷ 0x01f802ff ∷ 0x80 ∷ [])

read_example :
    (tlp : List ℕ) × (complete_recv device no_send asked ≡ ok tt (record asked { s_tlp_cnt = 0 }))
    × (get_or tlp 2 0 / 256 ≡ 0x01f802)
    × (read_result 2 tlp root ≡ ok (0x11223344 ∷ 0xff ∷ []) root)
read_example =
    complete_recv-read device no_send asked asked root 5 1 0x80 (0x11223344 ∷ 0xff ∷ [])
      (omega arith) (inl (refl, refl)) refl refl (omega arith) refl

abbrev interrupted : Bus
interrupted = loaded (0x30000000 ∷ 0x22 ∷ [])

intx_example :
    (◌≡◌ {A = ℕ} 0x20 0x20
      → (mask : ℕ) × (complete_recv device no_send interrupted
          ≡ ok tt (record interrupted { intx_mask = mask; s_tlp_cnt = 0 }))
        × (test_bit mask 2 ≡ true)
        × ((j : ℕ) → ◌≢◌ {A = ℕ} 2 j → test_bit mask j ≡ test_bit 0 j))
    × (◌≡◌ {A = ℕ} 0x20 0x24
        → (mask : ℕ) × (complete_recv device no_send interrupted
            ≡ ok tt (record interrupted { intx_mask = mask; s_tlp_cnt = 0 }))
          × (test_bit mask 2 ≡ false)
          × ((j : ℕ) → ◌≢◌ {A = ℕ} 2 j → test_bit mask j ≡ test_bit 0 j))
intx_example = complete_recv-intx device no_send interrupted (omega arith) refl

enables_single_example :
    (◌≡◌ {A = ℕ} 1 0 → (k : ℕ) → k < 4 → test_bit (write_enables 1 1 2) k ≡ ltb k 2)
    × (0 < 1 → test_bit (write_enables 1 1 2) 2 ≡ false)
enables_single_example = write_enables_single 1 2 (omega arith) (omega arith) (omega arith)

hangs_example : next_posedge device 7 root ≡ out_of_fuel
unfolding ready_line print_time ready_signal
hangs_example = next_posedge-hangs device 7 root refl refl (omega arith)

-- A receiver that takes a word at each clock.
abbrev taken : Bus → Bus
taken b = record b { m_axis_rx_tready = bit_1 }

send_tlp_example :
    (b' : Bus) × (send_tlp (ticks taken) 6 (7 ∷ 8 ∷ 9 ∷ []) root ≡ ok tt b') × Idle [] b'
send_tlp_example =
    send_tlp-ready taken (λ c. refl) (λ c. refl) 6 7 (8 ∷ 9 ∷ []) root refl (omega arith)
