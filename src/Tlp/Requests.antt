-- ===== src/Tlp/Requests.antt =====
-- libsimbus/simbus_pcie_tlp_write.c, simbus_pcie_tlp_read.c and simbus_pcie_tlp_cfg.c: the request
-- TLPs that the root sends, and its wait for their completions. The fields of a header word do not
-- overlap, so an "or" of them is written as a sum.
pub mod Enables
pub mod Headers
pub mod Reads
use Prim.Native.Nat.{bit_and}
use simbus.Base.{
  ℕ, zero, suc, ◌+◌, ◌-◌, ◌*◌, ◌/◌, ◌%◌, ◌^◌, ltb, leb, ◌==◌, if◌then◌else◌, Bool, true, false,
  ◌&&◌, Option, none, some, List, [], ◌∷◌, ◌++◌, map, get_or, set, take, drop, replicate, length,
  ok, fault, out_of_fuel, Cmd, and_then, assert, ◌>>=◌, ◌>>◌,
}
use simbus.Tlp.{Bus, choose_tag}
use simbus.Tlp.Stream.{swap_word}
use simbus.Tlp.Link.{Handlers, send_tlp, next_posedge}

-- ~x in 32 bits
abbrev pub not_32 : ℕ → ℕ
not_32 x = 2 ^ 32 - 1 - x % 2 ^ 32

abbrev pub addr_high : ℕ → ℕ
addr_high addr = addr / 2 ^ 32 % 2 ^ 32

abbrev pub addr_low : ℕ → ℕ
addr_low addr = addr % 2 ^ 32

-- The address words of a header: the high one only where it is not 0.
abbrev pub addr_words : ℕ → List ℕ
addr_words addr =
    if addr_high addr == 0 then addr_low addr ∷ [] else addr_high addr ∷ addr_low addr ∷ []

-- The byte enables of `simbus_pcie_tlp_write`.
unfoldable pub write_enables : ℕ → ℕ → ℕ → ℕ
write_enables ndata off len =
    if ndata == 1
    then bit_and (bit_and 0x0f (not_32 (0x0f * 2 ^ len))) (bit_and 0x0f (0x0f * 2 ^ off))
    else let olen = (off + len) % 4 in
      bit_and 0xf0 (not_32 (0xf0 * 2 ^ (if olen == 0 then 4 else olen)))
      + bit_and 0x0f (0x0f * 2 ^ off)

-- The TLP of `simbus_pcie_tlp_write`, for a bus with the requester id `id`.
unfoldable pub write_tlp : ℕ → ℕ → List ℕ → ℕ → ℕ → List ℕ
unfolding write_enables swap_word
write_tlp id addr data_words off len =
    ((if addr_high addr == 0 then 0x40000000 else 0x60000000) + length data_words)
    ∷ (write_enables (length data_words) off len + id * 65536)
    ∷ (addr_words addr ++ map swap_word data_words)

-- assert(ndata <= 0x3ff && ndata >= 1); assert(off <= 3); assert(off+len <= 4*ndata)
abbrev pub range_ok : ℕ → ℕ → ℕ → Bool
range_ok ndata off len =
    (leb ndata 0x3ff && leb 1 ndata) && (leb off 3 && leb (off + len) (4 * ndata))

-- The TLP of `simbus_pcie_tlp_read`.
unfoldable pub read_tlp : ℕ → ℕ → ℕ → ℕ → List ℕ
read_tlp id tag addr ndata =
    ((if addr_high addr == 0 then 0 else 0x20000000) + ndata)
    ∷ ((if ndata == 1 then 0x0f else 0xff) + tag * 256 + id * 65536)
    ∷ addr_words addr

-- The TLP of the configuration writes: one data word, and the enables of its bytes.
unfoldable pub cfg_write_tlp : ℕ → ℕ → ℕ → ℕ → ℕ → ℕ → List ℕ
cfg_write_tlp id tag bus_devfn addr enables val =
    0x44000001
    ∷ (enables + tag * 256 + id * 65536)
    ∷ (bus_devfn * 65536 + addr % 4096 / 4 * 4)
    ∷ val
    ∷ []

-- The TLP of `simbus_pcie_tlp_cfg_read32`.
unfoldable pub cfg_read_tlp : ℕ → ℕ → ℕ → ℕ → List ℕ
cfg_read_tlp id tag bus_devfn addr =
    0x04000001 ∷ (0x0f + tag * 256 + id * 65536) ∷ (bus_devfn * 65536 + addr % 4096 / 4 * 4) ∷ []

-- The result of a read, from its completion `ctlp`.
unfoldable pub read_result : ℕ → List ℕ → Cmd Bus (List ℕ)
unfolding swap_word
read_result ndata ctlp b =
    if get_or ctlp 1 0 / 8192 % 8 == 0
    then if ndata == get_or ctlp 0 0 % 1024 && leb (3 + ndata) (length ctlp)
      then ok (map swap_word (take ndata (drop 3 ctlp))) b
      else fault
    else ok (replicate ndata 0xffffffff) b

-- The result of a configuration read.
unfoldable pub cfg_read_result : List ℕ → Cmd Bus ℕ
cfg_read_result ctlp b =
    if get_or ctlp 1 0 / 8192 % 8 == 0
    then if get_or ctlp 0 0 % 1024 == 1 && leb 4 (length ctlp)
      then ok (get_or ctlp 3 0) b
      else fault
    else ok 0xffffffff b

module _ (h : Handlers) where
  -- `__pcie_tlp_send_tlp` with the clock of this bus.
  unfoldable pub send : ℕ → List ℕ → Cmd Bus (Unit {0})
  unfolding send_tlp next_posedge
  send fuel = send_tlp (next_posedge h fuel) fuel

  -- while (bus->completions[use_tag] == 0), and the slot emptied afterwards.
  unfoldable pub await : ℕ → ℕ → Cmd Bus (List ℕ)
  unfolding next_posedge
  await zero tag b = out_of_fuel
  await (suc fuel) tag b = elim (get_or b.completions tag none) [
    | some ctlp ↦ ok ctlp (record b { completions = set b.completions tag none })
    | none ↦ (next_posedge h (suc fuel) >>= λ _. await fuel tag) b
  ]

  -- `simbus_pcie_tlp_write`
  unfoldable pub write : ℕ → ℕ → List ℕ → ℕ → ℕ → Cmd Bus (Unit {0})
  unfolding write_tlp send
  write fuel addr data_words off len b =
      (assert (range_ok (length data_words) off len)
          >> send fuel (write_tlp b.request_id addr data_words off len))
        b

  -- `simbus_pcie_tlp_read`; the result is what the array holds afterwards.
  unfoldable pub read : ℕ → ℕ → ℕ → ℕ → ℕ → Cmd Bus (List ℕ)
  unfolding read_tlp send await read_result choose_tag
  read fuel addr ndata off len b =
      (assert (range_ok ndata off len && (off == 0 && len == ndata * 4)) >> choose_tag >>= λ tag.
      send fuel (read_tlp b.request_id tag addr ndata) >> await fuel tag >>= read_result ndata)
        b

  -- What the three configuration writes share.
  unfoldable pub cfg_write : ℕ → ℕ → ℕ → ℕ → ℕ → Cmd Bus (Unit {0})
  unfolding cfg_write_tlp send await choose_tag
  cfg_write fuel bus_devfn addr enables val b =
      (choose_tag >>= λ tag.
      send fuel (cfg_write_tlp b.request_id tag bus_devfn addr enables val)
      >> await fuel tag
      >>= λ _. ok tt)
        b

  -- `simbus_pcie_tlp_cfg_write32`
  unfoldable pub cfg_write32 : ℕ → ℕ → ℕ → ℕ → Cmd Bus (Unit {0})
  unfolding cfg_write
  cfg_write32 fuel bus_devfn addr val = cfg_write fuel bus_devfn addr 0x0f val

  -- `simbus_pcie_tlp_cfg_write16`
  unfoldable pub cfg_write16 : ℕ → ℕ → ℕ → ℕ → Cmd Bus (Unit {0})
  unfolding cfg_write
  cfg_write16 fuel bus_devfn addr val =
      cfg_write fuel bus_devfn addr (3 * 2 ^ (addr % 4)) (val * 2 ^ (8 * (addr % 4)) % 2 ^ 32)

  -- `simbus_pcie_tlp_cfg_write8`
  unfoldable pub cfg_write8 : ℕ → ℕ → ℕ → ℕ → Cmd Bus (Unit {0})
  unfolding cfg_write
  cfg_write8 fuel bus_devfn addr val =
      cfg_write fuel bus_devfn addr (2 ^ (addr % 4)) (val * 2 ^ (8 * (addr % 4)) % 2 ^ 32)

  -- `simbus_pcie_tlp_cfg_read32`
  unfoldable pub cfg_read32 : ℕ → ℕ → ℕ → Cmd Bus ℕ
  unfolding cfg_read_tlp send await cfg_read_result choose_tag
  cfg_read32 fuel bus_devfn addr b =
      (choose_tag >>= λ tag.
      send fuel (cfg_read_tlp b.request_id tag bus_devfn addr)
      >> await fuel tag
      >>= cfg_read_result)
        b
