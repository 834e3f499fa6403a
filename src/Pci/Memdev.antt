-- ===== src/Pci/Memdev.antt =====
-- libsimbus/simbus_pci_memdev.c: the driver of the PCI memory device, over the transfers of the bus.
pub mod Names
use simbus.Base.{
  ℕ, zero, suc, ◌+◌, ◌-◌, ◌*◌, ◌/◌, ◌%◌, ◌^◌, ◌==◌, if◌then◌else◌, List, [], ◌∷◌, ok, Cmd, and_then,
  assert, ◌>>=◌, ◌>>◌,
}
use simbus.Pci.{Bus}
use simbus.Pci.Link.{Port}
use simbus.Pci.Memdev.Names.{name_words}

-- `struct simbus_pci_memdev_s`; the bus is the state of the commands.
pub record Memdev : Type 0 where
  pub dfn : ℕ
  pub devid : ℕ
  pub base_memory : ℕ
  pub base_cntrl : ℕ

-- val & ~15, with the high half of the address.
abbrev pub base_address : ℕ → ℕ → ℕ
base_address low high = low / 16 * 16 + high * 2 ^ 32

module _ (port : Port) where
  -- `simbus_pci_memdev_init`
  unfoldable pub memdev_init : ℕ → Cmd Bus Memdev
  memdev_init dfn = port.port_config_read dfn 0 >>= λ devid.
      assert (devid == 0xffc112c5) >> port.port_config_read dfn 16 >>= λ bar0.
      port.port_config_read dfn 20 >>= λ bar1. port.port_config_read dfn 24 >>= λ bar2.
      port.port_config_read dfn 28 >>= λ bar3. ok (record {
        dfn = dfn;
        devid = devid;
        base_memory = base_address bar0 bar1;
        base_cntrl = base_address bar2 bar3;
      })

  -- `m1writel` and `m1readl`
  unfoldable pub m1writel : Memdev → ℕ → ℕ → Cmd Bus (Unit {0})
  m1writel xsp off val = port.port_write32 ((xsp.base_cntrl + off) % 2 ^ 64) (val % 2 ^ 32) 0

  unfoldable pub m1readl : Memdev → ℕ → Cmd Bus ℕ
  m1readl xsp off = port.port_read32 ((xsp.base_cntrl + off) % 2 ^ 64) 0

  -- `simbus_pci_memdev_fill`
  unfoldable pub memdev_fill : Memdev → ℕ → ℕ → ℕ → Cmd Bus (Unit {0})
  unfolding m1writel
  memdev_fill xsp off cnt fill =
      m1writel xsp 4 off >> m1writel xsp 8 cnt >> m1writel xsp 12 fill >> m1writel xsp 0 0

  -- `simbus_pci_memdev_compare`
  unfoldable pub memdev_compare : Memdev → ℕ → ℕ → ℕ → Cmd Bus ℕ
  unfolding m1writel m1readl
  memdev_compare xsp off0 off1 cnt0 =
      m1writel xsp 4 off0
      >> m1writel xsp 8 cnt0
      >> m1writel xsp 12 off1
      >> m1writel xsp 0 1
      >> m1readl xsp 0
      >>= λ rc. ok (if rc == 0 then 0 else 1)

  -- The words from the register `reg` on, and a zero after them.
  unfoldable pub write_registers : Memdev → ℕ → List ℕ → Cmd Bus (Unit {0})
  unfolding m1writel
  write_registers xsp reg [] b = m1writel xsp reg 0 b
  write_registers xsp reg (w ∷ words) b =
      and_then (m1writel xsp reg w b) (λ _. write_registers xsp (reg + 4) words)

  -- What loading and saving share; the result is the status register.
  unfoldable pub transfer : ℕ → Memdev → ℕ → ℕ → List ℕ → Cmd Bus ℕ
  unfolding m1writel m1readl write_registers name_words
  transfer command xsp offset count file =
      m1writel xsp 4 offset
      >> m1writel xsp 8 count
      >> write_registers xsp 12 (name_words file)
      >> m1writel xsp 0 command
      >> m1readl xsp 0

  -- `simbus_pci_memdev_load` and `simbus_pci_memdev_save`, with their commands.
  unfoldable pub memdev_load : Memdev → ℕ → ℕ → List ℕ → Cmd Bus ℕ
  unfolding transfer
  memdev_load = transfer 2

  unfoldable pub memdev_save : Memdev → ℕ → ℕ → List ℕ → Cmd Bus ℕ
  unfolding transfer
  memdev_save = transfer 3
