-- ===== src/Driver/Probe/Checked.antt =====
-- `cryptocard_probe` of drivers/cryptocard_mod.c: what it has read of the card.
use cryptodev.Prelude.{
  ℕ, ◌^◌, ◌-◌, pos, ◌≡◌, Bool, true, false, Option, none, some, ◌==◌, ◌&&◌, [], ◌∷◌, arith, bit_and,
  if◌then◌else◌,
}
use cryptodev.Effects.{Env, Trace, call, run}
use cryptodev.Kernel.{Call}
use cryptodev.Driver.Device.{ConfigMem, PciDev, CryptodevData, setup_configspace, is_not_live}
use cryptodev.Driver.Card.{last_read, last_write}
use cryptodev.Driver.Probe.{
  Probed, out_err, out_disable, out_unrequest, out_iounmap, out_irqfree, out_chrdev_unreg_region,
  probe_chrdev, probe_card, probe_pci, cryptocard_probe, sizeof_config_mem,
}

-- At the latest read of a register: the value last written to it before, and the value that was read.
unfoldable pub last_answer : ℕ → Trace Call → Option (Option ℕ × ℕ)
unfolding last_write
last_answer addr [] = none
last_answer addr (e ∷ t) = elim e.call [
  | Call.ioread32 a ↦
      if a == addr then some (last_write addr t, e.reply.value) else last_answer addr t
  | _ ↦ last_answer addr t
]

-- 28 bits were written, and were read back clear.
abbrev pub is_inverted : Option (Option ℕ × ℕ) → Bool
is_inverted none = false
is_inverted (some (none, v)) = false
is_inverted (some (some w, v)) = w == 0x0fffffff && bit_and v 0x0fffffff == 0

-- If a stage ends well, the card has shown its identifier, and has inverted its register `live`, at
-- the addresses of the register map that `mycryptodev` then points to.
abbrev pub Identifies : Probed × Trace Call → Type 0
Identifies ((my, v), t) =
    (mem : ConfigMem)
    → v ≡ pos 0
    → my.configspace ≡ some mem
    → (last_read mem.id t ≡ some 0x010C5730) × (is_inverted (last_answer mem.live t) ≡ true)

module _ (env : Env Call) (dev : PciDev) (my : CryptodevData) (space cdev : ℕ) where
  probe_chrdev-last_read :
      (mem : ConfigMem) (a : ℕ) (t : Trace Call)
      → last_read a (probe_chrdev dev my space cdev mem env t).1 ≡ last_read a t
  unfolding probe_chrdev out_chrdev_unreg_region out_irqfree out_iounmap out_unrequest out_disable
      out_err last_read
  probe_chrdev-last_read mem a t = ground arith

  probe_chrdev-last_answer :
      (mem : ConfigMem) (a : ℕ) (t : Trace Call)
      → last_answer a (probe_chrdev dev my space cdev mem env t).1 ≡ last_answer a t
  unfolding probe_chrdev out_chrdev_unreg_region out_irqfree out_iounmap out_unrequest out_disable
      out_err last_answer
  probe_chrdev-last_answer mem a t = ground arith

  probe_chrdev-configspace :
      (mem : ConfigMem) (t : Trace Call)
      → (probe_chrdev dev my space cdev mem env t).0.1 ≡ pos 0
      → (probe_chrdev dev my space cdev mem env t).0.0.configspace ≡ some mem
  unfolding probe_chrdev out_chrdev_unreg_region out_irqfree out_iounmap out_unrequest out_disable
      out_err
  probe_chrdev-configspace mem t e = ground arith

  probe_card-Identifies :
      (start size : ℕ) (t : Trace Call)
      → Identifies (probe_card dev my space cdev (setup_configspace start size) env t)
  unfolding probe_card is_not_live setup_configspace out_iounmap out_unrequest out_disable out_err
      last_read last_answer last_write
  probe_card-Identifies start size t mem e c =
      let m = setup_configspace start size in
      let t1 = (call (Call.ioread32 m.id) env t).1 in
      let t2 = (is_not_live m.live 0x0fffffff env t1).1 in
      let t3 = (run (Call.dma_set_mask (2 ^ 32 - 1)) env t2).1 in
      let t4 = (call (Call.request_irq dev.irq) env t3).1 in
      ground (
        arith,
        probe_chrdev-last_read m m.id t4,
        probe_chrdev-last_answer m m.live t4,
        probe_chrdev-configspace m t4,
      )

  probe_pci-Identifies : (t : Trace Call) → Identifies (probe_pci dev my space cdev env t)
  unfolding probe_pci out_unrequest out_disable out_err
  probe_pci-Identifies t mem e c =
      let t1 = (call Call.pci_enable_device env t).1 in
      let t2 = (call Call.pci_request_regions env t1).1 in
      let (a, t3) = call (Call.pci_ioremap_bar 0) env t2 in
      let (l, t4) = call (Call.pci_resource_len 0) env t3 in
      ground (arith, probe_card-Identifies a.value l.value t4 mem)

-- A probe that succeeds has read the identifier 0x010C5730 from the card, and when it last read the
-- register `live`, the value last written to it before was 0x0fffffff and these 28 bits came back
-- clear, each register at the address that the register map which it leaves in `mycryptodev` has for
-- it.
pub probe_checks_card :
    (env : Env Call) (sizeof_cdev : ℕ) (dev : PciDev) (mycryptodev : CryptodevData) (t : Trace Call)
    (mem : ConfigMem)
    → (cryptocard_probe sizeof_cdev dev mycryptodev env t).0.1 ≡ pos 0
    → (cryptocard_probe sizeof_cdev dev mycryptodev env t).0.0.configspace ≡ some mem
    → let t' = (cryptocard_probe sizeof_cdev dev mycryptodev env t).1 in
      (last_read mem.id t' ≡ some 0x010C5730) × (is_inverted (last_answer mem.live t') ≡ true)
unfolding cryptocard_probe
probe_checks_card env n dev my t mem e c =
    let (s, t1) = call (Call.kzalloc sizeof_config_mem) env t in
    let (d, t2) = call (Call.kzalloc n) env t1 in
    ground (arith, probe_pci-Identifies env dev my s.value d.value t2 mem)
