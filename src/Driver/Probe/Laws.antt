-- ===== src/Driver/Probe/Laws.antt =====
-- `cryptocard_probe` and `cryptocard_remove` of drivers/cryptocard_mod.c: what they hold.
use cryptodev.Prelude.{ℕ, ◌^◌, ◌-◌, pos, neg, ◌≡◌, ◌≢◌, ◌⊎◌, none, some, List, ◌∷◌, arith}
use cryptodev.Effects.{Env, Trace, call, run}
use cryptodev.Kernel.{Call}
use cryptodev.Kernel.Errno.{enomem, enodev}
use cryptodev.Kernel.Resources.{Kind, Resource, resource, held}
use cryptodev.Driver.Device.{ConfigMem, PciDev, CryptodevData, setup_configspace, is_not_live}
use cryptodev.Driver.Probe.{
  no_device, Probed, out_err, out_disable, out_unrequest, out_iounmap, out_irqfree,
  out_chrdev_unreg_region, probe_chrdev, probe_card, probe_pci, cryptocard_probe, start_of,
  sizeof_config_mem, cryptocard_remove,
}

-- What a probe has acquired at each label, the latest first.
abbrev memories : (space cdev : ℕ) → List Resource → List Resource
memories space cdev r = resource Kind.memory cdev ∷ resource Kind.memory space ∷ r

abbrev requested : (space cdev : ℕ) → List Resource → List Resource
requested space cdev r = resource Kind.regions 0 ∷ resource Kind.device 0 ∷ memories space cdev r

abbrev mapped : (space cdev start : ℕ) → List Resource → List Resource
mapped space cdev start r = resource Kind.mapping start ∷ requested space cdev r

abbrev interrupting : PciDev → (space cdev start : ℕ) → List Resource → List Resource
interrupting dev space cdev start r = resource Kind.irq_line dev.irq ∷ mapped space cdev start r

abbrev pub registered : PciDev → CryptodevData → List Resource → List Resource
registered dev my r =
    resource Kind.node my.cdev
    ∷ resource Kind.chrdev 0
    ∷ interrupting dev my.space_addr my.cdev (start_of my.configspace) r

-- A stage ends well, with `mycryptodev` set up and all that belongs to it held, or it fails, with
-- nothing held and `mycryptodev` as it was or cleared.
abbrev pub Ends : PciDev → CryptodevData → List Resource → Probed × Trace Call → Type 0
Ends dev my r ((my', v), t) =
    ((v ≡ pos 0)
      × (held t ≡ registered dev my' r)
      × (my'.pdev ≡ some dev)
      × (my'.configspace ≢ none))
    ⊎ (((v ≡ neg enodev) ⊎ (v ≡ neg enomem)) × (held t ≡ r) × ((my' ≡ my) ⊎ (my' ≡ no_device)))

module _ (env : Env Call) (dev : PciDev) (my : CryptodevData) (r : List Resource) where
  probe_chrdev-Ends :
      (space cdev : ℕ) (mem : ConfigMem) (t : Trace Call)
      → held t ≡ interrupting dev space cdev mem.start r
      → Ends dev my r (probe_chrdev dev my space cdev mem env t)
  unfolding probe_chrdev out_chrdev_unreg_region out_irqfree out_iounmap out_unrequest out_disable
      out_err held
  probe_chrdev-Ends space cdev mem t h = ground arith

  probe_card-Ends :
      (space cdev : ℕ) (mem : ConfigMem) (t : Trace Call)
      → held t ≡ mapped space cdev mem.start r
      → Ends dev my r (probe_card dev my space cdev mem env t)
  unfolding probe_card is_not_live out_iounmap out_unrequest out_disable out_err held
  probe_card-Ends space cdev mem t h =
      let t1 = (call (Call.ioread32 mem.id) env t).1 in
      let t2 = (is_not_live mem.live 0x0fffffff env t1).1 in
      let t3 = (run (Call.dma_set_mask (2 ^ 32 - 1)) env t2).1 in
      let t4 = (call (Call.request_irq dev.irq) env t3).1 in
      ground (arith, probe_chrdev-Ends space cdev mem t4)

  probe_pci-Ends :
      (space cdev : ℕ) (t : Trace Call)
      → held t ≡ memories space cdev r
      → Ends dev my r (probe_pci dev my space cdev env t)
  unfolding probe_pci setup_configspace out_unrequest out_disable out_err held
  probe_pci-Ends space cdev t h =
      let t1 = (call Call.pci_enable_device env t).1 in
      let t2 = (call Call.pci_request_regions env t1).1 in
      let (a, t3) = call (Call.pci_ioremap_bar 0) env t2 in
      let (l, t4) = call (Call.pci_resource_len 0) env t3 in
      ground (arith, probe_card-Ends space cdev (setup_configspace a.value l.value) t4)

-- A probe that fails returns -ENODEV or -ENOMEM, holds nothing that it did not hold before, and
-- leaves `mycryptodev` as it was or cleared. A probe that succeeds holds the register map's
-- memory, the character device's, the PCI device, its regions, the mapping, the interrupt line,
-- the device number and the registered character device, acquired in this order, and
-- `mycryptodev` points to them.
pub probe_all_or_nothing :
    (env : Env Call) (sizeof_cdev : ℕ) (dev : PciDev) (mycryptodev : CryptodevData) (t : Trace Call)
    → Ends dev mycryptodev (held t) (cryptocard_probe sizeof_cdev dev mycryptodev env t)
unfolding cryptocard_probe held
probe_all_or_nothing env n dev my t =
    let (s, t1) = call (Call.kzalloc sizeof_config_mem) env t in
    let (c, t2) = call (Call.kzalloc n) env t1 in
    ground (arith, probe_pci-Ends env dev my (held t) s.value c.value t2)

-- A removal gives back all that a successful probe acquired, and clears `mycryptodev`.
pub remove_releases :
    (env : Env Call) (dev : PciDev) (mycryptodev : CryptodevData) (r : List Resource)
    (t : Trace Call)
    → held t ≡ registered dev mycryptodev r
    → let (my', t') = cryptocard_remove dev mycryptodev env t in (held t' ≡ r) × (my' ≡ no_device)
unfolding cryptocard_remove held
remove_releases env dev my r t h = ground arith
