-- ===== src/Driver/Irq/Laws.antt =====
-- `pci_irq_handle` of drivers/cryptocard_mod.c: what it answers, acknowledges and wakes.
use cryptodev.Prelude.{
  ℕ, suc, ◌+◌, neg, ◌≡◌, ◌≢◌, ◌⊎◌, Option, none, some, [], ◌∷◌, ◌||◌, ◌==◌, if◌then◌else◌, arith,
}
use cryptodev.Effects.{Env, Trace}
use cryptodev.Kernel.{Call}
use cryptodev.Kernel.Errno.{ebusy, einval}
use cryptodev.Driver.Device.{ConfigMem, PciDev, CryptodevData}
use cryptodev.Driver.Card.{last_write}
use cryptodev.Driver.Irq.{irq_handled, handle_irq, pci_irq_handle}

-- How often the sleepers were woken.
pub wakes : Trace Call → ℕ
wakes [] = 0
wakes (e ∷ t) = elim e.call [ Call.wake_up_interruptible ↦ suc (wakes t) | _ ↦ wakes t ]

module _ (env : Env Call) where
  -- For an interrupt of the card, the handler acknowledges exactly the status that it read. It wakes
  -- the sleepers once and reports the interrupt as handled if the status is 0x001 (MMIO) or 0x100
  -- (DMA); for every other status, both bits at once included, it wakes nobody and returns -EINVAL.
  pub irq_acknowledges :
      (dev : PciDev) (mycryptodev : CryptodevData) (space : ConfigMem) (t : Trace Call)
      → dev.device ≡ 0xdeba
      → mycryptodev.configspace ≡ some space
      → let status = (env t (Call.ioread32 space.interrupt_status)).value in
        let (v, t') = pci_irq_handle (some dev) mycryptodev env t in
        let known = status == 0x001 || status == 0x100 in
        (last_write space.interrupt_ack t' ≡ some status)
        × (wakes t' ≡ wakes t + (if known then 1 else 0))
        × (v ≡ (if known then irq_handled else neg einval))
  unfolding pci_irq_handle handle_irq last_write wakes
  irq_acknowledges dev my space t d s = ground arith

  -- For another device, or before the probe has set up the register map, the handler calls nothing
  -- and returns -EBUSY.
  pub irq_ignores :
      (devid : Option PciDev) (mycryptodev : CryptodevData) (t : Trace Call)
      → (mycryptodev.configspace ≡ none)
        ⊎ ((devid ≡ none) ⊎ ((dev : PciDev) × (devid ≡ some dev) × (dev.device ≢ 0xdeba)))
      → pci_irq_handle devid mycryptodev env t ≡ (neg ebusy, t)
  unfolding pci_irq_handle
  irq_ignores devid my t h = ground arith
