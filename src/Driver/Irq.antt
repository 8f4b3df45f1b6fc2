-- ===== src/Driver/Irq.antt =====
-- `pci_irq_handle` and `pci_mmap` of drivers/cryptocard_mod.c.
pub mod Laws
pub mod Mmap
use cryptodev.Prelude.{ℕ, ◌+◌, ◌/◌, ◌-◌, ◌^◌, ◌%◌, ℤ, pos, neg, not, Option, none, some, ◌==◌}
use cryptodev.Effects.{call, run, pure, is_zero, ◌>>=◌, ◌>>◌, when◌then◌else◌}
use cryptodev.Kernel.{Call, KernelIo}
use cryptodev.Kernel.Errno.{ebusy, einval, eagain}
use cryptodev.Driver.Device.{ConfigMem, PciDev, CryptodevData, pci_cryptocard_device}

-- IRQ_HANDLED
abbrev pub irq_handled : ℤ
irq_handled = pos 1

-- The handler on the register map.
unfoldable pub handle_irq : ConfigMem → KernelIo ℤ
handle_irq space = do
  status ← call (Call.ioread32 space.interrupt_status)
  when status.value == 0x001
      then (do
        run Call.wake_up_interruptible
        run (Call.iowrite32 status.value space.interrupt_ack)
        pure irq_handled)
      else (when status.value == 0x100
          then (do
            run Call.wake_up_interruptible
            run (Call.iowrite32 status.value space.interrupt_ack)
            pure irq_handled)
          else (do run (Call.iowrite32 status.value space.interrupt_ack); pure (neg einval)))

-- `devid` is the device that the handler was registered with, or none for NULL.
unfoldable pub pci_irq_handle : Option PciDev → CryptodevData → KernelIo ℤ
pci_irq_handle devid mycryptodev = elim devid [
  | none ↦ pure (neg ebusy)
  | some dev ↦
      when not (dev.device == pci_cryptocard_device)
      then pure (neg ebusy)
      else elim mycryptodev.configspace [ none ↦ pure (neg ebusy) | some space ↦ handle_irq space ]
]

-- What `pci_mmap` uses of a `struct vm_area_struct`.
pub record VmArea : Type 0 where
  pub vm_start : ℕ
  pub vm_end : ℕ
  pub vm_pgoff : ℕ

-- PAGE_SHIFT
abbrev page_shift : ℕ
page_shift = 12

unfoldable pub pci_mmap : CryptodevData → VmArea → KernelIo (VmArea × ℤ)
pci_mmap mycryptodev vmas = elim mycryptodev.pdev [
  | none ↦ pure (vmas, neg ebusy)
  | some dev ↦ do
    base ← call (Call.pci_resource_start 0)
    let vmas' : VmArea = record vmas {
      vm_pgoff = (vmas.vm_pgoff + base.value / 2 ^ page_shift) % 2 ^ 64;
    }
    r ← call (Call.io_remap_pfn_range vmas'.vm_start vmas'.vm_pgoff (vmas'.vm_end - vmas'.vm_start))
    when is_zero r then pure (vmas', pos 0) else pure (vmas', neg eagain)
]
