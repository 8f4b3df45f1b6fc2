-- ===== src/Driver/Probe.antt =====
-- `cryptocard_probe` and `cryptocard_remove` of drivers/cryptocard_mod.c. The stages follow the
-- code down; the labels behind which it gives things back stand above them.
pub mod Laws
pub mod Checked
use cryptodev.Prelude.{ℕ, ◌-◌, ◌^◌, ℤ, pos, neg, not, Option, none, some, ◌==◌}
use cryptodev.Effects.{call, run, pure, is_zero, ◌>>=◌, ◌>>◌, when◌then◌else◌}
use cryptodev.Kernel.{Call, KernelIo}
use cryptodev.Kernel.Errno.{enomem, enodev}
use cryptodev.Driver.Device.{
  ConfigMem, PciDev, CryptodevData, setup_configspace, is_not_live, pci_cryptocard_idfier,
}

-- `sizeof(struct config_mem)` on a 64-bit machine
abbrev sizeof_config_mem : ℕ
sizeof_config_mem = 192

-- What the driver keeps in `mycryptodev` after a removal, and before the first probe.
abbrev pub no_device : CryptodevData
no_device = record { cdev = 0; pdev = none; configspace = none; space_addr = 0 }

abbrev pub Probed : Type 0
Probed = CryptodevData × ℤ

unfoldable pub out_err : CryptodevData → (space cdev : ℕ) → KernelIo Probed
out_err my space cdev = do run (Call.kfree cdev); run (Call.kfree space); pure (my, neg enodev)

unfoldable pub out_disable : CryptodevData → (space cdev : ℕ) → KernelIo Probed
out_disable my space cdev = do run Call.pci_disable_device; out_err my space cdev

unfoldable pub out_unrequest : CryptodevData → (space cdev : ℕ) → KernelIo Probed
out_unrequest my space cdev = do run Call.pci_release_regions; out_disable my space cdev

unfoldable pub out_iounmap : CryptodevData → (space cdev start : ℕ) → KernelIo Probed
out_iounmap my space cdev start = do run (Call.iounmap start); out_unrequest my space cdev

unfoldable pub out_irqfree : PciDev → CryptodevData → (space cdev start : ℕ) → KernelIo Probed
out_irqfree dev my space cdev start = do
  run (Call.free_irq dev.irq)
  out_iounmap my space cdev start

-- The assignments to `mycryptodev` are undone here.
unfoldable pub out_chrdev_unreg_region :
    PciDev → CryptodevData → (space cdev start : ℕ) → KernelIo Probed
out_chrdev_unreg_region dev my space cdev start = do
  run Call.unregister_chrdev_region
  out_irqfree dev no_device space cdev start

-- From `alloc_chrdev_region` on.
unfoldable pub probe_chrdev :
    PciDev → CryptodevData → (space cdev : ℕ) → ConfigMem → KernelIo Probed
probe_chrdev dev my space cdev mem = do
  a ← call Call.alloc_chrdev_region
  when is_zero a
      then (do
        let my' : CryptodevData = record {
          cdev = cdev;
          pdev = some dev;
          configspace = some mem;
          space_addr = space;
        }
        run Call.init_waitqueue_head
        run (Call.sema_init 1)
        run (Call.cdev_init cdev)
        c ← call (Call.cdev_add cdev)
        when is_zero c
            then pure (my', pos 0)
            else out_chrdev_unreg_region dev my' space cdev mem.start)
      else out_irqfree dev my space cdev mem.start

-- With the registers mapped: the identifier, the liveness, the DMA mask (whose outcome changes
-- nothing) and the interrupt.
unfoldable pub probe_card : PciDev → CryptodevData → (space cdev : ℕ) → ConfigMem → KernelIo Probed
probe_card dev my space cdev mem = do
  id ← call (Call.ioread32 mem.id)
  when not (id.value == pci_cryptocard_idfier) then out_iounmap my space cdev mem.start else (do
    dead ← is_not_live mem.live 0x0fffffff
    when dead then out_iounmap my space cdev mem.start else (do
      run (Call.dma_set_mask (2 ^ 32 - 1))
      i ← call (Call.request_irq dev.irq)
      when is_zero i
          then probe_chrdev dev my space cdev mem
          else out_iounmap my space cdev mem.start))

-- From `pci_enable_device` to the register map.
unfoldable pub probe_pci : PciDev → CryptodevData → (space cdev : ℕ) → KernelIo Probed
probe_pci dev my space cdev = do
  e ← call Call.pci_enable_device
  when not (is_zero e) then out_err my space cdev else (do
    r ← call Call.pci_request_regions
    when not (is_zero r) then out_disable my space cdev else (do
      start ← call (Call.pci_ioremap_bar 0)
      when is_zero start then out_unrequest my space cdev else (do
        len ← call (Call.pci_resource_len 0)
        probe_card dev my space cdev (setup_configspace start.value len.value))))

-- `sizeof_cdev` is the size of the kernel's `struct cdev`.
unfoldable pub cryptocard_probe : (sizeof_cdev : ℕ) → PciDev → CryptodevData → KernelIo Probed
cryptocard_probe sizeof_cdev dev my = do
  space ← call (Call.kzalloc sizeof_config_mem)
  when is_zero space then pure (my, neg enomem) else (do
    cdev ← call (Call.kzalloc sizeof_cdev)
    when is_zero cdev
        then (do run (Call.kfree space.value); pure (my, neg enomem))
        else probe_pci dev my space.value cdev.value)

-- `mycryptodev.configspace->start`; the code assumes that the pointer is set.
abbrev start_of : Option ConfigMem → ℕ
start_of none = 0
start_of (some mem) = mem.start

unfoldable pub cryptocard_remove : PciDev → CryptodevData → KernelIo CryptodevData
cryptocard_remove dev my = do
  run (Call.cdev_del my.cdev)
  run Call.unregister_chrdev_region
  run (Call.free_irq dev.irq)
  run (Call.iounmap (start_of my.configspace))
  run Call.pci_release_regions
  run Call.pci_disable_device
  run (Call.kfree my.cdev)
  run (Call.kfree my.space_addr)
  pure no_device
