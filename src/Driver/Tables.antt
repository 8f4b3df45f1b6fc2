-- ===== src/Driver/Tables.antt =====
-- The tables by which drivers/cryptocard_mod.c registers with the kernel: its file operations, the
-- devices that it supports, and the PCI driver.
use cryptodev.Prelude.{ℕ, ◌==◌, ◌≡◌, ◌||◌, ◌&&◌, ℤ, Bool, true, false, Option, List, [], ◌∷◌, arith}
use cryptodev.Kernel.{KernelIo}
use cryptodev.Driver.Device.{Request, PciDev, CryptodevData, pci_cryptocard_device}
use cryptodev.Driver.Open.{File, pci_open, pci_release}
use cryptodev.Driver.Ioctl.{pci_unlocked_ioctl}
use cryptodev.Driver.Write.{pci_write}
use cryptodev.Driver.Irq.{VmArea, pci_mmap}
use cryptodev.Driver.Probe.{Probed, cryptocard_probe, cryptocard_remove}

-- `struct file_operations`, as far as the driver fills it in
pub record FileOperations : Type 0 where
  pub opens : File → KernelIo (File × ℤ)
  pub unlocked_ioctl : File → Request → ℕ → KernelIo (File × ℤ)
  pub writes : File → ℕ → ℕ → KernelIo (File × Option ℤ)
  pub release : File → KernelIo (File × ℤ)
  pub mmap : VmArea → KernelIo (VmArea × ℤ)

-- `fuel` is that of the waits of `pci_write`.
abbrev pub fops : (fuel : ℕ) → CryptodevData → FileOperations
fops fuel mycryptodev = record {
  opens = pci_open;
  unlocked_ioctl = pci_unlocked_ioctl;
  writes = pci_write fuel mycryptodev;
  release = pci_release;
  mmap = pci_mmap mycryptodev;
}

-- `PCI_DEVICE(vendor, device)`: any subsystem
pub record PciDeviceId : Type 0 where
  pub vendor : ℕ
  pub device : ℕ

abbrev pub pci_cryptocard_vendor : ℕ
pci_cryptocard_vendor = 0x1234

-- The entry of zeros that ends the table is left out.
abbrev pub cryptocard_ids : List PciDeviceId
cryptocard_ids = record { vendor = pci_cryptocard_vendor; device = pci_cryptocard_device } ∷ []

-- `struct pci_driver`, its name left out
pub record PciDriver : Type 0 where
  pub id_table : List PciDeviceId
  pub probe : PciDev → CryptodevData → KernelIo Probed
  pub removes : PciDev → CryptodevData → KernelIo CryptodevData

abbrev pub cryptocard_mod : (sizeof_cdev : ℕ) → PciDriver
cryptocard_mod sizeof_cdev = record {
  id_table = cryptocard_ids;
  probe = cryptocard_probe sizeof_cdev;
  removes = cryptocard_remove;
}

-- A table has a device.
abbrev pub supports : (vendor : ℕ) → PciDev → List PciDeviceId → Bool
supports vendor dev [] = false
supports vendor dev (i ∷ is) =
    i.vendor == vendor && i.device == dev.device || supports vendor dev is

-- A device of the table passes the test of the interrupt handler on its number.
supported_handled :
    (sizeof_cdev vendor : ℕ) (dev : PciDev)
    → supports vendor dev (cryptocard_mod sizeof_cdev).id_table ≡ true
    → (dev.device == pci_cryptocard_device) ≡ true
supported_handled sizeof_cdev vendor dev h = ground arith
