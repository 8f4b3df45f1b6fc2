-- ===== src/Hello/Modules.antt =====
-- The tables of the demonstration device bechmark-test/Demo/part2/pci_device/hello_tic.c, and each of
-- its drivers in pci_driver as the table that it registers.
use cryptodev.Prelude.{ℕ, ℤ, ◌≡◌, ◌&&◌, leb, refl, Bool, true, false, List, [], ◌∷◌}
use cryptodev.Effects.{Io}
use cryptodev.Kernel.{KernelIo}
use cryptodev.Driver.Tables.{PciDeviceId, supports}
use cryptodev.Hello.Device.{
  PciHelloDevState, SetupCall, hello_ioread, hello_iowrite, hello_mmioread, hello_mmiowrite,
  pci_hellodev_realize, pci_hellodev_uninit,
}
use cryptodev.Hello.Driver.{
  TicInfo, Probed, Variant, hello_tic_handler, hello_tic_probe, hello_tic_remove,
}

-- `MemoryRegionOps`: the callbacks, and the sizes of the accesses that are valid
pub record MemoryRegionOps : Type 0 where
  pub reads : ℕ → PciHelloDevState → ℕ
  pub writes : ℕ → ℕ → PciHelloDevState → PciHelloDevState
  pub min_access_size : ℕ
  pub max_access_size : ℕ

abbrev pub hello_mmio_ops : MemoryRegionOps
hello_mmio_ops = record {
  reads = hello_mmioread;
  writes = hello_mmiowrite;
  min_access_size = 4;
  max_access_size = 4;
}

abbrev pub hello_io_ops : MemoryRegionOps
hello_io_ops = record {
  reads = hello_ioread;
  writes = hello_iowrite;
  min_access_size = 4;
  max_access_size = 4;
}

-- What `pci_hellodev_class_init` sets of the class of the device.
pub record PciDeviceClass : Type 0 where
  pub realize : PciHelloDevState → Io SetupCall (PciHelloDevState × Bool)
  pub exits : PciHelloDevState → Io SetupCall (Unit {0})
  pub vendor_id : ℕ
  pub device_id : ℕ
  pub revision : ℕ

abbrev pub pci_hellodev_class : PciDeviceClass
pci_hellodev_class = record {
  realize = pci_hellodev_realize;
  exits = pci_hellodev_uninit;
  vendor_id = 0x1337;
  device_id = 0x0001;
  revision = 0x10;
}

-- The same table stands in every driver.
abbrev pub hello_tic_ids : List PciDeviceId
hello_tic_ids = record { vendor = 0x1337; device = 0x0001 } ∷ []

-- What a driver registers. `handler` stands in all, and irq.c and driver_pci.c request the interrupt.
pub record HelloTic : Type 0 where
  pub id_table : List PciDeviceId
  pub handler : TicInfo → KernelIo ℤ
  pub probe : KernelIo Probed
  pub removes : (ℕ × TicInfo) → KernelIo (Unit {0})

abbrev hello_tic : Variant → HelloTic
hello_tic v = record {
  id_table = hello_tic_ids;
  handler = hello_tic_handler;
  probe = hello_tic_probe v;
  removes = hello_tic_remove;
}

abbrev pub irq_module : HelloTic
irq_module = hello_tic Variant.irq

abbrev pub mmio_module : HelloTic
mmio_module = hello_tic Variant.mmio

abbrev pub portio_module : HelloTic
portio_module = hello_tic Variant.portio

abbrev pub pci_module : HelloTic
pci_module = hello_tic Variant.irq

-- The drivers support the device.
device_supported :
    (v : Variant) (irq : ℕ)
    → supports pci_hellodev_class.vendor_id
        (record { irq = irq; device = pci_hellodev_class.device_id })
        (hello_tic v).id_table
      ≡ true
device_supported v irq = refl

abbrev valid_access : MemoryRegionOps → ℕ → Bool
valid_access ops size = leb ops.min_access_size size && leb size ops.max_access_size

-- An access of one byte, as by outb, is not valid at the port.
byte_access_not_valid : valid_access hello_io_ops 1 ≡ false
byte_access_not_valid = refl
