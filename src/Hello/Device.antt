-- ===== src/Hello/Device.antt =====
-- The emulated device, bechmark-test/Demo/part2/pci_device/hello_tic.c: what its registers and its
-- port do. Its messages are left out.
pub mod Laws
use cryptodev.Prelude.{
  ℕ, zero, suc, ◌%◌, ◌^◌, ◌==◌, Bool, true, false, if◌then◌else◌, Option, none, some, not,
}
use cryptodev.Effects.{Answer, Io, call, run, pure, is_zero, ◌>>=◌, ◌>>◌, when◌then◌else◌}

-- `PCIHelloDevState`, and the level of the interrupt line of the PCI device. A buffer is an
-- address; none is NULL.
pub record PciHelloDevState : Type 0 where
  pub dma_size : ℕ
  pub dma_buf : Option ℕ
  pub threw_irq : ℕ
  pub id : ℕ
  pub val : ℕ
  pub line : Bool

unfoldable pub hello_iowrite : ℕ → ℕ → PciHelloDevState → PciHelloDevState
hello_iowrite addr value d =
    if addr == 0
    then (if value == 0
        then record d { threw_irq = 0; line = false }
        else record d { threw_irq = 1; line = true })
    else d

unfoldable pub hello_ioread : ℕ → PciHelloDevState → ℕ
hello_ioread addr d = if addr == 0 then d.threw_irq else 0x0

unfoldable pub hello_mmioread : ℕ → PciHelloDevState → ℕ
hello_mmioread addr d = if addr == 0 then d.threw_irq else if addr == 4 then d.id else 0x0

-- `val` is an `int`, kept as its 32 bits.
unfoldable pub hello_mmiowrite : ℕ → ℕ → PciHelloDevState → PciHelloDevState
hello_mmiowrite addr value d = if addr == 4 then record d { val = value % 2 ^ 32 } else d

-- What QEMU does when the device is set up and when it goes.
pub data SetupCall : Type 0 where
  malloc : (size : ℕ) → SetupCall
  free : (p : Option ℕ) → SetupCall
  pci_config_set_interrupt_pin msi_init msi_uninit : SetupCall
  memory_region_init_io : (size : ℕ) → SetupCall
  pci_register_bar : (bar : ℕ) → SetupCall

-- `1<<6` and `1<<4`
abbrev hello_mmio_size : ℕ
hello_mmio_size = 2 ^ 6

abbrev hello_io_size : ℕ
hello_io_size = 2 ^ 4

-- A pointer from the number that `malloc` returns.
abbrev pub pointer : Answer → Option ℕ
pointer a = if is_zero a then none else some a.value

unfoldable pub hello_io_setup : Io SetupCall (Unit {0})
hello_io_setup = do
  run (SetupCall.memory_region_init_io hello_mmio_size)
  run (SetupCall.memory_region_init_io hello_io_size)

-- The state that is left, and whether the device is set up.
unfoldable pub pci_hellodev_realize : PciHelloDevState → Io SetupCall (PciHelloDevState × Bool)
pci_hellodev_realize d = do
  buf ← call (SetupCall.malloc 4096)
  let d' = record d { dma_size = 4096; dma_buf = pointer buf; id = 0x1337; threw_irq = 0 }
  run SetupCall.pci_config_set_interrupt_pin
  msi ← call SetupCall.msi_init
  when not (is_zero msi) then pure (d', false) else (do
    hello_io_setup
    run (SetupCall.pci_register_bar 0)
    run (SetupCall.pci_register_bar 1)
    pure (d', true))

unfoldable pub pci_hellodev_uninit : PciHelloDevState → Io SetupCall (Unit {0})
pci_hellodev_uninit d = do run (SetupCall.free d.dma_buf); run SetupCall.msi_uninit
