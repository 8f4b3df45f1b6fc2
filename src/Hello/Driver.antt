-- ===== src/Hello/Driver.antt =====
-- The drivers of the demonstration device, in bechmark-test/Demo/part2/pci_driver: irq.c, mmio.c and
-- portio.c, which differ in what the probe does last. driver_pci.c is irq.c with one more message.
-- Messages are left out, the register accesses in their arguments are not.
pub mod Laws
pub mod Handler
pub mod Tests
use cryptodev.Prelude.{◌%◌, ℕ, ◌+◌, ℤ, pos, neg, not, Option, none, some, List, [], ◌∷◌}
use cryptodev.Effects.{Answer, call, run, pure, is_zero, ◌>>=◌, ◌>>◌, when◌then◌else◌}
use cryptodev.Kernel.{Call, KernelIo}
use cryptodev.Kernel.Errno.{enomem, enodev}

-- `struct tic_mem` and `struct tic_io`, the names left out
pub record TicMem : Type 0 where
  pub start : ℕ
  pub size : ℕ

-- `struct tic_info`, with the one memory region and the one port region that its arrays have
pub record TicInfo : Type 0 where
  pub mem : TicMem
  pub port : TicMem
  pub irq : ℕ

-- IRQ_NONE and IRQ_HANDLED
abbrev pub irq_none : ℤ
irq_none = pos 0

abbrev pub irq_handled : ℤ
irq_handled = pos 1

unfoldable pub hello_tic_handler : TicInfo → KernelIo ℤ
hello_tic_handler info = do
  a ← call (Call.inl info.port.start)
  when not (is_zero a)
      then (do run (Call.outl 0 info.port.start); pure irq_handled)
      else pure irq_none

-- The allocated `info`, which the PCI device keeps if the probe succeeds, and the result.
abbrev pub Probed : Type 0
Probed = Option (ℕ × TicInfo) × ℤ

unfoldable pub out_free : ℕ → KernelIo Probed
out_free p = do run (Call.kfree p); pure (none, neg enodev)

unfoldable pub out_disable : ℕ → KernelIo Probed
out_disable p = do run Call.pci_disable_device; out_free p

unfoldable pub out_unrequest : ℕ → KernelIo Probed
out_unrequest p = do run Call.pci_release_regions; out_disable p

unfoldable pub out_iounmap : ℕ → TicInfo → KernelIo Probed
out_iounmap p info = do run (Call.iounmap info.mem.start); out_unrequest p

-- PCI_INTERRUPT_LINE
abbrev pci_interrupt_line : ℕ
pci_interrupt_line = 0x3c

abbrev first_byte : List ℕ → ℕ
first_byte [] = 0
first_byte (b ∷ bs) = b % 256

-- irq.c: the interrupt, which the kernel gives back after a removal, and the port.
unfoldable pub finish_irq : ℕ → TicInfo → KernelIo Probed
finish_irq p info = do
  c ← call (Call.pci_read_config_byte pci_interrupt_line)
  let info' = record info { irq = first_byte c.bytes }
  when not (is_zero c) then out_iounmap p info' else (do
    r ← call (Call.devm_request_irq info'.irq p)
    when not (is_zero r) then out_iounmap p info' else (do
      run (Call.outb 1 info'.port.start)
      run (Call.pci_set_drvdata p)
      pure (some (p, info'), pos 0)))

-- mmio.c: the identifier is read, written and read.
unfoldable pub finish_mmio : ℕ → TicInfo → KernelIo Probed
finish_mmio p info = do
  run (Call.ioread32 (info.mem.start + 4))
  run (Call.iowrite32 0x500 (info.mem.start + 4))
  run (Call.ioread32 (info.mem.start + 4))
  run (Call.pci_set_drvdata p)
  pure (some (p, info), pos 0)

-- portio.c: the port is read and written.
unfoldable pub finish_portio : ℕ → TicInfo → KernelIo Probed
finish_portio p info = do
  run (Call.inl info.port.start)
  run (Call.outb 1 info.port.start)
  run (Call.pci_set_drvdata p)
  pure (some (p, info), pos 0)

-- The drivers, by the end of their probe.
pub data Variant : Type 0 where
  irq mmio portio : Variant

abbrev pub finish : Variant → ℕ → TicInfo → KernelIo Probed
finish Variant.irq = finish_irq
finish Variant.mmio = finish_mmio
finish Variant.portio = finish_portio

-- With `info` allocated, up to the mapped registers.
unfoldable pub probe_bars : Variant → ℕ → KernelIo Probed
probe_bars v p = do
  e ← call Call.pci_enable_device
  when not (is_zero e) then out_free p else (do
    r ← call Call.pci_request_regions
    when not (is_zero r) then out_disable p else (do
      io ← call (Call.pci_resource_start 0)
      io_size ← call (Call.pci_resource_len 0)
      m ← call (Call.pci_ioremap_bar 1)
      m_size ← call (Call.pci_resource_len 1)
      when is_zero m
          then out_unrequest p
          else finish v p (record {
            mem = record { start = m.value; size = m_size.value };
            port = record { start = io.value; size = io_size.value };
            irq = 0;
          })))

-- `sizeof(struct tic_info)` on a 64-bit machine
abbrev sizeof_tic_info : ℕ
sizeof_tic_info = 56

unfoldable pub hello_tic_probe : Variant → KernelIo Probed
hello_tic_probe v = do
  info ← call (Call.kzalloc sizeof_tic_info)
  when is_zero info then pure (none, neg enomem) else probe_bars v info.value

unfoldable pub hello_tic_remove : (ℕ × TicInfo) → KernelIo (Unit {0})
hello_tic_remove (p, info) = do
  run Call.pci_release_regions
  run Call.pci_disable_device
  run (Call.iounmap info.mem.start)
  run (Call.kfree p)

-- The probes of the other files. driver_pci.c ends as irq.c does.
abbrev pub mmio_probe : KernelIo Probed
mmio_probe = hello_tic_probe Variant.mmio

abbrev pub portio_probe : KernelIo Probed
portio_probe = hello_tic_probe Variant.portio

abbrev pub pci_probe : KernelIo Probed
pci_probe = hello_tic_probe Variant.irq
