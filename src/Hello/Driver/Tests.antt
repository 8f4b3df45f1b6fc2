-- ===== src/Hello/Driver/Tests.antt =====
-- The demonstration device and its drivers on concrete inputs.
use cryptodev.Prelude.{
  pos, suc, ◌⊎◌, is_nonzero, ◌≡◌, true, false, refl, none, some, [], ◌∷◌, if◌then◌else◌,
}
use cryptodev.Effects.{Env, Trace, answer, event}
use cryptodev.Kernel.{Call}
use cryptodev.Kernel.Resources.{Kind, resource, held}
use cryptodev.Hello.Device.{
  PciHelloDevState, hello_ioread, hello_mmioread, SetupCall, pci_hellodev_realize,
  pci_hellodev_uninit, hello_io_setup, hello_iowrite,
}
use cryptodev.Hello.Device.Laws.{
  Access, step, stay, move, ◌⇒◌, accesses_keep, allocated, realize_uninit,
}
use cryptodev.Hello.Driver.{
  TicInfo, Variant, irq_none, irq_handled, hello_tic_handler, hello_tic_probe, hello_tic_remove,
}
use cryptodev.Hello.Driver.Laws.{
  line_of, mapped, Ends, hello_probe_all_or_nothing, hello_remove_keeps_line,
}
use cryptodev.Hello.Platform.{test_probe, register_writes, platform_probe}
use cryptodev.Driver.Card.{last_write}
use cryptodev.Hello.Driver.Handler.{port_writes, handler_serves_device}

-- The device after it threw an interrupt.
abbrev idle : PciHelloDevState
idle = record {
  dma_size = 4096;
  dma_buf = some 0x3000;
  threw_irq = 0;
  id = 0x1337;
  val = 0;
  line = false;
}

abbrev thrown : PciHelloDevState
thrown = record idle { threw_irq = 1; line = true }

-- Writes of 1 to the port and of 0x500 to register 4.
abbrev both : PciHelloDevState
both = step (Access.mmio 4 0x500) (step (Access.io 0 1) idle)

accesses_kept :
    (hello_ioread 0 both ≡ (if both.line then 1 else 0))
    × (hello_mmioread 0 both ≡ (if both.line then 1 else 0))
    × (hello_mmioread 4 both ≡ hello_mmioread 4 idle)
accesses_kept =
    accesses_keep idle both refl (move (Access.io 0 1) (move (Access.mmio 4 0x500) stay))

abbrev qemu : Env SetupCall
qemu t (SetupCall.malloc n) = answer 0x3000
qemu t call = answer 0

realize_then_uninit :
    let ((d', ok), t') = pci_hellodev_realize thrown qemu [] in
    (allocated t' ≡ elim d'.dma_buf [ none ↦ allocated [] | some p ↦ p ∷ allocated [] ])
    × (hello_mmioread 4 d' ≡ 0x1337)
    × (hello_ioread 0 d' ≡ 0)
    × (allocated (pci_hellodev_uninit d' qemu t').1 ≡ allocated [])
realize_then_uninit = realize_uninit qemu thrown []

-- A kernel on which everything succeeds, and whose ports are those of the device.
unfoldable machine : Env Call
unfolding hello_ioread port_writes
machine t (Call.kzalloc n) = answer 0x1000
machine t (Call.pci_ioremap_bar bar) = answer 0x10000
machine t (Call.pci_resource_start bar) = answer 0xc000
machine t (Call.inl port) = answer (hello_ioread 0 (port_writes 0xc000 thrown t))
machine t call = answer 0

hello_probe_all_or_nothing_example :
    Ends Variant.irq (held []) (hello_tic_probe Variant.irq machine [])
hello_probe_all_or_nothing_example = hello_probe_all_or_nothing machine Variant.irq []

abbrev tic : TicInfo
tic = record {
  mem = record { start = 0x10000; size = 64 };
  port = record { start = 0xc000; size = 16 };
  irq = 11;
}

-- What a successful probe leaves, by hand.
abbrev probed : Trace Call
probed =
    event (Call.devm_request_irq 11 0x1000) (answer 0)
    ∷ event (Call.pci_ioremap_bar 1) (answer 0x10000)
    ∷ event Call.pci_request_regions (answer 0)
    ∷ event Call.pci_enable_device (answer 0)
    ∷ event (Call.kzalloc 56) (answer 0x1000)
    ∷ []

holds_all : held probed ≡ line_of Variant.irq tic (mapped 0x1000 tic [])
unfolding held
holds_all = refl

hello_remove_kept_line :
    held (hello_tic_remove (0x1000, tic) machine probed).1 ≡ resource Kind.irq_line 11 ∷ []
hello_remove_kept_line = hello_remove_keeps_line machine Variant.irq 0x1000 tic [] probed holds_all

is_thrown : port_writes 0xc000 thrown [] ≡ thrown
unfolding port_writes
is_thrown = refl

reached : (pci_hellodev_realize idle qemu []).0.0 ⇒ thrown
unfolding pci_hellodev_realize hello_io_setup step hello_iowrite
reached = move (Access.io 0 1) stay

reads_port : (machine [] (Call.inl 0xc000)).value ≡ hello_ioread 0 (port_writes 0xc000 thrown [])
unfolding machine
reads_port = refl

handler_serves_device_example :
    let d = port_writes 0xc000 thrown [] in
    let (v, t') = hello_tic_handler tic machine [] in
    let d' = port_writes 0xc000 thrown t' in
    (v ≡ (if d.line then irq_handled else irq_none)) × (d'.line ≡ false) × (d'.id ≡ d.id)
handler_serves_device_example =
    handler_serves_device machine tic qemu [] idle thrown [] refl reached reads_port

platform_probe_runs :
    let ((tdev, v), t') = test_probe 0x5000 machine [] in
    ((v ≡ pos 0)
      × (last_write tdev.regs t' ≡ some 34)
      × (register_writes t' ≡ suc (register_writes [])))
    ⊎ ((is_nonzero v ≡ true) × (register_writes t' ≡ register_writes []))
platform_probe_runs = platform_probe machine 0x5000 []
