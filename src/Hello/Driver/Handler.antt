-- ===== src/Hello/Driver/Handler.antt =====
-- The handler of the demonstration drivers on the emulated device.
use cryptodev.Prelude.{ℕ, ◌≡◌, ◌==◌, false, [], ◌∷◌, if◌then◌else◌, arith}
use cryptodev.Effects.{Env, Trace}
use cryptodev.Kernel.{Call}
use cryptodev.Hello.Device.{
  SetupCall, pci_hellodev_realize, PciHelloDevState, hello_iowrite, hello_ioread,
}
use cryptodev.Hello.Device.Laws.{Sound, ◌⇒◌, realize-Sound, reached-Sound}
use cryptodev.Hello.Driver.{TicInfo, irq_none, irq_handled, hello_tic_handler}

-- The device after the four-byte writes that a trace makes to its port, from a state on.
unfoldable pub port_writes : ℕ → PciHelloDevState → Trace Call → PciHelloDevState
unfolding hello_iowrite
port_writes port d [] = d
port_writes port d (e ∷ t) = elim e.call [
  | Call.outl value a ↦
      if a == port then hello_iowrite 0 value (port_writes port d t) else port_writes port d t
  | _ ↦ port_writes port d t
]

port_writes-Sound :
    (port : ℕ) (d : PciHelloDevState) (t : Trace Call) → Sound d → Sound (port_writes port d t)
unfolding port_writes hello_iowrite
port_writes-Sound port d [] s = s
port_writes-Sound port d (e ∷ t) s = ground (arith, port_writes-Sound port d t s)

-- A device that was set up with its line low, after any writes to its registers and its port, and then
-- the four-byte writes to its port that the trace makes. If the read of the port gives what the
-- device answers, the handler returns IRQ_HANDLED exactly if the device asserts its interrupt line,
-- and IRQ_NONE if not; in both cases the line is not asserted afterwards, and the identifier is the
-- same.
pub handler_serves_device :
    (env : Env Call) (info : TicInfo) (machine : Env SetupCall) (before : Trace SetupCall)
    (new start : PciHelloDevState) (t : Trace Call)
    → new.line ≡ false
    → (pci_hellodev_realize new machine before).0.0 ⇒ start
    → (env t (Call.inl info.port.start)).value
      ≡ hello_ioread 0 (port_writes info.port.start start t)
    → let d = port_writes info.port.start start t in
      let (v, t') = hello_tic_handler info env t in
      let d' = port_writes info.port.start start t' in
      (v ≡ (if d.line then irq_handled else irq_none)) × (d'.line ≡ false) × (d'.id ≡ d.id)
unfolding hello_tic_handler port_writes hello_iowrite hello_ioread
handler_serves_device env info machine before new start t low reached r =
    let sound =
      port_writes-Sound info.port.start start t
        (reached-Sound _ start (realize-Sound machine before new low) reached) in
    ground arith
