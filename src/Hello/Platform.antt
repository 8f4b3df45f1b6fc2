-- ===== src/Hello/Platform.antt =====
-- The platform driver bechmark-test/Demo/part2/pci_driver/driver_platform.c, its messages left out.
-- What it acquires is managed by the kernel, so its removal does nothing.
use cryptodev.Prelude.{
  ℕ, suc, ℤ, pos, ◌≡◌, ◌⊎◌, true, is_negative, is_nonzero, some, [], ◌∷◌, arith,
}
use cryptodev.Effects.{
  Env, Trace, call, run, pure, int_of, is_err, ptr_err, ◌>>=◌, ◌>>◌, when◌then◌else◌,
}
use cryptodev.Kernel.{Call, KernelIo}
use cryptodev.Driver.Card.{last_write}

-- `struct dev`
pub record Dev : Type 0 where
  pub regs : ℕ

abbrev pub irq_handled : ℤ
irq_handled = pos 1

unfoldable pub test_interrupt : Dev → KernelIo ℤ
test_interrupt tdev = pure irq_handled

-- `test_dev` is the address of the static variable.
unfoldable pub test_probe : (test_dev : ℕ) → KernelIo (Dev × ℤ)
test_probe test_dev = do
  res ← call Call.platform_get_resource
  r ← call (Call.devm_ioremap_resource res.value)
  let tdev : Dev = record { regs = r.value }
  when is_err r then pure (tdev, ptr_err r) else (do
    i ← call Call.platform_get_irq
    let irq = int_of i
    when is_negative irq then pure (tdev, irq) else (do
      e ← call (Call.devm_request_irq i.value test_dev)
      when is_nonzero (int_of e) then pure (tdev, int_of e) else (do
        run (Call.iowrite32 34 tdev.regs)
        run (Call.ioread32 tdev.regs)
        pure (tdev, pos 0))))

unfoldable pub test_remove : KernelIo ℤ
test_remove = pure (pos 0)

-- The writes to registers of a trace.
unfoldable pub register_writes : Trace Call → ℕ
register_writes [] = 0
register_writes (e ∷ t) = elim e.call [
  | Call.iowrite32 v a ↦ suc (register_writes t)
  | _ ↦ register_writes t
]

-- The probe returns 0, and has then written 34 to the register that it keeps the address of and
-- made no other write; or it returns another number, and has written nothing.
pub platform_probe :
    (env : Env Call) (test_dev : ℕ) (t : Trace Call)
    → let ((tdev, v), t') = test_probe test_dev env t in
      ((v ≡ pos 0)
        × (last_write tdev.regs t' ≡ some 34)
        × (register_writes t' ≡ suc (register_writes t)))
      ⊎ ((is_nonzero v ≡ true) × (register_writes t' ≡ register_writes t))
unfolding test_probe last_write register_writes
platform_probe env test_dev t = ground arith
