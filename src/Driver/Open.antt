-- ===== src/Driver/Open.antt =====
-- `pci_open` and `pci_release` of drivers/cryptocard_mod.c.
pub mod Laws
use cryptodev.Prelude.{ℕ, ℤ, pos, neg, true, false, Option, none, some}
use cryptodev.Effects.{call, run, pure, is_zero, ◌>>=◌, ◌>>◌, when◌then◌else◌}
use cryptodev.Kernel.{Call, KernelIo}
use cryptodev.Kernel.Errno.{enomem}
use cryptodev.Driver.Device.{Job}

-- `sizeof(struct job)` on a 64-bit machine
abbrev sizeof_job : ℕ
sizeof_job = 24

-- `file->private_data`: the address of the job and what it holds; none for NULL.
pub record File : Type 0 where
  pub addr : ℕ
  pub private_data : Option Job

-- What `kzalloc` and the assignments after it leave in a job.
unfoldable pub new_job : Job
new_job = record {
  is_e = true;
  is_m = true;
  is_i = false;
  is_not_mm = false;
  len = 0;
  msg = none;
  keyab = 0;
}

unfoldable pub pci_open : File → KernelIo (File × ℤ)
pci_open file = do
  myjob ← call (Call.kzalloc sizeof_job)
  when is_zero myjob
      then pure (file, neg enomem)
      else pure (record { addr = myjob.value; private_data = some new_job }, pos 0)

unfoldable pub pci_release : File → KernelIo (File × ℤ)
pci_release file = do
  run (Call.kfree file.addr)
  pure (record { addr = 0; private_data = none }, pos 0)
