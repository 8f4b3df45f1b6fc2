-- ===== src/Driver/Write/Correct.antt =====
-- The calls of `pci_write` of drivers/cryptocard_mod.c that return 0.
use cryptodev.Prelude.{ℕ, ◌+◌, ◌%◌, ◌^◌, pos, ◌≡◌, true, false, some, ◌∷◌, arith}
use cryptodev.Effects.{Env, Trace, call}
use cryptodev.Kernel.{Call}
use cryptodev.Driver.Device.{Job, ConfigMem, CryptodevData, setup_configspace, is_not_live}
use cryptodev.Driver.Open.{File}
use cryptodev.Driver.Card.{last_copy, last_from_user, requested, operations}
use cryptodev.Driver.Write.{out_free, buffered_write, job_write, pci_write}
use cryptodev.Driver.Write.Command.{locked_write-operations}
use cryptodev.Driver.Write.Data.{Delivered, locked_write-last_from_user, locked_write-Delivered}

module _ (env : Env Call) (start size : ℕ) where
  abbrev space : ConfigMem
  space = setup_configspace start size

  abbrev Operated : Job → ℕ → ℕ → Trace Call → Trace Call → Type 0
  Operated job n ptr t t' =
      (operations space t' ≡ requested job n (last_from_user t') ∷ operations space t)
      × Delivered ptr t'

  buffered_write-Operated :
      (fuel : ℕ) (job : Job) (ptr n : ℕ) (t : Trace Call)
      → job.is_not_mm ≡ true
      → (buffered_write fuel space job ptr n env t).0.result ≡ some (pos 0)
      → Operated job job.len ptr t (buffered_write fuel space job ptr n env t).1
  unfolding buffered_write out_free operations last_from_user
  buffered_write-Operated fuel job ptr n t b e =
      let (p, t1) = call (Call.vmalloc n) env t in
      let (a, t2) = call (Call.copy_from_user ptr job.len) env t1 in
      let job' : Job = record job { msg = some (record { addr = p.value; bytes = a.bytes }) } in
      ground (
        arith,
        locked_write-operations env start size fuel job' ptr t2,
        locked_write-last_from_user env space fuel job' ptr t2,
        locked_write-Delivered env space fuel job' ptr t2,
      )

  job_write-Operated :
      (fuel : ℕ) (job : Job) (ptr n : ℕ) (t : Trace Call)
      → job.is_not_mm ≡ true
      → (job_write fuel space job ptr n env t).0.result ≡ some (pos 0)
      → Operated job (n % 2 ^ 32) ptr t (job_write fuel space job ptr n env t).1
  unfolding job_write is_not_live setup_configspace operations
  job_write-Operated fuel job ptr n t b e =
      let t1 = (is_not_live space.live 0x0fffffff env t).1 in
      let job' : Job = record job { len = n % 2 ^ 32 } in
      ground (arith, buffered_write-Operated fuel job' ptr n t1)

  -- `pci_write` on a job with a buffer of its own, which is to say not on the card's mapped memory:
  -- if it returns 0, it started exactly one operation. That operation has the key, the direction,
  -- the interrupt flag and the way of the job, the length of the call as a 32-bit number, and the
  -- bytes that were read from the caller; and the bytes that the card gave back last are those
  -- that were written last, to the caller's address.
  pub write_runs_job :
      (fuel : ℕ) (mycryptodev : CryptodevData) (file : File) (ptr n : ℕ) (t : Trace Call)
      {job : Job}
      → mycryptodev.configspace ≡ some (setup_configspace start size)
      → file.private_data ≡ some job
      → job.is_not_mm ≡ true
      → (pci_write fuel mycryptodev file ptr n env t).0.1 ≡ some (pos 0)
      → let t' = (pci_write fuel mycryptodev file ptr n env t).1 in
        (operations (setup_configspace start size) t'
          ≡ requested job (n % 2 ^ 32) (last_from_user t')
            ∷ operations (setup_configspace start size) t)
        × Delivered ptr t'
  unfolding pci_write
  write_runs_job fuel dev file ptr n t {job} s p b e =
      ground (arith, job_write-Operated fuel job ptr n t)

  -- `pci_write` on mapped memory of the card, by MMIO: if it returns 0, it started exactly one
  -- operation, with the key, the direction and the interrupt flag of the job. The content
  -- that the operation records is what the driver last copied to the card's data area, before the
  -- call, and not what a process or the card has put there.
  pub mapped_write_runs_job :
      (fuel : ℕ) (mycryptodev : CryptodevData) (file : File) (ptr n : ℕ) (t : Trace Call)
      {job : Job}
      → mycryptodev.configspace ≡ some (setup_configspace start size)
      → file.private_data ≡ some job
      → job.is_not_mm ≡ false
      → (pci_write fuel mycryptodev file ptr n env t).0.1 ≡ some (pos 0)
      → (job.is_m ≡ true)
        × (operations (setup_configspace start size) (pci_write fuel mycryptodev file ptr n env t).1
            ≡ requested job (n % 2 ^ 32) (last_copy (start + 0xA8) t)
              ∷ operations (setup_configspace start size) t)
  unfolding pci_write job_write is_not_live setup_configspace operations last_copy
  mapped_write_runs_job fuel dev file ptr n t {job} s p b e =
      let t1 = (is_not_live space.live 0x0fffffff env t).1 in
      let job' : Job = record job { len = n % 2 ^ 32 } in
      ground (arith, locked_write-operations env start size fuel job' ptr t1)
