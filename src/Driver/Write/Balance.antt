-- ===== src/Driver/Write/Balance.antt =====
-- What `pci_write` of drivers/cryptocard_mod.c holds when it returns.
use cryptodev.Prelude.{
  ℕ, ℤ, neg, ◌∙◌, ◌≡◌, ◌≢◌, ◌⊎◌, refl, Bool, true, false, ◌%◌, ◌^◌, none, some, List, ◌∷◌, inl, inr,
  arith, Option-cases,
}
use cryptodev.Effects.{Env, Trace, call, run}
use cryptodev.Kernel.{Call}
use cryptodev.Kernel.Errno.{eagain, erestartsys}
use cryptodev.Kernel.Resources.{Kind, Resource, resource, held}
use cryptodev.Driver.Device.{Job, ConfigMem, CryptodevData, is_not_live}
use cryptodev.Driver.Open.{File}
use cryptodev.Driver.Wait.{Waited, wait_for}
use cryptodev.Driver.Wait.Laws.{wait_for-unseen, busy_wait-ne-interrupted, Unsignalled}
use cryptodev.Driver.Write.Success.{wait_for-ne-interrupted}
use cryptodev.Driver.Write.{
  msg_bytes, mmio_start, mmio_transfer, dma_start, dma_mapped, dma_transfer, locked_write,
  buffered_write, job_write, pci_write,
}
use cryptodev.Driver.Write.Finish.{
  owned, locked, Settled, Keeps, out_free-Settled, out_up-Settled, mmio_finish-Settled,
  dma_finish-Settled,
}

module _ (env : Env Call) where
  mmio_start-held :
      (space : ConfigMem) (job : Job) (t : Trace Call)
      → held (mmio_start space job env t).1 ≡ held t
  unfolding mmio_start held
  mmio_start-held space job t = ground arith

  pub dma_start-held :
      (space : ConfigMem) (job : Job) (handle : ℕ) (t : Trace Call)
      → held (dma_start space job handle env t).1 ≡ held t
  unfolding dma_start held
  dma_start-held space job handle t = ground arith

  wait_status-held :
      (is_i : Bool) (fuel a : ℕ) (t : Trace Call)
      → held (wait_for is_i fuel (Call.ioread8 a) env t).1 ≡ held t
  unfolding held
  wait_status-held is_i fuel a = wait_for-unseen env _ held (λ _ _. refl) (λ _ _. refl) is_i fuel

  pub wait_cmd-held :
      (is_i : Bool) (fuel a : ℕ) (t : Trace Call)
      → held (wait_for is_i fuel (Call.readq a) env t).1 ≡ held t
  unfolding held
  wait_cmd-held is_i fuel a = wait_for-unseen env _ held (λ _ _. refl) (λ _ _. refl) is_i fuel

  mmio_transfer-Settled :
      (r : List Resource) (fuel : ℕ) (space : ConfigMem) (job : Job) (ptr : ℕ) (t : Trace Call)
      {v : ℤ}
      → held t ≡ locked job r
      → (mmio_transfer fuel space job ptr env t).0.result ≡ some v
      → Settled r (mmio_transfer fuel space job ptr env t)
  unfolding mmio_transfer
  mmio_transfer-Settled r fuel space job ptr t h e =
      mmio_finish-Settled env r space job ptr _ _
        (wait_status-held job.is_i fuel space.status _ ∙ mmio_start-held space job t ∙ h) e

  not_interrupted :
      (is_i : Bool) (fuel : ℕ) (read : Call) (t : Trace Call)
      → (is_i ≡ false) ⊎ Unsignalled env
      → (wait_for is_i fuel read env t).0 ≢ Waited.interrupted
  not_interrupted false fuel read t k = busy_wait-ne-interrupted env read fuel t
  not_interrupted true fuel read t (inl polled) = ground arith
  not_interrupted true fuel read t (inr quiet) =
      wait_for-ne-interrupted env read quiet.waits true fuel t

  dma_mapped-Settled :
      (r : List Resource) (fuel : ℕ) (space : ConfigMem) (job : Job) (ptr handle : ℕ)
      (t : Trace Call) {v : ℤ}
      → held t ≡ resource Kind.dma handle ∷ locked job r
      → (job.is_i ≡ false) ⊎ Unsignalled env
      → (dma_mapped fuel space job ptr handle env t).0.result ≡ some v
      → Settled r (dma_mapped fuel space job ptr handle env t)
  unfolding dma_mapped
  dma_mapped-Settled r fuel space job ptr handle t h k e =
      dma_finish-Settled env r job ptr handle _ _
        (wait_cmd-held job.is_i fuel space.cmd _ ∙ dma_start-held space job handle t ∙ h)
        (not_interrupted job.is_i fuel (Call.readq space.cmd) _ k) e

  -- The mapping of the buffer is given back too, unless a signal ends the wait.
  dma_transfer-Settled :
      (r : List Resource) (fuel : ℕ) (space : ConfigMem) (job : Job) (ptr : ℕ) (t : Trace Call)
      {v : ℤ}
      → held t ≡ locked job r
      → (job.is_i ≡ false) ⊎ Unsignalled env
      → (dma_transfer fuel space job ptr env t).0.result ≡ some v
      → Settled r (dma_transfer fuel space job ptr env t)
  unfolding dma_transfer held
  dma_transfer-Settled r fuel space job ptr t {v} h k e =
      let (a, t1) = call (Call.dma_map_single (msg_bytes job.msg) job.len) env t in
      let t2 = (call (Call.dma_mapping_error a.value) env t1).1 in
      ground (
        arith,
        out_up-Settled env r job (neg 1) t2,
        dma_mapped-Settled r fuel space job ptr a.value t2 {v = v},
      )

  locked_write-Settled :
      (r : List Resource) (fuel : ℕ) (space : ConfigMem) (job : Job) (ptr : ℕ) (t : Trace Call)
      {v : ℤ}
      → held t ≡ owned job r
      → Keeps env job
      → (locked_write fuel space job ptr env t).0.result ≡ some v
      → Settled r (locked_write fuel space job ptr env t)
  unfolding locked_write held
  locked_write-Settled r fuel space job ptr t {v} h k e =
      let t1 = (call Call.down_interruptible env t).1 in
      let t2 = (run (Call.iowrite32 job.keyab space.keys) env t1).1 in
      ground (
        arith,
        out_free-Settled env r job (neg erestartsys) t1,
        mmio_transfer-Settled r fuel space job ptr t2 {v = v},
        dma_transfer-Settled r fuel space job ptr t2 {v = v},
      )

  buffered_write-Settled :
      (r : List Resource) (fuel : ℕ) (space : ConfigMem) (job : Job) (ptr size : ℕ) (t : Trace Call)
      {v : ℤ}
      → held t ≡ r
      → job.is_not_mm ≡ true
      → Keeps env job
      → (buffered_write fuel space job ptr size env t).0.result ≡ some v
      → Settled r (buffered_write fuel space job ptr size env t)
  unfolding buffered_write held
  buffered_write-Settled r fuel space job ptr size t {v} h m k e =
      let (p, t1) = call (Call.vmalloc size) env t in
      let (a, t2) = call (Call.copy_from_user ptr job.len) env t1 in
      let job' : Job = record job { msg = some (record { addr = p.value; bytes = a.bytes }) } in
      ground (
        arith,
        out_free-Settled env r job' (neg eagain) t2,
        locked_write-Settled r fuel space job' ptr t2 {v = v},
      )

  job_write-Settled :
      (fuel : ℕ) (space : ConfigMem) (job : Job) (ptr size : ℕ) (t : Trace Call) {v : ℤ}
      → job.msg ≡ none
      → Keeps env job
      → (job_write fuel space job ptr size env t).0.result ≡ some v
      → Settled (held t) (job_write fuel space job ptr size env t)
  unfolding job_write is_not_live held
  job_write-Settled fuel space job ptr size t {v} m k e =
      let t1 = (is_not_live space.live 0x0fffffff env t).1 in
      let job' : Job = record job { len = size % 2 ^ 32 } in
      ground (
        arith,
        buffered_write-Settled (held t) fuel space job' ptr size t1 {v = v},
        locked_write-Settled (held t) fuel space job' ptr t1 {v = v},
      )

  -- A call of `write` on a job that has no buffer yet, if it returns, holds what it held before: the
  -- buffer is freed, the DMA mapping is released and the semaphore is up, and the job does not keep
  -- the buffer's address. This is so on every path, errors and a signal during the wait for the
  -- semaphore included, if the job runs the card by MMIO, or by DMA without interrupts, or no signal
  -- ends a sleep for the card.
  pub write_releases :
      (fuel : ℕ) (mycryptodev : CryptodevData) (file : File) (ptr size : ℕ) (t : Trace Call)
      {job : Job} {v : ℤ}
      → file.private_data ≡ some job
      → job.msg ≡ none
      → Keeps env job
      → (pci_write fuel mycryptodev file ptr size env t).0.1 ≡ some v
      → let ((file', _), t') = pci_write fuel mycryptodev file ptr size env t in
        (held t' ≡ held t) × ((job' : Job) × (file'.private_data ≡ some job') × (job'.msg ≡ none))
  unfolding pci_write
  write_releases fuel dev file ptr size t {job} {v} p m k e = elim (Option-cases dev.configspace) [
    | inl absent ↦ (ground arith, (job, ground arith, m))
    | inr (space, found) ↦
        let done = job_write-Settled fuel space job ptr size t {v = v} m k in
        let out = job_write fuel space job ptr size env t in
        (ground (arith, done), (out.0.job, ground (arith, done), ground (arith, done)))
  ]
