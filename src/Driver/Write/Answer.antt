-- ===== src/Driver/Write/Answer.antt =====
-- What `pci_write` answers, and what it leaves of its job.
use cryptodev.Prelude.{
  ℕ, ℤ, pos, negsuc, ◌%◌, ◌^◌, ◌≡◌, ◌⊎◌, inl, inr, Bool, true, false, Option, none, some, ltb,
  arith, Option-cases,
}
use cryptodev.Effects.{Env, Trace, call, run}
use cryptodev.Kernel.{Call}
use cryptodev.Driver.Device.{Job, ConfigMem, CryptodevData, is_not_live}
use cryptodev.Driver.Open.{File}
use cryptodev.Driver.Wait.{Waited, wait_for}
use cryptodev.Driver.Write.{
  Written, fill, msg_bytes, out_free, out_up, copy_back, mmio_start, mmio_finish, mmio_transfer,
  dma_start, dma_finish, dma_mapped, dma_transfer, locked_write, buffered_write, job_write,
  pci_write,
}

-- The same flags and the same key.
abbrev pub SameSettings : Job → Job → Type 0
SameSettings j k =
    (j.is_e ≡ k.is_e)
    × (j.is_m ≡ k.is_m)
    × (j.is_i ≡ k.is_i)
    × (j.is_not_mm ≡ k.is_not_mm)
    × (j.keyab ≡ k.keyab)

-- There is a job, with these settings.
abbrev pub HasSettings : Job → Option Job → Type 0
HasSettings job none = true ≡ false
HasSettings job (some job') = SameSettings job' job

-- A negated error number of Linux.
abbrev pub is_error : ℤ → Bool
is_error (pos n) = false
is_error (negsuc n) = ltb n 4095

-- 0 or an error number, once the call returns.
abbrev pub IsAnswer : Option ℤ → Type 0
IsAnswer none = Unit
IsAnswer (some v) = (v ≡ pos 0) ⊎ (is_error v ≡ true)

abbrev pub Answers : Job → Written → Type 0
Answers job w = SameSettings w.job job × IsAnswer w.result

module _ (env : Env Call) (space : ConfigMem) where
  copy_back-Answers :
      (job : Job) (ptr : ℕ) (t : Trace Call) → Answers job (copy_back job ptr env t).0
  unfolding copy_back out_up out_free
  copy_back-Answers job ptr t = ground arith

  mmio_finish-Answers :
      (job : Job) (ptr : ℕ) (w : Waited) (t : Trace Call)
      → Answers job (mmio_finish space job ptr w env t).0
  unfolding mmio_finish out_up out_free
  mmio_finish-Answers job ptr w t =
      let (a, t') = call (Call.memcpy_fromio space.r1.start job.len) env t in
      ground (arith, copy_back-Answers (fill job a.bytes) ptr t')

  dma_finish-Answers :
      (job : Job) (ptr handle : ℕ) (w : Waited) (t : Trace Call)
      → Answers job (dma_finish job ptr handle w env t).0
  unfolding dma_finish out_up out_free
  dma_finish-Answers job ptr handle w t =
      let (a, t') = call (Call.dma_unmap_single handle job.len) env t in
      ground (arith, copy_back-Answers (fill job a.bytes) ptr t')

  locked_write-Answers :
      (fuel : ℕ) (job : Job) (ptr : ℕ) (t : Trace Call)
      → Answers job (locked_write fuel space job ptr env t).0
  unfolding locked_write mmio_transfer dma_transfer dma_mapped out_up out_free
  locked_write-Answers fuel job ptr t =
      let t1 = (call Call.down_interruptible env t).1 in
      let t2 = (run (Call.iowrite32 job.keyab space.keys) env t1).1 in
      let s1 = (mmio_start space job env t2).1 in
      let (w, s2) = wait_for job.is_i fuel (Call.ioread8 space.status) env s1 in
      let (a, t3) = call (Call.dma_map_single (msg_bytes job.msg) job.len) env t2 in
      let t4 = (call (Call.dma_mapping_error a.value) env t3).1 in
      let d1 = (dma_start space job a.value env t4).1 in
      let (x, d2) = wait_for job.is_i fuel (Call.readq space.cmd) env d1 in
      ground (arith, mmio_finish-Answers job ptr w s2, dma_finish-Answers job ptr a.value x d2)

  job_write-Answers :
      (fuel : ℕ) (job : Job) (ptr n : ℕ) (t : Trace Call)
      → Answers job (job_write fuel space job ptr n env t).0
  unfolding job_write buffered_write out_free
  job_write-Answers fuel job ptr n t =
      let t1 = (is_not_live space.live 0x0fffffff env t).1 in
      let job' : Job = record job { len = n % 2 ^ 32 } in
      let (p, t2) = call (Call.vmalloc n) env t1 in
      let (a, t3) = call (Call.copy_from_user ptr job'.len) env t2 in
      let filled : Job = record job' { msg = some (record { addr = p.value; bytes = a.bytes }) } in
      ground (arith, locked_write-Answers fuel job' ptr t1, locked_write-Answers fuel filled ptr t3)

-- A call of `pci_write` on a file with a job leaves a job with the same flags and the same key, and
-- returns 0 or an error number from -4095 to -1 if it returns.
pub pci_write-Answers :
    (env : Env Call) (fuel : ℕ) (mycryptodev : CryptodevData) (file : File) (ptr n : ℕ)
    (t : Trace Call) {job : Job}
    → file.private_data ≡ some job
    → let ((file', r), t') = pci_write fuel mycryptodev file ptr n env t in
      HasSettings job file'.private_data × IsAnswer r
unfolding pci_write
pci_write-Answers env fuel dev file ptr n t {job} p = elim (Option-cases dev.configspace) [
  | inl s ↦ ground arith
  | inr (space, s) ↦ ground (arith, job_write-Answers env space fuel job ptr n t)
]
