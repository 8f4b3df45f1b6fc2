-- ===== src/Driver/Write.antt =====
-- `pci_write` of drivers/cryptocard_mod.c. The pieces follow the code from the lock on: the two
-- ways to run the card, and the labels behind which the function ends.
pub mod Finish
pub mod Balance
pub mod Rest
pub mod Leak
pub mod Command
pub mod Data
pub mod Correct
pub mod Progress
pub mod Refusals
pub mod Guarded
pub mod Effect
pub mod Answer
pub mod Success
pub mod Mapped
use cryptodev.Prelude.{
  ℕ, ◌-◌, ◌%◌, ◌^◌, ℤ, pos, neg, Bool, not, ◌&&◌, Option, none, some, List, [], if◌then◌else◌,
  bit_or,
}
use cryptodev.Effects.{call, run, pure, is_zero, ◌>>=◌, ◌>>◌, when◌then◌else◌}
use cryptodev.Kernel.{Call, KernelIo}
use cryptodev.Kernel.Errno.{enomem, eagain, enodev, einval, erestartsys}
use cryptodev.Driver.Device.{Buffer, Job, ConfigMem, CryptodevData, is_not_live}
use cryptodev.Driver.Open.{File}
use cryptodev.Driver.Wait.{Waited, wait_for}

-- The state of the job and the number that the function returns; none while it still waits.
pub record Written : Type 0 where
  pub job : Job
  pub result : Option ℤ

abbrev pub written : Job → Option ℤ → Written
written job r = record { job = job; result = r }

abbrev pub msg_addr : Option Buffer → ℕ
msg_addr none = 0
msg_addr (some b) = b.addr

abbrev pub msg_bytes : Option Buffer → List ℕ
msg_bytes none = []
msg_bytes (some b) = b.bytes

-- What a copy into the buffer leaves in `myjob->msg`.
abbrev pub fill : Job → List ℕ → Job
fill job bytes = record job { msg = some (record { addr = msg_addr job.msg; bytes = bytes }) }

-- `if (myjob->isNotMM) vfree(myjob->msg); myjob->msg = NULL;`, then the return
unfoldable pub out_free : Job → ℤ → KernelIo Written
out_free job err = do
  when job.is_not_mm then run (Call.vfree (msg_addr job.msg)) else pure tt
  pure (written (record job { msg = none }) (some err))

-- `up` and what follows it; `pci_write` ends so with 0 too.
unfoldable pub out_up : Job → ℤ → KernelIo Written
out_up job err = do run Call.up; out_free job err

-- The value for the register `status`: 0x80 asks for an interrupt, 0x02 decrypts.
abbrev pub mmio_command : Job → ℕ
mmio_command job =
    if job.is_i
    then (if job.is_e then bit_or 0x80 0x00 else bit_or 0x80 0x02)
    else (if job.is_e then bit_or 0x00 0x00 else bit_or 0x00 0x02)

-- The value for the register `cmd`: 0x4 asks for an interrupt, 0x2 decrypts, 0x1 starts.
abbrev pub dma_command : Job → ℕ
dma_command job =
    if job.is_i
    then (if job.is_e then bit_or (bit_or 0x4 0x0) 0x1 else bit_or (bit_or 0x4 0x2) 0x1)
    else (if job.is_e then bit_or (bit_or 0x0 0x0) 0x1 else bit_or (bit_or 0x0 0x2) 0x1)

-- The copy back to the caller, at the end of both ways.
unfoldable pub copy_back : Job → ℕ → KernelIo Written
copy_back job ptr = do
  c ← call (Call.copy_to_user ptr (msg_bytes job.msg) job.len)
  when is_zero c then out_up job (pos 0) else out_up job (neg eagain)

-- The MMIO way, after the keys are set, up to the command.
unfoldable pub mmio_start : ConfigMem → Job → KernelIo (Unit {0})
mmio_start space job = do
  run (Call.iowrite32 job.len space.len_msg)
  when job.is_not_mm
      then run (Call.memcpy_toio space.r1.start (msg_bytes job.msg) job.len)
      else pure tt
  run (Call.iowrite32 (mmio_command job) space.status)
  run (Call.writeq (space.r1.start - space.start) space.data_addr)

-- What follows the wait for the register `status`.
unfoldable pub mmio_finish : ConfigMem → Job → ℕ → Waited → KernelIo Written
mmio_finish space job ptr Waited.waiting = pure (written job none)
mmio_finish space job ptr Waited.interrupted = out_up job (neg erestartsys)
mmio_finish space job ptr Waited.ready =
    when job.is_not_mm
    then (do a ← call (Call.memcpy_fromio space.r1.start job.len); copy_back (fill job a.bytes) ptr)
    else out_up job (pos 0)

unfoldable pub mmio_transfer : ℕ → ConfigMem → Job → ℕ → KernelIo Written
mmio_transfer fuel space job ptr = do
  mmio_start space job
  w ← wait_for job.is_i fuel (Call.ioread8 space.status)
  mmio_finish space job ptr w

-- The DMA way, with the buffer mapped, up to the command.
unfoldable pub dma_start : ConfigMem → Job → ℕ → KernelIo (Unit {0})
dma_start space job handle = do
  run (Call.writeq handle space.addr_op)
  run (Call.writeq job.len space.dlen_msg)
  run (Call.writeq (dma_command job) space.cmd)

-- What follows the wait for the register `cmd`. The unmapped buffer holds what the card wrote.
unfoldable pub dma_finish : Job → ℕ → ℕ → Waited → KernelIo Written
dma_finish job ptr handle Waited.waiting = pure (written job none)
dma_finish job ptr handle Waited.interrupted = out_up job (neg erestartsys)
dma_finish job ptr handle Waited.ready = do
  a ← call (Call.dma_unmap_single handle job.len)
  copy_back (fill job a.bytes) ptr

unfoldable pub dma_mapped : ℕ → ConfigMem → Job → ℕ → ℕ → KernelIo Written
dma_mapped fuel space job ptr handle = do
  dma_start space job handle
  w ← wait_for job.is_i fuel (Call.readq space.cmd)
  dma_finish job ptr handle w

unfoldable pub dma_transfer : ℕ → ConfigMem → Job → ℕ → KernelIo Written
dma_transfer fuel space job ptr = do
  h ← call (Call.dma_map_single (msg_bytes job.msg) job.len)
  e ← call (Call.dma_mapping_error h.value)
  when is_zero e then dma_mapped fuel space job ptr h.value else out_up job (neg 1)

-- From `down_interruptible` on.
unfoldable pub locked_write : ℕ → ConfigMem → Job → ℕ → KernelIo Written
locked_write fuel space job ptr = do
  d ← call Call.down_interruptible
  when is_zero d
      then (do
        run (Call.iowrite32 job.keyab space.keys)
        when job.is_m then mmio_transfer fuel space job ptr else dma_transfer fuel space job ptr)
      else out_free job (neg erestartsys)

-- The buffer of a caller that is not memory-mapped: allocated and filled.
unfoldable pub buffered_write : ℕ → ConfigMem → Job → ℕ → ℕ → KernelIo Written
buffered_write fuel space job ptr size = do
  p ← call (Call.vmalloc size)
  when is_zero p then pure (written (record job { msg = none }) (some (neg enomem))) else (do
    a ← call (Call.copy_from_user ptr job.len)
    let job' = record job { msg = some (record { addr = p.value; bytes = a.bytes }) }
    when is_zero a then locked_write fuel space job' ptr else out_free job' (neg eagain))

-- The whole function, once the job and the register map are there. `len` is an `unsigned int`.
unfoldable pub job_write : ℕ → ConfigMem → Job → ℕ → ℕ → KernelIo Written
job_write fuel space job ptr size =
    when not job.is_not_mm && not job.is_m then pure (written job (some (neg einval))) else (do
      dead ← is_not_live space.live 0x0fffffff
      let job' = record job { len = size % 2 ^ 32 }
      when dead
          then pure (written job (some (neg enodev)))
          else when job.is_not_mm
          then buffered_write fuel space job' ptr size
          else locked_write fuel space job' ptr)

unfoldable pub pci_write : ℕ → CryptodevData → File → ℕ → ℕ → KernelIo (File × Option ℤ)
pci_write fuel mycryptodev file ptr size = elim file.private_data [
  | none ↦ pure (file, some (neg enomem))
  | some myjob ↦ elim mycryptodev.configspace [
    | none ↦ pure (file, some (neg enomem))
    | some space ↦ do
      w ← job_write fuel space myjob ptr size
      pure (record file { private_data = some w.job }, w.result)
  ]
]
