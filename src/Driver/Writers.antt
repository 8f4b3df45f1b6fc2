-- ===== src/Driver/Writers.antt =====
-- `pci_write` of drivers/cryptocard_mod.c as several threads run it at once, an access to shared
-- state at a time: one thread. The job is shared by the threads that use one open file; the
-- semaphore, the registers and the kernel's memory are shared by all.
pub mod System
pub mod Local
pub mod Exclusive
pub mod Progress
pub mod Own
pub mod Buffers
pub mod Alone
pub mod Race
pub mod Tests
use cryptodev.Prelude.{
  ℕ, suc, ◌+◌, ◌%◌, ◌^◌, ◌≡◌, ◌≢◌, ◌⊎◌, Bool, true, false, Option, none, some, List, [], ◌∷◌,
}
use cryptodev.Effects.{Env, Trace}
use cryptodev.Kernel.{Call}
use cryptodev.Driver.Device.{Job, Request}
use cryptodev.Driver.Card.{Way, Operation}
use cryptodev.Driver.Ioctl.{job_ioctl}
use cryptodev.Driver.Write.{msg_addr, msg_bytes, fill, mmio_command, dma_command}

-- What the driver has written to the card: the registers that the function writes, the bytes that it
-- has copied to the data area `r1`, the buffer that it has mapped for the card, and the operation that
-- it has last asked for. Whether the card accepts that, which it does not while it is still busy
-- because a signal has ended a wait, and what the card or a process that has mapped it puts into the
-- data area, are not part of the state.
pub record Registers : Type 0 where
  pub keys : ℕ
  pub len_msg : ℕ
  pub status : ℕ
  pub copied : List ℕ
  pub addr_op : ℕ
  pub dlen_msg : ℕ
  pub mapping : ℕ × List ℕ
  pub last_start : Option Operation

-- What a thread sees: the job is that of its file. `allocated` and `freed` list the addresses that
-- vmalloc gave and that vfree got, the latest first.
pub record View : Type 0 where
  pub semaphore : ℕ
  pub card : Registers
  pub job : Job
  pub allocated : List ℕ
  pub freed : List ℕ

-- The arguments of a call: the length, and the bytes at the caller's address.
pub record Args : Type 0 where
  pub len : ℕ
  pub bytes : List ℕ

-- Where a thread stands.
pub data Pc : Type 0 where
  idle : Pc  -- outside of the function
  entered : Args → Pc  -- before `myjob->len = len`
  sized : Args → Pc  -- before the test of isNotMM and vmalloc
  allocated : Args → Pc  -- before copy_from_user
  filled : Args → Pc  -- before down_interruptible
  locked : Args → Pc  -- before the write of the keys
  keyed : Args → Pc  -- before the test of isM
  mmio_sized : Args → Pc  -- before the test of isNotMM and memcpy_toio
  mmio_loaded : Args → Pc  -- before the write of `status`
  mmio_commanded : Args → Pc  -- before the write of `data_addr`
  mmio_running : Args → Pc  -- in the wait for `status`
  dma_mapped : Args → ℕ → Pc  -- before the write of `addr_op`
  dma_addressed : Args → Pc  -- before the write of `dlen_msg`
  dma_sized : Args → Pc  -- before the write of `cmd`
  dma_running : Args → Pc  -- in the wait for `cmd`
  fetched : Args → Pc  -- before copy_to_user
  out_up : Pc
  out_free : Pc
  clearing : Pc  -- before `myjob->msg = NULL`

-- The operation that a start asks for by what was written before.
abbrev pub mmio_run : Registers → Operation
mmio_run c = record {
  way = Way.by_mmio;
  key = some c.keys;
  len = some c.len_msg;
  command = some c.status;
  content = some c.copied;
}

-- The card reads the buffer that is mapped at the address in `addr_op`.
abbrev pub dma_run : Registers → ℕ → Operation
dma_run c command = record {
  way = Way.by_dma;
  key = some c.keys;
  len = some c.dlen_msg;
  command = some command;
  content = some c.mapping.1;
}

abbrev pub with_card : View → Registers → View
with_card v c = record v { card = c }

abbrev pub with_job : View → Job → View
with_job v j = record v { job = j }

-- One step of one thread. Where the kernel or the card decides, any answer may follow. A call that
-- the first tests refuse changes no shared state and is left out.
pub data Move (v : View) : Pc → View → Pc → Type 0 where
  ioctl :
      (cmd : Request) (arg : ℕ) (env : Env Call) (t : Trace Call)
      → Move v idle (with_job v (job_ioctl cmd arg v.job env t).0.0) idle
  enter : (a : Args) → (v.job.is_not_mm ≡ true) ⊎ (v.job.is_m ≡ true) → Move v idle v (entered a)
  set_len :
      {a : Args} → Move v (entered a) (with_job v (record v.job { len = a.len % 2 ^ 32 })) (sized a)
  use_mapped : {a : Args} → v.job.is_not_mm ≡ false → Move v (sized a) v (filled a)
  alloc :
      {a : Args} (p : ℕ)
      → v.job.is_not_mm ≡ true
      → Move v
          (sized a)
          (record v {
            job = record v.job { msg = some (record { addr = p; bytes = [] }) };
            allocated = p ∷ v.allocated;
          })
          (allocated a)
  alloc_fail :
      {a : Args}
      → v.job.is_not_mm ≡ true
      → Move v (sized a) (with_job v (record v.job { msg = none })) idle
  copy_in : {a : Args} → Move v (allocated a) (with_job v (fill v.job a.bytes)) (filled a)
  copy_fault :
      {a : Args} (bytes : List ℕ) → Move v (allocated a) (with_job v (fill v.job bytes)) out_free
  down :
      {a : Args} (k : ℕ)
      → v.semaphore ≡ suc k
      → Move v (filled a) (record v { semaphore = k }) (locked a)
  down_interrupted : {a : Args} → Move v (filled a) v out_free
  set_keys :
      {a : Args} → Move v (locked a) (with_card v (record v.card { keys = v.job.keyab })) (keyed a)
  mmio_len :
      {a : Args}
      → v.job.is_m ≡ true
      → Move v (keyed a) (with_card v (record v.card { len_msg = v.job.len })) (mmio_sized a)
  mmio_load :
      {a : Args}
      → v.job.is_not_mm ≡ true
      → Move v
          (mmio_sized a)
          (with_card v (record v.card { copied = msg_bytes v.job.msg }))
          (mmio_loaded a)
  mmio_loaded_already :
      {a : Args} → v.job.is_not_mm ≡ false → Move v (mmio_sized a) v (mmio_loaded a)
  set_status :
      {a : Args}
      → Move v
          (mmio_loaded a)
          (with_card v (record v.card { status = mmio_command v.job }))
          (mmio_commanded a)
  mmio_start :
      {a : Args}
      → Move v
          (mmio_commanded a)
          (with_card v (record v.card { last_start = some (mmio_run v.card) }))
          (mmio_running a)
  mmio_fetch :
      {a : Args} (bytes : List ℕ)
      → v.job.is_not_mm ≡ true
      → Move v (mmio_running a) (with_job v (fill v.job bytes)) (fetched a)
  mmio_done : {a : Args} → v.job.is_not_mm ≡ false → Move v (mmio_running a) v out_up
  mmio_interrupted : {a : Args} → v.job.is_i ≡ true → Move v (mmio_running a) v out_up
  dma_map :
      {a : Args} (h : ℕ)
      → v.job.is_m ≡ false
      → Move v
          (keyed a)
          (with_card v (record v.card { mapping = (h, msg_bytes v.job.msg) }))
          (dma_mapped a h)
  dma_map_error : {a : Args} → v.job.is_m ≡ false → Move v (keyed a) v out_up
  dma_addr :
      {a : Args} {h : ℕ}
      → Move v (dma_mapped a h) (with_card v (record v.card { addr_op = h })) (dma_addressed a)
  dma_len :
      {a : Args}
      → Move v
          (dma_addressed a)
          (with_card v (record v.card { dlen_msg = v.job.len }))
          (dma_sized a)
  dma_start :
      {a : Args}
      → Move v
          (dma_sized a)
          (with_card v (record v.card { last_start = some (dma_run v.card (dma_command v.job)) }))
          (dma_running a)
  dma_unmap :
      {a : Args} (bytes : List ℕ)
      → Move v (dma_running a) (with_job v (fill v.job bytes)) (fetched a)
  dma_interrupted : {a : Args} → v.job.is_i ≡ true → Move v (dma_running a) v out_up
  copy_out : {a : Args} → Move v (fetched a) v out_up
  up : Move v out_up (record v { semaphore = v.semaphore + 1 }) out_free
  free :
      v.job.is_not_mm ≡ true
      → Move v out_free (record v { freed = msg_addr v.job.msg ∷ v.freed }) clearing
  keep : v.job.is_not_mm ≡ false → Move v out_free v clearing
  clear : Move v clearing (with_job v (record v.job { msg = none })) idle

-- Between `down` and `up`.
abbrev pub inside : Pc → Bool
inside idle = false
inside (entered a) = false
inside (sized a) = false
inside (allocated a) = false
inside (filled a) = false
inside out_free = false
inside clearing = false
inside _ = true
