-- ===== src/Driver/Write/Refusals.antt =====
-- What `pci_write` refuses, and what it has done by then.
use cryptodev.Prelude.{ℕ, neg, ◌≡◌, ◌≢◌, ◌⊎◌, true, false, some, ◌∷◌, arith, bit_and}
use cryptodev.Effects.{Env, Trace, Answer, event, run}
use cryptodev.Kernel.{Call}
use cryptodev.Kernel.Errno.{einval, enodev}
use cryptodev.Driver.Device.{Job, ConfigMem, CryptodevData, is_not_live}
use cryptodev.Driver.Open.{File}
use cryptodev.Driver.Write.{job_write, pci_write}

module _ (env : Env Call) where
  -- A job that is set to DMA on the card's mapped memory is refused with -EINVAL: nothing is
  -- called, and the file stays as it was.
  pub mapped_dma_refused :
      (fuel : ℕ) (mycryptodev : CryptodevData) (file : File) (ptr n : ℕ) (t : Trace Call)
      {job : Job} {space : ConfigMem}
      → mycryptodev.configspace ≡ some space
      → file.private_data ≡ some job
      → job.is_not_mm ≡ false
      → job.is_m ≡ false
      → pci_write fuel mycryptodev file ptr n env t ≡ ((file, some (neg einval)), t)
  unfolding pci_write job_write
  mapped_dma_refused fuel dev file ptr n t s p b m = ground arith

  -- The trace after the write to `live`, and what the read of it gives.
  abbrev pub live_written : ConfigMem → Trace Call → Trace Call
  live_written space t = (run (Call.iowrite32 0x0fffffff space.live) env t).1

  abbrev pub live_reply : ConfigMem → Trace Call → Answer
  live_reply space t = env (live_written space t) (Call.ioread32 space.live)

  -- If the register `live` gives back any of the 28 bits that were written to it, the call returns
  -- -ENODEV; it has made no call but the write and the read of that register.
  pub dead_card_refused :
      (fuel : ℕ) (mycryptodev : CryptodevData) (file : File) (ptr n : ℕ) (t : Trace Call)
      {job : Job} {space : ConfigMem}
      → mycryptodev.configspace ≡ some space
      → file.private_data ≡ some job
      → (job.is_not_mm ≡ true) ⊎ (job.is_m ≡ true)
      → bit_and (live_reply space t).value 0x0fffffff ≢ 0
      → pci_write fuel mycryptodev file ptr n env t ≡ (
        (file, some (neg enodev)),
        event (Call.ioread32 space.live) (live_reply space t) ∷ live_written space t,
      )
  unfolding pci_write job_write is_not_live
  dead_card_refused fuel dev file ptr n t s p b d = ground arith
