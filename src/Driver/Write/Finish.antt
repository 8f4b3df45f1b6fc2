-- ===== src/Driver/Write/Finish.antt =====
-- What the ends of `pci_write` give back: the labels, and what follows the waits.
use cryptodev.Prelude.{
  ℕ, ℤ, pos, neg, ◌≡◌, ◌≢◌, ◌⊎◌, refl, true, false, none, some, List, ◌∷◌, arith, if◌then◌else◌,
}
use cryptodev.Effects.{Env, Trace, call}
use cryptodev.Kernel.{Call}
use cryptodev.Kernel.Errno.{eagain}
use cryptodev.Kernel.Resources.{Kind, Resource, resource, held}
use cryptodev.Driver.Device.{Job, ConfigMem}
use cryptodev.Driver.Wait.{Waited}
use cryptodev.Driver.Wait.Laws.{Unsignalled}
use cryptodev.Driver.Write.{
  Written, msg_addr, msg_bytes, fill, out_free, out_up, copy_back, mmio_finish, dma_finish,
}

-- The buffer that the end of the function frees.
abbrev pub owned : Job → List Resource → List Resource
owned job r = if job.is_not_mm then resource Kind.buffer (msg_addr job.msg) ∷ r else r

abbrev pub locked : Job → List Resource → List Resource
locked job r = resource Kind.semaphore 0 ∷ owned job r

-- The semaphore is up, the buffer is freed and the job does not point to it any more.
abbrev pub Settled : List Resource → Written × Trace Call → Type 0
Settled r (w, t) = (held t ≡ r) × (w.job.msg ≡ none)

-- The job runs the card by MMIO, or by DMA without interrupts, or no signal ends a sleep for the card.
abbrev pub Keeps : Env Call → Job → Type 0
Keeps env job = (job.is_m ≡ true) ⊎ ((job.is_i ≡ false) ⊎ Unsignalled env)

module _ (env : Env Call) (r : List Resource) where
  pub out_free-Settled :
      (job : Job) (err : ℤ) (t : Trace Call)
      → held t ≡ owned job r
      → Settled r (out_free job err env t)
  unfolding out_free held
  out_free-Settled job err t h = ground arith

  pub out_up-Settled :
      (job : Job) (err : ℤ) (t : Trace Call)
      → held t ≡ locked job r
      → Settled r (out_up job err env t)
  unfolding out_up held
  out_up-Settled job err t h = out_free-Settled job err _ (ground arith)

  copy_back-Settled :
      (job : Job) (ptr : ℕ) (t : Trace Call)
      → held t ≡ locked job r
      → Settled r (copy_back job ptr env t)
  unfolding copy_back held
  copy_back-Settled job ptr t h =
      let t' = (call (Call.copy_to_user ptr (msg_bytes job.msg) job.len) env t).1 in
      ground (arith, out_up-Settled job (pos 0) t', out_up-Settled job (neg eagain) t')

  pub mmio_finish-Settled :
      (space : ConfigMem) (job : Job) (ptr : ℕ) (w : Waited) (t : Trace Call) {v : ℤ}
      → held t ≡ locked job r
      → (mmio_finish space job ptr w env t).0.result ≡ some v
      → Settled r (mmio_finish space job ptr w env t)
  unfolding mmio_finish held
  mmio_finish-Settled space job ptr Waited.waiting t h e = cc
  mmio_finish-Settled space job ptr Waited.interrupted t h e = grind (arith, out_up-Settled)
  mmio_finish-Settled space job ptr Waited.ready t h e =
      let (a, t') = call (Call.memcpy_fromio space.r1.start job.len) env t in
      ground (arith, copy_back-Settled (fill job a.bytes) ptr t', out_up-Settled job (pos 0) t)

  pub dma_finish-Settled :
      (job : Job) (ptr handle : ℕ) (w : Waited) (t : Trace Call) {v : ℤ}
      → held t ≡ resource Kind.dma handle ∷ locked job r
      → w ≢ Waited.interrupted
      → (dma_finish job ptr handle w env t).0.result ≡ some v
      → Settled r (dma_finish job ptr handle w env t)
  unfolding dma_finish held out_up out_free
  dma_finish-Settled job ptr handle Waited.waiting t h k e = cc
  dma_finish-Settled job ptr handle Waited.interrupted t h k e = absurd (k refl)
  dma_finish-Settled job ptr handle Waited.ready t h k e =
      let (a, t') = call (Call.dma_unmap_single handle job.len) env t in
      copy_back-Settled (fill job a.bytes) ptr t' (ground arith)
