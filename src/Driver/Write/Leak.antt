-- ===== src/Driver/Write/Leak.antt =====
-- What a DMA transfer keeps when a signal interrupts the wait for its interrupt.
use cryptodev.Prelude.{ℕ, neg, ◌∙◌, ◌≡◌, some, List, ◌∷◌, arith}
use cryptodev.Effects.{Env, Trace}
use cryptodev.Kernel.{Call}
use cryptodev.Kernel.Errno.{erestartsys}
use cryptodev.Kernel.Resources.{Kind, Resource, resource, held}
use cryptodev.Driver.Device.{Job, ConfigMem}
use cryptodev.Driver.Wait.{Waited}
use cryptodev.Driver.Write.{out_up, out_free, copy_back, dma_finish, dma_mapped}
use cryptodev.Driver.Write.Finish.{locked}
use cryptodev.Driver.Write.Balance.{dma_start-held, wait_cmd-held}

module _ (env : Env Call) (r : List Resource) where
  dma_finish-leaks :
      (job : Job) (ptr handle : ℕ) (w : Waited) (t : Trace Call)
      → held t ≡ resource Kind.dma handle ∷ locked job r
      → (dma_finish job ptr handle w env t).0.result ≡ some (neg erestartsys)
      → held (dma_finish job ptr handle w env t).1 ≡ resource Kind.dma handle ∷ r
  unfolding dma_finish copy_back out_up out_free held
  dma_finish-leaks job ptr handle Waited.waiting t h e = cc
  dma_finish-leaks job ptr handle Waited.interrupted t h e = ground arith
  dma_finish-leaks job ptr handle Waited.ready t h e = ground arith

  -- A DMA transfer that a signal interrupts frees the buffer and raises the semaphore, and leaves
  -- the buffer mapped for the card: the mapping is never released.
  pub interrupted_dma_leaks :
      (fuel : ℕ) (space : ConfigMem) (job : Job) (ptr handle : ℕ) (t : Trace Call)
      → held t ≡ resource Kind.dma handle ∷ locked job r
      → (dma_mapped fuel space job ptr handle env t).0.result ≡ some (neg erestartsys)
      → held (dma_mapped fuel space job ptr handle env t).1 ≡ resource Kind.dma handle ∷ r
  unfolding dma_mapped
  interrupted_dma_leaks fuel space job ptr handle t h e =
      dma_finish-leaks job ptr handle _ _
        (wait_cmd-held env job.is_i fuel space.cmd _ ∙ dma_start-held env space job handle t ∙ h) e
