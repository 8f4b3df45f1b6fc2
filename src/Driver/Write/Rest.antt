-- ===== src/Driver/Write/Rest.antt =====
-- Whether the card is still at work on what `pci_write` has started.
use cryptodev.Prelude.{ℕ, zero, suc, ◌≡◌, ◌∙◌, Bool, true, false, none, some, arith, refl}
use cryptodev.Effects.{Env, Trace}
use cryptodev.Kernel.{Call}
use cryptodev.Driver.Device.{Job, ConfigMem, setup_configspace}
use cryptodev.Driver.Card.{Way, pending, is_loaded, accepted}
use cryptodev.Driver.Wait.{Waited, busy_wait, event_wait, wait_for}
use cryptodev.Driver.Wait.Laws.{wait_for-unseen}
use cryptodev.Driver.Write.{
  out_free, out_up, copy_back, mmio_start, mmio_finish, dma_start, dma_finish,
}

module _ (env : Env Call) (start size : ℕ) where
  abbrev space : ConfigMem
  space = setup_configspace start size

  pub mmio_start-pending :
      (job : Job) (t : Trace Call)
      → pending space t ≡ none
      → job.is_not_mm ≡ true
      → (pending space (mmio_start space job env t).1 ≡ some Way.by_mmio)
        × (accepted space (mmio_start space job env t).1 ≡ true)
  unfolding mmio_start pending accepted is_loaded setup_configspace
  mmio_start-pending job t rest b = ground arith

  pub dma_start-pending :
      (job : Job) (handle : ℕ) (t : Trace Call)
      → pending space t ≡ none
      → is_loaded space t ≡ true
      → (pending space (dma_start space job handle env t).1 ≡ some Way.by_dma)
        × (accepted space (dma_start space job handle env t).1 ≡ true)
  unfolding dma_start pending accepted is_loaded setup_configspace
  dma_start-pending job handle t rest loaded = ground arith

  -- A wait that ends well has seen that the card is done.
  wait_status-pending :
      (is_i : Bool) (fuel : ℕ) (t : Trace Call)
      → pending space t ≡ some Way.by_mmio
      → (wait_for is_i fuel (Call.ioread8 space.status) env t).0 ≡ Waited.ready
      → pending space (wait_for is_i fuel (Call.ioread8 space.status) env t).1 ≡ none
  unfolding busy_wait event_wait pending
  wait_status-pending true zero t p e = ground arith
  wait_status-pending true (suc fuel) t p e = grind (arith, wait_status-pending true fuel)
  wait_status-pending false zero t p e = ground arith
  wait_status-pending false (suc fuel) t p e = grind (arith, wait_status-pending false fuel)

  wait_cmd-pending :
      (is_i : Bool) (fuel : ℕ) (t : Trace Call)
      → pending space t ≡ some Way.by_dma
      → (wait_for is_i fuel (Call.readq space.cmd) env t).0 ≡ Waited.ready
      → pending space (wait_for is_i fuel (Call.readq space.cmd) env t).1 ≡ none
  unfolding busy_wait event_wait pending
  wait_cmd-pending true zero t p e = ground arith
  wait_cmd-pending true (suc fuel) t p e = grind (arith, wait_cmd-pending true fuel)
  wait_cmd-pending false zero t p e = ground arith
  wait_cmd-pending false (suc fuel) t p e = grind (arith, wait_cmd-pending false fuel)

  wait_for-accepted :
      (is_i : Bool) (fuel a : ℕ) (t : Trace Call)
      → (accepted space (wait_for is_i fuel (Call.ioread8 a) env t).1 ≡ accepted space t)
        × (accepted space (wait_for is_i fuel (Call.readq a) env t).1 ≡ accepted space t)
  unfolding accepted
  wait_for-accepted is_i fuel a t = (
    wait_for-unseen env _ (accepted space) (λ _ _. refl) (λ _ _. refl) is_i fuel t,
    wait_for-unseen env _ (accepted space) (λ _ _. refl) (λ _ _. refl) is_i fuel t,
  )

  -- What follows the waits does not start the card.
  pub mmio_finish-pending :
      (job : Job) (ptr : ℕ) (w : Waited) (t : Trace Call)
      → pending space (mmio_finish space job ptr w env t).1 ≡ pending space t
  unfolding mmio_finish copy_back out_up out_free pending
  mmio_finish-pending job ptr w t = ground arith

  pub dma_finish-pending :
      (job : Job) (ptr handle : ℕ) (w : Waited) (t : Trace Call)
      → pending space (dma_finish job ptr handle w env t).1 ≡ pending space t
  unfolding dma_finish copy_back out_up out_free pending
  dma_finish-pending job ptr handle w t = ground arith

  -- After the wait of a run that began with the card at rest.
  abbrev pub Done : Waited × Trace Call → Type 0
  Done (w, t) = w ≡ Waited.ready → (pending space t ≡ none) × (accepted space t ≡ true)

  pub mmio_wait-Done :
      (fuel : ℕ) (job : Job) (t : Trace Call)
      → pending space t ≡ none
      → job.is_not_mm ≡ true
      → Done (wait_for job.is_i fuel (Call.ioread8 space.status) env (mmio_start space job env t).1)
  mmio_wait-Done fuel job t rest b ready =
      let t' = (mmio_start space job env t).1 in
      let (began, took) = mmio_start-pending job t rest b in
      (
        wait_status-pending job.is_i fuel t' began ready,
        (wait_for-accepted job.is_i fuel space.status t').0 ∙ took,
      )

  pub dma_wait-Done :
      (fuel : ℕ) (job : Job) (handle : ℕ) (t : Trace Call)
      → pending space t ≡ none
      → is_loaded space t ≡ true
      → Done
          (wait_for job.is_i fuel (Call.readq space.cmd) env (dma_start space job handle env t).1)
  dma_wait-Done fuel job handle t rest loaded ready =
      let t' = (dma_start space job handle env t).1 in
      let (began, took) = dma_start-pending job handle t rest loaded in
      (
        wait_cmd-pending job.is_i fuel t' began ready,
        (wait_for-accepted job.is_i fuel space.cmd t').1 ∙ took,
      )
