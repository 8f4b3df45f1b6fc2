-- ===== src/Driver/Write/Command.antt =====
-- What `pci_write` of drivers/cryptocard_mod.c makes the card do, from the lock on.
use cryptodev.Prelude.{
  ℕ, ◌+◌, pos, ◌≡◌, ◌∙◌, refl, Bool, true, false, not, ◌&&◌, some, ◌∷◌, arith, if◌then◌else◌,
}
use cryptodev.Effects.{Env, Trace, call, run}
use cryptodev.Kernel.{Call}
use cryptodev.Driver.Device.{Job, ConfigMem, setup_configspace}
use cryptodev.Driver.Card.{last_write, last_copy, last_mapped, requested, operations}
use cryptodev.Driver.Wait.{Waited, wait_for}
use cryptodev.Driver.Wait.Laws.{wait_for-unseen}
use cryptodev.Driver.Write.{
  msg_bytes, out_free, out_up, copy_back, mmio_start, mmio_finish, mmio_transfer, dma_start,
  dma_finish, dma_mapped, dma_transfer, locked_write,
}

module _ (env : Env Call) (start size : ℕ) where
  abbrev pub space : ConfigMem
  space = setup_configspace start size

  -- The MMIO way starts one operation, with the data that is in the card's memory.
  pub mmio_start-operations :
      (job : Job) (t : Trace Call)
      → last_write space.keys t ≡ some job.keyab
      → job.is_m ≡ true
      → operations space (mmio_start space job env t).1
        ≡ requested job job.len
            (if job.is_not_mm then some (msg_bytes job.msg) else last_copy (start + 0xA8) t)
          ∷ operations space t
  unfolding mmio_start operations setup_configspace last_write last_copy
  mmio_start-operations job t k m = ground arith

  pub dma_start-operations :
      (job : Job) (handle : ℕ) (t : Trace Call)
      → last_write space.keys t ≡ some job.keyab
      → job.is_m ≡ false
      → operations space (dma_start space job handle env t).1
        ≡ requested job job.len (last_mapped handle t) ∷ operations space t
  unfolding dma_start operations setup_configspace last_write last_mapped
  dma_start-operations job handle t k m = ground arith

  pub wait_for-operations :
      (is_i : Bool) (fuel a : ℕ) (t : Trace Call)
      → (operations space (wait_for is_i fuel (Call.ioread8 a) env t).1 ≡ operations space t)
        × (operations space (wait_for is_i fuel (Call.readq a) env t).1 ≡ operations space t)
  unfolding operations
  wait_for-operations is_i fuel a t = (
    wait_for-unseen env _ (operations space) (λ _ _. refl) (λ _ _. refl) is_i fuel t,
    wait_for-unseen env _ (operations space) (λ _ _. refl) (λ _ _. refl) is_i fuel t,
  )

  mmio_finish-operations :
      (job : Job) (ptr : ℕ) (w : Waited) (t : Trace Call)
      → operations space (mmio_finish space job ptr w env t).1 ≡ operations space t
  unfolding mmio_finish copy_back out_up out_free operations
  mmio_finish-operations job ptr w t = ground arith

  dma_finish-operations :
      (job : Job) (ptr handle : ℕ) (w : Waited) (t : Trace Call)
      → operations space (dma_finish job ptr handle w env t).1 ≡ operations space t
  unfolding dma_finish copy_back out_up out_free operations
  dma_finish-operations job ptr handle w t = ground arith

  mmio_transfer-operations :
      (fuel : ℕ) (job : Job) (ptr : ℕ) (t : Trace Call)
      → operations space (mmio_transfer fuel space job ptr env t).1
        ≡ operations space (mmio_start space job env t).1
  unfolding mmio_transfer
  mmio_transfer-operations fuel job ptr t =
      mmio_finish-operations job ptr _ _ ∙ (wait_for-operations job.is_i fuel space.status _).0

  dma_mapped-operations :
      (fuel : ℕ) (job : Job) (ptr handle : ℕ) (t : Trace Call)
      → operations space (dma_mapped fuel space job ptr handle env t).1
        ≡ operations space (dma_start space job handle env t).1
  unfolding dma_mapped
  dma_mapped-operations fuel job ptr handle t =
      dma_finish-operations job ptr handle _ _ ∙ (wait_for-operations job.is_i fuel space.cmd _).1

  -- From the lock on.
  pub locked_write-operations :
      (fuel : ℕ) (job : Job) (ptr : ℕ) (t : Trace Call)
      → (locked_write fuel space job ptr env t).0.result ≡ some (pos 0)
      → operations space (locked_write fuel space job ptr env t).1
        ≡ requested job job.len (
            if job.is_m && not job.is_not_mm
            then last_copy (start + 0xA8) t
            else some (msg_bytes job.msg))
          ∷ operations space t
  unfolding locked_write dma_transfer operations last_write last_copy last_mapped out_up out_free
  locked_write-operations fuel job ptr t done =
      let t1 = (call Call.down_interruptible env t).1 in
      let t2 = (run (Call.iowrite32 job.keyab space.keys) env t1).1 in
      let (a, t3) = call (Call.dma_map_single (msg_bytes job.msg) job.len) env t2 in
      let t4 = (call (Call.dma_mapping_error a.value) env t3).1 in
      ground (
        arith,
        mmio_transfer-operations fuel job ptr t2,
        mmio_start-operations job t2,
        dma_mapped-operations fuel job ptr a.value t4,
        dma_start-operations job a.value t4,
      )
