-- ===== src/Driver/Write/Data.antt =====
-- The way of the data through `pci_write`: from the caller to the card and back.
use cryptodev.Prelude.{ℕ, pos, ◌≡◌, ◌≢◌, refl, true, some, none, arith}
use cryptodev.Effects.{Env, Trace, call, run}
use cryptodev.Kernel.{Call}
use cryptodev.Driver.Device.{Job, ConfigMem}
use cryptodev.Driver.Card.{last_from_user, last_to_user, last_from_card}
use cryptodev.Driver.Wait.{Waited, wait_for}
use cryptodev.Driver.Wait.Laws.{wait_for-unseen}
use cryptodev.Driver.Write.{
  msg_bytes, out_free, out_up, copy_back, mmio_start, mmio_finish, mmio_transfer, dma_start,
  dma_finish, dma_mapped, dma_transfer, locked_write,
}

-- The caller's memory at an address was last given what the card gave last.
abbrev pub Delivered : ℕ → Trace Call → Type 0
Delivered ptr t =
    (last_to_user t ≡ elim (last_from_card t) [ none ↦ none | some b ↦ some (ptr, b) ])
    × (last_from_card t ≢ none)

module _ (env : Env Call) (space : ConfigMem) where
  -- The caller's memory is read once, before the lock.
  mmio_transfer-last_from_user :
      (fuel : ℕ) (job : Job) (ptr : ℕ) (t : Trace Call)
      → last_from_user (mmio_transfer fuel space job ptr env t).1 ≡ last_from_user t
  unfolding mmio_transfer mmio_start mmio_finish copy_back out_up out_free last_from_user
  mmio_transfer-last_from_user fuel job ptr t =
      let t1 = (mmio_start space job env t).1 in
      ground (
        arith,
        wait_for-unseen env (Call.ioread8 space.status) last_from_user (λ _ _. refl) (λ _ _. refl)
            job.is_i fuel t1,
      )

  dma_mapped-last_from_user :
      (fuel : ℕ) (job : Job) (ptr handle : ℕ) (t : Trace Call)
      → last_from_user (dma_mapped fuel space job ptr handle env t).1 ≡ last_from_user t
  unfolding dma_mapped dma_start dma_finish copy_back out_up out_free last_from_user
  dma_mapped-last_from_user fuel job ptr handle t =
      let t1 = (dma_start space job handle env t).1 in
      ground (
        arith,
        wait_for-unseen env (Call.readq space.cmd) last_from_user (λ _ _. refl) (λ _ _. refl)
            job.is_i fuel t1,
      )

  pub locked_write-last_from_user :
      (fuel : ℕ) (job : Job) (ptr : ℕ) (t : Trace Call)
      → last_from_user (locked_write fuel space job ptr env t).1 ≡ last_from_user t
  unfolding locked_write dma_transfer out_up out_free last_from_user
  locked_write-last_from_user fuel job ptr t =
      let t1 = (call Call.down_interruptible env t).1 in
      let t2 = (run (Call.iowrite32 job.keyab space.keys) env t1).1 in
      let (a, t3) = call (Call.dma_map_single (msg_bytes job.msg) job.len) env t2 in
      let t4 = (call (Call.dma_mapping_error a.value) env t3).1 in
      ground (
        arith,
        mmio_transfer-last_from_user fuel job ptr t2,
        dma_mapped-last_from_user fuel job ptr a.value t4,
      )

  mmio_finish-Delivered :
      (job : Job) (ptr : ℕ) (w : Waited) (t : Trace Call)
      → job.is_not_mm ≡ true
      → (mmio_finish space job ptr w env t).0.result ≡ some (pos 0)
      → Delivered ptr (mmio_finish space job ptr w env t).1
  unfolding mmio_finish copy_back out_up out_free last_to_user last_from_card
  mmio_finish-Delivered job ptr Waited.waiting t b e = cc
  mmio_finish-Delivered job ptr Waited.interrupted t b e = cc
  mmio_finish-Delivered job ptr Waited.ready t b e = ground arith

  dma_finish-Delivered :
      (job : Job) (ptr handle : ℕ) (w : Waited) (t : Trace Call)
      → (dma_finish job ptr handle w env t).0.result ≡ some (pos 0)
      → Delivered ptr (dma_finish job ptr handle w env t).1
  unfolding dma_finish copy_back out_up out_free last_to_user last_from_card
  dma_finish-Delivered job ptr handle Waited.waiting t e = cc
  dma_finish-Delivered job ptr handle Waited.interrupted t e = cc
  dma_finish-Delivered job ptr handle Waited.ready t e = ground arith

  -- From the lock on, for a job with a buffer.
  pub locked_write-Delivered :
      (fuel : ℕ) (job : Job) (ptr : ℕ) (t : Trace Call)
      → job.is_not_mm ≡ true
      → (locked_write fuel space job ptr env t).0.result ≡ some (pos 0)
      → Delivered ptr (locked_write fuel space job ptr env t).1
  unfolding locked_write dma_transfer dma_mapped mmio_transfer out_up out_free
  locked_write-Delivered fuel job ptr t b e =
      let t1 = (call Call.down_interruptible env t).1 in
      let t2 = (run (Call.iowrite32 job.keyab space.keys) env t1).1 in
      let s1 = (mmio_start space job env t2).1 in
      let (w, s2) = wait_for job.is_i fuel (Call.ioread8 space.status) env s1 in
      let (a, t3) = call (Call.dma_map_single (msg_bytes job.msg) job.len) env t2 in
      let t4 = (call (Call.dma_mapping_error a.value) env t3).1 in
      let d1 = (dma_start space job a.value env t4).1 in
      let (x, d2) = wait_for job.is_i fuel (Call.readq space.cmd) env d1 in
      ground (arith, mmio_finish-Delivered job ptr w s2, dma_finish-Delivered job ptr a.value x d2)
