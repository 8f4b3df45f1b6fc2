-- ===== src/Driver/Write/Guarded.antt =====
-- The writes of `pci_write` to the card, and the semaphore.
use cryptodev.Prelude.{
  ℕ, ◌%◌, ◌^◌, ◌≡◌, refl, Bool, true, false, not, ◌&&◌, ◌||◌, some, List, [], ◌∷◌, inl, inr, arith,
  ◌==◌, Option-cases,
}
use cryptodev.Effects.{Env, Trace, call, run}
use cryptodev.Kernel.{Call}
use cryptodev.Kernel.Resources.{Kind, Resource, held}
use cryptodev.Driver.Device.{Job, ConfigMem, CryptodevData, is_not_live}
use cryptodev.Driver.Open.{File}
use cryptodev.Driver.Wait.{Waited, wait_for}
use cryptodev.Driver.Wait.Laws.{wait_for-unseen}
use cryptodev.Driver.Write.{
  msg_bytes, out_free, out_up, copy_back, mmio_start, mmio_finish, mmio_transfer, dma_start,
  dma_finish, dma_mapped, dma_transfer, locked_write, buffered_write, job_write, pci_write,
}

is_semaphore : Kind → Bool
is_semaphore Kind.semaphore = true
is_semaphore _ = false

has_semaphore : List Resource → Bool
unfolding is_semaphore
has_semaphore [] = false
has_semaphore (r ∷ rs) = is_semaphore r.kind || has_semaphore rs

-- A write to the card, but for the liveness test of its register `live`.
programs : ℕ → Call → Bool
programs live (Call.iowrite32 v a) = not (a == live)
programs live (Call.writeq v a) = not (a == live)
programs live (Call.memcpy_toio a bytes n) = true
programs live _ = false

-- Every write to the card in the trace was made while the semaphore was held.
pub guarded : ℕ → Trace Call → Bool
unfolding programs
guarded live [] = true
guarded live (e ∷ t) =
    let before = guarded live t in (not (programs live e.call) || has_semaphore (held t)) && before

module _ (env : Env Call) (space : ConfigMem) where
  mmio_start-guarded :
      (job : Job) (t : Trace Call)
      → has_semaphore (held t) ≡ true
      → (guarded space.live (mmio_start space job env t).1 ≡ guarded space.live t)
        × (has_semaphore (held (mmio_start space job env t).1) ≡ true)
  unfolding mmio_start guarded held
  mmio_start-guarded job t h = ground arith

  dma_start-guarded :
      (job : Job) (handle : ℕ) (t : Trace Call)
      → has_semaphore (held t) ≡ true
      → guarded space.live (dma_start space job handle env t).1 ≡ guarded space.live t
  unfolding dma_start guarded held
  dma_start-guarded job handle t h = ground arith

  mmio_finish-guarded :
      (job : Job) (ptr : ℕ) (w : Waited) (t : Trace Call)
      → guarded space.live (mmio_finish space job ptr w env t).1 ≡ guarded space.live t
  unfolding mmio_finish copy_back out_up out_free guarded
  mmio_finish-guarded job ptr w t = ground arith

  dma_finish-guarded :
      (job : Job) (ptr handle : ℕ) (w : Waited) (t : Trace Call)
      → guarded space.live (dma_finish job ptr handle w env t).1 ≡ guarded space.live t
  unfolding dma_finish copy_back out_up out_free guarded
  dma_finish-guarded job ptr handle w t = ground arith

  locked_write-guarded :
      (fuel : ℕ) (job : Job) (ptr : ℕ) (t : Trace Call)
      → guarded space.live (locked_write fuel space job ptr env t).1 ≡ guarded space.live t
  unfolding locked_write mmio_transfer dma_transfer dma_mapped out_up out_free guarded held
      has_semaphore
  locked_write-guarded fuel job ptr t =
      let t1 = (call Call.down_interruptible env t).1 in
      let t2 = (run (Call.iowrite32 job.keyab space.keys) env t1).1 in
      let s1 = (mmio_start space job env t2).1 in
      let (w, s2) = wait_for job.is_i fuel (Call.ioread8 space.status) env s1 in
      let (a, t3) = call (Call.dma_map_single (msg_bytes job.msg) job.len) env t2 in
      let t4 = (call (Call.dma_mapping_error a.value) env t3).1 in
      let d1 = (dma_start space job a.value env t4).1 in
      let (x, d2) = wait_for job.is_i fuel (Call.readq space.cmd) env d1 in
      let blind =
        wait_for-unseen env (Call.ioread8 space.status) (guarded space.live) (λ _ _. refl)
          (λ _ _. refl) job.is_i fuel s1 in
      let blind' =
        wait_for-unseen env (Call.readq space.cmd) (guarded space.live) (λ _ _. refl) (λ _ _. refl)
          job.is_i fuel d1 in
      ground (
        arith,
        blind,
        blind',
        mmio_start-guarded job t2,
        mmio_finish-guarded job ptr w s2,
        dma_start-guarded job a.value t4,
        dma_finish-guarded job ptr a.value x d2,
      )

  job_write-guarded :
      (fuel : ℕ) (job : Job) (ptr n : ℕ) (t : Trace Call)
      → guarded space.live (job_write fuel space job ptr n env t).1 ≡ guarded space.live t
  unfolding job_write is_not_live buffered_write out_free guarded
  job_write-guarded fuel job ptr n t =
      let t1 = (is_not_live space.live 0x0fffffff env t).1 in
      let job' : Job = record job { len = n % 2 ^ 32 } in
      let (p, t2) = call (Call.vmalloc n) env t1 in
      let (a, t3) = call (Call.copy_from_user ptr job'.len) env t2 in
      let filled : Job = record job' { msg = some (record { addr = p.value; bytes = a.bytes }) } in
      ground (arith, locked_write-guarded fuel job' ptr t1, locked_write-guarded fuel filled ptr t3)

-- Every register of the card but `live`, and its memory, is written only while the caller holds
-- the semaphore: a call of `pci_write` adds no write made without it, however the call ends.
pub write_guarded :
    (env : Env Call) (space : ConfigMem) (fuel : ℕ) (mycryptodev : CryptodevData) (file : File)
    (ptr n : ℕ) (t : Trace Call)
    → mycryptodev.configspace ≡ some space
    → guarded space.live (pci_write fuel mycryptodev file ptr n env t).1 ≡ guarded space.live t
unfolding pci_write
write_guarded env space fuel dev file ptr n t s = elim (Option-cases file.private_data) [
  | inl p ↦ ground arith
  | inr (job, p) ↦ ground (arith, job_write-guarded env space fuel job ptr n t)
]
