-- ===== src/Driver/Write/Progress.antt =====
-- `pci_write` of drivers/cryptocard_mod.c with a card that finishes.
use cryptodev.Prelude.{ℕ, ◌%◌, ◌^◌, ◌<◌, ◌≢◌, inl, inr, none, some, arith, Option-cases}
use cryptodev.Effects.{Env, Trace, call, run}
use cryptodev.Kernel.{Call}
use cryptodev.Driver.Device.{Job, ConfigMem, CryptodevData, is_not_live}
use cryptodev.Driver.Open.{File}
use cryptodev.Driver.Wait.{Waited}
use cryptodev.Driver.Wait.Progress.{Completes, wait_status-ne-waiting, wait_cmd-ne-waiting}
use cryptodev.Driver.Write.{
  msg_bytes, out_free, out_up, copy_back, mmio_finish, mmio_transfer, dma_finish, dma_mapped,
  dma_transfer, locked_write, buffered_write, job_write, pci_write,
}

module _ (env : Env Call) where
  mmio_finish-returns :
      (space : ConfigMem) (job : Job) (ptr : ℕ) (w : Waited) (t : Trace Call)
      → w ≢ Waited.waiting
      → (mmio_finish space job ptr w env t).0.result ≢ none
  unfolding mmio_finish copy_back out_up out_free
  mmio_finish-returns space job ptr w t n = ground arith

  dma_finish-returns :
      (job : Job) (ptr handle : ℕ) (w : Waited) (t : Trace Call)
      → w ≢ Waited.waiting
      → (dma_finish job ptr handle w env t).0.result ≢ none
  unfolding dma_finish copy_back out_up out_free
  dma_finish-returns job ptr handle w t n = ground arith

  module _ (k : ℕ) (done : Completes env k) (fuel : ℕ) (enough : k < fuel) where
    mmio_transfer-returns :
        (space : ConfigMem) (job : Job) (ptr : ℕ) (t : Trace Call)
        → (mmio_transfer fuel space job ptr env t).0.result ≢ none
    unfolding mmio_transfer
    mmio_transfer-returns space job ptr t =
        mmio_finish-returns space job ptr _ _ (
          wait_status-ne-waiting env k done space.status job.is_i fuel _ (omega arith)
            (omega arith))

    dma_mapped-returns :
        (space : ConfigMem) (job : Job) (ptr handle : ℕ) (t : Trace Call)
        → (dma_mapped fuel space job ptr handle env t).0.result ≢ none
    unfolding dma_mapped
    dma_mapped-returns space job ptr handle t =
        dma_finish-returns job ptr handle _ _
          (wait_cmd-ne-waiting env k done space.cmd job.is_i fuel _ (omega arith) (omega arith))

    locked_write-returns :
        (space : ConfigMem) (job : Job) (ptr : ℕ) (t : Trace Call)
        → (locked_write fuel space job ptr env t).0.result ≢ none
    unfolding locked_write dma_transfer out_up out_free
    locked_write-returns space job ptr t =
        let t1 = (call Call.down_interruptible env t).1 in
        let t2 = (run (Call.iowrite32 job.keyab space.keys) env t1).1 in
        let (a, t3) = call (Call.dma_map_single (msg_bytes job.msg) job.len) env t2 in
        let t4 = (call (Call.dma_mapping_error a.value) env t3).1 in
        ground (
          arith,
          mmio_transfer-returns space job ptr t2,
          dma_mapped-returns space job ptr a.value t4,
        )

    job_write-returns :
        (space : ConfigMem) (job : Job) (ptr n : ℕ) (t : Trace Call)
        → (job_write fuel space job ptr n env t).0.result ≢ none
    unfolding job_write buffered_write out_free
    job_write-returns space job ptr n t =
        let t1 = (is_not_live space.live 0x0fffffff env t).1 in
        let job' : Job = record job { len = n % 2 ^ 32 } in
        let (p, t2) = call (Call.vmalloc n) env t1 in
        let (a, t3) = call (Call.copy_from_user ptr job'.len) env t2 in
        let filled : Job = record job' {
          msg = some (record { addr = p.value; bytes = a.bytes });
        } in
        ground
          (arith, locked_write-returns space job' ptr t1, locked_write-returns space filled ptr t3)

    -- If the card shows that it is idle within `k` reads of a register after it was last written
    -- to, then `pci_write` returns: more than `k` rounds of its waiting loop are never needed.
    pub write_returns :
        (mycryptodev : CryptodevData) (file : File) (ptr n : ℕ) (t : Trace Call)
        → (pci_write fuel mycryptodev file ptr n env t).0.1 ≢ none
    unfolding pci_write
    write_returns dev file ptr n t = elim (Option-cases file.private_data) [
      | inl p ↦ ground arith
      | inr (job, p) ↦ elim (Option-cases dev.configspace) [
        | inl s ↦ ground arith
        | inr (space, s) ↦ ground (arith, job_write-returns space job ptr n t)
      ]
    ]
