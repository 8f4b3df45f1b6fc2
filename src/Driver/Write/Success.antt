-- ===== src/Driver/Write/Success.antt =====
-- `pci_write` of drivers/cryptocard_mod.c where no call of the kernel fails and the card finishes.
use cryptodev.Prelude.{
  ℕ, zero, suc, ◌%◌, ◌^◌, ◌<◌, ◌≡◌, ◌≢◌, pos, Bool, true, false, some, List, arith,
}
use cryptodev.Effects.{Env, Trace, call, run}
use cryptodev.Kernel.{Call}
use cryptodev.Driver.Device.{Job, ConfigMem, CryptodevData, is_not_live}
use cryptodev.Driver.Open.{File}
use cryptodev.Driver.Wait.{Waited, event_wait, wait_for}
use cryptodev.Driver.Wait.Laws.{busy_wait-ne-interrupted}
use cryptodev.Driver.Wait.Progress.{Completes, wait_status-ne-waiting, wait_cmd-ne-waiting}
use cryptodev.Driver.Write.{
  fill, msg_bytes, out_free, out_up, copy_back, mmio_finish, mmio_transfer, dma_finish, dma_mapped,
  dma_transfer, locked_write, buffered_write, job_write, pci_write,
}

-- Memory is there for every size but 0, every copy is complete, every mapping is one, no signal
-- arrives, and the card answers that it is live.
pub record Succeeds (env : Env Call) : Type 0 where
  pub allocates : (t : Trace Call) (n : ℕ) → 0 < n → (env t (Call.vmalloc n)).value ≢ 0
  pub copies_in : (t : Trace Call) (p n : ℕ) → (env t (Call.copy_from_user p n)).value ≡ 0
  pub copies_out :
      (t : Trace Call) (p n : ℕ) (bytes : List ℕ) → (env t (Call.copy_to_user p bytes n)).value ≡ 0
  pub downs : (t : Trace Call) → (env t Call.down_interruptible).value ≡ 0
  pub waits : (t : Trace Call) → (env t Call.wait_event).value ≡ 0
  pub maps : (t : Trace Call) (h : ℕ) → (env t (Call.dma_mapping_error h)).value ≡ 0
  pub lives : (t : Trace Call) (live : ℕ) → (is_not_live live 0x0fffffff env t).0 ≡ false

event_wait-ne-interrupted :
    (env : Env Call) (read : Call)
    → ((t : Trace Call) → (env t Call.wait_event).value ≡ 0)
    → (fuel : ℕ) (t : Trace Call) → (event_wait fuel read env t).0 ≢ Waited.interrupted
unfolding event_wait
event_wait-ne-interrupted env read waits zero t = ground arith
event_wait-ne-interrupted env read waits (suc fuel) t =
    grind (arith, waits, event_wait-ne-interrupted env read waits fuel)

pub wait_for-ne-interrupted :
    (env : Env Call) (read : Call)
    → ((t : Trace Call) → (env t Call.wait_event).value ≡ 0)
    → (is_i : Bool) (fuel : ℕ) (t : Trace Call)
    → (wait_for is_i fuel read env t).0 ≢ Waited.interrupted
wait_for-ne-interrupted env read waits true = event_wait-ne-interrupted env read waits
wait_for-ne-interrupted env read waits false = busy_wait-ne-interrupted env read

ready_lem : (w : Waited) → w ≢ Waited.waiting → w ≢ Waited.interrupted → w ≡ Waited.ready
ready_lem w a b = ground arith

module _ (env : Env Call) (kernel : Succeeds env) where
  copy_back-succeeds :
      (job : Job) (ptr : ℕ) (t : Trace Call) → (copy_back job ptr env t).0.result ≡ some (pos 0)
  unfolding copy_back out_up out_free
  copy_back-succeeds job ptr t = ground (arith, kernel.copies_out t ptr job.len (msg_bytes job.msg))

  mmio_finish-succeeds :
      (space : ConfigMem) (job : Job) (ptr : ℕ) (w : Waited) (t : Trace Call)
      → w ≡ Waited.ready
      → (mmio_finish space job ptr w env t).0.result ≡ some (pos 0)
  unfolding mmio_finish out_up out_free
  mmio_finish-succeeds space job ptr w t e =
      let (a, t') = call (Call.memcpy_fromio space.r1.start job.len) env t in
      ground (arith, copy_back-succeeds (fill job a.bytes) ptr t')

  dma_finish-succeeds :
      (job : Job) (ptr handle : ℕ) (w : Waited) (t : Trace Call)
      → w ≡ Waited.ready
      → (dma_finish job ptr handle w env t).0.result ≡ some (pos 0)
  unfolding dma_finish
  dma_finish-succeeds job ptr handle w t e =
      let (a, t') = call (Call.dma_unmap_single handle job.len) env t in
      ground (arith, copy_back-succeeds (fill job a.bytes) ptr t')

  module _ (k : ℕ) (done : Completes env k) (fuel : ℕ) (enough : k < fuel) where
    mmio_transfer-succeeds :
        (space : ConfigMem) (job : Job) (ptr : ℕ) (t : Trace Call)
        → (mmio_transfer fuel space job ptr env t).0.result ≡ some (pos 0)
    unfolding mmio_transfer
    mmio_transfer-succeeds space job ptr t = mmio_finish-succeeds space job ptr _ _ (
        ready_lem _
          (wait_status-ne-waiting env k done space.status job.is_i fuel _ (omega arith)
            (omega arith))
          (wait_for-ne-interrupted env _ kernel.waits job.is_i fuel _))

    dma_mapped-succeeds :
        (space : ConfigMem) (job : Job) (ptr handle : ℕ) (t : Trace Call)
        → (dma_mapped fuel space job ptr handle env t).0.result ≡ some (pos 0)
    unfolding dma_mapped
    dma_mapped-succeeds space job ptr handle t = dma_finish-succeeds job ptr handle _ _ (
        ready_lem _
          (wait_cmd-ne-waiting env k done space.cmd job.is_i fuel _ (omega arith) (omega arith))
          (wait_for-ne-interrupted env _ kernel.waits job.is_i fuel _))

    locked_write-succeeds :
        (space : ConfigMem) (job : Job) (ptr : ℕ) (t : Trace Call)
        → (locked_write fuel space job ptr env t).0.result ≡ some (pos 0)
    unfolding locked_write dma_transfer
    locked_write-succeeds space job ptr t =
        let t1 = (call Call.down_interruptible env t).1 in
        let t2 = (run (Call.iowrite32 job.keyab space.keys) env t1).1 in
        let (a, t3) = call (Call.dma_map_single (msg_bytes job.msg) job.len) env t2 in
        let t4 = (call (Call.dma_mapping_error a.value) env t3).1 in
        ground (
          arith,
          kernel.downs t,
          kernel.maps t3 a.value,
          mmio_transfer-succeeds space job ptr t2,
          dma_mapped-succeeds space job ptr a.value t4,
        )

    job_write-succeeds :
        (space : ConfigMem) (job : Job) (ptr n : ℕ) (t : Trace Call)
        → job.is_not_mm ≡ true
        → 0 < n
        → (job_write fuel space job ptr n env t).0.result ≡ some (pos 0)
    unfolding job_write buffered_write
    job_write-succeeds space job ptr n t b h =
        let t1 = (is_not_live space.live 0x0fffffff env t).1 in
        let job' : Job = record job { len = n % 2 ^ 32 } in
        let (p, t2) = call (Call.vmalloc n) env t1 in
        let (a, t3) = call (Call.copy_from_user ptr job'.len) env t2 in
        let filled : Job = record job' {
          msg = some (record { addr = p.value; bytes = a.bytes });
        } in
        ground (
          arith,
          kernel.lives t space.live,
          kernel.allocates t1 n h,
          kernel.copies_in t2 ptr job'.len,
          locked_write-succeeds space filled ptr t3,
        )

    -- On a file with a job that has a buffer of its own, `pci_write` of at least one byte returns 0
    -- if no call of the kernel fails, no signal arrives, the card is live, and it shows that it is
    -- idle within `k` reads of a register after it was last written to, where `k` is below the fuel.
    pub write_succeeds :
        (mycryptodev : CryptodevData) (file : File) (ptr n : ℕ) (t : Trace Call) {job : Job}
        {space : ConfigMem}
        → mycryptodev.configspace ≡ some space
        → file.private_data ≡ some job
        → job.is_not_mm ≡ true
        → 0 < n
        → (pci_write fuel mycryptodev file ptr n env t).0.1 ≡ some (pos 0)
    unfolding pci_write
    write_succeeds dev file ptr n t {job} {space} s p b h =
        ground (arith, job_write-succeeds space job ptr n t)
