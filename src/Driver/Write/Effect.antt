-- ===== src/Driver/Write/Effect.antt =====
-- What a call of `pci_write` does to the memory of its caller.
use cryptodev.Prelude.{
  ℕ, ◌%◌, ◌^◌, pos, ◌≡◌, ◌∙◌, refl, Bool, true, false, none, some, List, ◌∷◌, arith,
}
use cryptodev.Memory.{Bytes, take, read, poke}
use cryptodev.Effects.{Env, Trace, call, run}
use cryptodev.Kernel.{Call}
use cryptodev.Driver.Device.{Job, ConfigMem, CryptodevData, setup_configspace, is_not_live}
use cryptodev.Driver.Open.{File}
use cryptodev.Driver.Card.{
  Operation, last_write, last_mapped, requested, operations, pending, is_loaded, memory, Reads,
  Crypts,
}
use cryptodev.Driver.Wait.{Waited, wait_for}
use cryptodev.Driver.Wait.Laws.{wait_for-unseen}
use cryptodev.Driver.Write.{
  msg_bytes, out_free, out_up, copy_back, mmio_start, mmio_finish, mmio_transfer, dma_start,
  dma_finish, dma_mapped, dma_transfer, locked_write, buffered_write, job_write, pci_write,
}
use cryptodev.Driver.Write.Rest.{
  Done, mmio_wait-Done, dma_wait-Done, mmio_finish-pending, dma_finish-pending,
}
use cryptodev.Driver.Write.Command.{
  mmio_start-operations, dma_start-operations, wait_for-operations,
}

module _ (env : Env Call) (m : Bytes) where
  mmio_start-memory :
      (space : ConfigMem) (job : Job) (t : Trace Call)
      → memory m (mmio_start space job env t).1 ≡ memory m t
  unfolding mmio_start memory
  mmio_start-memory space job t = ground arith

  dma_start-memory :
      (space : ConfigMem) (job : Job) (handle : ℕ) (t : Trace Call)
      → memory m (dma_start space job handle env t).1 ≡ memory m t
  unfolding dma_start memory
  dma_start-memory space job handle t = ground arith

  wait_status-memory :
      (is_i : Bool) (fuel a : ℕ) (t : Trace Call)
      → memory m (wait_for is_i fuel (Call.ioread8 a) env t).1 ≡ memory m t
  unfolding memory
  wait_status-memory is_i fuel a =
      wait_for-unseen env _ (memory m) (λ _ _. refl) (λ _ _. refl) is_i fuel

  wait_cmd-memory :
      (is_i : Bool) (fuel a : ℕ) (t : Trace Call)
      → memory m (wait_for is_i fuel (Call.readq a) env t).1 ≡ memory m t
  unfolding memory
  wait_cmd-memory is_i fuel a =
      wait_for-unseen env _ (memory m) (λ _ _. refl) (λ _ _. refl) is_i fuel

module _ (env : Env Call) (start size : ℕ) (m : Bytes) (crypt : Bool → ℕ → List ℕ → List ℕ)
    (card : Crypts env (setup_configspace start size) crypt) where
  abbrev space : ConfigMem
  space = setup_configspace start size

  mmio_finish-ready :
      (job : Job) (ptr : ℕ) (w : Waited) (t : Trace Call)
      → (mmio_finish space job ptr w env t).0.result ≡ some (pos 0)
      → w ≡ Waited.ready
  unfolding mmio_finish out_up out_free
  mmio_finish-ready job ptr Waited.waiting t e = cc
  mmio_finish-ready job ptr Waited.interrupted t e = cc
  mmio_finish-ready job ptr Waited.ready t e = refl

  dma_finish-ready :
      (job : Job) (ptr handle : ℕ) (w : Waited) (t : Trace Call)
      → (dma_finish job ptr handle w env t).0.result ≡ some (pos 0)
      → w ≡ Waited.ready
  unfolding dma_finish out_up out_free
  dma_finish-ready job ptr handle Waited.waiting t e = cc
  dma_finish-ready job ptr handle Waited.interrupted t e = cc
  dma_finish-ready job ptr handle Waited.ready t e = refl

  mmio_finish-memory :
      (job : Job) (ptr : ℕ) (content : List ℕ) (before : List Operation) (w : Waited)
      (t : Trace Call)
      → Done env start size (w, t)
      → job.is_not_mm ≡ true
      → job.is_m ≡ true
      → operations space t ≡ requested job job.len (some content) ∷ before
      → (mmio_finish space job ptr w env t).0.result ≡ some (pos 0)
      → memory m (mmio_finish space job ptr w env t).1
        ≡ poke ptr (take job.len (crypt job.is_e job.keyab content)) (memory m t)
  unfolding mmio_finish copy_back out_up out_free memory
  mmio_finish-memory job ptr content before Waited.waiting t d b i o e = cc
  mmio_finish-memory job ptr content before Waited.interrupted t d b i o e = cc
  mmio_finish-memory job ptr content before Waited.ready t d b i o e =
      let (rests, took) = d refl in
      ground (arith, card.by_mmio t job job.len content before i took rests o)

  dma_finish-memory :
      (job : Job) (ptr handle : ℕ) (content : List ℕ) (before : List Operation) (w : Waited)
      (t : Trace Call)
      → Done env start size (w, t)
      → job.is_m ≡ false
      → operations space t ≡ requested job job.len (some content) ∷ before
      → (dma_finish job ptr handle w env t).0.result ≡ some (pos 0)
      → memory m (dma_finish job ptr handle w env t).1
        ≡ poke ptr (take job.len (crypt job.is_e job.keyab content)) (memory m t)
  unfolding dma_finish copy_back out_up out_free memory
  dma_finish-memory job ptr handle content before Waited.waiting t d i o e = cc
  dma_finish-memory job ptr handle content before Waited.interrupted t d i o e = cc
  dma_finish-memory job ptr handle content before Waited.ready t d i o e =
      let (rests, took) = d refl in
      ground (arith, card.by_dma t job handle job.len content before i took rests o)

  -- A run that succeeds leaves the card at rest.
  mmio_finish-rests :
      (job : Job) (ptr : ℕ) (w : Waited) (t : Trace Call)
      → Done env start size (w, t)
      → (mmio_finish space job ptr w env t).0.result ≡ some (pos 0)
      → pending space (mmio_finish space job ptr w env t).1 ≡ none
  mmio_finish-rests job ptr w t d e =
      mmio_finish-pending env start size job ptr w t ∙ (d (mmio_finish-ready job ptr w t e)).0

  dma_finish-rests :
      (job : Job) (ptr handle : ℕ) (w : Waited) (t : Trace Call)
      → Done env start size (w, t)
      → (dma_finish job ptr handle w env t).0.result ≡ some (pos 0)
      → pending space (dma_finish job ptr handle w env t).1 ≡ none
  dma_finish-rests job ptr handle w t d e =
      dma_finish-pending env start size job ptr handle w t
      ∙ (d (dma_finish-ready job ptr handle w t e)).0

  locked_write-memory :
      (fuel : ℕ) (job : Job) (ptr : ℕ) (t : Trace Call)
      → job.is_not_mm ≡ true
      → pending space t ≡ none
      → (locked_write fuel space job ptr env t).0.result ≡ some (pos 0)
      → (memory m (locked_write fuel space job ptr env t).1
          ≡ poke ptr (take job.len (crypt job.is_e job.keyab (msg_bytes job.msg))) (memory m t))
        × (pending space (locked_write fuel space job ptr env t).1 ≡ none)
  unfolding locked_write dma_transfer dma_mapped mmio_transfer out_up out_free memory operations
      last_write last_mapped pending is_loaded
  locked_write-memory fuel job ptr t b rest e =
      let t1 = (call Call.down_interruptible env t).1 in
      let t2 = (run (Call.iowrite32 job.keyab space.keys) env t1).1 in
      let s1 = (mmio_start space job env t2).1 in
      let (w, s2) = wait_for job.is_i fuel (Call.ioread8 space.status) env s1 in
      let (a, t3) = call (Call.dma_map_single (msg_bytes job.msg) job.len) env t2 in
      let t4 = (call (Call.dma_mapping_error a.value) env t3).1 in
      let d1 = (dma_start space job a.value env t4).1 in
      let (x, d2) = wait_for job.is_i fuel (Call.readq space.cmd) env d1 in
      let done = mmio_wait-Done env start size fuel job t2 rest b in
      let done' = dma_wait-Done env start size fuel job a.value t4 rest refl in
      ground (
        arith,
        mmio_start-operations env start size job t2,
        dma_start-operations env start size job a.value t4,
        (wait_for-operations env start size job.is_i fuel space.status s1).0,
        (wait_for-operations env start size job.is_i fuel space.cmd d1).1,
        mmio_start-memory env m space job t2,
        dma_start-memory env m space job a.value t4,
        wait_status-memory env m job.is_i fuel space.status s1,
        wait_cmd-memory env m job.is_i fuel space.cmd d1,
        mmio_finish-memory job ptr (msg_bytes job.msg) (operations space t) w s2 done,
        mmio_finish-rests job ptr w s2 done,
        dma_finish-memory job ptr a.value (msg_bytes job.msg) (operations space t) x d2 done',
        dma_finish-rests job ptr a.value x d2 done',
      )

  module _ (user : Reads env m) where
    buffered_write-memory :
        (fuel : ℕ) (job : Job) (ptr n : ℕ) (t : Trace Call)
        → job.is_not_mm ≡ true
        → pending space t ≡ none
        → (buffered_write fuel space job ptr n env t).0.result ≡ some (pos 0)
        → (memory m (buffered_write fuel space job ptr n env t).1
            ≡ poke ptr
                (take job.len (crypt job.is_e job.keyab (read (memory m t) ptr job.len)))
                (memory m t))
          × (pending space (buffered_write fuel space job ptr n env t).1 ≡ none)
    unfolding buffered_write out_free memory pending
    buffered_write-memory fuel job ptr n t b rest e =
        let (p, t1) = call (Call.vmalloc n) env t in
        let (a, t2) = call (Call.copy_from_user ptr job.len) env t1 in
        let job' : Job = record job { msg = some (record { addr = p.value; bytes = a.bytes }) } in
        ground (arith, user.reads t1 ptr job.len, locked_write-memory fuel job' ptr t2 b rest)

    job_write-memory :
        (fuel : ℕ) (job : Job) (ptr n : ℕ) (t : Trace Call)
        → job.is_not_mm ≡ true
        → pending space t ≡ none
        → (job_write fuel space job ptr n env t).0.result ≡ some (pos 0)
        → (memory m (job_write fuel space job ptr n env t).1
            ≡ poke ptr
                (take (n % 2 ^ 32) (crypt job.is_e job.keyab (read (memory m t) ptr (n % 2 ^ 32))))
                (memory m t))
          × (pending space (job_write fuel space job ptr n env t).1 ≡ none)
    unfolding job_write is_not_live memory pending
    job_write-memory fuel job ptr n t b rest e =
        let t1 = (is_not_live space.live 0x0fffffff env t).1 in
        let job' : Job = record job { len = n % 2 ^ 32 } in
        ground (arith, buffered_write-memory fuel job' ptr n t1 b rest)

    -- `pci_write` on a job with a buffer of its own, with the card at rest before the call, on a card
    -- that gives the encryption or decryption of the data of an operation once it has accepted it and
    -- has shown that it is done: if the call returns 0, the caller's bytes at the address of the call,
    -- as many as the length says as a 32-bit number, have been replaced by their encryption or
    -- decryption with the job's key, as its direction says, by either way; no other byte of the
    -- caller has changed; and the card is at rest again.
    pub write_crypts :
        (fuel : ℕ) (mycryptodev : CryptodevData) (file : File) (ptr n : ℕ) (t : Trace Call)
        {job : Job}
        → mycryptodev.configspace ≡ some (setup_configspace start size)
        → file.private_data ≡ some job
        → job.is_not_mm ≡ true
        → pending (setup_configspace start size) t ≡ none
        → (pci_write fuel mycryptodev file ptr n env t).0.1 ≡ some (pos 0)
        → (memory m (pci_write fuel mycryptodev file ptr n env t).1
            ≡ poke ptr
                (take (n % 2 ^ 32) (crypt job.is_e job.keyab (read (memory m t) ptr (n % 2 ^ 32))))
                (memory m t))
          × (pending (setup_configspace start size) (pci_write fuel mycryptodev file ptr n env t).1
              ≡ none)
    unfolding pci_write
    write_crypts fuel dev file ptr n t {job} s p b rest e =
        ground (arith, job_write-memory fuel job ptr n t b rest)
