-- ===== src/Driver/Write/Mapped.antt =====
-- What `pci_write` of drivers/cryptocard_mod.c leaves alone for a job on mapped memory.
use cryptodev.Prelude.{ℕ, ◌%◌, ◌^◌, ◌≡◌, ◌∷◌, pos, refl, true, false, some, arith}
use cryptodev.Memory.{Bytes}
use cryptodev.Effects.{Env, Trace, call, run}
use cryptodev.Kernel.{Call}
use cryptodev.Driver.Device.{Job, ConfigMem, CryptodevData, setup_configspace, is_not_live}
use cryptodev.Driver.Open.{File}
use cryptodev.Driver.Card.{last_copy, memory, offsets}
use cryptodev.Driver.Wait.Laws.{wait_for-unseen}
use cryptodev.Driver.Write.{
  out_free, out_up, copy_back, mmio_start, mmio_finish, mmio_transfer, locked_write, job_write,
  pci_write,
}

module _ (env : Env Call) (space : ConfigMem) (area : ℕ) (m : Bytes) where
  -- The card's data area and the memory of the caller.
  abbrev pub Untouched : (t t' : Trace Call) → Type 0
  Untouched t t' = (last_copy area t' ≡ last_copy area t) × (memory m t' ≡ memory m t)

  mmio_transfer-Untouched :
      (fuel : ℕ) (job : Job) (ptr : ℕ) (t : Trace Call)
      → job.is_not_mm ≡ false
      → Untouched t (mmio_transfer fuel space job ptr env t).1
  unfolding mmio_transfer mmio_start mmio_finish copy_back out_up out_free last_copy memory
  mmio_transfer-Untouched fuel job ptr t b =
      let t1 = (mmio_start space job env t).1 in
      let read = Call.ioread8 space.status in
      let copies =
        wait_for-unseen env read (last_copy area) (λ _ _. refl) (λ _ _. refl) job.is_i fuel t1 in
      let bytes =
        wait_for-unseen env read (memory m) (λ _ _. refl) (λ _ _. refl) job.is_i fuel t1 in
      (ground (arith, copies), ground (arith, bytes))

  locked_write-Untouched :
      (fuel : ℕ) (job : Job) (ptr : ℕ) (t : Trace Call)
      → job.is_not_mm ≡ false
      → job.is_m ≡ true
      → Untouched t (locked_write fuel space job ptr env t).1
  unfolding locked_write out_free last_copy memory
  locked_write-Untouched fuel job ptr t b i =
      let t1 = (call Call.down_interruptible env t).1 in
      let t2 = (run (Call.iowrite32 job.keyab space.keys) env t1).1 in
      ground (arith, mmio_transfer-Untouched fuel job ptr t2)

  -- A write on mapped memory, whether it succeeds or not.
  pub mapped_write-Untouched :
      (fuel : ℕ) (mycryptodev : CryptodevData) (file : File) (ptr n : ℕ) (t : Trace Call)
      {job : Job}
      → mycryptodev.configspace ≡ some space
      → file.private_data ≡ some job
      → job.is_not_mm ≡ false
      → Untouched t (pci_write fuel mycryptodev file ptr n env t).1
  unfolding pci_write job_write is_not_live last_copy memory
  mapped_write-Untouched fuel dev file ptr n t {job} s p b =
      let t1 = (is_not_live space.live 0x0fffffff env t).1 in
      let job' : Job = record job { len = n % 2 ^ 32 } in
      ground (arith, locked_write-Untouched fuel job' ptr t1)

module _ (env : Env Call) (start size : ℕ) where
  abbrev space : ConfigMem
  space = setup_configspace start size

  -- The offset of the data area.
  mmio_transfer-offsets :
      (fuel : ℕ) (job : Job) (ptr : ℕ) (t : Trace Call)
      → offsets space (mmio_transfer fuel space job ptr env t).1 ≡ 0xA8 ∷ offsets space t
  unfolding mmio_transfer mmio_start mmio_finish copy_back out_up out_free offsets setup_configspace
  mmio_transfer-offsets fuel job ptr t =
      let t1 = (mmio_start space job env t).1 in
      let waited =
        wait_for-unseen env (Call.ioread8 space.status) (offsets space) (λ _ _. refl) (λ _ _. refl)
          job.is_i fuel t1 in
      ground (arith, waited)

  locked_write-offsets :
      (fuel : ℕ) (job : Job) (ptr : ℕ) (t : Trace Call)
      → job.is_m ≡ true
      → (locked_write fuel space job ptr env t).0.result ≡ some (pos 0)
      → offsets space (locked_write fuel space job ptr env t).1 ≡ 0xA8 ∷ offsets space t
  unfolding locked_write out_free offsets
  locked_write-offsets fuel job ptr t i e =
      let t1 = (call Call.down_interruptible env t).1 in
      let t2 = (run (Call.iowrite32 job.keyab space.keys) env t1).1 in
      ground (arith, mmio_transfer-offsets fuel job ptr t2)

  pub mapped_write-offsets :
      (fuel : ℕ) (mycryptodev : CryptodevData) (file : File) (ptr n : ℕ) (t : Trace Call)
      {job : Job}
      → mycryptodev.configspace ≡ some (setup_configspace start size)
      → file.private_data ≡ some job
      → job.is_not_mm ≡ false
      → (pci_write fuel mycryptodev file ptr n env t).0.1 ≡ some (pos 0)
      → offsets space (pci_write fuel mycryptodev file ptr n env t).1 ≡ 0xA8 ∷ offsets space t
  unfolding pci_write job_write is_not_live offsets
  mapped_write-offsets fuel dev file ptr n t {job} s p b e =
      let t1 = (is_not_live space.live 0x0fffffff env t).1 in
      let job' : Job = record job { len = n % 2 ^ 32 } in
      ground (arith, locked_write-offsets fuel job' ptr t1)
