-- ===== src/Bench/Restored.antt =====
-- A benchmark on a private buffer on the driver, where no call of the kernel fails and the card works.
use cryptodev.Prelude.{
  ℕ, zero, suc, ◌+◌, ◌*◌, ◌/◌, ◌^◌, ◌≤◌, ◌<◌, ℤ, pos, ◌≡◌, ◌≢◌, ◌∙◌, refl, ap, Bool, true, false,
  is_negative, Option, none, some, List, arith, subst, sym, ◌⊎◌, inl, inr,
}
use cryptodev.Memory.{Bytes}
use cryptodev.Effects.{Answer, Env, Trace, int_of, run}
use cryptodev.Kernel.{Call}
use cryptodev.Driver.Device.{Job, ConfigMem, CryptodevData, setup_configspace}
use cryptodev.Driver.Card.{pending, memory, Reads, Crypts}
use cryptodev.Driver.Open.{pci_release}
use cryptodev.Driver.Wait.Progress.{Completes}
use cryptodev.Driver.Write.Answer.{HasSettings}
use cryptodev.Driver.Write.Success.{Succeeds}
use cryptodev.Crypter.Syscalls.{Syscall, create_handle, close_handle}
use cryptodev.Crypter.Settings.{ConfigType, set_key, set_config}
use cryptodev.Crypter.Transfer.{encrypt, decrypt}
use cryptodev.System.Chunks.{chunk, chunkwise}
use cryptodev.System.Moments.{
  ◌⊑◌, same, later, ⊑-trans, transfer-goes_on, close_handle-goes_on, create_handle-goes_on,
  set_key-goes_on, set_config-goes_on,
}
use cryptodev.System.{State, serve, replay, system}
use cryptodev.System.Settings.{directed}
use cryptodev.System.Transfer.{transfer_crypts}
use cryptodev.System.Transfer.Success.{transfer_succeeds}
use cryptodev.System.Transfer.Roundtrip.{IsCipher, decrypt-encrypt}
use cryptodev.Testcases.Steps.{
  HasKey, Keeps, create_handle-Keeps, set_key-Keeps, set_config-Keeps, close_handle-quiet,
}
use cryptodev.Testcases.Restored.{HasKey-HasSettings}
use cryptodev.Bench.{MappedFile, unsigned, size_of, chunk_addr, chunks, on_card}
use cryptodev.Bench.Laws.{unsigned-bound}

eq-or-above : (c i : ℕ) → c ≤ i → (c ≡ i) ⊎ (suc c ≤ i)
eq-or-above c i h = omega arith

chunkwise-one :
    (f : List ℕ → List ℕ) (addr : ℕ) (m : Bytes) → chunkwise 1 f addr 4096 m ≡ chunk f addr 4096 m
unfolding chunkwise
chunkwise-one f addr m = ground arith

settings-HasKey :
    (job : Job) (o : Option Job) → HasSettings (directed false job) o → HasKey job.keyab o
settings-HasKey job none h = h
settings-HasKey job (some j) h = ground arith

module _ (env : Env Call) (start size : ℕ) (m : Bytes) (crypt : Bool → ℕ → List ℕ → List ℕ)
    (card : Crypts env (setup_configspace start size) crypt) (user : Reads env m)
    (kernel : Succeeds env) (k : ℕ) (done : Completes env k) (fuel : ℕ) (enough : k < fuel)
    (dev : CryptodevData) (found : dev.configspace ≡ some (setup_configspace start size))
    (other : Syscall → Answer) (s : State) where
  abbrev at : Trace Syscall → State
  at = replay env fuel dev other s

  abbrev space : ConfigMem
  space = setup_configspace start size

  abbrev memory_at : Trace Syscall → Bytes
  memory_at t = memory m (at t).trace

  abbrev sys : Env Syscall
  sys = system env fuel dev other s

  -- What a benchmark needs of the state before a chunk, and leaves.
  abbrev Kept : ℕ → (t t' : Trace Syscall) → Type 0
  Kept = Keeps env fuel dev other s m space

  -- At a moment on the way to the end, the data is encrypted.
  abbrev Encrypted : (addr len key : ℕ) → (t last : Trace Syscall) → Type 0
  Encrypted addr len key t last =
      (u : Trace Syscall) × (t ⊑ u)
      × (u ⊑ last)
      × (memory_at u ≡ chunkwise (len / 32768 + 1) (crypt true key) addr len (memory_at t))

  pair-Kept :
      (fd : ℤ) (addr len key : ℕ) (t : Trace Syscall)
      → HasKey key (at t).file.private_data
      → 0 < len
      → addr + len < 2 ^ 64
      → pending space (at t).trace ≡ none
      → IsCipher crypt key
      → ((q : ℕ) → memory_at t q < 256)
      → let t' = (decrypt fd addr len 0 sys (encrypt fd addr len 0 sys t).1).1 in
        Kept key t t' × (t ⊑ t') × Encrypted addr len key t t'
  unfolding encrypt decrypt
  pair-Kept fd addr len key t has some_bytes fits rest cipher small =
      let (job, settings, same_key) = HasKey-HasSettings key (at t).file.private_data has in
      let t1 = (encrypt fd addr len 0 sys t).1 in
      let t2 = (decrypt fd addr len 0 sys t1).1 in
      let (kept, there) =
        transfer_crypts env start size m crypt card user fuel dev found other s true fd addr len t
          job settings fits rest in
      let e : (encrypt fd addr len 0 sys t).0 ≡ some (pos 0) =
        transfer_succeeds env kernel k done fuel enough dev _ found other s true fd addr len t job
          settings some_bytes in
      let (kept', back) =
        transfer_crypts env start size m crypt card user fuel dev found other s false fd addr len t1
          (directed true job) kept fits (there e).1 in
      let d : (decrypt fd addr len 0 sys t1).0 ≡ some (pos 0) =
        transfer_succeeds env kernel k done fuel enough dev _ found other s false fd addr len t1
          (directed true job) kept some_bytes in
      let has' : HasKey job.keyab (at t2).file.private_data =
        settings-HasKey (directed true job) (at t2).file.private_data kept' in
      let on = transfer-goes_on sys 60 fd addr len 0 t1 in
      (
        (
          subst (λ x. HasKey x (at t2).file.private_data) same_key has',
          decrypt-encrypt env start size m crypt card user fuel dev found other s fd addr len t job
              settings fits rest (subst (IsCipher crypt) (sym same_key) cipher) small e d,
          (back d).1 ∙ sym rest,
        ),
        ⊑-trans t t1 t2 (transfer-goes_on sys 50 fd addr len 0 t) on,
        (
          t1,
          transfer-goes_on sys 50 fd addr len 0 t,
          on,
          subst
              (λ x.
                memory_at t1 ≡ chunkwise (len / 32768 + 1) (crypt true x) addr len (memory_at t))
              same_key (there e).0,
        ),
      )

  chunks-Kept :
      (n chunk : ℕ) (fd : ℤ) (buffer key : ℕ) (t : Trace Syscall)
      → HasKey key (at t).file.private_data
      → (chunk + n) * 4096 ≤ 2 ^ 32
      → buffer + (chunk + n) * 4096 < 2 ^ 64
      → IsCipher crypt key
      → ((q : ℕ) → memory_at t q < 256)
      → pending space (at t).trace ≡ none
      → let t' = (chunks n chunk fd buffer sys t).1 in
        Kept key t t'
        × (t ⊑ t')
        × ((i : ℕ) → chunk ≤ i → i < chunk + n → Encrypted (buffer + i * 4096) 4096 key t t')
  unfolding chunks
  chunks-Kept zero chunk fd buffer key t has low fits cipher small rest =
      ((has, refl, refl), same, λ i from upto. absurd (omega arith))
  chunks-Kept (suc n) chunk fd buffer key t has low fits cipher small rest =
      let a = chunk_addr buffer chunk in
      let t' = (decrypt fd a 4096 0 sys (encrypt fd a 4096 0 sys t).1).1 in
      let last = (chunks n (suc chunk) fd buffer sys t').1 in
      let ((has', unchanged, idle), on, (u, after, before, encrypted)) =
        pair-Kept fd a 4096 key t has (omega arith) (omega arith) rest cipher small in
      let ((has'', unchanged', idle'), on', others) =
        chunks-Kept n (suc chunk) fd buffer key t' has' (omega arith) (omega arith) cipher
          (λ q. subst (λ (x : Bytes). x q < 256) (sym unchanged) (small q)) (idle ∙ rest) in
      (
        (has'', unchanged' ∙ unchanged, idle' ∙ idle),
        ⊑-trans t t' last on on',
        λ i from upto. elim (eq-or-above chunk i from) [
          | inl this ↦ (
            u,
            after,
            ⊑-trans u t' last before on',
            subst (λ x. memory_at u ≡ chunkwise 1 (crypt true key) x 4096 (memory_at t))
                (omega arith) encrypted,
          )
          | inr above ↦
              let (v, after', before', encrypted') = others i above (omega arith) in
              (
                v,
                ⊑-trans t t' v on after',
                before',
                encrypted' ∙ ap (chunkwise 1 (crypt true key) (buffer + i * 4096) 4096) unchanged,
              )
        ],
      )

  close-quiet :
      (fd : ℤ) (t : Trace Syscall) → memory_at (run (Syscall.close fd) sys t).1 ≡ memory_at t
  unfolding replay serve pci_release memory
  close-quiet fd t = ground arith

  munmap-quiet :
      (a n : ℕ) (t : Trace Syscall) → memory_at (run (Syscall.munmap a n) sys t).1 ≡ memory_at t
  unfolding replay serve
  munmap-quiet a n t = refl

  module _ (allocates : (t : Trace Call) (n : ℕ) → (env t (Call.kzalloc n)).value ≢ 0)
      (opens : is_negative (int_of (other Syscall.open_device)) ≡ false) where
    -- The benchmarks dma.c, dma_interrupt.c, mmio.c and mmio_interrupt.c, from the handle on: whatever
    -- the configuration, for every whole chunk of 4096 bytes of the file's private copy there is a
    -- moment of the run at which the caller's memory is what it was at the start but for that chunk,
    -- which is encrypted with the key of the bytes 30 and 17; and at the end the whole memory, which
    -- holds bytes, is what it was. This is so on the driver if no call of the kernel fails and no
    -- signal arrives, the card is at rest at the start, is live and finishes within `k` reads of a
    -- register, where `k` is below the fuel of one wait, the card gives its result once it has accepted
    -- an operation and has shown that it is done, its encryption keeps lengths, and its decryption
    -- with that key undoes its encryption. The file ends before the end of the address space.
    pub benchmark_restores :
        (dma interrupt : ℕ) (file : MappedFile) (t : Trace Syscall)
        → file.buffer + unsigned file.file_size < 2 ^ 64
        → IsCipher crypt (30 * 256 + 17)
        → ((q : ℕ) → memory_at t q < 256)
        → pending space (at t).trace ≡ none
        → let last = (on_card dma interrupt file sys t).1 in
          (memory_at last ≡ memory_at t)
          × ((i : ℕ)
              → i < unsigned file.file_size / 4096
              → (u : Trace Syscall) × (t ⊑ u)
                × (u ⊑ last)
                × (memory_at u
                    ≡ chunk
                        (crypt true (30 * 256 + 17))
                        (file.buffer + i * 4096)
                        4096
                        (memory_at t)))
    unfolding on_card
    benchmark_restores dma interrupt file t fits cipher small rest =
        let (fd, t1) = create_handle sys t in
        let t2 = (set_config fd ConfigType.dmas dma sys t1).1 in
        let t3 = (set_config fd ConfigType.interrupts interrupt sys t2).1 in
        let (key, t4) = set_key fd 30 17 sys t3 in
        let n = unsigned file.file_size / 4096 in
        let t5 = (chunks n 0 fd file.buffer sys t4).1 in
        let t6 = (close_handle fd sys t5).1 in
        let t7 = (run (Syscall.munmap file.buffer (size_of file.file_size)) sys t6).1 in
        let t8 = (run (Syscall.close file.file_desc) sys t7).1 in
        let (opened, kept1) = create_handle-Keeps env fuel dev other s m space t allocates opens in
        let kept2 =
          set_config-Keeps env fuel dev other s m space fd ConfigType.dmas dma 0 t1 kept1.0 in
        let kept3 =
          set_config-Keeps env fuel dev other s m space fd ConfigType.interrupts interrupt 0 t2
            kept2.0 in
        let (good, kept4) =
          set_key-Keeps env fuel dev other s m space fd 30 17 0 t3 kept3.0 (omega arith)
            (omega arith) in
        let unchanged : memory_at t4 ≡ memory_at t = kept4.1 ∙ kept3.1 ∙ kept2.1 ∙ kept1.1 in
        let idle = kept4.2 ∙ kept3.2 ∙ kept2.2 ∙ kept1.2 ∙ rest in
        let begun : t ⊑ t4 = ⊑-trans t t1 t4 (create_handle-goes_on sys t) (
          ⊑-trans t1 t2 t4 (set_config-goes_on sys fd ConfigType.dmas dma t1) (
            ⊑-trans t2 t3 t4 (set_config-goes_on sys fd ConfigType.interrupts interrupt t2)
              (set_key-goes_on sys fd 30 17 t3))) in
        let (kept5, on, each) =
          chunks-Kept n 0 fd file.buffer (30 * 256 + 17) t4 kept4.0
            (omega (arith, unsigned-bound file.file_size)) (omega arith) cipher
            (λ q. subst (λ (x : Bytes). x q < 256) (sym unchanged) (small q)) idle in
        let step : (on_card dma interrupt file sys t).1 ≡ t8 = ground arith in
        (
          ap memory_at step
              ∙ close-quiet file.file_desc t7
              ∙ munmap-quiet file.buffer (size_of file.file_size) t6
              ∙ close_handle-quiet env fuel dev other s m space fd t5
              ∙ kept5.1
              ∙ unchanged,
          λ i inside.
              let (u, after, before, encrypted) = each i (omega arith) (omega arith) in
              (
                u,
                ⊑-trans t t4 u begun after,
                subst (λ x. u ⊑ x) (sym step)
                    (⊑-trans u t5 t8 before (later _ (later _ (close_handle-goes_on sys fd t5)))),
                encrypted
                    ∙ chunkwise-one (crypt true (30 * 256 + 17)) (file.buffer + i * 4096)
                        (memory_at t4)
                    ∙ ap (chunk (crypt true (30 * 256 + 17)) (file.buffer + i * 4096) 4096)
                        unchanged,
              ),
        )
