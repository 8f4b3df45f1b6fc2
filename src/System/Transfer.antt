-- ===== src/System/Transfer.antt =====
-- encrypt and decrypt of the library on the driver.
pub mod Roundtrip
pub mod Refinement
pub mod Success
use cryptodev.Prelude.{
  ℕ, zero, suc, ◌+◌, ◌-◌, ◌/◌, ◌%◌, ◌^◌, ◌<◌, ◌≤◌, ◌==◌, ℤ, pos, ◌≡◌, ◌∙◌, refl, sym, ap, subst,
  Bool, true, false, Option, none, some, List, [], ◌∷◌, arith, inl, inr, Bool-cases, ltb,
  if◌then◌else◌,
}
use cryptodev.Memory.{Bytes}
use cryptodev.Effects.{Answer, Env, Trace, call}
use cryptodev.Kernel.{Call}
use cryptodev.Driver.Device.{
  Job, Request, ConfigMem, CryptodevData, setup_configspace, buffersize, encrypt, decrypt, unmmap,
}
use cryptodev.Driver.Ioctl.{job_ioctl, pci_unlocked_ioctl}
use cryptodev.Driver.Card.{Way, pending, memory, Reads, Crypts}
use cryptodev.Driver.Write.Answer.{HasSettings}
use cryptodev.Crypter.Syscalls.{Syscall, failed, failed_long, error}
use cryptodev.Crypter.Transfer.{count_of, rest_of, write_chunks, transfer}
use cryptodev.System.{State, serve, replay, system}
use cryptodev.System.Settings.{
  byte_of, directed, encryp_call, mmap_call, encryp_call-directs, mmap_call-unmaps, ioctl-pending,
  rounds, transfer-rounds,
}
use cryptodev.System.Chunks.{chunk, chunkwise}
use cryptodev.System.Write.{serve_write}

module _ (env : Env Call) (start size : ℕ) (m : Bytes) (crypt : Bool → ℕ → List ℕ → List ℕ)
    (card : Crypts env (setup_configspace start size) crypt) (user : Reads env m) (fuel : ℕ)
    (dev : CryptodevData) (found : dev.configspace ≡ some (setup_configspace start size))
    (other : Syscall → Answer) (s : State) where
  abbrev pub at : Trace Syscall → State
  at = replay env fuel dev other s

  abbrev pub memory_at : Trace Syscall → Bytes
  memory_at t = memory m (at t).trace

  abbrev space : ConfigMem
  space = setup_configspace start size

  -- What the card may still be at work on.
  abbrev pub rest_at : Trace Syscall → Option Way
  rest_at t = pending (setup_configspace start size) (at t).trace

  abbrev pub sys : Env Syscall
  sys = system env fuel dev other s

  abbrev Effect : Job → ℕ → (addr length : ℕ) → Trace Syscall → Option ℤ × Trace Syscall → Type 0
  Effect job k addr length t (r, t') =
      HasSettings job (at t').file.private_data
      × (r ≡ some (pos 0)
          → (memory_at t' ≡ chunkwise k (crypt job.is_e job.keyab) addr length (memory_at t))
            × (rest_at t' ≡ none))

  -- What one round leads to, where the write fails, where it was the last, and where more follow.
  abbrev round : ℤ → (addr length : ℕ) → Trace Syscall → Answer × Trace Syscall
  round fd addr length = call (Syscall.write fd addr (count_of length)) sys

  Effect-last :
      (k : ℕ) (addr length : ℕ) (t t' : Trace Syscall) (job : Job) (r : Option ℤ)
      → HasSettings job (at t').file.private_data
      → ltb 0 (rest_of length) ≡ false
      → memory_at t' ≡ chunk (crypt job.is_e job.keyab) addr (count_of length) (memory_at t)
      → rest_at t' ≡ none
      → Effect job (suc k) addr length t (r, t')
  unfolding chunkwise
  Effect-last k addr length t t' job r kept last done rests = (kept, λ e. (rw last done, rests))

  Effect-more :
      (k : ℕ) (addr length : ℕ) (t t' : Trace Syscall) (job : Job) (out : Option ℤ × Trace Syscall)
      → ltb 0 (rest_of length) ≡ true
      → memory_at t' ≡ chunk (crypt job.is_e job.keyab) addr (count_of length) (memory_at t)
      → addr + count_of length < 2 ^ 64
      → Effect job k ((addr + count_of length) % 2 ^ 64) (rest_of length) t' out
      → Effect job (suc k) addr length t out
  unfolding chunkwise
  Effect-more k addr length t t' job out more done fits (kept, later) =
      let exact : (addr + count_of length) % 2 ^ 64 ≡ addr + count_of length = omega arith in
      (kept, λ e. (rw more (rw (exact, done) at (later e).0), (later e).1))

  write_chunks-Effect :
      (k : ℕ) (fd : ℤ) (addr length : ℕ) (t : Trace Syscall) (job : Job)
      → HasSettings job (at t).file.private_data
      → job.is_not_mm ≡ true
      → addr + length < 2 ^ 64
      → rest_at t ≡ none
      → Effect job k addr length t (write_chunks k fd addr length sys t)
  unfolding write_chunks replay chunkwise
  write_chunks-Effect zero fd addr length t job has b fits rest = (has, λ e. ground arith)
  write_chunks-Effect (suc k) fd addr length t job has b fits rest =
      let (w, t') = round fd addr length t in
      let (kept, done) =
        serve_write env start size m crypt card user fuel dev found other fd addr (count_of length)
          (at t) job has b (ground arith) rest in
      elim (Bool-cases (failed_long w)) [
        | inl bad ↦
            let step : write_chunks (suc k) fd addr length sys t ≡ (some error, t') =
              ground arith in
            subst (Effect job (suc k) addr length t) (sym step) (kept, λ e. ground arith)
        | inr good ↦ elim (Bool-cases (ltb 0 (rest_of length))) [
          | inl more ↦
              let next =
                write_chunks k fd ((addr + count_of length) % 2 ^ 64) (rest_of length) sys t' in
              let step : write_chunks (suc k) fd addr length sys t ≡ next = ground arith in
              subst (Effect job (suc k) addr length t) (sym step) (
                Effect-more k addr length t t' job next more (done good).0 (ground arith) (
                  write_chunks-Effect k fd _ (rest_of length) t' job kept b (ground arith)
                    (done good).1))
          | inr last ↦
              let step : write_chunks (suc k) fd addr length sys t
                  ≡ (some (pos (rest_of length)), t') =
                ground arith in
              subst (Effect job (suc k) addr length t) (sym step)
                (Effect-last k addr length t t' job _ kept last (done good).0 (done good).1)
        ]
      ]

  pub transfer_crypts :
      (e : Bool) (fd : ℤ) (addr length : ℕ) (t : Trace Syscall) (job : Job)
      → HasSettings job (at t).file.private_data
      → addr + length < 2 ^ 64
      → rest_at t ≡ none
      → let (r, t') = transfer (byte_of e) fd addr length 0 sys t in
        HasSettings (directed e job) (at t').file.private_data
        × (r ≡ some (pos 0)
            → (memory_at t'
                ≡ chunkwise (length / buffersize + 1) (crypt e job.keyab) addr length (memory_at t))
              × (rest_at t' ≡ none))
  unfolding rounds
  transfer_crypts e fd addr length t job has fits rest =
      let t1 = (encryp_call env fuel dev other s e fd t).1 in
      let t2 = (mmap_call env fuel dev other s fd t1).1 in
      let (kept, ok, same) = encryp_call-directs env fuel dev other s m e fd t job has in
      let (kept', ok', same') =
        mmap_call-unmaps env fuel dev other s m fd t1 (record job { is_e = e }) kept in
      let (kept'', done) =
        write_chunks-Effect (length / buffersize + 1) fd addr length t2 (directed e job) kept' refl
          fits
          (ioctl-pending env fuel dev other s space fd Request.set_mmap__ (unmmap ∷ []) t1
            ∙ ioctl-pending env fuel dev other s space fd Request.set_encryp (byte_of e ∷ []) t
            ∙ rest) in
      rw (transfer-rounds env fuel dev other s e fd addr length t job has)
        (kept'', λ z. (rw (same', same) at (done z).0, (done z).1))
