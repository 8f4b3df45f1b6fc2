-- ===== src/System/Transfer/Refinement.antt =====
-- encrypt and decrypt of the library against what they are for, in terms of the caller's bytes.
use cryptodev.Prelude.{
  ℕ, ◌+◌, ◌-◌, ◌*◌, ◌/◌, ◌^◌, ◌<◌, ◌≤◌, ◌⊎◌, ℤ, pos, ◌≡◌, ◌∙◌, ap, Bool, Option, none, some, List,
  arith,
}
use cryptodev.Memory.{Bytes, length, read}
use cryptodev.Effects.{Answer, Env, Trace}
use cryptodev.Kernel.{Call}
use cryptodev.Driver.Device.{Job, CryptodevData, setup_configspace, buffersize}
use cryptodev.Driver.Card.{pending, memory, Reads, Crypts}
use cryptodev.Driver.Write.Answer.{HasSettings}
use cryptodev.Crypter.Syscalls.{Syscall}
use cryptodev.Crypter.Transfer.{count_of, transfer}
use cryptodev.System.{State, replay, system}
use cryptodev.System.Chunks.Pieces.{read-chunkwise, chunkwise-outside}
use cryptodev.System.Settings.{byte_of, directed}
use cryptodev.System.Transfer.{transfer_crypts}

module _ (env : Env Call) (start size : ℕ) (m : Bytes) (crypt : Bool → ℕ → List ℕ → List ℕ)
    (card : Crypts env (setup_configspace start size) crypt) (user : Reads env m) (fuel : ℕ)
    (dev : CryptodevData) (found : dev.configspace ≡ some (setup_configspace start size))
    (other : Syscall → Answer) (s : State) where
  abbrev at : Trace Syscall → State
  at = replay env fuel dev other s

  abbrev memory_at : Trace Syscall → Bytes
  memory_at t = memory m (at t).trace

  abbrev after : Bool → ℤ → (addr len : ℕ) → Trace Syscall → Option ℤ × Trace Syscall
  after e fd addr len = transfer (byte_of e) fd addr len 0 (system env fuel dev other s)

  -- `encrypt` (true) or `decrypt` (false) of a buffer that is not memory-mapped, on a file with a job,
  -- with the card at rest before the call, on a card that encrypts and decrypts without changing
  -- lengths and gives its result once it has accepted an operation and has shown that it is done. If
  -- the call returns 0, then every
  -- piece of 32768 bytes of the caller's data, counted from its start, and the shorter piece at the
  -- end, has been replaced by its encryption or decryption with the job's key; every byte outside of
  -- the data is what it was; and the job has its key and its ways still, with the new direction. The
  -- data must not run over the end of the address space.
  pub transfer_refines :
      (e : Bool) (fd : ℤ) (addr len : ℕ) (t : Trace Syscall) (job : Job) (i q : ℕ)
      → HasSettings job (at t).file.private_data
      → addr + len < 2 ^ 64
      → pending (setup_configspace start size) (at t).trace ≡ none
      → ((bs : List ℕ) → length (crypt e job.keyab bs) ≡ length bs)
      → (after e fd addr len t).0 ≡ some (pos 0)
      → i * 32768 < len
      → (q < addr) ⊎ (addr + len ≤ q)
      → let t' = (after e fd addr len t).1 in
        let n = count_of (len - i * 32768) in
        (read (memory_at t') (addr + i * 32768) n
          ≡ crypt e job.keyab (read (memory_at t) (addr + i * 32768) n))
        × (memory_at t' q ≡ memory_at t q)
        × HasSettings (directed e job) (at t').file.private_data
  transfer_refines e fd addr len t job i q has fits rest same result inside outside =
      let (kept, done) =
        transfer_crypts env start size m crypt card user fuel dev found other s e fd addr len t job
          has fits rest in
      let k = len / buffersize + 1 in
      let f = crypt e job.keyab in
      let (all, rests) = done result in
      (
        ap (λ x. read x (addr + i * 32768) (count_of (len - i * 32768))) all
            ∙ read-chunkwise f same k addr len i (memory_at t) (omega arith) inside,
        ap (λ x. x q) all ∙ chunkwise-outside f same k addr len (memory_at t) q outside,
        kept,
      )
