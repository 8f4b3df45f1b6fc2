-- ===== src/System/Transfer/Roundtrip.antt =====
-- encrypt of the library, and then decrypt with the same key.
use cryptodev.Prelude.{
  ℕ, ◌+◌, ◌/◌, ◌^◌, ◌<◌, ℤ, pos, ◌≡◌, ◌∙◌, ap, Bool, true, false, none, some, List,
}
use cryptodev.Memory.{Bytes, length}
use cryptodev.Effects.{Answer, Env, Trace}
use cryptodev.Kernel.{Call}
use cryptodev.Driver.Device.{Job, CryptodevData, setup_configspace, buffersize}
use cryptodev.Driver.Card.{pending, memory, Reads, Crypts}
use cryptodev.Driver.Write.Answer.{HasSettings}
use cryptodev.Crypter.Syscalls.{Syscall}
use cryptodev.Crypter.Transfer.{encrypt, decrypt}
use cryptodev.System.{State, replay, system}
use cryptodev.System.Chunks.{chunkwise}
use cryptodev.System.Chunks.Inverse.{IsBytes, chunkwise-chunkwise}
use cryptodev.System.Settings.{directed}
use cryptodev.System.Transfer.{transfer_crypts}

-- Decryption with a key undoes encryption with it, and lengths stay.
pub record IsCipher (crypt : Bool → ℕ → List ℕ → List ℕ) (key : ℕ) : Type 0 where
  pub same : (bs : List ℕ) → length (crypt true key bs) ≡ length bs
  pub inverse : (bs : List ℕ) → IsBytes bs → crypt false key (crypt true key bs) ≡ bs

module _ (env : Env Call) (start size : ℕ) (m : Bytes) (crypt : Bool → ℕ → List ℕ → List ℕ)
    (card : Crypts env (setup_configspace start size) crypt) (user : Reads env m) (fuel : ℕ)
    (dev : CryptodevData) (found : dev.configspace ≡ some (setup_configspace start size))
    (other : Syscall → Answer) (s : State) where
  abbrev at : Trace Syscall → State
  at = replay env fuel dev other s

  abbrev memory_at : Trace Syscall → Bytes
  memory_at t = memory m (at t).trace

  abbrev sys : Env Syscall
  sys = system env fuel dev other s

  -- `encrypt` and then `decrypt` of the same data, both not memory-mapped and both returning 0, on a
  -- file with a job, with the card at rest before, on a card that gives its result once it has accepted
  -- an operation and has shown that it is done, whose decryption undoes its encryption with the job's
  -- key and whose encryption keeps lengths: the whole memory of the caller, which holds bytes, is then what it was
  -- before, whatever the ways of the job and the length of the data, which must not run over the end
  -- of the address space.
  pub decrypt-encrypt :
      (fd : ℤ) (addr len : ℕ) (t : Trace Syscall) (job : Job)
      → HasSettings job (at t).file.private_data
      → addr + len < 2 ^ 64
      → pending (setup_configspace start size) (at t).trace ≡ none
      → IsCipher crypt job.keyab
      → ((q : ℕ) → memory_at t q < 256)
      → (encrypt fd addr len 0 sys t).0 ≡ some (pos 0)
      → (decrypt fd addr len 0 sys (encrypt fd addr len 0 sys t).1).0 ≡ some (pos 0)
      → memory_at (decrypt fd addr len 0 sys (encrypt fd addr len 0 sys t).1).1 ≡ memory_at t
  unfolding encrypt decrypt
  decrypt-encrypt fd addr len t job has fits rest cipher small e d =
      let (kept, there) =
        transfer_crypts env start size m crypt card user fuel dev found other s true fd addr len t
          job has fits rest in
      let (kept', back) =
        transfer_crypts env start size m crypt card user fuel dev found other s false fd addr len _
          (directed true job) kept fits (there e).1 in
      (back d).0
      ∙ ap (chunkwise (len / buffersize + 1) (crypt false job.keyab) addr len) (there e).0
      ∙ chunkwise-chunkwise (crypt true job.keyab) (crypt false job.keyab) cipher.same
          cipher.inverse (len / buffersize + 1) addr len (memory_at t) small
