-- ===== src/System/Write.antt =====
-- One write of the library on the driver.
use cryptodev.Prelude.{
  ℕ, ◌%◌, ◌^◌, ◌<◌, ℤ, pos, negsuc, ◌≡◌, ◌∙◌, Bool, true, false, Option, none, some, List, arith,
  inl, inr, Option-cases,
}
use cryptodev.Memory.{Bytes}
use cryptodev.Effects.{Answer, Env}
use cryptodev.Kernel.{Call}
use cryptodev.Driver.Device.{Job, CryptodevData, setup_configspace}
use cryptodev.Driver.Card.{pending, memory, Reads, Crypts}
use cryptodev.Driver.Write.Effect.{write_crypts}
use cryptodev.Driver.Write.Answer.{SameSettings, HasSettings, IsAnswer, pci_write-Answers}
use cryptodev.Crypter.Syscalls.{Syscall, failed_long}
use cryptodev.System.{State, reply, serve}
use cryptodev.System.Chunks.{chunk}

-- The caller sees success exactly if the driver returns 0.
pub reply-success : (r : Option ℤ) → IsAnswer r → failed_long (reply r) ≡ false → r ≡ some (pos 0)
reply-success none a f = ground arith
reply-success (some (pos n)) a f = ground arith
reply-success (some (negsuc n)) a f = ground arith

pub HasSettings-trans :
    (j job : Job) (o : Option Job) → HasSettings j o → SameSettings j job → HasSettings job o
HasSettings-trans j job none h s = h
HasSettings-trans j job (some j') h s = ground arith

module _ (env : Env Call) (start size : ℕ) (m : Bytes) (crypt : Bool → ℕ → List ℕ → List ℕ)
    (card : Crypts env (setup_configspace start size) crypt) (user : Reads env m) (fuel : ℕ)
    (dev : CryptodevData) (found : dev.configspace ≡ some (setup_configspace start size))
    (other : Syscall → Answer) where
  -- A write that succeeds, of a length that is not cut to 32 bits.
  pub serve_write :
      (fd : ℤ) (addr n : ℕ) (s : State) (job : Job)
      → HasSettings job s.file.private_data
      → job.is_not_mm ≡ true
      → n < 2 ^ 32
      → pending (setup_configspace start size) s.trace ≡ none
      → let (s', a) = serve env fuel dev other (Syscall.write fd addr n) s in
        HasSettings job s'.file.private_data
        × (failed_long a ≡ false
            → (memory m s'.trace ≡ chunk (crypt job.is_e job.keyab) addr n (memory m s.trace))
              × (pending (setup_configspace start size) s'.trace ≡ none))
  unfolding serve
  serve_write fd addr n s job has b small rest = elim (Option-cases s.file.private_data) [
    | inl p ↦ ground arith
    | inr (j, p) ↦
        let same : SameSettings j job = ground (arith, has, p) in
        let (kept, answer) = pci_write-Answers env fuel dev s.file addr n s.trace p in
        (
          HasSettings-trans j job _ kept same,
          λ good.
              let done = reply-success _ answer good in
              let (effect, rests) =
                write_crypts env start size m crypt card user fuel dev s.file addr n s.trace found p
                  (same.3 ∙ b) rest done in
              let exact : n % 2 ^ 32 ≡ n = omega arith in
              (rw (exact, same.0, same.4) at effect, rests),
        )
  ]
