-- ===== src/System/Settings.antt =====
-- What the two ioctls of encrypt and decrypt of src/crypter.c do in the driver.
use cryptodev.Prelude.{ℕ, ◌/◌, ℤ, ◌≡◌, Bool, true, false, Option, List, [], ◌∷◌, arith, ◌+◌}
use cryptodev.Memory.{Bytes}
use cryptodev.Effects.{Answer, Env, Trace, call}
use cryptodev.Kernel.{Call}
use cryptodev.Driver.Device.{
  Job, Request, ConfigMem, CryptodevData, buffersize, encrypt, decrypt, unmmap,
}
use cryptodev.Driver.Card.{pending, memory}
use cryptodev.Driver.Ioctl.{job_ioctl, pci_unlocked_ioctl}
use cryptodev.Driver.Write.Answer.{HasSettings}
use cryptodev.Crypter.Syscalls.{Syscall, failed}
use cryptodev.Crypter.Transfer.{write_chunks, transfer}
use cryptodev.System.{State, serve, replay, system}

-- The two bytes that encrypt and decrypt pass for the direction.
abbrev pub byte_of : Bool → ℕ
byte_of true = encrypt
byte_of false = decrypt

abbrev pub directed : Bool → Job → Job
directed e job = record job { is_e = e; is_not_mm = true }

module _ (env : Env Call) (fuel : ℕ) (dev : CryptodevData) (other : Syscall → Answer)
    (s : State) where
  abbrev at : Trace Syscall → State
  at = replay env fuel dev other s

  abbrev sys : Env Syscall
  sys = system env fuel dev other s

  abbrev pub encryp_call : Bool → ℤ → Trace Syscall → Answer × Trace Syscall
  encryp_call e fd = call (Syscall.ioctl fd Request.set_encryp (byte_of e ∷ [])) sys

  abbrev pub mmap_call : ℤ → Trace Syscall → Answer × Trace Syscall
  mmap_call fd = call (Syscall.ioctl fd Request.set_mmap__ (unmmap ∷ [])) sys

  -- No ioctl touches the card.
  pub ioctl-pending :
      (space : ConfigMem) (fd : ℤ) (request : Request) (bytes : List ℕ) (t : Trace Syscall)
      → pending space (at (call (Syscall.ioctl fd request bytes) sys t).1).trace
        ≡ pending space (at t).trace
  unfolding replay serve pci_unlocked_ioctl job_ioctl pending
  ioctl-pending space fd request bytes t = ground arith

  pub encryp_call-directs :
      (m : Bytes) (e : Bool) (fd : ℤ) (t : Trace Syscall) (job : Job)
      → HasSettings job (at t).file.private_data
      → let (a, t') = encryp_call e fd t in
        HasSettings (record job { is_e = e }) (at t').file.private_data
        × (failed a ≡ false)
        × (memory m (at t').trace ≡ memory m (at t).trace)
  unfolding replay serve pci_unlocked_ioctl job_ioctl memory
  encryp_call-directs m true fd t job has = ground arith
  encryp_call-directs m false fd t job has = ground arith

  pub mmap_call-unmaps :
      (m : Bytes) (fd : ℤ) (t : Trace Syscall) (job : Job)
      → HasSettings job (at t).file.private_data
      → let (a, t') = mmap_call fd t in
        HasSettings (record job { is_not_mm = true }) (at t').file.private_data
        × (failed a ≡ false)
        × (memory m (at t').trace ≡ memory m (at t).trace)
  unfolding replay serve pci_unlocked_ioctl job_ioctl memory
  mmap_call-unmaps m fd t job has = ground arith

  unfoldable pub rounds : Bool → ℤ → (addr length : ℕ) → Trace Syscall → Option ℤ × Trace Syscall
  rounds e fd addr length t =
      write_chunks (length / buffersize + 1) fd addr length sys
        (mmap_call fd (encryp_call e fd t).1).1

  -- Both ioctls succeed, so that the loop is reached.
  pub transfer-rounds :
      (e : Bool) (fd : ℤ) (addr length : ℕ) (t : Trace Syscall) (job : Job)
      → HasSettings job (at t).file.private_data
      → transfer (byte_of e) fd addr length 0 sys t ≡ rounds e fd addr length t
  unfolding transfer rounds
  transfer-rounds e fd addr length t job has =
      let (kept, ok, same) = encryp_call-directs (λ q. q) e fd t job has in
      let (kept', ok', same') =
        mmap_call-unmaps (λ q. q) fd (encryp_call e fd t).1 (record job { is_e = e }) kept in
      ground arith
