-- ===== src/Crypter/Settings/Laws.antt =====
-- `set_key` and `set_config` of src/crypter.c against the ioctl of the driver.
use cryptodev.Prelude.{
  ℕ, ◌+◌, ◌*◌, ◌%◌, ◌^◌, ◌≤◌, ◌<◌, ℤ, pos, ◌≡◌, false, List, [], ◌∷◌, ◌==◌, arith, bit_or, ap, ◌∙◌,
}
use cryptodev.Prelude.Bits.{bit_or_bytes}
use cryptodev.Effects.{Env, Trace}
use cryptodev.Kernel.{Call}
use cryptodev.Driver.Device.{Job, Request}
use cryptodev.Driver.Ioctl.{job_ioctl}
use cryptodev.Crypter.Syscalls.{Syscall}
use cryptodev.Crypter.Settings.{key_of, set_key, ConfigType, set_config}

-- The bytes that the latest ioctl of a trace passes.
pub sent : Trace Syscall → List ℕ
sent [] = []
sent (e ∷ t) = elim e.call [ Syscall.ioctl fd request bytes ↦ bytes | _ ↦ sent t ]

pub key_of-bytes : (a b : ℕ) → a < 256 → b < 256 → key_of a b ≡ a * 256 + b
key_of-bytes a b ha hb =
    let shifted : a * 2 ^ 8 % 2 ^ 32 ≡ a * 256 = omega arith in
    ap (λ x. bit_or x b) shifted ∙ bit_or_bytes a b ha hb

module _ (env : Env Syscall) (fd : ℤ) (t : Trace Syscall) (kernel : Env Call) (arg : ℕ) (job : Job)
    (k : Trace Call) where
  -- `set_key` with the bytes `a` and `b`: when the driver reads what was sent, its ioctl succeeds
  -- and the job's key is `a * 256 + b`.
  pub set_key_reaches_job :
      (a b : ℕ)
      → a < 256
      → b < 256
      → kernel k (Call.copy_from_user arg 4)
        ≡ record { value = 0; bytes = sent (set_key fd a b env t).1 }
      → (job_ioctl Request.set_key___ arg job kernel k).0
        ≡ (record job { keyab = a * 256 + b }, pos 0)
  unfolding set_key sent job_ioctl
  set_key_reaches_job a b ha hb read = ground (arith, key_of-bytes a b ha hb)

  -- `set_config` with SET (1) or UNSET (0): when the driver reads what was sent, its ioctl succeeds;
  -- for DMA the job leaves MMIO exactly if the value is SET, for INTERRUPT it takes interrupts
  -- exactly if the value is SET, and the other flag stays.
  pub set_config_reaches_job :
      (type : ConfigType) (value : ℕ)
      → value < 2
      → kernel k (Call.copy_from_user arg 1)
        ≡ record { value = 0; bytes = sent (set_config fd type value env t).1 }
      → (job_ioctl Request.set_config arg job kernel k).0 ≡ (
        elim type [
          | ConfigType.dmas ↦ record job { is_m = value == 0 }
          | ConfigType.interrupts ↦ record job { is_i = value == 1 }
        ],
        pos 0,
      )
  unfolding set_config sent job_ioctl
  set_config_reaches_job ConfigType.dmas value small read = ground arith
  set_config_reaches_job ConfigType.interrupts value small read = ground arith

  -- `set_config` for DMA with a value that is neither SET nor UNSET does not touch the DMA flag:
  -- it turns interrupts off, and reports success.
  pub set_config_misreads :
      (value : ℕ)
      → 2 ≤ value
      → kernel k (Call.copy_from_user arg 1)
        ≡ record { value = 0; bytes = sent (set_config fd ConfigType.dmas value env t).1 }
      → (job_ioctl Request.set_config arg job kernel k).0 ≡ (record job { is_i = false }, pos 0)
  unfolding set_config sent job_ioctl
  set_config_misreads value large read = ground arith
