-- ===== src/System/Mapped.antt =====
-- encrypt and decrypt of the library on the card's mapped memory, on the driver: one call at a time.
pub mod Runs
pub mod Tests
use cryptodev.Prelude.{
  ℕ, zero, suc, ◌+◌, ◌-◌, ◌/◌, ◌%◌, ◌^◌, ◌<◌, ◌≤◌, ◌==◌, ℤ, pos, ◌≡◌, ◌∙◌, refl, sym, ap, subst,
  Bool, true, false, Option, none, some, List, [], ◌∷◌, ◌++◌, map, arith, inl, inr, Bool-cases, ltb,
  Option-cases, if◌then◌else◌,
}
use cryptodev.Memory.{Bytes}
use cryptodev.Effects.{Answer, Env, Trace, call}
use cryptodev.Kernel.{Call}
use cryptodev.Driver.Device.{
  Job, Request, ConfigMem, CryptodevData, setup_configspace, buffersize, mmap,
}
use cryptodev.Driver.Ioctl.{job_ioctl, pci_unlocked_ioctl}
use cryptodev.Driver.Card.{Operation, last_copy, requested, operations, offsets, memory}
use cryptodev.Driver.Write.Answer.{SameSettings, HasSettings, pci_write-Answers}
use cryptodev.Driver.Write.Correct.{mapped_write_runs_job}
use cryptodev.Driver.Write.Mapped.{mapped_write-Untouched, mapped_write-offsets}
use cryptodev.Crypter.Syscalls.{Syscall, failed, failed_long, error}
use cryptodev.Crypter.Transfer.{count_of, rest_of, write_chunks, transfer}
use cryptodev.System.{State, serve, replay, system}
use cryptodev.System.Settings.{byte_of}
use cryptodev.System.Write.{reply-success, HasSettings-trans}

-- The job after both ioctls.
abbrev pub area_job : Bool → Job → Job
area_job e job = record job { is_e = e; is_not_mm = false }

abbrev pub sum : List ℕ → ℕ
sum [] = 0
sum (n ∷ ns) = n + sum ns

-- Pieces, the latest first: all but the latest have 32768 bytes, the latest has no more, and is not
-- empty unless it is the only one.
abbrev pub Full : List ℕ → Type 0
Full [] = Unit
Full (n ∷ ns) = (n ≡ 32768) × Full ns

abbrev pub Cut : List ℕ → Type 0
Cut [] = true ≡ false
Cut (n ∷ []) = n ≤ 32768
Cut (n ∷ k ∷ ns) = (0 < n) × (n ≤ 32768) × Full (k ∷ ns)

-- Where the runs on as many pieces begin.
abbrev pub places : List ℕ → List ℕ
places [] = []
places (n ∷ ns) = 0xA8 ∷ places ns

-- The runs on pieces of these lengths, the latest first, each on the same content.
abbrev pub started : Job → Option (List ℕ) → List ℕ → List Operation
started job content [] = []
started job content (n ∷ ns) = requested job n content ∷ started job content ns

module _ (env : Env Call) (start size : ℕ) (m : Bytes) (fuel : ℕ) (dev : CryptodevData)
    (found : dev.configspace ≡ some (setup_configspace start size)) (other : Syscall → Answer)
    (s : State) where
  abbrev pub at : Trace Syscall → State
  at = replay env fuel dev other s

  abbrev pub sys : Env Syscall
  sys = system env fuel dev other s

  abbrev pub ran : Trace Syscall → List Operation
  ran t = operations (setup_configspace start size) (at t).trace

  abbrev pub area : Trace Syscall → Option (List ℕ)
  area t = last_copy (start + 0xA8) (at t).trace

  abbrev pub begun : Trace Syscall → List ℕ
  begun t = offsets (setup_configspace start size) (at t).trace

  abbrev pub memory_at : Trace Syscall → Bytes
  memory_at t = memory m (at t).trace

  -- What a call makes of the job, and what it leaves.
  pub record Leaves (job : Job) (t t' : Trace Syscall) : Type 0 where
    pub has : HasSettings job (at t').file.private_data
    pub ran' : ran t' ≡ ran t
    pub begun' : begun t' ≡ begun t
    pub area' : area t' ≡ area t
    pub memory' : memory_at t' ≡ memory_at t

  abbrev pub encryp_call : Bool → ℤ → Trace Syscall → Answer × Trace Syscall
  encryp_call e fd = call (Syscall.ioctl fd Request.set_encryp (byte_of e ∷ [])) sys

  abbrev pub mmap_call : ℤ → Trace Syscall → Answer × Trace Syscall
  mmap_call fd = call (Syscall.ioctl fd Request.set_mmap__ (mmap ∷ [])) sys

  pub encryp_call-Leaves :
      (e : Bool) (fd : ℤ) (t : Trace Syscall) (job : Job)
      → HasSettings job (at t).file.private_data
      → (failed (encryp_call e fd t).0 ≡ false)
        × Leaves (record job { is_e = e }) t (encryp_call e fd t).1
  unfolding replay serve pci_unlocked_ioctl job_ioctl memory last_copy operations offsets
  encryp_call-Leaves true fd t job has = (
    ground arith,
    record {
      has = ground arith;
      ran' = ground arith;
      begun' = ground arith;
      area' = ground arith;
      memory' = ground arith;
    },
  )
  encryp_call-Leaves false fd t job has = (
    ground arith,
    record {
      has = ground arith;
      ran' = ground arith;
      begun' = ground arith;
      area' = ground arith;
      memory' = ground arith;
    },
  )

  pub mmap_call-Leaves :
      (fd : ℤ) (t : Trace Syscall) (job : Job)
      → HasSettings job (at t).file.private_data
      → (failed (mmap_call fd t).0 ≡ false)
        × Leaves (record job { is_not_mm = false }) t (mmap_call fd t).1
  unfolding replay serve pci_unlocked_ioctl job_ioctl memory last_copy operations offsets
  mmap_call-Leaves fd t job has = (
    ground arith,
    record {
      has = ground arith;
      ran' = ground arith;
      begun' = ground arith;
      area' = ground arith;
      memory' = ground arith;
    },
  )

  -- A write of a length that is not cut to 32 bits.
  pub write_call-runs :
      (fd : ℤ) (addr n : ℕ) (t : Trace Syscall) (job : Job)
      → HasSettings job (at t).file.private_data
      → job.is_not_mm ≡ false
      → n < 2 ^ 32
      → let (a, t') = call (Syscall.write fd addr n) sys t in
        HasSettings job (at t').file.private_data
        × (area t' ≡ area t)
        × (memory_at t' ≡ memory_at t)
        × (failed_long a ≡ false
            → (job.is_m ≡ true)
              × (ran t' ≡ requested job n (area t) ∷ ran t)
              × (begun t' ≡ 0xA8 ∷ begun t))
  unfolding replay serve
  write_call-runs fd addr n t job has b small = elim (Option-cases (at t).file.private_data) [
    | inl p ↦ ground arith
    | inr (j, p) ↦
        let file = (at t).file in
        let u = (at t).trace in
        let same : SameSettings j job = ground (arith, has, p) in
        let (kept, answer) = pci_write-Answers env fuel dev file addr n u p in
        let (copies, bytes) =
          mapped_write-Untouched env (setup_configspace start size) (start + 0xA8) m fuel dev file
            addr n u found p (same.3 ∙ b) in
        (
          HasSettings-trans j job _ kept same,
          copies,
          bytes,
          λ good.
              let done = reply-success _ answer good in
              let (i, effect) =
                mapped_write_runs_job env start size fuel dev file addr n u found p (same.3 ∙ b)
                  done in
              let exact : n % 2 ^ 32 ≡ n = omega arith in
              (
                sym same.1 ∙ i,
                ground (arith, effect),
                mapped_write-offsets env start size fuel dev file addr n u found p (same.3 ∙ b)
                    done,
              ),
        )
  ]
