-- ===== src/Driver/Life/Balance.antt =====
-- What the life of the driver holds in the end: nothing.
use cryptodev.Prelude.{
  ℕ, ◌<◌, ◌≡◌, ◌∙◌, refl, true, Option, Option-cases, none, some, List, [], ◌∷◌, inl, inr, arith,
}
use cryptodev.Effects.{Env, Trace}
use cryptodev.Kernel.{Call}
use cryptodev.Kernel.Resources.{Resource, held}
use cryptodev.Driver.Probe.{cryptocard_probe}
use cryptodev.Driver.Device.{Job, Request, PciDev, CryptodevData}
use cryptodev.Driver.Open.{File, new_job, pci_open, pci_release}
use cryptodev.Driver.Open.Laws.{open_release}
use cryptodev.Driver.Ioctl.{job_ioctl, pci_unlocked_ioctl}
use cryptodev.Driver.Irq.{pci_mmap}
use cryptodev.Driver.Write.{pci_write}
use cryptodev.Driver.Wait.Progress.{Completes}
use cryptodev.Driver.Write.Progress.{write_returns}
use cryptodev.Driver.Wait.Laws.{Unsignalled}
use cryptodev.Driver.Write.Balance.{write_releases}
use cryptodev.Driver.Probe.Laws.{probe_all_or_nothing, remove_releases}
use cryptodev.Driver.Life.{FileCall, make_call, make_calls, use_file, use_files, life}

-- The file has a job at this address, which has no buffer.
abbrev Idle : ℕ → File → Type 0
Idle a file = (file.addr ≡ a) × (job : Job) × (file.private_data ≡ some job) × (job.msg ≡ none)

-- The calls have returned, hold just this, and leave the file with its idle job.
abbrev Rests : ℕ → List Resource → Option File × Trace Call → Type 0
Rests a r (out, t) = (file : File) × (out ≡ some file) × (held t ≡ r) × Idle a file

job_ioctl-idle :
    (request : Request) (arg : ℕ) (job : Job) (env : Env Call) (t : Trace Call)
    → let ((job', v), t') = job_ioctl request arg job env t in
      (held t' ≡ held t) × (job'.msg ≡ job.msg)
unfolding job_ioctl held
job_ioctl-idle request arg job env t = ground arith

pci_write-addr :
    (fuel : ℕ) (my : CryptodevData) (file : File) (ptr size : ℕ) (env : Env Call) (t : Trace Call)
    → (pci_write fuel my file ptr size env t).0.0.addr ≡ file.addr
unfolding pci_write
pci_write-addr fuel my file ptr size env t = ground arith

module _ (env : Env Call) (k : ℕ) (done : Completes env k) (quiet : Unsignalled env) (fuel : ℕ)
    (enough : k < fuel) (my : CryptodevData) where
  make_write-Rests :
      (ptr size a : ℕ) (file : File) (t : Trace Call)
      → Idle a file
      → Rests a (held t) (make_call fuel my (FileCall.write ptr size) file env t)
  unfolding make_call
  make_write-Rests ptr size a file t (at, job, has, idle) =
      elim (Option-cases (pci_write fuel my file ptr size env t).0.1) [
        | inl never ↦ absurd (write_returns env k done fuel enough my file ptr size t never)
        | inr (v, e) ↦
            let (same, (job', has', idle')) =
              write_releases env fuel my file ptr size t has idle (inr (inr quiet)) e in
            let after = (pci_write fuel my file ptr size env t).0.0 in
            (
              after,
              ground arith,
              ground arith,
              (pci_write-addr fuel my file ptr size env t ∙ at, job', has', idle'),
            )
      ]

  make_call-Rests :
      (c : FileCall) (a : ℕ) (file : File) (t : Trace Call)
      → Idle a file
      → Rests a (held t) (make_call fuel my c file env t)
  unfolding make_call pci_unlocked_ioctl pci_mmap held
  make_call-Rests (FileCall.ioctl request arg) a file t (at, job, has, idle) =
      let (same, kept) = job_ioctl-idle request arg job env t in
      let job' = (job_ioctl request arg job env t).0.0 in
      (
        record file { private_data = some job' },
        ground arith,
        ground arith,
        (at, job', refl, kept ∙ idle),
      )
  make_call-Rests (FileCall.write ptr size) a file t idle = make_write-Rests ptr size a file t idle
  make_call-Rests (FileCall.mmap area) a file t idle = (file, ground arith, ground arith, idle)

  make_calls-Rests :
      (cs : List FileCall) (a : ℕ) (file : File) (t : Trace Call)
      → Idle a file
      → Rests a (held t) (make_calls fuel my cs file env t)
  unfolding make_calls
  make_calls-Rests [] a file t idle = (file, refl, refl, idle)
  make_calls-Rests (c ∷ cs) a file t idle =
      let (next, returns, same, rests) = make_call-Rests c a file t idle in
      let (last, returns', same', rests') =
        make_calls-Rests cs a next (make_call fuel my c file env t).1 rests in
      (last, ground arith, ground arith, rests')

  use_file-ends :
      (cs : List FileCall) (file : File) (t : Trace Call)
      → ((use_file fuel my cs file env t).0 ≡ true)
        × (held (use_file fuel my cs file env t).1 ≡ held t)
  unfolding use_file new_job pci_release held
  use_file-ends cs file t =
      let ((opened, v), t1) = pci_open file env t in
      elim (open_release env file t) [
        | inl (failed, same, left) ↦ ground arith
        | inr (zero, holds, has, frees, empty) ↦
            let (used, returns, same, (at, job, last, idle)) =
              make_calls-Rests cs opened.addr opened t1 (refl, new_job, has, ground arith) in
            let t2 = (make_calls fuel my cs opened env t1).1 in (ground arith, ground arith)
      ]

  use_files-ends :
      (css : List (List FileCall)) (file : File) (t : Trace Call)
      → ((use_files fuel my css file env t).0 ≡ true)
        × (held (use_files fuel my css file env t).1 ≡ held t)
  unfolding use_files
  use_files-ends [] file t = (refl, refl)
  use_files-ends (cs ∷ css) file t =
      ground
        (arith, use_file-ends cs file t, use_files-ends css file (use_file fuel my cs file env t).1)

-- A probe, any number of files that are opened, used by any calls of ioctl, write and mmap and
-- released, one after the other, and the removal of the driver: all these calls return, and in the
-- end nothing is held that was not held before, and nothing has been given back that was not held,
-- whatever fails: the probe, an opening, or any of the calls. This is so if no signal ends a sleep for the card, and
-- the card shows that it is idle within `k` reads of a register after it was last written to, where
-- `k` is below the fuel of one wait.
pub life_balanced :
    (env : Env Call) (k : ℕ)
    → Completes env k
    → Unsignalled env
    → (fuel sizeof_cdev : ℕ) (dev : PciDev) (mycryptodev : CryptodevData) → k < fuel
    → (css : List (List FileCall)) (file : File) (t : Trace Call)
    → let (ended, t') = life fuel sizeof_cdev dev mycryptodev css file env t in
      (ended ≡ true) × (held t' ≡ held t)
unfolding life
life_balanced env k done quiet fuel n dev my enough css file t =
    let ((my', v), t1) = cryptocard_probe n dev my env t in
    let (ended, same) = use_files-ends env k done quiet fuel enough my' css file t1 in
    let t2 = (use_files fuel my' css file env t1).1 in
    elim (probe_all_or_nothing env n dev my t) [
      | inl (zero, holds, found, mapped) ↦
          let (back, cleared) = remove_releases env dev my' (held t) t2 (same ∙ holds) in
          ground arith
      | inr (failed, holds, left) ↦ ground arith
    ]
