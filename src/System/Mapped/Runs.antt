-- ===== src/System/Mapped/Runs.antt =====
-- encrypt and decrypt of the library on the card's mapped memory, on the driver: as a whole.
use cryptodev.Prelude.{
  ℕ, zero, suc, ◌+◌, ◌/◌, ◌%◌, ◌^◌, ◌<◌, ◌==◌, ℤ, pos, ◌≡◌, ◌∙◌, refl, sym, ap, subst, Bool, true,
  false, Option, none, some, List, [], ◌∷◌, ◌++◌, arith, inl, inr, Bool-cases, ltb,
}
use cryptodev.Memory.{Bytes}
use cryptodev.Effects.{Answer, Env, Trace, call}
use cryptodev.Kernel.{Call}
use cryptodev.Driver.Device.{Job, CryptodevData, setup_configspace, buffersize}
use cryptodev.Driver.Card.{Operation, last_copy, requested, operations, offsets, bare, memory}
use cryptodev.Driver.Write.Answer.{HasSettings}
use cryptodev.Crypter.Syscalls.{Syscall, failed_long, error}
use cryptodev.Crypter.Transfer.{count_of, rest_of, write_chunks, transfer}
use cryptodev.System.{State, replay, system}
use cryptodev.System.Settings.{byte_of}
use cryptodev.System.Mapped.{
  area_job, sum, Full, Cut, started, places, encryp_call, mmap_call, encryp_call-Leaves,
  mmap_call-Leaves, write_call-runs,
}

started-append :
    (job : Job) (content : Option (List ℕ)) (n : ℕ) (ns : List ℕ) (os : List Operation)
    → started job content (ns ++ n ∷ []) ++ os
      ≡ started job content ns ++ requested job n content ∷ os
started-append job content n [] os = refl
started-append job content n (k ∷ ns) os =
    ap (λ l. requested job k content ∷ l) (started-append job content n ns os)

places-append : (n : ℕ) (ns os : List ℕ) → places (ns ++ n ∷ []) ++ os ≡ places ns ++ 0xA8 ∷ os
places-append n [] os = refl
places-append n (k ∷ ns) os = ap (λ l. 0xA8 ∷ l) (places-append n ns os)

bare-started :
    (job : Job) (content : Option (List ℕ)) (ns : List ℕ) (os : List Operation)
    → bare (started job content ns ++ os) ≡ started job none ns ++ bare os
bare-started job content [] os = refl
bare-started job content (n ∷ ns) os =
    ap (λ l. requested job n none ∷ l) (bare-started job content ns os)

sum-append : (n : ℕ) (ns : List ℕ) → sum (ns ++ n ∷ []) ≡ sum ns + n
sum-append n [] = omega arith
sum-append n (k ∷ ns) = omega (arith, sum-append n ns)

Full-append : (ns : List ℕ) → Full ns → Full (ns ++ 32768 ∷ [])
Full-append [] full = (refl, tt)
Full-append (k ∷ ns) (first, full) = (first, Full-append ns full)

Cut-append : (ns : List ℕ) → Cut ns → 0 < sum ns → Cut (ns ++ 32768 ∷ [])
Cut-append [] cut some_text = absurd (ground arith)
Cut-append (n ∷ []) cut some_text = (omega arith, cut, (refl, tt))
Cut-append (n ∷ k ∷ ns) (positive, small, full) some_text =
    (positive, small, Full-append (k ∷ ns) full)

module _ (env : Env Call) (start size : ℕ) (m : Bytes) (fuel : ℕ) (dev : CryptodevData)
    (found : dev.configspace ≡ some (setup_configspace start size)) (other : Syscall → Answer)
    (s : State) where
  abbrev at : Trace Syscall → State
  at = replay env fuel dev other s

  abbrev sys : Env Syscall
  sys = system env fuel dev other s

  abbrev ran : Trace Syscall → List Operation
  ran t = operations (setup_configspace start size) (at t).trace

  abbrev area : Trace Syscall → Option (List ℕ)
  area t = last_copy (start + 0xA8) (at t).trace

  abbrev begun : Trace Syscall → List ℕ
  begun t = offsets (setup_configspace start size) (at t).trace

  abbrev memory_at : Trace Syscall → Bytes
  memory_at t = memory m (at t).trace

  -- What the loop leads to.
  record Ran (job : Job) (length : ℕ) (t : Trace Syscall) (out : Option ℤ × Trace Syscall)
      : Type 0 where
    has : HasSettings job (at out.1).file.private_data
    area' : area out.1 ≡ area t
    memory' : memory_at out.1 ≡ memory_at t
    done :
        out.0 ≡ some (pos 0)
        → (job.is_m ≡ true)
          × (ns : List ℕ) × (ran out.1 ≡ started job (area t) ns ++ ran t)
          × (begun out.1 ≡ places ns ++ begun t)
          × (sum ns ≡ length)
          × Cut ns

  Ran-more :
      (job : Job) (n rest : ℕ) (t t' : Trace Syscall) (out : Option ℤ × Trace Syscall)
      → area t' ≡ area t
      → memory_at t' ≡ memory_at t
      → ran t' ≡ requested job n (area t) ∷ ran t
      → begun t' ≡ 0xA8 ∷ begun t
      → n ≡ 32768
      → 0 < rest
      → Ran job rest t' out
      → Ran job (n + rest) t out
  Ran-more job n rest t t' out same bytes one place full more later = record {
    has = later.has;
    area' = later.area' ∙ same;
    memory' = later.memory' ∙ bytes;
    done = λ e.
        let (i, ns, ops, begins, total, fit) = later.done e in
        (
          i,
          ns ++ n ∷ [],
          ops
              ∙ ap (λ c. started job c ns ++ ran t') same
              ∙ ap (λ l. started job (area t) ns ++ l) one
              ∙ sym (started-append job (area t) n ns (ran t)),
          begins ∙ ap (λ l. places ns ++ l) place ∙ sym (places-append n ns (begun t)),
          omega (arith, sum-append n ns),
          subst (λ l. Cut (ns ++ l ∷ [])) (sym full) (Cut-append ns fit (omega arith)),
        );
  }

  write_chunks-Ran :
      (k : ℕ) (fd : ℤ) (addr length : ℕ) (t : Trace Syscall) (job : Job)
      → HasSettings job (at t).file.private_data
      → job.is_not_mm ≡ false
      → Ran job length t (write_chunks k fd addr length sys t)
  unfolding write_chunks replay
  write_chunks-Ran zero fd addr length t job has b = record {
    has = has;
    area' = refl;
    memory' = refl;
    done = λ e. ground arith;
  }
  write_chunks-Ran (suc k) fd addr length t job has b =
      let n = count_of length in
      let (w, t') = call (Syscall.write fd addr n) sys t in
      let (kept, copies, bytes, done) =
        write_call-runs env start size m fuel dev found other s fd addr n t job has b
          (ground arith) in
      elim (Bool-cases (failed_long w)) [
        | inl bad ↦
            let step : write_chunks (suc k) fd addr length sys t ≡ (some error, t') =
              ground arith in
            subst (Ran job length t) (sym step)
              (record { has = kept; area' = copies; memory' = bytes; done = λ e. ground arith })
        | inr good ↦
            let (i, one, place) = done good in
            elim (Bool-cases (ltb 0 (rest_of length))) [
              | inl more ↦
                  let next = write_chunks k fd ((addr + n) % 2 ^ 64) (rest_of length) sys t' in
                  let step : write_chunks (suc k) fd addr length sys t ≡ next = ground arith in
                  let whole : n + rest_of length ≡ length = ground arith in
                  subst (Ran job length t) (sym step) (
                    subst (λ l. Ran job l t next) whole
                      (Ran-more job n (rest_of length) t t' next copies bytes one place
                        (ground arith) (ground arith)
                        (write_chunks-Ran k fd _ (rest_of length) t' job kept b)))
              | inr last ↦
                  let step : write_chunks (suc k) fd addr length sys t
                      ≡ (some (pos (rest_of length)), t') =
                    ground arith in
                  subst (Ran job length t) (sym step) (record {
                    has = kept;
                    area' = copies;
                    memory' = bytes;
                    done = λ e. (i, n ∷ [], one, place, ground arith, ground arith);
                  })
            ]
      ]

  -- `encrypt` (true) or `decrypt` of data that is mapped, whatever its address, on a file with a job:
  -- if it returns 0, the job goes by MMIO, and the card was started on pieces of 32768 bytes, the
  -- last one possibly shorter, whose lengths add up to the length of the data, each with the job's
  -- key and interrupt flag and in the direction of the function, and each at the same offset 0xA8 of
  -- the card's memory, although the pieces lie one after the other in the caller's. The driver has
  -- copied nothing into the data area there and nothing into the caller's memory; what the area
  -- holds at each start is not stated. The job is left with this direction, for mapped memory, and with
  -- its other settings.
  pub mapped_transfer_runs :
      (e : Bool) (fd : ℤ) (addr length is_mapped : ℕ) (t : Trace Syscall) (job : Job)
      → HasSettings job (at t).file.private_data
      → (is_mapped == 0) ≡ false
      → (transfer (byte_of e) fd addr length is_mapped sys t).0 ≡ some (pos 0)
      → let t' = (transfer (byte_of e) fd addr length is_mapped sys t).1 in
        (job.is_m ≡ true)
        × ((ns : List ℕ) × (bare (ran t') ≡ started (area_job e job) none ns ++ bare (ran t))
            × (begun t' ≡ places ns ++ begun t)
            × (sum ns ≡ length)
            × Cut ns)
        × (area t' ≡ area t)
        × (memory_at t' ≡ memory_at t)
        × HasSettings (area_job e job) (at t').file.private_data
  unfolding transfer
  mapped_transfer_runs e fd addr length is_mapped t job has b good =
      let t1 = (encryp_call env start size m fuel dev found other s e fd t).1 in
      let t2 = (mmap_call env start size m fuel dev found other s fd t1).1 in
      let (ok, l) = encryp_call-Leaves env start size m fuel dev found other s e fd t job has in
      let (ok', l') =
        mmap_call-Leaves env start size m fuel dev found other s fd t1 (record job { is_e = e })
          l.has in
      let k = length / buffersize + 1 in
      let loop = write_chunks k fd addr length sys t2 in
      let step : transfer (byte_of e) fd addr length is_mapped sys t ≡ loop =
        rw (ok, b, ok') refl in
      let r = write_chunks-Ran k fd addr length t2 (area_job e job) l'.has refl in
      let (i, ns, ops, begins, total, fit) = r.done (ap (λ x. x.0) (sym step) ∙ good) in
      let same = l'.area' ∙ l.area' in
      (
        i,
        (
          ns,
          ap (λ x. bare (ran x.1)) step
              ∙ ap bare ops
              ∙ bare-started (area_job e job) (area t2) ns (ran t2)
              ∙ ap (λ l. started (area_job e job) none ns ++ bare l) (l'.ran' ∙ l.ran'),
          ap (λ x. begun x.1) step ∙ begins ∙ ap (λ l. places ns ++ l) (l'.begun' ∙ l.begun'),
          total,
          fit,
        ),
        ap (λ x. area x.1) step ∙ r.area' ∙ same,
        ap (λ x. memory_at x.1) step ∙ r.memory' ∙ l'.memory' ∙ l.memory',
        subst (λ x. HasSettings (area_job e job) (at x.1).file.private_data) (sym step) r.has,
      )
