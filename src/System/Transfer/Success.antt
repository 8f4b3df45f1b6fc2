-- ===== src/System/Transfer/Success.antt =====
-- encrypt and decrypt of the library where no call of the kernel fails and the card finishes.
use cryptodev.Prelude.{
  ℕ, zero, suc, ◌+◌, ◌/◌, ◌%◌, ◌^◌, ◌<◌, ltb, ℤ, pos, ◌≡◌, ◌∙◌, refl, Bool, true, false, some,
  arith, inl, inr, Option-cases, Bool-cases,
}
use cryptodev.Effects.{Answer, Env, Trace, call}
use cryptodev.Kernel.{Call}
use cryptodev.Driver.Device.{Job, ConfigMem, CryptodevData, buffersize}
use cryptodev.Driver.Wait.Progress.{Completes}
use cryptodev.Driver.Write.Answer.{SameSettings, HasSettings, pci_write-Answers}
use cryptodev.Driver.Write.Success.{Succeeds, write_succeeds}
use cryptodev.Crypter.Syscalls.{Syscall, failed_long}
use cryptodev.Crypter.Transfer.{count_of, rest_of, write_chunks, transfer}
use cryptodev.System.{State, serve, replay, system}
use cryptodev.System.Settings.{
  byte_of, directed, encryp_call, mmap_call, encryp_call-directs, mmap_call-unmaps, rounds,
  transfer-rounds,
}
use cryptodev.System.Write.{HasSettings-trans}

module _ (env : Env Call) (kernel : Succeeds env) (k : ℕ) (done : Completes env k) (fuel : ℕ)
    (enough : k < fuel) (dev : CryptodevData) (space : ConfigMem)
    (found : dev.configspace ≡ some space) (other : Syscall → Answer) where
  serve_write-succeeds :
      (fd : ℤ) (addr n : ℕ) (s : State) (job : Job)
      → HasSettings job s.file.private_data
      → job.is_not_mm ≡ true
      → 0 < n
      → let (s', a) = serve env fuel dev other (Syscall.write fd addr n) s in
        HasSettings job s'.file.private_data × (failed_long a ≡ false)
  unfolding serve
  serve_write-succeeds fd addr n s job has b h = elim (Option-cases s.file.private_data) [
    | inl p ↦ ground arith
    | inr (j, p) ↦
        let same : SameSettings j job = ground (arith, has, p) in
        let (kept, answer) = pci_write-Answers env fuel dev s.file addr n s.trace p in
        let zero_result =
          write_succeeds env kernel k done fuel enough dev s.file addr n s.trace found p
            (same.3 ∙ b) h in
        (HasSettings-trans j job _ kept same, rw zero_result refl)
  ]

  module _ (s : State) where
    abbrev at : Trace Syscall → State
    at = replay env fuel dev other s

    abbrev sys : Env Syscall
    sys = system env fuel dev other s

    write_chunks-succeeds :
        (rounds : ℕ) (fd : ℤ) (addr length : ℕ) (t : Trace Syscall) (job : Job)
        → HasSettings job (at t).file.private_data
        → job.is_not_mm ≡ true
        → 0 < length
        → length / buffersize < rounds
        → (write_chunks rounds fd addr length sys t).0 ≡ some (pos 0)
    unfolding write_chunks replay
    write_chunks-succeeds zero fd addr length t job has b h few = elim few [ ]
    write_chunks-succeeds (suc rounds) fd addr length t job has b h few =
        let t' = (call (Syscall.write fd addr (count_of length)) sys t).1 in
        let (kept, good) =
          serve_write-succeeds fd addr (count_of length) (at t) job has b (ground arith) in
        let next = (addr + count_of length) % 2 ^ 64 in
        elim (Bool-cases (ltb 0 (rest_of length))) [
          | inl more ↦
              ground (arith, write_chunks-succeeds rounds fd next (rest_of length) t' job kept b)
          | inr last ↦ ground arith
        ]

    -- `encrypt` (true) or `decrypt` (false) of at least one byte, not memory-mapped, on a file with a
    -- job of the driver, returns 0, whatever the flags and the length of the data, if no call of the
    -- kernel fails, no signal arrives, the card is live, and it shows that it is idle within `k`
    -- reads of a register after it was last written to, where `k` is below the fuel of one wait.
    pub transfer_succeeds :
        (e : Bool) (fd : ℤ) (addr length : ℕ) (t : Trace Syscall) (job : Job)
        → HasSettings job (at t).file.private_data
        → 0 < length
        → (transfer (byte_of e) fd addr length 0 sys t).0 ≡ some (pos 0)
    unfolding rounds
    transfer_succeeds e fd addr length t job has h =
        let t1 = (encryp_call env fuel dev other s e fd t).1 in
        let t2 = (mmap_call env fuel dev other s fd t1).1 in
        let (kept, ok, same) = encryp_call-directs env fuel dev other s (λ q. q) e fd t job has in
        let (kept', ok', same') =
          mmap_call-unmaps env fuel dev other s (λ q. q) fd t1 (record job { is_e = e }) kept in
        rw (transfer-rounds env fuel dev other s e fd addr length t job has) (
          write_chunks-succeeds (length / buffersize + 1) fd addr length t2 (directed e job) kept'
            refl h (omega arith))
