-- ===== src/Testcases/Restored.antt =====
-- A test program on the driver, where no call of the kernel fails and the card works.
use cryptodev.Prelude.{
  ℕ, ◌+◌, ◌*◌, ◌/◌, ◌^◌, ◌<◌, ℤ, pos, ◌≡◌, ◌≢◌, ◌∙◌, ap, Bool, true, false, is_negative, Option,
  none, some, List, arith, inl, inr, Option-cases, subst, sym,
}
use cryptodev.Memory.{Bytes}
use cryptodev.Effects.{Answer, Env, Trace, int_of, call}
use cryptodev.Kernel.{Call}
use cryptodev.Driver.Device.{Job, ConfigMem, CryptodevData, setup_configspace, buffersize}
use cryptodev.Driver.Card.{pending, memory, Reads, Crypts}
use cryptodev.Driver.Wait.Progress.{Completes}
use cryptodev.Driver.Write.Answer.{HasSettings}
use cryptodev.Driver.Write.Success.{Succeeds}
use cryptodev.Crypter.Syscalls.{Syscall, create_handle, close_handle}
use cryptodev.Crypter.Settings.{set_key}
use cryptodev.Crypter.Transfer.{encrypt, decrypt}
use cryptodev.System.{State, replay, system}
use cryptodev.System.Moments.{
  ◌⊑◌, same, later, ⊑-trans, transfer-goes_on, close_handle-goes_on, create_handle-goes_on,
  set_key-goes_on,
}
use cryptodev.System.Settings.{directed}
use cryptodev.System.Chunks.{chunkwise}
use cryptodev.System.Chunks.Inverse.{chunkwise-chunkwise}
use cryptodev.System.Transfer.{transfer_crypts}
use cryptodev.System.Transfer.Success.{transfer_succeeds}
use cryptodev.System.Transfer.Roundtrip.{IsCipher}
use cryptodev.Testcases.{Script, say, say_int, say_msg, configure, there_and_back, session}
use cryptodev.Testcases.Steps.{
  HasKey, quiet-Keeps, create_handle-Keeps, set_key-Keeps, configure-Keeps, say_int-quiet,
  say_msg-quiet, say-quiet, say_int-goes_on, say_msg-goes_on, say-goes_on, configure-goes_on,
  printf_text-quiet, close_handle-quiet,
}

-- The job with a key, as its settings.
pub HasKey-HasSettings :
    (k : ℕ) (o : Option Job) → HasKey k o → (job : Job) × HasSettings job o × (job.keyab ≡ k)
HasKey-HasSettings k o h = elim (Option-cases o) [
  | inl e ↦ ground arith
  | inr (job, e) ↦ (job, ground arith, ground arith)
]

module _ (env : Env Call) (start size : ℕ) (m : Bytes) (crypt : Bool → ℕ → List ℕ → List ℕ)
    (card : Crypts env (setup_configspace start size) crypt) (user : Reads env m)
    (kernel : Succeeds env) (k : ℕ) (done : Completes env k) (fuel : ℕ) (enough : k < fuel)
    (dev : CryptodevData) (found : dev.configspace ≡ some (setup_configspace start size))
    (other : Syscall → Answer) (s : State) where
  abbrev at : Trace Syscall → State
  at = replay env fuel dev other s

  abbrev space : ConfigMem
  space = setup_configspace start size

  abbrev memory_at : Trace Syscall → Bytes
  memory_at t = memory m (at t).trace

  abbrev sys : Env Syscall
  sys = system env fuel dev other s

  -- A moment between two at which the data is encrypted, piece by piece.
  abbrev pub Encrypted : (addr len key : ℕ) → (t last : Trace Syscall) → Type 0
  Encrypted addr len key t last =
      (u : Trace Syscall) × (t ⊑ u)
      × (u ⊑ last)
      × (memory_at u ≡ chunkwise (len / buffersize + 1) (crypt true key) addr len (memory_at t))

  there_and_back-restores :
      (script : Script) (fd : ℤ) (addr len key : ℕ) (t : Trace Syscall)
      → HasKey key (at t).file.private_data
      → 0 < len
      → addr + len < 2 ^ 64
      → pending space (at t).trace ≡ none
      → IsCipher crypt key
      → ((q : ℕ) → memory_at t q < 256)
      → (memory_at (there_and_back script fd addr len sys t).1 ≡ memory_at t)
        × Encrypted addr len key t (there_and_back script fd addr len sys t).1
  unfolding there_and_back encrypt decrypt
  there_and_back-restores script fd addr len key t has some_text fits rest cipher small =
      let (job, settings, same_key) = HasKey-HasSettings key (at t).file.private_data has in
      let t1 = (encrypt fd addr len 0 sys t).1 in
      let t2 = (call (Syscall.printf_text script.encrypted addr) sys t1).1 in
      let t3 = (decrypt fd addr len 0 sys t2).1 in
      let t4 = (call (Syscall.printf_text script.decrypted addr) sys t3).1 in
      let (kept, there) =
        transfer_crypts env start size m crypt card user fuel dev found other s true fd addr len t
          job settings fits rest in
      let quiet : at t2 ≡ at t1 =
        printf_text-quiet env fuel dev other s m space script.encrypted addr t1 in
      let kept' : HasSettings (directed true job) (at t2).file.private_data =
        subst (λ (x : State). HasSettings (directed true job) x.file.private_data) (sym quiet)
          kept in
      let e : (encrypt fd addr len 0 sys t).0 ≡ some (pos 0) =
        transfer_succeeds env kernel k done fuel enough dev _ found other s true fd addr len t job
          settings some_text in
      let (kept'', back) =
        transfer_crypts env start size m crypt card user fuel dev found other s false fd addr len t2
          (directed true job) kept' fits
          (ap (λ (x : State). pending space x.trace) quiet ∙ (there e).1) in
      let d : (decrypt fd addr len 0 sys t2).0 ≡ some (pos 0) =
        transfer_succeeds env kernel k done fuel enough dev _ found other s false fd addr len t2
          (directed true job) kept' some_text in
      let undo = chunkwise (len / buffersize + 1) (crypt false job.keyab) addr len in
      let cipher' : IsCipher crypt job.keyab = subst (IsCipher crypt) (sym same_key) cipher in
      let last = (close_handle fd sys t4).1 in
      (
        close_handle-quiet env fuel dev other s m space fd t4
            ∙ ap (λ (x : State). memory m x.trace)
                (printf_text-quiet env fuel dev other s m space script.decrypted addr t3)
            ∙ (back d).0
            ∙ ap (λ (x : State). undo (memory m x.trace)) quiet
            ∙ ap undo (there e).0
            ∙ chunkwise-chunkwise (crypt true job.keyab) (crypt false job.keyab) cipher'.same
                cipher'.inverse (len / buffersize + 1) addr len (memory_at t) small,
        (
          t1,
          transfer-goes_on sys 50 fd addr len 0 t,
          ⊑-trans t1 t2 last (later _ same) (
              ⊑-trans t2 t3 last (transfer-goes_on sys 60 fd addr len 0 t2)
                (⊑-trans t3 t4 last (later _ same) (close_handle-goes_on sys fd t4))),
          subst
              (λ x.
                memory_at t1
                ≡ chunkwise (len / buffersize + 1) (crypt true x) addr len (memory_at t))
              same_key (there e).0,
        ),
      )

  module _ (allocates : (t : Trace Call) (n : ℕ) → (env t (Call.kzalloc n)).value ≢ 0)
      (opens : is_negative (int_of (other Syscall.open_device)) ≡ false) where
    -- The processes of the test programs test2.c to test5.c, each by itself from its handle on:
    -- whatever its key of two bytes and its configuration, and however long its text is, as long as
    -- it is not empty and does not run over the end of the address space, a process gets through to
    -- the end; at a moment between start and end the caller's memory is what it was when the handle was opened but
    -- for the text, of which every piece of 32768 bytes, and the shorter one at the end, is encrypted
    -- with the key; and at the end the whole memory, which holds bytes, is what it was: the text is
    -- decrypted again. This is so on the driver if no call of the kernel fails and no signal arrives,
    -- the card is at rest at the start, is live and finishes within `k` reads of a register, where `k`
    -- is below the fuel of one wait, the card gives its result once it has accepted an operation and
    -- has shown that it is done, its encryption keeps lengths, and its decryption with the key undoes
    -- its encryption.
    pub session_restores :
        (script : Script) (op_text len : ℕ) (t : Trace Syscall)
        → script.a < 256
        → script.b < 256
        → 0 < len
        → op_text + len < 2 ^ 64
        → IsCipher crypt (script.a * 256 + script.b)
        → ((q : ℕ) → memory_at t q < 256)
        → pending space (at t).trace ≡ none
        → ((session script op_text len sys t).0 ≡ true)
          × (memory_at (session script op_text len sys t).1 ≡ memory_at t)
          × ((u : Trace Syscall) × (t ⊑ u)
              × (u ⊑ (session script op_text len sys t).1)
              × (memory_at u
                  ≡ chunkwise
                      (len / 32768 + 1)
                      (crypt true (script.a * 256 + script.b))
                      op_text
                      len
                      (memory_at t)))
    unfolding session
    session_restores script op_text len t ha hb some_text fits cipher small rest =
        let (cdev, t1) = create_handle sys t in
        let t2 = (say_int script.opened cdev sys t1).1 in
        let (key, t3) = set_key cdev script.a script.b sys t2 in
        let t4 = (configure cdev script.config sys t3).1 in
        let t5 = (say_msg script.original script.msg sys t4).1 in
        let t6 = (say script.entered sys t5).1 in
        let secret = script.a * 256 + script.b in
        let (opened, kept1) = create_handle-Keeps env fuel dev other s m space t allocates opens in
        let kept2 =
          quiet-Keeps env fuel dev other s m space 0 t t1 t2
            (say_int-quiet env fuel dev other s m space script.opened cdev t1) kept1 in
        let (good, kept3) =
          set_key-Keeps env fuel dev other s m space cdev script.a script.b 0 t2 kept2.0 ha hb in
        let kept4 =
          configure-Keeps env fuel dev other s m space cdev script.config secret t3 kept3.0 in
        let kept6 =
          quiet-Keeps env fuel dev other s m space secret t3 t4 t6
            (say-quiet env fuel dev other s m space script.entered t5
              ∙ say_msg-quiet env fuel dev other s m space script.original script.msg t4)
            kept4 in
        let unchanged : memory_at t6 ≡ memory_at t = kept6.1 ∙ kept3.1 ∙ kept2.1 in
        let idle = kept6.2 ∙ kept3.2 ∙ kept2.2 ∙ rest in
        let small6 : (q : ℕ) → memory_at t6 q < 256 =
          λ q. subst (λ (x : Bytes). x q < 256) (sym unchanged) (small q) in
        let before : t ⊑ t6 = ⊑-trans t t1 t6 (create_handle-goes_on sys t) (
          ⊑-trans t1 t2 t6 (say_int-goes_on sys script.opened cdev t1) (
            ⊑-trans t2 t3 t6 (set_key-goes_on sys cdev script.a script.b t2) (
              ⊑-trans t3 t4 t6 (configure-goes_on sys cdev script.config t3) (
                ⊑-trans t4 t5 t6 (say_msg-goes_on sys script.original script.msg t4)
                  (say-goes_on sys script.entered t5))))) in
        let done = there_and_back script cdev op_text len sys t6 in
        let step : session script op_text len sys t ≡ (true, done.1) = ground arith in
        let (restores, (u, begins, ends, encrypted)) =
          there_and_back-restores script cdev op_text len secret t6 kept6.0 some_text fits idle
            cipher small6 in
        (
          ap (λ x. x.0) step,
          ap (λ x. memory_at x.1) step ∙ restores ∙ unchanged,
          (
            u,
            ⊑-trans t t6 u before begins,
            subst (λ x. u ⊑ x.1) (sym step) ends,
            encrypted ∙ ap (chunkwise (len / 32768 + 1) (crypt true secret) op_text len) unchanged,
          ),
        )
