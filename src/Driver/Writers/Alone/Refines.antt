-- ===== src/Driver/Writers/Alone/Refines.antt =====
-- `pci_write`, run alone, is a sequence of steps of one thread.
use cryptodev.Prelude.{
  ℕ, suc, ℤ, neg, ◌%◌, ◌^◌, ◌+◌, ◌≡◌, ◌⊎◌, ◌∙◌, ap, sym, subst, refl, true, false, not, ◌&&◌, none,
  some, ◌∷◌, inl, inr, Bool-cases, arith,
}
use cryptodev.Effects.{Env, Trace, call, run, is_zero}
use cryptodev.Kernel.{Call}
use cryptodev.Kernel.Errno.{erestartsys, eagain}
use cryptodev.Driver.Device.{Job, CryptodevData, setup_configspace, is_not_live}
use cryptodev.Driver.Open.{File}
use cryptodev.Driver.Card.{last_copy, last_write, operations}
use cryptodev.Driver.Write.{locked_write, buffered_write, job_write, pci_write}
use cryptodev.Driver.Writers.{View, Args, Pc, Move, with_job}
use cryptodev.Driver.Writers.Local.{Move-semaphore, hold}
use cryptodev.Driver.Writers.Alone.{Moves, halt, and, given, returned, Shows, Ended, space}
use cryptodev.Driver.Writers.Alone.Ends.{first_step, when-Ended, out_free-Ended}
use cryptodev.Driver.Writers.Alone.Ways.{mmio_transfer-Ended, dma_transfer-Ended}

Moves-semaphore :
    {v : View} {p : Pc} {w : View} {q : Pc}
    → Moves v p w q
    → w.semaphore + hold q ≡ v.semaphore + hold p
Moves-semaphore halt = refl
Moves-semaphore (and b m) = omega (arith, Moves-semaphore b, Move-semaphore m)

-- The test of the first lines of `pci_write`.
one_of :
    (job : Job)
    → (not job.is_not_mm && not job.is_m) ≡ false
    → (job.is_not_mm ≡ true) ⊎ (job.is_m ≡ true)
one_of job e = elim (Bool-cases job.is_not_mm) [ inl b ↦ inl b | inr b ↦ inr (ground arith) ]

-- The arguments of the call, with what copy_from_user will read.
abbrev args : Env Call → ℕ → ℕ → ℕ → Trace Call → Args
args env ptr n len t = record {
  len = n;
  bytes = (env (call (Call.vmalloc n) env t).1 (Call.copy_from_user ptr len)).bytes;
}

module _ (env : Env Call) (start size : ℕ) where
  locked_write-Ended :
      (v : View) (a : Args) (fuel ptr k : ℕ) (t : Trace Call) {r : ℤ}
      → v.semaphore ≡ suc k
      → Shows start size t v
      → (locked_write fuel (space start size) v.job ptr env t).0.result ≡ some r
      → Ended start size v (Pc.filled a) (locked_write fuel (space start size) v.job ptr env t)
  unfolding locked_write last_copy last_write operations given returned setup_configspace
  locked_write-Ended v a fuel ptr k t up s e =
      let (d, t1) = call Call.down_interruptible env t in
      let t2 = (run (Call.iowrite32 v.job.keyab (space start size).keys) env t1).1 in
      let down : View = record v { semaphore = k; card = record v.card { keys = v.job.keyab } } in
      let s2 : Shows start size t2 down = record {
        area = s.area;
        ran = s.ran;
        taken = s.taken;
        freed = s.freed;
      } in
      let s1 : Shows start size t1 v = record {
        area = s.area;
        ran = s.ran;
        taken = s.taken;
        freed = s.freed;
      } in
      let written : last_write (space start size).keys t2 ≡ some v.job.keyab = ground arith in
      when-Ended env start size (is_zero d) _ _
        (λ z e'. first_step env start size (Move.down k up) (
          first_step env start size Move.set_keys (
            when-Ended env start size v.job.is_m _ _
              (λ m e''. mmio_transfer-Ended env start size down a fuel ptr t2 m refl written s2 e'')
              (λ m e''. dma_transfer-Ended env start size down a fuel ptr t2 m refl written s2 e'')
              e')))
        (λ f e'.
          first_step env start size Move.down_interrupted
            (out_free-Ended env start size v (neg erestartsys) t1 s1))
        e

  buffered_write-Ended :
      (v : View) (fuel ptr n k : ℕ) (t : Trace Call) {r : ℤ}
      → v.semaphore ≡ suc k
      → v.job.is_not_mm ≡ true
      → Shows start size t v
      → (buffered_write fuel (space start size) v.job ptr n env t).0.result ≡ some r
      → Ended start size v
          (Pc.sized (args env ptr n v.job.len t))
          (buffered_write fuel (space start size) v.job ptr n env t)
  unfolding buffered_write last_copy operations given returned
  buffered_write-Ended v fuel ptr n k t up b s e =
      let (p, t1) = call (Call.vmalloc n) env t in
      let (c, t2) = call (Call.copy_from_user ptr v.job.len) env t1 in
      let job' : Job = record v.job { msg = some (record { addr = p.value; bytes = c.bytes }) } in
      let filled : View = record v { job = job'; allocated = p.value ∷ v.allocated } in
      when-Ended env start size (is_zero p) _ _
        (λ z f. first_step env start size (Move.alloc_fail b) (record {
          last = with_job v (record v.job { msg = none });
          moves = halt;
          job = refl;
          shows = record {
            area = s.area;
            ran = s.ran;
            taken = ground (arith, s.taken);
            freed = s.freed;
          };
        }))
        (λ z f.
          let s' : Shows start size t2 filled = record {
            area = s.area;
            ran = s.ran;
            taken = ground (arith, s.taken);
            freed = s.freed;
          } in
          first_step env start size (Move.alloc p.value b) (
            when-Ended env start size (is_zero c) _ _
              (λ y g.
                first_step env start size Move.copy_in
                  (locked_write-Ended filled (args env ptr n v.job.len t) fuel ptr k t2 up s' g))
              (λ y g.
                first_step env start size (Move.copy_fault c.bytes)
                  (out_free-Ended env start size filled (neg eagain) t2 s'))
              f))
        e

  -- A call of `pci_write` that returns, on the data of a card that was probed, with the semaphore
  -- up.
  job_write-Ended :
      (v : View) (fuel ptr n k : ℕ) (t : Trace Call) {r : ℤ}
      → v.semaphore ≡ suc k
      → Shows start size t v
      → (job_write fuel (space start size) v.job ptr n env t).0.result ≡ some r
      → Ended start size v Pc.idle (job_write fuel (space start size) v.job ptr n env t)
  unfolding job_write is_not_live last_copy operations given returned setup_configspace
  job_write-Ended v fuel ptr n k t up s e =
      let (dead, t1) = is_not_live (space start size).live 0x0fffffff env t in
      let len : ℕ = n % 2 ^ 32 in
      let j : Job = record v.job { len = len } in
      let sized : View = with_job v j in
      let s1 : Shows start size t1 v = record {
        area = s.area;
        ran = ground (arith, s.ran);
        taken = s.taken;
        freed = s.freed;
      } in
      let s2 : Shows start size t1 sized = record {
        area = s1.area;
        ran = s1.ran;
        taken = s1.taken;
        freed = s1.freed;
      } in
      let a : Args = args env ptr n len t1 in
      when-Ended env start size (not v.job.is_not_mm && not v.job.is_m) _ _
        (λ x e'. record { last = v; moves = halt; job = refl; shows = s })
        (λ x e'.
          when-Ended env start size dead _ _
            (λ y e''. record { last = v; moves = halt; job = refl; shows = s1 })
            (λ y e''. first_step env start size (Move.enter a (one_of v.job x)) (
              first_step env start size Move.set_len (
                when-Ended env start size v.job.is_not_mm _ _
                  (λ b f. buffered_write-Ended sized fuel ptr n k t1 up b s2 f)
                  (λ b f.
                    first_step env start size (Move.use_mapped b)
                      (locked_write-Ended sized a fuel ptr k t1 up s2 f))
                  e'')))
            e')
        e

  -- A call of `pci_write` that returns, on an open file, with the card probed, the semaphore up and
  -- no other thread: it is a sequence of steps of one thread, from outside of the function to
  -- outside of it. If what the thread sees before is what the calls so far have made (what was last
  -- copied to the card's data area, the operation that the card was last asked for, the addresses
  -- that vmalloc gave and that vfree got), then so it is after; the file's job is the one that the steps leave, and the
  -- semaphore is up again.
  pub write_refines :
      (v : View) (fuel : ℕ) (mycryptodev : CryptodevData) (file : File) (ptr n k : ℕ)
      (t : Trace Call) {r : ℤ}
      → mycryptodev.configspace ≡ some (setup_configspace start size)
      → file.private_data ≡ some v.job
      → v.semaphore ≡ suc k
      → Shows start size t v
      → (pci_write fuel mycryptodev file ptr n env t).0.1 ≡ some r
      → let ((file', _), t') = pci_write fuel mycryptodev file ptr n env t in
        (w : View) × Moves v Pc.idle w Pc.idle
        × (file'.private_data ≡ some w.job)
        × (w.semaphore ≡ v.semaphore)
        × Shows start size t' w
  unfolding pci_write
  write_refines v fuel dev file ptr n k t c p up s e =
      let (w, t') = job_write fuel (space start size) v.job ptr n env t in
      let same : pci_write fuel dev file ptr n env t
          ≡ ((record file { private_data = some w.job }, w.result), t') =
        rw (p, c) refl in
      let d = job_write-Ended v fuel ptr n k t up s (sym (ap (λ x. x.0.1) same) ∙ e) in
      (
        d.last,
        d.moves,
        ap (λ x. x.0.0.private_data) same ∙ ap some (sym d.job),
        omega (arith, Moves-semaphore d.moves),
        subst (λ x. Shows start size x d.last) (sym (ap (λ x. x.1) same)) d.shows,
      )
