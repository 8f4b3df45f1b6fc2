-- ===== src/Driver/Writers/Alone/Ends.antt =====
-- The ends of `pci_write`, as steps of a thread.
use cryptodev.Prelude.{
  ℕ, ℤ, Bool, false, pos, neg, List, ◌+◌, ◌≡◌, refl, true, none, some, ◌∷◌, inl, inr, Bool-cases,
  arith,
}
use cryptodev.Effects.{Env, Trace, event, is_zero}
use cryptodev.Kernel.{Call}
use cryptodev.Kernel.Errno.{eagain, erestartsys}
use cryptodev.Driver.Card.{last_copy, operations}
use cryptodev.Driver.Wait.{Waited}
use cryptodev.Driver.Write.{
  Written, fill, msg_addr, msg_bytes, out_free, out_up, copy_back, mmio_finish, dma_finish,
}
use cryptodev.Driver.Writers.{View, Args, Pc, Move, with_job}
use cryptodev.Driver.Writers.Alone.{halt, and, after, given, returned, Shows, Ended, space}

module _ (env : Env Call) (start size : ℕ) where
  pub out_free-Ended :
      (v : View) (err : ℤ) (t : Trace Call)
      → Shows start size t v
      → Ended start size v Pc.out_free (out_free v.job err env t)
  unfolding out_free last_copy operations given returned
  out_free-Ended v err t s = elim (Bool-cases v.job.is_not_mm) [
    | inl b ↦ record {
      last = record v { freed = msg_addr v.job.msg ∷ v.freed; job = record v.job { msg = none } };
      moves = and (and halt (Move.free b)) Move.clear;
      job = ground arith;
      shows = record {
        area = ground (arith, s.area);
        ran = ground (arith, s.ran);
        taken = ground (arith, s.taken);
        freed = ground (arith, s.freed);
      };
    }
    | inr b ↦ record {
      last = record v { job = record v.job { msg = none } };
      moves = and (and halt (Move.keep b)) Move.clear;
      job = ground arith;
      shows = record {
        area = ground (arith, s.area);
        ran = ground (arith, s.ran);
        taken = ground (arith, s.taken);
        freed = ground (arith, s.freed);
      };
    }
  ]

  pub first_step :
      {v w : View} {p q : Pc} {r : Written × Trace Call}
      → Move v p w q
      → Ended start size w q r
      → Ended start size v p r
  first_step m e = record { last = e.last; moves = after m e.moves; job = e.job; shows = e.shows }

  -- A test in the code.
  pub when-Ended :
      (b : Bool) (x y : Written × Trace Call) {v : View} {p : Pc} {r : ℤ}
      → (b ≡ true → x.0.result ≡ some r → Ended start size v p x)
      → (b ≡ false → y.0.result ≡ some r → Ended start size v p y)
      → (elim b as (λ _. Written × Trace Call) [ false ↦ y | true ↦ x ]).0.result ≡ some r
      → Ended start size v p (elim b as (λ _. Written × Trace Call) [ false ↦ y | true ↦ x ])
  when-Ended true x y f g e = f refl e
  when-Ended false x y f g e = g refl e

  pub out_up-Ended :
      (v : View) (err : ℤ) (t : Trace Call)
      → Shows start size t v
      → Ended start size v Pc.out_up (out_up v.job err env t)
  unfolding out_up last_copy operations given returned
  out_up-Ended v err t s =
      let raised : View = record v { semaphore = v.semaphore + 1 } in
      let rest =
        out_free-Ended raised err _
          (record { area = s.area; ran = s.ran; taken = s.taken; freed = s.freed }) in
      first_step Move.up rest

  pub copy_back-Ended :
      (v : View) (a : Args) (ptr : ℕ) (t : Trace Call)
      → Shows start size t v
      → Ended start size v (Pc.fetched a) (copy_back v.job ptr env t)
  unfolding copy_back last_copy operations given returned
  copy_back-Ended v a ptr t s =
      let c = Call.copy_to_user ptr (msg_bytes v.job.msg) v.job.len in
      let s' : Shows start size (event c (env t c) ∷ t) v = record {
        area = s.area;
        ran = s.ran;
        taken = s.taken;
        freed = s.freed;
      } in
      elim (Bool-cases (is_zero (env t c))) [
        | inl z ↦ rw z (first_step Move.copy_out (out_up-Ended v (pos 0) _ s'))
        | inr f ↦ rw f (first_step Move.copy_out (out_up-Ended v (neg eagain) _ s'))
      ]

  pub mmio_finish-Ended :
      (v : View) (a : Args) (ptr : ℕ) (w : Waited) (t : Trace Call) {r : ℤ}
      → Shows start size t v
      → (w ≡ Waited.interrupted → v.job.is_i ≡ true)
      → (mmio_finish (space start size) v.job ptr w env t).0.result ≡ some r
      → Ended start size v (Pc.mmio_running a) (mmio_finish (space start size) v.job ptr w env t)
  unfolding mmio_finish last_copy operations given returned
  mmio_finish-Ended v a ptr Waited.waiting t s i e = absurd (ground arith)
  mmio_finish-Ended v a ptr Waited.interrupted t s i e =
      first_step (Move.mmio_interrupted (i refl)) (out_up-Ended v (neg erestartsys) t s)
  mmio_finish-Ended v a ptr Waited.ready t s i e =
      let c = Call.memcpy_fromio (space start size).r1.start v.job.len in
      let bytes : List ℕ = (env t c).bytes in
      let s' : Shows start size (event c (env t c) ∷ t) (with_job v (fill v.job bytes)) = record {
        area = s.area;
        ran = s.ran;
        taken = s.taken;
        freed = s.freed;
      } in
      when-Ended v.job.is_not_mm _ _
        (λ b e.
          first_step (Move.mmio_fetch bytes b)
            (copy_back-Ended (with_job v (fill v.job bytes)) a ptr _ s'))
        (λ b e. first_step (Move.mmio_done b) (out_up-Ended v (pos 0) t s)) e

  pub dma_finish-Ended :
      (v : View) (a : Args) (ptr handle : ℕ) (w : Waited) (t : Trace Call) {r : ℤ}
      → Shows start size t v
      → (w ≡ Waited.interrupted → v.job.is_i ≡ true)
      → (dma_finish v.job ptr handle w env t).0.result ≡ some r
      → Ended start size v (Pc.dma_running a) (dma_finish v.job ptr handle w env t)
  unfolding dma_finish last_copy operations given returned
  dma_finish-Ended v a ptr handle Waited.waiting t s i e = absurd (ground arith)
  dma_finish-Ended v a ptr handle Waited.interrupted t s i e =
      first_step (Move.dma_interrupted (i refl)) (out_up-Ended v (neg erestartsys) t s)
  dma_finish-Ended v a ptr handle Waited.ready t s i e =
      let c = Call.dma_unmap_single handle v.job.len in
      let bytes : List ℕ = (env t c).bytes in
      let s' : Shows start size (event c (env t c) ∷ t) (with_job v (fill v.job bytes)) = record {
        area = s.area;
        ran = s.ran;
        taken = s.taken;
        freed = s.freed;
      } in
      first_step (Move.dma_unmap bytes) (copy_back-Ended (with_job v (fill v.job bytes)) a ptr _ s')
