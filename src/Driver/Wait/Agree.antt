-- ===== src/Driver/Wait/Agree.antt =====
-- The wait with interrupts against the busy wait.
use cryptodev.Prelude.{ℕ, zero, suc, ◌≡◌, ◌∙◌, refl, sym, ap₂, true, false, [], ◌∷◌, arith}
use cryptodev.Effects.{Answer, Env, Trace, event, call}
use cryptodev.Kernel.{Call}
use cryptodev.Driver.Wait.{Waited, busy_wait, event_wait, wait_for}

-- A trace without the sleeps.
unfoldable pub awake : Trace Call → Trace Call
awake [] = []
awake (e ∷ t) = elim e.call [ Call.wait_event ↦ awake t | _ ↦ e ∷ awake t ]

-- Answers that do not depend on the sleeps, none of which a signal ends.
pub record Undisturbed (env : Env Call) : Type 0 where
  pub same : (t t' : Trace Call) (c : Call) → awake t ≡ awake t' → env t c ≡ env t' c
  pub waits : (t : Trace Call) → (env t Call.wait_event).value ≡ 0

-- The same end, and the same trace but for the sleeps.
abbrev pub Agree : Waited × Trace Call → Waited × Trace Call → Type 0
Agree (w, t) (w', t') = (w ≡ w') × (awake t ≡ awake t')

module _ (env : Env Call) (calm : Undisturbed env) where
  module _ (read : Call)
      (sees : (a : Answer) (t : Trace Call)
        → awake (event read a ∷ t) ≡ event read a ∷ awake t) where
    agree :
        (fuel : ℕ) (t t' : Trace Call)
        → awake t ≡ awake t'
        → Agree (event_wait fuel read env t) (busy_wait fuel read env t')
    unfolding event_wait busy_wait awake
    agree zero t t' e = (refl, e)
    agree (suc fuel) t t' e =
        let a = env t read in
        let a' = env t' read in
        let t1 = event read a ∷ t in
        let t1' = event read a' ∷ t' in
        let t2 = (call Call.wait_event env t1).1 in
        let replies : a ≡ a' = calm.same t t' read e in
        let e1 : awake t1 ≡ awake t1' =
          sees a t ∙ ap₂ (λ (x : Answer) y. event read x ∷ y) replies e ∙ sym (sees a' t') in
        ground (arith, calm.waits t1, agree fuel t2 t1' e1, e1, replies)

  -- If no signal arrives and what the card shows does not depend on how often the thread has slept,
  -- then `wait_event_interruptible` and the busy loop, given the same rounds, end in the same way, and
  -- make the same reads of the register, for `status` and for `cmd`.
  pub waits-Agree :
      (fuel a : ℕ) (t : Trace Call)
      → let on_status = Call.ioread8 a in
        let on_cmd = Call.readq a in
        Agree (wait_for true fuel on_status env t) (wait_for false fuel on_status env t)
        × Agree (wait_for true fuel on_cmd env t) (wait_for false fuel on_cmd env t)
  unfolding awake
  waits-Agree fuel a t = (
    agree (Call.ioread8 a) (λ _ _. refl) fuel t t refl,
    agree (Call.readq a) (λ _ _. refl) fuel t t refl,
  )
