-- ===== src/Driver/Wait/Laws.antt =====
-- The calls that the waits of `pci_write` make.
use cryptodev.Prelude.{ℕ, zero, suc, ◌≡◌, ◌≢◌, refl, Bool, true, false, ◌∷◌, arith}
use cryptodev.Effects.{Answer, Env, Trace, event}
use cryptodev.Kernel.{Call}
use cryptodev.Driver.Wait.{Waited, busy_wait, event_wait, wait_for}

-- A view of traces that does not see a call.
abbrev pub IsBlind {ℓ} : {X : Type ℓ} → (Trace Call → X) → Call → Type ℓ
IsBlind see c = (a : Answer) (t : Trace Call) → see (event c a ∷ t) ≡ see t

module _ {ℓ} {X : Type ℓ} (env : Env Call) (read : Call) (see : Trace Call → X)
    (reads : IsBlind see read) (waits : IsBlind see Call.wait_event) where
  busy_wait-unseen : (fuel : ℕ) (t : Trace Call) → see (busy_wait fuel read env t).1 ≡ see t
  unfolding busy_wait
  busy_wait-unseen zero t = refl
  busy_wait-unseen (suc fuel) t = grind (arith, reads, busy_wait-unseen fuel)

  event_wait-unseen : (fuel : ℕ) (t : Trace Call) → see (event_wait fuel read env t).1 ≡ see t
  unfolding event_wait
  event_wait-unseen zero t = refl
  event_wait-unseen (suc fuel) t = grind (arith, reads, waits, event_wait-unseen fuel)

  -- What sees neither the read nor the sleep sees nothing of a wait.
  pub wait_for-unseen :
      (is_i : Bool) (fuel : ℕ) (t : Trace Call) → see (wait_for is_i fuel read env t).1 ≡ see t
  wait_for-unseen true = event_wait-unseen
  wait_for-unseen false = busy_wait-unseen

-- Only a signal interrupts, and a busy loop sees none.
pub busy_wait-ne-interrupted :
    (env : Env Call) (read : Call) (fuel : ℕ) (t : Trace Call)
    → (busy_wait fuel read env t).0 ≢ Waited.interrupted
unfolding busy_wait
busy_wait-ne-interrupted env read zero t = ground arith
busy_wait-ne-interrupted env read (suc fuel) t =
    grind (arith, busy_wait-ne-interrupted env read fuel)

-- No signal ends a sleep for the card.
pub record Unsignalled (env : Env Call) : Type 0 where
  pub waits : (t : Trace Call) → (env t Call.wait_event).value ≡ 0
