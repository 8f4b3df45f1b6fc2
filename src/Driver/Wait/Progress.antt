-- ===== src/Driver/Wait/Progress.antt =====
-- The waits of `pci_write`, with a card that finishes.
use cryptodev.Prelude.{ℕ, zero, suc, ◌+◌, ◌≤◌, ◌<◌, ◌≡◌, ◌≢◌, Bool, true, false, [], ◌∷◌, arith}
use cryptodev.Effects.{Env, Trace}
use cryptodev.Kernel.{Call}
use cryptodev.Driver.Wait.{Waited, is_busy, busy_wait, event_wait, wait_for}

-- How often a register was read since the card was last written to.
unfoldable pub polls : Trace Call → ℕ
polls [] = 0
polls (e ∷ t) = elim e.call [
  | Call.ioread8 a ↦ suc (polls t)
  | Call.readq a ↦ suc (polls t)
  | Call.wait_event ↦ polls t
  | _ ↦ 0
]

-- The card shows its busy bit in at most `k` reads of `status` or `cmd` after the last write to it.
pub record Completes (env : Env Call) (k : ℕ) : Type 0 where
  pub status_clears :
      (t : Trace Call) (a : ℕ) → k ≤ polls t → is_busy (env t (Call.ioread8 a)) ≡ false
  pub cmd_clears : (t : Trace Call) (a : ℕ) → k ≤ polls t → is_busy (env t (Call.readq a)) ≡ false

module _ (env : Env Call) (k : ℕ) (done : Completes env k) (a : ℕ) where
  pub wait_status-ne-waiting :
      (is_i : Bool) (fuel : ℕ) (t : Trace Call)
      → k < polls t + fuel
      → 0 < fuel
      → (wait_for is_i fuel (Call.ioread8 a) env t).0 ≢ Waited.waiting
  unfolding busy_wait event_wait polls
  wait_status-ne-waiting is_i zero t h p = elim p [ ]
  wait_status-ne-waiting true (suc fuel) t h p =
      grind (arith, done.status_clears t a, wait_status-ne-waiting true fuel)
  wait_status-ne-waiting false (suc fuel) t h p =
      grind (arith, done.status_clears t a, wait_status-ne-waiting false fuel)

  pub wait_cmd-ne-waiting :
      (is_i : Bool) (fuel : ℕ) (t : Trace Call)
      → k < polls t + fuel
      → 0 < fuel
      → (wait_for is_i fuel (Call.readq a) env t).0 ≢ Waited.waiting
  unfolding busy_wait event_wait polls
  wait_cmd-ne-waiting is_i zero t h p = elim p [ ]
  wait_cmd-ne-waiting true (suc fuel) t h p =
      grind (arith, done.cmd_clears t a, wait_cmd-ne-waiting true fuel)
  wait_cmd-ne-waiting false (suc fuel) t h p =
      grind (arith, done.cmd_clears t a, wait_cmd-ne-waiting false fuel)
