-- ===== src/Driver/Writers/Alone.antt =====
-- A call of `pci_write` as Driver/Write.antt runs it, against the steps of a thread that is alone.
pub mod Ends
pub mod Ways
pub mod Refines
pub mod Tests
use cryptodev.Prelude.{
  ℕ, ◌+◌, ◌≡◌, ◌∙◌, ap, refl, Bool, true, false, Option, none, some, List, [], ◌∷◌, ◌==◌, arith,
  if◌then◌else◌,
}
use cryptodev.Effects.{Env, Trace}
use cryptodev.Kernel.{Call}
use cryptodev.Driver.Device.{ConfigMem, setup_configspace}
use cryptodev.Driver.Card.{Operation, last_copy, operations}
use cryptodev.Driver.Wait.{Waited, wait_for, busy_wait}
use cryptodev.Driver.Wait.Laws.{IsBlind, wait_for-unseen, busy_wait-ne-interrupted}
use cryptodev.Driver.Write.{Written}
use cryptodev.Driver.Writers.{View, Pc, Move}

-- Any number of steps of one thread.
pub data Moves (u : View) (o : Pc) : View → Pc → Type 0 where
  halt : Moves u o u o
  and : {v w : View} {p q : Pc} → Moves u o v p → Move v p w q → Moves u o w q

pub Moves-append :
    {u v : View} {o p : Pc} → Moves u o v p → {w : View} {q : Pc} → Moves v p w q → Moves u o w q
Moves-append a halt = a
Moves-append a (and b m) = and (Moves-append a b) m

-- A step before others.
pub after : {u v w : View} {o p q : Pc} → Move u o v p → Moves v p w q → Moves u o w q
after m b = Moves-append (and halt m) b

-- The addresses that vmalloc gave and that vfree got, the latest first.
unfoldable pub given : Trace Call → List ℕ
given [] = []
given (e ∷ t) = elim e.call [
  | Call.vmalloc n ↦ if e.reply.value == 0 then given t else e.reply.value ∷ given t
  | _ ↦ given t
]

unfoldable pub returned : Trace Call → List ℕ
returned [] = []
returned (e ∷ t) = elim e.call [ Call.vfree p ↦ p ∷ returned t | _ ↦ returned t ]

abbrev pub latest : List Operation → Option Operation
latest [] = none
latest (o ∷ os) = some o

module _ (start size : ℕ) where
  abbrev pub space : ConfigMem
  space = setup_configspace start size

  -- What a thread sees is what the calls so far have made.
  pub record Shows (t : Trace Call) (v : View) : Type 0 where
    pub area : last_copy (start + 0xA8) t ≡ some v.card.copied
    pub ran : latest (operations space t) ≡ v.card.last_start
    pub taken : given t ≡ v.allocated
    pub freed : returned t ≡ v.freed

  -- A run of code from where a thread stands, as steps of it to the end of the call.
  pub record Ended (v : View) (p : Pc) (r : Written × Trace Call) : Type 0 where
    pub last : View
    pub moves : Moves v p last Pc.idle
    pub job : last.job ≡ r.0.job
    pub shows : Shows r.1 last

  module _ (env : Env Call) (is_i : Bool) (fuel : ℕ) {t : Trace Call} {v : View} where
    quiet-Shows :
        (read : Call)
        → IsBlind (last_copy (start + 0xA8)) read
        → IsBlind (operations space) read
        → IsBlind given read
        → IsBlind returned read
        → Shows t v
        → Shows (wait_for is_i fuel read env t).1 v
    unfolding last_copy operations given returned
    quiet-Shows read a b c d s = record {
      area = wait_for-unseen env read _ a (λ _ _. refl) is_i fuel t ∙ s.area;
      ran = ap latest (wait_for-unseen env read _ b (λ _ _. refl) is_i fuel t) ∙ s.ran;
      taken = wait_for-unseen env read _ c (λ _ _. refl) is_i fuel t ∙ s.taken;
      freed = wait_for-unseen env read _ d (λ _ _. refl) is_i fuel t ∙ s.freed;
    }

    -- A wait changes nothing that a thread sees.
    pub wait_status-Shows :
        (a : ℕ) → Shows t v → Shows (wait_for is_i fuel (Call.ioread8 a) env t).1 v
    unfolding last_copy operations given returned
    wait_status-Shows a =
        quiet-Shows (Call.ioread8 a) (λ _ _. refl) (λ _ _. refl) (λ _ _. refl) (λ _ _. refl)

    pub wait_cmd-Shows : (a : ℕ) → Shows t v → Shows (wait_for is_i fuel (Call.readq a) env t).1 v
    unfolding last_copy operations given returned
    wait_cmd-Shows a =
        quiet-Shows (Call.readq a) (λ _ _. refl) (λ _ _. refl) (λ _ _. refl) (λ _ _. refl)

-- Only a job with interrupts is interrupted in its wait.
pub interrupted_with_irq :
    (env : Env Call) (is_i : Bool) (fuel : ℕ) (read : Call) (t : Trace Call)
    → (wait_for is_i fuel read env t).0 ≡ Waited.interrupted
    → is_i ≡ true
interrupted_with_irq env true fuel read t e = refl
interrupted_with_irq env false fuel read t e = absurd (busy_wait-ne-interrupted env read fuel t e)
