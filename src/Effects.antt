-- ===== src/Effects.antt =====
-- Code that calls something outside the repository (the kernel, the C library, the card): every
-- call is an event of a trace, and the other side is a function from the trace so far and the
-- call to the answer. Nothing is assumed of that function but what a theorem names.
use cryptodev.Prelude.{
  leb, ℕ, ◌-◌, ◌%◌, ◌^◌, ℤ, pos, negsuc, ltb, if◌then◌else◌, ◌==◌, Bool, true, false, List, [], ◌∷◌,
}

-- What a call gives back: a number (a pointer, an error count, a register) and the bytes that it
-- puts into memory.
pub record Answer : Type 0 where
  pub value : ℕ
  pub bytes : List ℕ

abbrev pub answer : ℕ → Answer
answer n = record { value = n; bytes = [] }

pub record Event (C : Type 0) : Type 0 where
  pub call : C
  pub reply : Answer

-- The events so far, the latest first.
abbrev pub Trace : Type 0 → Type 0
Trace C = List (Event C)

abbrev pub Env : Type 0 → Type 0
Env C = Trace C → C → Answer

abbrev pub Io : Type 0 → Type 0 → Type 0
Io C A = Env C → Trace C → A × Trace C

abbrev pub event : {C : Type 0} → C → Answer → Event C
event c a = record { call = c; reply = a }

module _ {C : Type 0} where
  abbrev pub call : C → Io C Answer
  call c env t = let a = env t c in (a, event c a ∷ t)

  -- A call whose answer the code does not look at.
  abbrev pub run : C → Io C (Unit {0})
  run c env t = (tt, event c (env t c) ∷ t)

  abbrev pub pure : {A : Type 0} → A → Io C A
  pure a env t = (a, t)

infixl 5 ◌>>=◌ ◌>>◌
abbrev pub ◌>>=◌ : {C A B : Type 0} → Io C A → (A → Io C B) → Io C B
◌>>=◌ m f env t = let (a, t') = m env t in f a env t'

abbrev pub ◌>>◌ : {C A B : Type 0} → Io C A → Io C B → Io C B
◌>>◌ m k env t = k env (m env t).1

-- The C test `if (!r)` on the number that a call returns.
abbrev pub is_zero : Answer → Bool
is_zero a = a.value == 0

-- A C `int` from the machine word that a call returns.
abbrev pub int_of : Answer → ℤ
int_of a = let w = a.value % 2 ^ 32 in if ltb w (2 ^ 31) then pos w else negsuc (2 ^ 32 - w - 1)

-- `IS_ERR` and `PTR_ERR` of a pointer: the last 4095 addresses are errors.
abbrev pub is_err : Answer → Bool
is_err a = leb (2 ^ 64 - 4095) a.value

abbrev pub ptr_err : Answer → ℤ
ptr_err a = negsuc (2 ^ 64 - 1 - a.value)

-- A conditional action. Its branches run where it does, so a proof can split on the test.
infix 1 when◌then◌else◌
abbrev pub when◌then◌else◌ : {C A : Type 0} → Bool → Io C A → Io C A → Io C A
when◌then◌else◌ b m n env t = elim b [ true ↦ m env t | false ↦ n env t ]
