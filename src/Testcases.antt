-- ===== src/Testcases.antt =====
-- The test programs test-cases/test1.c to test5.c: each process opens the card, sets a key, and
-- encrypts and decrypts a text of its own. Where the text lies in memory is a parameter.
pub mod Programs
pub mod Steps
pub mod Restored
mod Tests
pub mod Forks
pub mod Mapped
use Prim.Native.String.{String}
use cryptodev.Prelude.{
  ℕ, ℤ, pos, negsuc, ◌==◌, ltb, Bool, true, false, ◌&&◌, Option, none, some, List, [], ◌∷◌,
}
use cryptodev.Effects.{call, run, pure, int_of, ◌>>=◌, ◌>>◌, when◌then◌else◌}
use cryptodev.Crypter.Syscalls.{Syscall, SysIo, set, unset, create_handle, close_handle}
use cryptodev.Crypter.Settings.{ConfigType, set_key, set_config}
use cryptodev.Crypter.Transfer.{encrypt, decrypt}

-- What one process does: its text, its key, the configuration that it asks for in that order, and
-- the lines that it prints; none where a process has no such line.
pub record Script : Type 0 where
  pub msg : String
  pub a : ℕ
  pub b : ℕ
  pub config : List (ConfigType × ℕ)
  pub opened : Option String
  pub entered : Option String
  pub original : Option String
  pub encrypted : String
  pub decrypted : String
  pub no_handle : String
  pub no_key : String

-- `cdev == ERROR`, where ERROR is -1
abbrev pub is_error : ℤ → Bool
is_error (pos n) = false
is_error (negsuc n) = n == 0

abbrev pub say_int : Option String → ℤ → SysIo (Unit {0})
say_int none n = pure tt
say_int (some l) n = run (Syscall.printf_int l n)

abbrev pub say_msg : Option String → String → SysIo (Unit {0})
say_msg none msg = pure tt
say_msg (some l) msg = run (Syscall.printf_msg l msg)

abbrev pub say : Option String → SysIo (Unit {0})
say none = pure tt
say (some l) = run (Syscall.printf l)

unfoldable pub configure : ℤ → List (ConfigType × ℕ) → SysIo (Unit {0})
configure cdev [] env t = (tt, t)
configure cdev ((type, value) ∷ rest) env t =
    configure cdev rest env (set_config cdev type value env t).1

-- From the first encryption on.
unfoldable pub there_and_back : Script → ℤ → (op_text size : ℕ) → SysIo (Unit {0})
there_and_back script cdev op_text size = do
  encrypt cdev op_text size 0
  run (Syscall.printf_text script.encrypted op_text)
  decrypt cdev op_text size 0
  run (Syscall.printf_text script.decrypted op_text)
  close_handle cdev

-- From the handle on. The result says whether the process came so far, or called exit(0).
unfoldable pub session : Script → (op_text size : ℕ) → SysIo Bool
session script op_text size = do
  cdev ← create_handle
  when is_error cdev then (do run (Syscall.printf script.no_handle); pure false) else (do
    say_int script.opened cdev
    key ← set_key cdev script.a script.b
    when is_error key then (do run (Syscall.printf script.no_key); pure false) else (do
      configure cdev script.config
      say_msg script.original script.msg
      say script.entered
      there_and_back script cdev op_text size
      pure true))

-- One branch of a `main`.
unfoldable pub branch : Script → (op_text : ℕ) → SysIo Bool
branch script op_text = do
  size ← call (Syscall.strlen script.msg)
  run (Syscall.strcpy op_text script.msg)
  session script op_text size.value
