-- ===== src/System.antt =====
-- The library of src/crypter.c on the driver of drivers/cryptocard_mod.c: what the calls that the
-- library makes on an open file do in the driver.
pub mod Chunks
pub mod Write
pub mod Moments
pub mod Settings
pub mod Transfer
pub mod Mapped
pub mod Tests
use cryptodev.Prelude.{
  ℕ, ◌==◌, is_negative, Bool, true, false, if◌then◌else◌, ◌-◌, ◌^◌, ℤ, pos, negsuc, Option, none,
  some, List, [], ◌∷◌,
}
use cryptodev.Effects.{Answer, Env, Trace, answer, int_of}
use cryptodev.Kernel.{Call}
use cryptodev.Driver.Device.{CryptodevData}
use cryptodev.Driver.Open.{File}
use cryptodev.Driver.Tables.{fops}
use cryptodev.Crypter.Syscalls.{Syscall}

-- The open file, and what the driver has called so far.
pub record State : Type 0 where
  pub file : File
  pub trace : Trace Call

-- A result as the machine word that the caller gets.
abbrev pub word_of : ℤ → ℕ
word_of (pos n) = n
word_of (negsuc n) = 2 ^ 64 - 1 - n

-- A kernel that finds these bytes behind the argument of an ioctl.
abbrev pub passing : List ℕ → Env Call → Env Call
passing bytes env t (Call.copy_from_user p n) = record { value = 0; bytes = bytes }
passing bytes env t c = env t c

abbrev same_int : ℤ → ℤ → Bool
same_int (pos n) (pos k) = n == k
same_int (negsuc n) (negsuc k) = n == k
same_int i j = false

-- A write that never returns has no answer; the number here stands for one.
abbrev pub reply : Option ℤ → Answer
reply none = answer 1
reply (some v) = answer (word_of v)

module _ (env : Env Call) (fuel : ℕ) (dev : CryptodevData) (other : Syscall → Answer) where
  -- open, ioctl, write and close of the card's file are the driver's, for one open file at a time;
  -- `other` answers the other calls, and says which number the kernel gives to the open file.
  unfoldable pub serve : Syscall → State → State × Answer
  serve Syscall.open_device s =
      let ((file, v), t) = (fops fuel dev).opens s.file env s.trace in
      (
        record { file = file; trace = t },
        if is_negative v then answer (word_of v) else other Syscall.open_device,
      )
  serve (Syscall.close fd) s =
      let ((file, v), t) = (fops fuel dev).release s.file env s.trace in
      if same_int fd (int_of (other Syscall.open_device))
      then (record { file = file; trace = t }, answer (word_of v))
      else (s, other (Syscall.close fd))
  serve (Syscall.ioctl fd request bytes) s =
      let ((file, v), t) =
        (fops fuel dev).unlocked_ioctl s.file request 0 (passing bytes env) s.trace in
      (record { file = file; trace = t }, answer (word_of v))
  serve (Syscall.write fd addr count) s =
      let ((file, r), t) = (fops fuel dev).writes s.file addr count env s.trace in
      (record { file = file; trace = t }, reply r)
  serve c s = (s, other c)

  -- The state after the calls of a trace.
  unfoldable pub replay : State → Trace Syscall → State
  replay s [] = s
  replay s (e ∷ t) = (serve e.call (replay s t)).0

  -- The system that the library runs on.
  abbrev pub system : State → Env Syscall
  system s t c = (serve c (replay s t)).1
