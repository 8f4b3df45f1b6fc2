-- ===== src/Driver/Life.antt =====
-- The life of the driver, by the tables of Driver/Tables.antt: a probe, files that are opened, used and
-- released one after the other, and the removal. The kernel calls the driver in this order.
pub mod Balance
use cryptodev.Prelude.{ℕ, is_negative, Bool, true, false, Option, none, some, List, [], ◌∷◌}
use cryptodev.Effects.{pure, ◌>>=◌, when◌then◌else◌}
use cryptodev.Kernel.{KernelIo}
use cryptodev.Driver.Device.{Request, PciDev, CryptodevData}
use cryptodev.Driver.Open.{File}
use cryptodev.Driver.Irq.{VmArea}
use cryptodev.Driver.Tables.{fops, cryptocard_mod}

-- A call on an open file.
pub data FileCall : Type 0 where
  ioctl : Request → (arg : ℕ) → FileCall
  write : (ptr size : ℕ) → FileCall
  mmap : VmArea → FileCall

module _ (fuel : ℕ) (my : CryptodevData) where
  -- The file after a call, none if the call does not return.
  pub make_call : FileCall → File → KernelIo (Option File)
  make_call (FileCall.ioctl request arg) file = do
    (file', v) ← (fops fuel my).unlocked_ioctl file request arg
    pure (some file')
  make_call (FileCall.write ptr size) file = do
    (file', r) ← (fops fuel my).writes file ptr size
    elim r [ none ↦ pure none | some v ↦ pure (some file') ]
  make_call (FileCall.mmap area) file = do (area', v) ← (fops fuel my).mmap area; pure (some file)

  pub make_calls : List FileCall → File → KernelIo (Option File)
  make_calls [] file = pure (some file)
  make_calls (c ∷ cs) file = do
    r ← make_call c file
    elim r [ none ↦ pure none | some file' ↦ make_calls cs file' ]

  -- Whether all calls return. A file that cannot be opened is not used.
  pub use_file : List FileCall → File → KernelIo Bool
  use_file cs file = do
    (opened, v) ← (fops fuel my).opens file
    when is_negative v then pure true else (do
      r ← make_calls cs opened
      elim r [
        | none ↦ pure false
        | some used ↦ do (released, v') ← (fops fuel my).release used; pure true
      ])

  pub use_files : List (List FileCall) → File → KernelIo Bool
  use_files [] file = pure true
  use_files (cs ∷ css) file = do
    ended ← use_file cs file
    when ended then use_files css file else pure false

-- A probe that fails ends the life of the driver. `file` is what the kernel passes to each opening.
pub life :
    (fuel sizeof_cdev : ℕ) → PciDev → CryptodevData → List (List FileCall) → File → KernelIo Bool
life fuel sizeof_cdev dev my css file = do
  (my', v) ← (cryptocard_mod sizeof_cdev).probe dev my
  when is_negative v then pure true else (do
    ended ← use_files fuel my' css file
    when ended
        then (do my'' ← (cryptocard_mod sizeof_cdev).removes dev my'; pure true)
        else pure false)
