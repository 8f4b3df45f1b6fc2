-- ===== src/Driver/Ioctl.antt =====
-- `pci_unlocked_ioctl` of drivers/cryptocard_mod.c.
pub mod Laws
use cryptodev.Prelude.{
  ℕ, ◌+◌, ◌*◌, ◌%◌, ℤ, pos, neg, true, false, Option, none, some, List, [], ◌∷◌, ◌==◌,
  if◌then◌else◌,
}
use cryptodev.Effects.{call, pure, is_zero, ◌>>=◌, when◌then◌else◌}
use cryptodev.Kernel.{Call, KernelIo}
use cryptodev.Kernel.Errno.{enomem, eagain, einval}
use cryptodev.Driver.Device.{
  Job, Request, set_key___, set_config, set_encryp, set_mmap__, other, interrupt, nointerrupt, mmio,
  dma, encrypt, decrypt, mmap, unmmap,
}
use cryptodev.Driver.Open.{File}

-- The byte at the front of a copied buffer, `uint8_t myval`.
abbrev pub u8_at : List ℕ → ℕ
u8_at [] = 0
u8_at (b ∷ bs) = b % 256

abbrev rest : List ℕ → List ℕ
rest [] = []
rest (b ∷ bs) = bs

-- Four bytes as the little-endian number that they are in the memory of a `u32`.
abbrev pub u32_at : List ℕ → ℕ
u32_at bs =
    u8_at bs
    + 256 * u8_at (rest bs)
    + 65536 * u8_at (rest (rest bs))
    + 16777216 * u8_at (rest (rest (rest bs)))

-- The `if` ladders over `myval`: the new job, or none where the ioctl returns -EINVAL.
config : ℕ → Job → Option Job
config myval job =
    if myval == dma
    then some (record job { is_m = false })
    else if myval == mmio
    then some (record job { is_m = true })
    else if myval == interrupt
    then some (record job { is_i = true })
    else if myval == nointerrupt
    then some (record job { is_i = false })
    else none

encryp : ℕ → Job → Option Job
encryp myval job =
    if myval == encrypt
    then some (record job { is_e = true })
    else if myval == decrypt
    then some (record job { is_e = false })
    else none

mapped : ℕ → Job → Option Job
mapped myval job =
    if myval == mmap
    then some (record job { is_not_mm = false })
    else if myval == unmmap
    then some (record job { is_not_mm = true })
    else none

-- A case of the switch that copies one byte.
abbrev set_byte : (ℕ → Job → Option Job) → ℕ → Job → KernelIo (Job × ℤ)
set_byte ladder arg job = do
  a ← call (Call.copy_from_user arg 1)
  when is_zero a
      then elim (ladder (u8_at a.bytes) job) [
        | none ↦ pure (job, neg einval)
        | some job' ↦ pure (job', pos 0)
      ]
      else pure (job, neg eagain)

-- The switch, on the job of the file. A failed copy of the key has written the bytes it got.
unfoldable pub job_ioctl : Request → ℕ → Job → KernelIo (Job × ℤ)
unfolding config encryp mapped
job_ioctl set_key___ arg job = do
  a ← call (Call.copy_from_user arg 4)
  let job' = record job { keyab = u32_at a.bytes }
  when is_zero a then pure (job', pos 0) else pure (job', neg eagain)
job_ioctl set_config arg job = set_byte config arg job
job_ioctl set_encryp arg job = set_byte encryp arg job
job_ioctl set_mmap__ arg job = set_byte mapped arg job
job_ioctl other arg job = pure (job, neg einval)

unfoldable pub pci_unlocked_ioctl : File → Request → ℕ → KernelIo (File × ℤ)
unfolding job_ioctl
pci_unlocked_ioctl file cmd arg = elim file.private_data [
  | none ↦ pure (file, neg enomem)
  | some myjob ↦ do
    (job', r) ← job_ioctl cmd arg myjob
    pure (record file { private_data = some job' }, r)
]
