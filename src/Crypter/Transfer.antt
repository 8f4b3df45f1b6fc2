-- ===== src/Crypter/Transfer.antt =====
-- `encrypt` and `decrypt` of src/crypter.c.
pub mod Tiling
use cryptodev.Prelude.{
  ℕ, zero, suc, ◌+◌, ◌-◌, ◌/◌, ◌%◌, ◌^◌, ℤ, pos, Bool, true, false, Option, none, some, [], ◌∷◌,
  ltb, ◌==◌, if◌then◌else◌,
}
use cryptodev.Effects.{call, pure, ◌>>=◌, when◌then◌else◌}
use cryptodev.Driver.Device.{
  Request, encrypt as encrypt_byte, decrypt as decrypt_byte, mmap, unmmap, buffersize,
}
use cryptodev.Crypter.Syscalls.{Syscall, SysIo, failed, failed_long, error}

abbrev pub count_of : ℕ → ℕ
count_of length = if ltb buffersize length then buffersize else length

abbrev pub rest_of : ℕ → ℕ
rest_of length = if ltb buffersize length then length - buffersize else 0

-- The `do … while` loop. A round takes one unit of fuel; none if it runs out.
unfoldable pub write_chunks : ℕ → ℤ → (addr length : ℕ) → SysIo (Option ℤ)
write_chunks zero cdev addr length env t = (none, t)
write_chunks (suc fuel) cdev addr length env t =
    let count = count_of length in
    let (w, t') = call (Syscall.write cdev addr count) env t in
    elim (failed_long w) [
      | true ↦ (some error, t')
      | false ↦ elim (ltb 0 (rest_of length)) [
        | true ↦ write_chunks fuel cdev ((addr + count) % 2 ^ 64) (rest_of length) env t'
        | false ↦ (some (pos (rest_of length)), t')
      ]
    ]

-- Both functions, with the byte for the direction. `is_mapped` is a `uint8_t`.
unfoldable pub transfer : (direction : ℕ) → ℤ → (addr length is_mapped : ℕ) → SysIo (Option ℤ)
transfer direction cdev addr length is_mapped = do
  e ← call (Syscall.ioctl cdev Request.set_encryp (direction ∷ []))
  when failed e then pure (some error) else (do
    let value = if is_mapped == 0 then unmmap else mmap
    m ← call (Syscall.ioctl cdev Request.set_mmap__ (value ∷ []))
    when failed m
        then pure (some error)
        else write_chunks (length / buffersize + 1) cdev addr length)

unfoldable pub encrypt : ℤ → (addr length is_mapped : ℕ) → SysIo (Option ℤ)
unfolding transfer
encrypt = transfer encrypt_byte

unfoldable pub decrypt : ℤ → (addr length is_mapped : ℕ) → SysIo (Option ℤ)
unfolding transfer
decrypt = transfer decrypt_byte
