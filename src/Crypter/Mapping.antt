-- ===== src/Crypter/Mapping.antt =====
-- `map_card` and `unmap_card` of src/crypter.c.
pub mod Laws
use cryptodev.Prelude.{ℕ, ◌+◌, ◌-◌, ◌*◌, ◌%◌, ◌^◌, ℤ, ltb}
use cryptodev.Effects.{call, run, pure, is_zero, ◌>>=◌, ◌>>◌, when◌then◌else◌}
use cryptodev.Crypter.Syscalls.{Syscall, SysIo, failed}

-- The size that is mapped, and where the data begins in it.
abbrev pub card_size : ℕ
card_size = 1024 * 1024

-- The address that is returned; 0 for NULL.
unfoldable pub map_card : ℤ → ℕ → SysIo ℕ
map_card cdev size =
    when ltb card_size size
    then (do run (Syscall.printf "map_card: size exceeds capacity\n"); pure 0)
    else (do
      addr ← call (Syscall.mmap cdev card_size)
      when is_zero addr
          then (do run (Syscall.printf "map_card: mmap failed!!!!\n"); pure 0)
          else pure ((addr.value + 0xA8) % 2 ^ 64))

unfoldable pub unmap_card : ℕ → SysIo (Unit {0})
unmap_card addr = do
  r ← call (Syscall.munmap ((addr + 2 ^ 64 - 0xA8) % 2 ^ 64) card_size)
  when failed r then run (Syscall.printf "unmap_card: munmap failed!!!!\n") else pure tt
