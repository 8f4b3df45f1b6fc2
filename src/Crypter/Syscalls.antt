-- ===== src/Crypter/Syscalls.antt =====
-- What the library calls of the operating system, its error value, and the handle of the device.
use Prim.Native.String.{String}
use cryptodev.Prelude.{ℕ, ◌%◌, ◌^◌, ℤ, negsuc, is_negative, not, ◌==◌, Bool, List, if◌then◌else◌}
use cryptodev.Effects.{Io, Answer, int_of, call, run, pure, ◌>>=◌, when◌then◌else◌}
use cryptodev.Driver.Device.{Request}

-- An ioctl passes the bytes behind its pointer argument.
pub data Syscall : Type 0 where
  open_device : Syscall
  close : (fd : ℤ) → Syscall
  ioctl : (fd : ℤ) → Request → (bytes : List ℕ) → Syscall
  write : (fd : ℤ) → (addr count : ℕ) → Syscall
  mmap : (fd : ℤ) → (length : ℕ) → Syscall
  munmap : (addr length : ℕ) → Syscall
  printf : String → Syscall
  -- what the benchmarks call besides: the file that they work on
  open_file : String → Syscall
  fstat : (fd : ℤ) → Syscall
  mmap_file : (fd : ℤ) → (length : ℕ) → Syscall
  -- what the tests and the benchmarks on mapped memory call besides; the texts that printf prints
  -- are given by their address
  fork : Syscall
  strlen : String → Syscall
  strcpy : (dst : ℕ) → String → Syscall
  strncpy : (dst src n : ℕ) → Syscall
  strncpy_msg : (dst : ℕ) → String → (n : ℕ) → Syscall
  printf_int : String → ℤ → Syscall
  printf_size : String → ℕ → Syscall
  printf_msg : String → String → Syscall
  printf_text : String → (addr : ℕ) → Syscall
  printf_char : (addr : ℕ) → Syscall
  fflush : Syscall
  -- what file_create.c calls
  shell : String → Syscall
  sleep : ℕ → Syscall
  fopen : String → Syscall
  fputc : ℕ → Syscall
  fclose : Syscall

abbrev pub SysIo : Type 0 → Type 0
SysIo A = Io Syscall A

-- The C test `if (r)` on the `int` that a call returns, and on the `ssize_t` of `write`.
abbrev pub failed : Answer → Bool
failed a = not (a.value % 2 ^ 32 == 0)

abbrev pub failed_long : Answer → Bool
failed_long a = not (a.value % 2 ^ 64 == 0)

-- `ERROR`
abbrev pub error : ℤ
error = negsuc 0

-- `TRUE` and `FALSE`, `SET` and `UNSET`
abbrev pub set : ℕ
set = 1

abbrev pub unset : ℕ
unset = 0

-- `open("/dev/cryptocard_mod", O_RDWR)`
unfoldable pub create_handle : SysIo ℤ
create_handle = do
  a ← call Syscall.open_device
  let cdev = int_of a
  pure (if is_negative cdev then error else cdev)

unfoldable pub close_handle : ℤ → SysIo (Unit {0})
close_handle cdev = do
  c ← call (Syscall.close cdev)
  when failed c then run (Syscall.printf "close_handle: error while closing\n") else pure tt
