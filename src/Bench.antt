-- ===== src/Bench.antt =====
-- The benchmarks bechmark-test/dma.c, dma_interrupt.c, mmio.c and mmio_interrupt.c, which differ in
-- the configuration. They encrypt and decrypt a file, mapped privately, in chunks of 4096 bytes.
pub mod Laws
pub mod Configs
pub mod Mapped
pub mod FileCreate
pub mod Restored
mod Tests
use cryptodev.Prelude.{
  ℕ, zero, suc, ◌+◌, ◌-◌, ◌*◌, ◌/◌, ◌%◌, ◌^◌, ℤ, pos, negsuc, is_negative, Bool, true, false,
  Option, none, some, ◌==◌,
}
use cryptodev.Effects.{call, run, pure, is_zero, int_of, ◌>>=◌, ◌>>◌, when◌then◌else◌}
use cryptodev.Crypter.Syscalls.{Syscall, SysIo, set, unset, create_handle, close_handle}
use cryptodev.Crypter.Settings.{ConfigType, set_key, set_config}
use cryptodev.Crypter.Transfer.{encrypt, decrypt}

-- An `int` as an `unsigned int` and as a `size_t`.
abbrev pub unsigned : ℤ → ℕ
unsigned (pos n) = n % 2 ^ 32
unsigned (negsuc n) = 2 ^ 32 - 1 - n

abbrev pub size_of : ℤ → ℕ
size_of (pos n) = n % 2 ^ 64
size_of (negsuc n) = 2 ^ 64 - 1 - n

-- `cdev == ERROR`, where ERROR is -1
abbrev pub is_error : ℤ → Bool
is_error (pos n) = false
is_error (negsuc n) = n == 0

pub record MappedFile : Type 0 where
  pub file_desc : ℤ
  pub file_size : ℤ
  pub buffer : ℕ

-- None where the program exits. The file is mapped with the size that fstat reports, a `size_t`.
unfoldable pub map_file : SysIo (Option MappedFile)
map_file = do
  f ← call (Syscall.open_file "/dev/shm/in_memory.txt")
  let fd = int_of f
  when is_negative fd
      then (do run (Syscall.printf "Error Occured while opening the file \n"); pure none)
      else (do
        st_size ← call (Syscall.fstat fd)
        b ← call (Syscall.mmap_file fd st_size.value)
        when is_zero b
            then (do run (Syscall.printf "Error while mapping the file\n"); pure none)
            else pure
                (some (record { file_desc = fd; file_size = int_of st_size; buffer = b.value })))

abbrev pub chunk_size : ℕ
chunk_size = 4096

abbrev pub chunk_addr : (buffer chunk : ℕ) → ℕ
chunk_addr buffer chunk = (buffer + chunk * chunk_size % 2 ^ 32) % 2 ^ 64

-- The `for` loop, with as many rounds to go.
unfoldable pub chunks : (rounds chunk : ℕ) → ℤ → (buffer : ℕ) → SysIo (Unit {0})
chunks zero chunk cdev buffer env t = (tt, t)
chunks (suc rounds) chunk cdev buffer env t =
    let t1 = (encrypt cdev (chunk_addr buffer chunk) chunk_size 0 env t).1 in
    let t2 = (decrypt cdev (chunk_addr buffer chunk) chunk_size 0 env t1).1 in
    chunks rounds (suc chunk) cdev buffer env t2

-- `main` from the handle on.
unfoldable pub on_card : (dma interrupt : ℕ) → MappedFile → SysIo (Unit {0})
on_card dma interrupt file = do
  cdev ← create_handle
  when is_error cdev then run (Syscall.printf "Unable to create handle for device\n") else (do
    set_config cdev ConfigType.dmas dma
    set_config cdev ConfigType.interrupts interrupt
    key ← set_key cdev 30 17
    when is_error key then run (Syscall.printf "Unable to set key\n") else (do
      chunks (unsigned file.file_size / chunk_size) 0 cdev file.buffer
      close_handle cdev
      run (Syscall.munmap file.buffer (size_of file.file_size))
      run (Syscall.close file.file_desc)))

unfoldable pub benchmark : (dma interrupt : ℕ) → SysIo (Unit {0})
benchmark dma interrupt = do
  file ← map_file
  elim file [ none ↦ pure tt | some f ↦ on_card dma interrupt f ]

-- `main` of each file.
unfoldable pub dma_main : SysIo (Unit {0})
dma_main = benchmark set unset

unfoldable pub dma_interrupt_main : SysIo (Unit {0})
dma_interrupt_main = benchmark set set

unfoldable pub mmio_main : SysIo (Unit {0})
mmio_main = benchmark unset unset

unfoldable pub mmio_interrupt_main : SysIo (Unit {0})
mmio_interrupt_main = benchmark unset set
