-- ===== src/Bench/Mapped.antt =====
-- The benchmarks bechmark-test/mmap.c and mmap_interrupt.c: they copy the chunks of the file one
-- after the other into the card's memory, which they have mapped, and encrypt and decrypt there.
pub mod Work
use Prim.Native.String.{String}
use cryptodev.Prelude.{
  ℕ, zero, suc, ◌+◌, ◌/◌, ◌%◌, ◌^◌, ℤ, Bool, true, false, Option, none, some, if◌then◌else◌,
}
use cryptodev.Effects.{call, run, pure, ◌>>=◌, ◌>>◌, when◌then◌else◌}
use cryptodev.Crypter.Syscalls.{Syscall, SysIo, set, unset, create_handle, close_handle}
use cryptodev.Crypter.Settings.{ConfigType, set_key, set_config}
use cryptodev.Crypter.Mapping.{map_card}
use cryptodev.Crypter.Transfer.{encrypt, decrypt}
use cryptodev.Bench.{MappedFile, unsigned, size_of, is_error, map_file, chunk_size, chunk_addr}

-- The characters from `addr` on, one at a time.
unfoldable pub print_chars : (rounds : ℕ) → (addr : ℕ) → SysIo (Unit {0})
print_chars zero addr env t = (tt, t)
print_chars (suc rounds) addr env t =
    let t1 = (run (Syscall.printf_char addr) env t).1 in
    print_chars rounds ((addr + 1) % 2 ^ 64) env t1

unfoldable pub print_chunk : String → (addr : ℕ) → SysIo (Unit {0})
print_chunk title addr = do
  run (Syscall.printf title)
  print_chars chunk_size addr
  run (Syscall.printf "\n")

-- The body of the loop of mmap.c, once the chunk is in the card's memory.
unfoldable pub shown_round : ℤ → (device : ℕ) → SysIo (Unit {0})
shown_round cdev device = do
  encrypt cdev device chunk_size 1
  print_chunk "Encrypt: " device
  decrypt cdev device chunk_size 1
  print_chunk "Decrypt: " device
  encrypt cdev device chunk_size 1
  print_chunk "Encrypt: " device

-- That of mmap_interrupt.c.
unfoldable pub plain_round : ℤ → (device : ℕ) → SysIo (Unit {0})
plain_round cdev device = do
  encrypt cdev device chunk_size 1
  decrypt cdev device chunk_size 1
  pure tt

-- The `for` loop, with as many rounds to go.
unfoldable pub mapped_chunks :
    (shown : Bool) (rounds chunk : ℕ) → ℤ → (buffer device : ℕ) → SysIo (Unit {0})
mapped_chunks shown zero chunk cdev buffer device env t = (tt, t)
mapped_chunks shown (suc rounds) chunk cdev buffer device env t =
    let t1 = (run (Syscall.strncpy device (chunk_addr buffer chunk) chunk_size) env t).1 in
    let t2 = ((when shown then shown_round cdev device else plain_round cdev device) env t1).1 in
    mapped_chunks shown rounds (suc chunk) cdev buffer device env t2

-- `main` from the handle on.
unfoldable pub on_mapped_card : (shown : Bool) → (interrupt : ℕ) → MappedFile → SysIo (Unit {0})
on_mapped_card shown interrupt file = do
  cdev ← create_handle
  when is_error cdev then run (Syscall.printf "Unable to create handle for device\n") else (do
    set_config cdev ConfigType.dmas unset
    set_config cdev ConfigType.interrupts interrupt
    key ← set_key cdev 30 17
    when is_error key then run (Syscall.printf "Unable to set key\n") else (do
      device ← map_card cdev chunk_size
      mapped_chunks shown (unsigned file.file_size / chunk_size) 0 cdev file.buffer device
      close_handle cdev
      run (Syscall.munmap file.buffer (size_of file.file_size))
      run (Syscall.close file.file_desc)))

unfoldable pub mapped_benchmark : (shown : Bool) → (interrupt : ℕ) → SysIo (Unit {0})
mapped_benchmark shown interrupt = do
  file ← map_file
  elim file [ none ↦ pure tt | some f ↦ on_mapped_card shown interrupt f ]

-- `main` of each file.
unfoldable pub mmap_main : SysIo (Unit {0})
mmap_main = mapped_benchmark true unset

unfoldable pub mmap_interrupt_main : SysIo (Unit {0})
mmap_interrupt_main = mapped_benchmark false set
