-- ===== src/Testcases/Mapped.antt =====
-- The program mmap.c: as test-cases/test1.c, by MMIO on the card's mapped memory.
use cryptodev.Prelude.{ℕ, ◌+◌, ◌%◌, ◌^◌, ◌==◌, ℤ, none, some, [], ◌∷◌}
use cryptodev.Effects.{call, run, ◌>>=◌, ◌>>◌, when◌then◌else◌}
use cryptodev.Crypter.Syscalls.{Syscall, SysIo, set, unset, create_handle, close_handle}
use cryptodev.Crypter.Settings.{ConfigType, set_key}
use cryptodev.Crypter.Mapping.{map_card, unmap_card}
use cryptodev.Crypter.Transfer.{encrypt, decrypt}
use cryptodev.Testcases.{Script, is_error, configure}

unfoldable pub mmap_script : Script
mmap_script = record {
  msg = "Hello CS730! This is Vishal";
  a = 30;
  b = 17;
  config = (ConfigType.dmas, unset) ∷ (ConfigType.interrupts, set) ∷ [];
  opened = some "userland: cdev: %d\n";
  entered = none;
  original = some "Original Text: %s\n";
  encrypted = "Encrypted Text: %s\n";
  decrypted = "Decrypted Text: %s\n";
  no_handle = "Unable to create handle for device\n";
  no_key = "Unable to set key\n";
}

-- Once `map_card` has returned an address and not NULL.
unfoldable pub on_mapped_text : Script → ℤ → (addr size : ℕ) → SysIo (Unit {0})
on_mapped_text script cdev addr size = do
  run (Syscall.strncpy_msg addr script.msg ((size + 1) % 2 ^ 64))
  encrypt cdev addr size 1
  run (Syscall.printf_text script.encrypted addr)
  decrypt cdev addr size 1
  run (Syscall.printf_text script.decrypted addr)
  unmap_card addr
  close_handle cdev

unfoldable pub mapped_main : (op_text : ℕ) → SysIo (Unit {0})
unfolding mmap_script
mapped_main op_text = do
  size ← call (Syscall.strlen mmap_script.msg)
  run (Syscall.strcpy op_text mmap_script.msg)
  cdev ← create_handle
  run (Syscall.printf_int "userland: cdev: %d\n" cdev)
  when is_error cdev then run (Syscall.printf mmap_script.no_handle) else (do
    key ← set_key cdev mmap_script.a mmap_script.b
    when is_error key then run (Syscall.printf mmap_script.no_key) else (do
      run (Syscall.printf_size "set_key successfull, size of text: %lu\n" size.value)
      configure cdev mmap_script.config
      addr ← map_card cdev size.value
      run (Syscall.printf_msg "Original Text: %s\n" mmap_script.msg)
      when addr == 0
          then run (Syscall.printf "mmapp faild\n")
          else on_mapped_text mmap_script cdev addr size.value))
