-- ===== src/Testcases/Programs.antt =====
-- The `main` of each test program, and the script of each of its processes.
use Prim.Native.String.{String}
use cryptodev.Prelude.{ℕ, ◌==◌, ltb, ℤ, pos, negsuc, Bool, false, none, some, [], ◌∷◌}
use cryptodev.Effects.{call, run, pure, int_of, ◌>>=◌, ◌>>◌, when◌then◌else◌}
use cryptodev.Crypter.Syscalls.{Syscall, SysIo, set, unset, create_handle}
use cryptodev.Crypter.Settings.{ConfigType, set_key}
use cryptodev.Testcases.{Script, is_error, configure, there_and_back, branch}

-- test1.c
unfoldable pub test1 : Script
test1 = record {
  msg = "Hello CS730! This is Vishal";
  a = 30;
  b = 17;
  config = (ConfigType.dmas, set) ∷ (ConfigType.interrupts, set) ∷ [];
  opened = some "userland: cdev: %d\n";
  entered = none;
  original = none;
  encrypted = "Encrypted Text: %s\n";
  decrypted = "Decrypted Text: %s\n";
  no_handle = "Unable to create handle for device\n";
  no_key = "Unable to set key\n";
}

-- The order of the lines differs from that of the other programs.
unfoldable pub test1_main : (op_text : ℕ) → SysIo (Unit {0})
test1_main op_text = do
  size ← call (Syscall.strlen test1.msg)
  run (Syscall.strcpy op_text test1.msg)
  cdev ← create_handle
  run (Syscall.printf_int "userland: cdev: %d\n" cdev)
  when is_error cdev then run (Syscall.printf test1.no_handle) else (do
    key ← set_key cdev test1.a test1.b
    when is_error key then run (Syscall.printf test1.no_key) else (do
      run (Syscall.printf_size "set_key successfull, size of text: %lu\n" size.value)
      configure cdev test1.config
      there_and_back test1 cdev op_text size.value))

-- test2.c: neither process asks for a configuration.
unfoldable pub test2_child : Script
test2_child = record {
  msg = "Hello little CS730!";
  a = 30;
  b = 17;
  config = [];
  opened = some "[child]: %d\n";
  entered = some "[child]: Entered\n";
  original = some "[child]: Original Text: %s\n";
  encrypted = "[child]: Encrypted Text: %s\n";
  decrypted = "[child]: Decrypted Text: %s\n";
  no_handle = "[child]: Unable to create handle for device\n";
  no_key = "[child]: Unable to set key\n";
}

-- The last line of the parent says "Encrypted", as in the source.
unfoldable pub test2_parent : Script
test2_parent = record {
  msg = "Hello CS730!";
  a = 30;
  b = 17;
  config = [];
  opened = some "[parent]: %d\n";
  entered = none;
  original = some "[parent]: Original Text: %s\n";
  encrypted = "[parent]: Encrypted Text: %s\n";
  decrypted = "[parent]: Encrypted Text: %s\n";
  no_handle = "[parent]: Unable to create handle for device\n";
  no_key = "[parent]: Unable to set key\n";
}

-- test3.c: different keys.
unfoldable pub test3_child : Script
test3_child = record {
  msg = "Hello little CS730!";
  a = 40;
  b = 15;
  config = (ConfigType.dmas, set) ∷ (ConfigType.interrupts, set) ∷ [];
  opened = none;
  entered = some "[child]: Entered\n";
  original = some "[child]: Original Text: %s\n";
  encrypted = "[child]: Encrypted Text: %s\n";
  decrypted = "[child]: Decrypted Text: %s\n";
  no_handle = "[child]: Unable to create handle for device\n";
  no_key = "[child]: Unable to set key\n";
}

-- The parent of test3.c.
unfoldable pub test3_parent : Script
test3_parent = record {
  msg = "Hello CS730!";
  a = 30;
  b = 17;
  config = (ConfigType.dmas, set) ∷ (ConfigType.interrupts, unset) ∷ [];
  opened = none;
  entered = none;
  original = some "[parent]: Original Text: %s\n";
  encrypted = "[parent]: Encrypted Text: %s\n";
  decrypted = "[parent]: Decrypted Text: %s\n";
  no_handle = "[parent]: Unable to create handle for device\n";
  no_key = "[parent]: Unable to set key\n";
}

-- `x == 0` and `x > 0` on an `int`.
abbrev pub is_zero_int : ℤ → Bool
is_zero_int (pos n) = n == 0
is_zero_int (negsuc n) = false

abbrev pub is_positive : ℤ → Bool
is_positive (pos n) = ltb 0 n
is_positive (negsuc n) = false

-- `main` of test2.c and test3.c: a child and a parent, each with an array `op_text` of its own.
unfoldable pub two_processes : String → Script → Script → (child parent : ℕ) → SysIo (Unit {0})
two_processes title child_script parent_script child parent = do
  run (Syscall.printf title)
  f ← call Syscall.fork
  when is_zero_int (int_of f)
      then (do branch child_script child; pure tt)
      else (do branch parent_script parent; pure tt)

unfoldable pub test2_main : (child parent : ℕ) → SysIo (Unit {0})
test2_main = two_processes "1 parent and 1 child - both use same key\n" test2_child test2_parent

unfoldable pub test3_main : (child parent : ℕ) → SysIo (Unit {0})
test3_main =
    two_processes "1 parent and 1 child - both use different key\n" test3_child test3_parent
