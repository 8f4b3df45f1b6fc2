-- ===== src/Testcases/Forks.antt =====
-- The `main` of test4.c and test5.c: two calls of fork make four processes.
use Prim.Native.String.{String}
use cryptodev.Prelude.{ℕ, Bool, ◌&&◌, none, some, [], ◌∷◌, ℤ, if◌then◌else◌}
use cryptodev.Effects.{call, run, pure, int_of, ◌>>=◌, ◌>>◌, when◌then◌else◌}
use cryptodev.Crypter.Syscalls.{Syscall, SysIo, set, unset}
use cryptodev.Crypter.Settings.{ConfigType}
use cryptodev.Testcases.{Script, branch}
use cryptodev.Testcases.Programs.{is_zero_int, is_positive}

-- test4.c, child1
unfoldable pub test4_child1 : Script
test4_child1 = record {
  msg = "Hello little CS730. Child One!";
  a = 30;
  b = 17;
  config = (ConfigType.dmas, set) ∷ (ConfigType.interrupts, set) ∷ [];
  opened = none;
  entered = some "[child1]: Entered\n";
  original = some "[child1]: Original Text: %s\n";
  encrypted = "[child1]: Encrypted Text: %s\n";
  decrypted = "[child1]: Decrypted Text: %s\n";
  no_handle = "[child1]: Unable to create handle for device\n";
  no_key = "[child1]: Unable to set key\n";
}

-- test4.c, child2
unfoldable pub test4_child2 : Script
test4_child2 = record {
  msg = "Hello little CS730. Child Two!";
  a = 30;
  b = 17;
  config = (ConfigType.dmas, set) ∷ (ConfigType.interrupts, unset) ∷ [];
  opened = none;
  entered = some "[child2]: Entered\n";
  original = some "[child2]: Original Text: %s\n";
  encrypted = "[child2]: Encrypted Text: %s\n";
  decrypted = "[child2]: Decrypted Text: %s\n";
  no_handle = "[child2]: Unable to create handle for device\n";
  no_key = "[child2]: Unable to set key\n";
}

-- test4.c, child3
unfoldable pub test4_child3 : Script
test4_child3 = record {
  msg = "Hello little CS730. Child Three!";
  a = 30;
  b = 17;
  config = (ConfigType.dmas, unset) ∷ (ConfigType.interrupts, set) ∷ [];
  opened = none;
  entered = some "[child3]: Entered\n";
  original = some "[child3]: Original Text: %s\n";
  encrypted = "[child3]: Encrypted Text: %s\n";
  decrypted = "[child3]: Decrypted Text: %s\n";
  no_handle = "[child3]: Unable to create handle for device\n";
  no_key = "[child3]: Unable to set key\n";
}

-- test4.c, the parent
unfoldable pub test4_parent : Script
test4_parent = record {
  msg = "Hello CS730!";
  a = 30;
  b = 17;
  config = (ConfigType.dmas, unset) ∷ (ConfigType.interrupts, unset) ∷ [];
  opened = none;
  entered = none;
  original = some "[parent]: Original Text: %s\n";
  encrypted = "[parent]: Encrypted Text: %s\n";
  decrypted = "[parent]: Encrypted Text: %s\n";
  no_handle = "[parent]: Unable to create handle for device\n";
  no_key = "[parent]: Unable to set key\n";
}

-- test5.c, child1
unfoldable pub test5_child1 : Script
test5_child1 = record {
  msg = "Hello little CS730. Child One!";
  a = 40;
  b = 13;
  config = [];
  opened = none;
  entered = some "[child1]: Entered\n";
  original = some "[child1]: Original Text: %s\n";
  encrypted = "[child1]: Encrypted Text: %s\n";
  decrypted = "[child1]: Decrypted Text: %s\n";
  no_handle = "[child1]: Unable to create handle for device\n";
  no_key = "[child1]: Unable to set key\n";
}

-- test5.c, child2
unfoldable pub test5_child2 : Script
test5_child2 = record {
  msg = "Hello little CS730. Child Two!";
  a = 50;
  b = 23;
  config = [];
  opened = none;
  entered = some "[child2]: Entered\n";
  original = some "[child2]: Original Text: %s\n";
  encrypted = "[child2]: Encrypted Text: %s\n";
  decrypted = "[child2]: Decrypted Text: %s\n";
  no_handle = "[child2]: Unable to create handle for device\n";
  no_key = "[child2]: Unable to set key\n";
}

-- test5.c, child3
unfoldable pub test5_child3 : Script
test5_child3 = record {
  msg = "Hello little CS730. Child Three!";
  a = 50;
  b = 23;
  config = [];
  opened = none;
  entered = some "[child3]: Entered\n";
  original = some "[child3]: Original Text: %s\n";
  encrypted = "[child3]: Encrypted Text: %s\n";
  decrypted = "[child3]: Decrypted Text: %s\n";
  no_handle = "[child3]: Unable to create handle for device\n";
  no_key = "[child3]: Unable to set key\n";
}

-- test5.c, the parent
unfoldable pub test5_parent : Script
test5_parent = record {
  msg = "Hello CS730!";
  a = 30;
  b = 17;
  config = [];
  opened = none;
  entered = none;
  original = some "[parent]: Original Text: %s\n";
  encrypted = "[parent]: Encrypted Text: %s\n";
  decrypted = "[parent]: Encrypted Text: %s\n";
  no_handle = "[parent]: Unable to create handle for device\n";
  no_key = "[parent]: Unable to set key\n";
}

-- The ladder on the results of the two calls. The parent's branch is also that of a failed fork.
unfoldable pub chosen : (child1 child2 : ℤ) → Script → Script → Script → Script → Script
chosen child1 child2 first second third parent =
    if is_zero_int child1 && is_positive child2
    then first
    else if is_positive child1 && is_zero_int child2
    then second
    else if is_zero_int child1 && is_zero_int child2
    then third
    else parent

-- Up to the end of the branch; the result says whether the process has not called exit(0). The
-- address is that of the array `op_text` of the branch that runs.
unfoldable pub four_processes :
    String → Script → Script → Script → Script → (op_text : ℕ) → SysIo Bool
four_processes title first second third parent op_text = do
  run (Syscall.printf title)
  child1 ← call Syscall.fork
  child2 ← call Syscall.fork
  branch (chosen (int_of child1) (int_of child2) first second third parent) op_text

unfoldable pub test4_main : (op_text : ℕ) → SysIo (Unit {0})
test4_main op_text = do
  returned ←
      four_processes "1 parent and 3 children - both use same key\n" test4_child1 test4_child2
        test4_child3 test4_parent op_text
  when returned then run Syscall.fflush else pure tt

unfoldable pub test5_main : (op_text : ℕ) → SysIo (Unit {0})
test5_main op_text = do
  four_processes "1 parent and 2 children - diff key\n" test5_child1 test5_child2 test5_child3
      test5_parent op_text
  pure tt
