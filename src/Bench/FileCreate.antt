-- ===== src/Bench/FileCreate.antt =====
-- bechmark-test/file_create.c, which makes the input file of the benchmarks.
use cryptodev.Prelude.{
  ℕ, zero, suc, ◌+◌, ◌-◌, ◌*◌, ◌%◌, ◌≡◌, ◌≢◌, ◌↔◌, ◌==◌, ltb, ℤ, pos, negsuc, is_negative, Option,
  none, some, List, [], ◌∷◌, ◌++◌, append_assoc, append-nil, sym, ◌∙◌, arith, if◌then◌else◌,
}
use cryptodev.Effects.{Env, Trace, int_of, call, run, pure, ◌>>=◌, ◌>>◌, when◌then◌else◌}
use cryptodev.Crypter.Syscalls.{Syscall, SysIo}

-- `default_file_size`, in megabytes
abbrev pub default_file_size : ℤ
default_file_size = pos 10

-- `seed_data[i]` for i below 64: the letters, the digits 1 to 8, and "ARUN".
abbrev pub seed_data : ℕ → ℕ
seed_data i =
    if ltb i 26
    then 97 + i
    else if ltb i 52
    then 65 + (i - 26)
    else if ltb i 60
    then 49 + (i - 52)
    else if i == 60
    then 65
    else if i == 61
    then 82
    else if i == 62
    then 85
    else 78

-- The character in place `i` of the file.
unfoldable pub char_at : ℕ → ℕ
char_at i = if i % 4096 == 4095 then 10 else seed_data (i % 64)

-- Whether `system` has failed, that is whether the program exits.
unfoldable pub mount_shm : SysIo (Option (Unit {0}))
mount_shm = do
  r ← call (Syscall.shell "sudo mount -o remount /dev/shm")
  when is_negative (int_of r)
      then (do run (Syscall.printf "Error while mounting the shm \n"); pure none)
      else (do
        run (Syscall.printf " /dev/shm mounted successfully \n")
        run (Syscall.sleep 1)
        pure (some tt))

-- The `for` loop, with as many rounds to go.
unfoldable pub put_chars : (rounds i : ℕ) → SysIo (Unit {0})
put_chars zero i env t = (tt, t)
put_chars (suc rounds) i env t =
    put_chars rounds (i + 1) env (run (Syscall.fputc (char_at i)) env t).1

-- `file_size * 1024 * 1024L`; no rounds for a negative size. The first product of the source is an
-- `int`, which holds it for sizes below 2^21.
abbrev pub rounds_of : ℤ → ℕ
rounds_of (pos n) = n * 1024 * 1024
rounds_of (negsuc n) = 0

unfoldable pub create_file : ℤ → SysIo (Unit {0})
create_file file_size = do
  run (Syscall.fopen "/dev/shm/in_memory.txt")
  put_chars (rounds_of file_size) 0
  run Syscall.fclose

-- `main`; the argument is what atoi makes of `argv[1]`, none if there is no argument.
unfoldable pub file_create_main : Option ℤ → SysIo (Unit {0})
file_create_main arg = do
  elim arg [
    | none ↦ pure tt
    | some n ↦ run (Syscall.printf_int "Creating In Memory file of size %d MB \n" n)
  ]
  m ← mount_shm
  elim m [
    | none ↦ pure tt
    | some _ ↦ do
      create_file (elim arg [ none ↦ default_file_size | some n ↦ n ])
      run (Syscall.printf "File created successfully \n")
  ]

-- The characters that a trace writes, in the order of the calls.
unfoldable pub put_of : Trace Syscall → List ℕ
put_of [] = []
put_of (e ∷ t) = elim e.call [ Syscall.fputc c ↦ put_of t ++ c ∷ [] | _ ↦ put_of t ]

unfoldable pub content : (n i : ℕ) → List ℕ
content zero i = []
content (suc n) i = char_at i ∷ content n (i + 1)

-- The loop writes the characters of the places from `i` on.
pub put_chars-content :
    (n i : ℕ) (env : Env Syscall) (t : Trace Syscall)
    → put_of (put_chars n i env t).1 ≡ put_of t ++ content n i
unfolding put_chars put_of content
put_chars-content zero i env t = sym (append-nil (put_of t))
put_chars-content (suc n) i env t =
    put_chars-content n (i + 1) env (run (Syscall.fputc (char_at i)) env t).1
    ∙ append_assoc (put_of t) (char_at i ∷ []) (content n (i + 1))

-- Each 4096th character, and no other, ends a line, and none is 0: strncpy copies chunks of 4096
-- characters of the file whole.
pub char_at-lines : (i : ℕ) → ((char_at i ≡ 10) ↔ (i % 4096 ≡ 4095)) × (char_at i ≢ 0)
unfolding char_at
char_at-lines i = ground arith
