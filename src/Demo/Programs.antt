-- ===== src/Demo/Programs.antt =====
-- The programs that use the device of btplus.c: mmap_tlb.c under bechmark-test/Demo/part1/rsvd and
-- under TLB_miss_Count, and ptw_tlb_mod/mmap_test.c.
pub mod Run
use Prim.Native.String.{String}
use cryptodev.Prelude.{
  ℕ, zero, suc, ◌+◌, ◌-◌, ◌%◌, ◌^◌, ◌==◌, leb, ℤ, pos, negsuc, is_negative, Bool, true, false,
}
use cryptodev.Effects.{Answer, Io, call, run, pure, int_of, ◌>>=◌, ◌>>◌, when◌then◌else◌}

-- What a program calls, and its accesses to the mapped page. `write` passes the address of a buffer
-- that holds an address.
pub data ProgramCall : Type 0 where
  open_demo : ProgramCall
  mmap : (executable populated : Bool) → ProgramCall
  write : (fd : ℤ) → (held : ℕ) → ProgramCall
  read close : (fd : ℤ) → ProgramCall
  munmap : (addr length : ℕ) → ProgramCall
  perror : String → ProgramCall
  store : (addr value : ℕ) → ProgramCall
  load : (addr : ℕ) → ProgramCall
  memset : (addr value n : ℕ) → ProgramCall
  printf : String → ℕ → ProgramCall

abbrev pub ProgramIo : Type 0 → Type 0
ProgramIo A = Io ProgramCall A

-- `x < 0` on a `ssize_t`, and MAP_FAILED
abbrev pub is_negative_long : Answer → Bool
is_negative_long a = leb (2 ^ 63) (a.value % 2 ^ 64)

abbrev pub map_failed : ℕ
map_failed = 2 ^ 64 - 1

-- `perror(…); exit(-1);`
unfoldable pub give_up : String → ProgramIo ℤ
give_up what = do run (ProgramCall.perror what); pure (negsuc 0)

-- The three programs, with what they do between `read` and `close`. The result is the exit status.
unfoldable pub demo_program :
    (executable populated : Bool) → (ℕ → ProgramIo (Unit {0})) → ProgramIo ℤ
unfolding give_up
demo_program executable populated touch = do
  fd ← call ProgramCall.open_demo
  when is_negative (int_of fd) then give_up "open" else (do
    ptr ← call (ProgramCall.mmap executable populated)
    when ptr.value == map_failed then give_up "mmap" else (do
      w ← call (ProgramCall.write (int_of fd) ptr.value)
      when is_negative_long w then give_up "read" else (do
        r ← call (ProgramCall.read (int_of fd))
        when is_negative_long r then give_up "read" else (do
          touch ptr.value
          run (ProgramCall.close (int_of fd))
          run (ProgramCall.munmap ptr.value 4096)
          pure (pos 0)))))

-- `*(int *)ptr = 100; printf("%d\n", *ptr);`
unfoldable pub store_and_show : ℕ → ProgramIo (Unit {0})
store_and_show ptr = do
  run (ProgramCall.store ptr 100)
  x ← call (ProgramCall.load ptr)
  run (ProgramCall.printf "%d\n" x.value)

-- The loop of TLB_miss_Count/mmap_tlb.c, with as many rounds to go.
unfoldable pub clear_rounds : (rounds ctr ptr : ℕ) → ProgramIo (Unit {0})
clear_rounds zero ctr ptr env t = (tt, t)
clear_rounds (suc rounds) ctr ptr env t =
    let t1 = (run (ProgramCall.memset ptr 0 4096) env t).1 in
    let t2 = (run (ProgramCall.printf "Accessing #%ldth time\n" (ctr + 1)) env t1).1 in
    clear_rounds rounds (ctr + 1) ptr env t2

-- The `main` of each file.
unfoldable pub rsvd_main : ProgramIo ℤ
unfolding demo_program store_and_show
rsvd_main = demo_program false true store_and_show

unfoldable pub tlb_main : ProgramIo ℤ
unfolding demo_program clear_rounds
tlb_main = demo_program false true (clear_rounds 10 0)

unfoldable pub ptw_main : ProgramIo ℤ
unfolding demo_program
ptw_main = demo_program true false (λ ptr. pure tt)
