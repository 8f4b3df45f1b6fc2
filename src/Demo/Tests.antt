-- ===== src/Demo/Tests.antt =====
-- The demonstration modules on a simulated kernel.
use cryptodev.Prelude.{
  ℕ, ◌+◌, ◌-◌, ◌^◌, pos, ◌≡◌, ◌↔◌, refl, true, false, Option, none, some, [], ◌==◌, if◌then◌else◌,
  arith,
}
use cryptodev.Prelude.Bits.{bit_at}
use cryptodev.Effects.{Answer, Env, answer, call}
use cryptodev.Demo.Pages.Session.{session, opened, address, Restores, session-Restores}
use cryptodev.Demo.Calls.{DemoCall, kept}
use cryptodev.Demo.Chrdev.{init_module, memtrack_init_module}
use cryptodev.Demo.Chrdev.Laws.{
  Starts, MemtrackStarts, failed_groups, init_cleanup, memtrack_init_cleanup,
}
use cryptodev.Demo.Pages.{Globals, Outcome, mark, demo_read, demo_release}
use cryptodev.Demo.Programs.{ProgramCall, clear_rounds, demo_program, rsvd_main, tlb_main, ptw_main}
use cryptodev.Demo.Programs.Run.{Process, replay, system, walked_from, program-Restores}
use cryptodev.Demo.Pages.Walk.{walk_pmd, walk_pud, walk_p4d, get_pte}
use cryptodev.Demo.Pages.Laws.{crash_iff, Walked, passed, stopped, get_pte_walks}

-- Every test passes, and every pointer is there.
unfoldable kernel : Env DemoCall
kernel t DemoCall.register_chrdev = answer 240
kernel t DemoCall.class_create = answer 0x1000
kernel t (DemoCall.device_create c) = answer 0x2000
kernel t (DemoCall.find_vma a) = answer 0x3000
kernel t (DemoCall.pte_offset_map e a) = answer 0x4000
kernel t call = answer 0

-- The group of attributes cannot be made.
unfoldable without_sysfs : Env DemoCall
unfolding kernel
without_sysfs t DemoCall.sysfs_create_group = answer (2 ^ 32 - 12)
without_sysfs t c = kernel t c

init_then_cleanup : Starts kernel (kept []) (init_module kernel [])
init_then_cleanup = init_cleanup kernel []

memtrack_init_then_cleanup :
    MemtrackStarts without_sysfs
      (kept [])
      (failed_groups [])
      (memtrack_init_module without_sysfs [])
memtrack_init_then_cleanup = memtrack_init_cleanup without_sysfs []

-- An open device, the address 0x7000123 written to it, and an entry of 0x8000067.
abbrev globals : Globals
globals = record {
  device_opened = 1;
  gptr = 0x7000123;
  gpte = none;
  page_fault_pid = pos 100;
  rsvd_fault_hook = true;
  ptes = λ p. if p == 0x4000 then 0x8000067 else 0;
}

abbrev marked : Globals
marked = mark 0x4000 (record globals { gpte = some 0x4000 })

clear : bit_at 50 0x8000067 ≡ 0
unfolding bit_at
clear = refl

crashes :
    (((demo_read globals kernel []).0 ≡ Outcome.crash) ↔ ((get_pte 0x7000123 kernel []).0 ≡ none))
    × (((demo_release globals kernel []).0 ≡ Outcome.crash) ↔ (globals.gpte ≡ none))
crashes = crash_iff kernel globals []

walk_shown : Walked (passed []) (stopped []) (get_pte 0x7000123 kernel [])
walk_shown = get_pte_walks kernel 0x7000123 []

session_walks :
    (get_pte
      (address kernel 0x5000 [])
      kernel
      (call (DemoCall.read_word 0x5000) kernel (opened kernel 0x5000 [])).1).0
    ≡ some 0x4000
unfolding get_pte walk_p4d walk_pud walk_pmd kernel
session_walks = refl

session_shown : Restores globals (session 100 0x5000 globals kernel []).0
session_shown =
    session-Restores kernel 0x5000 [] 100 globals 0x4000 (omega arith) session_walks (omega arith)
      clear

-- The system of a program: file 3, and the page at 0x7000000.
abbrev other : ProgramCall → Answer
other ProgramCall.open_demo = answer 3
other (ProgramCall.mmap executable populated) = answer 0x7000000
other _ = answer 0

abbrev entry_of : ℕ → Option ℕ
entry_of a = some 0x4000

abbrev process : Process
process = record {
  globals = record globals { device_opened = 0; rsvd_fault_hook = false };
  calls = [];
  faults = 0;
  ended = false;
}

abbrev program_system : Env ProgramCall
program_system = system kernel 100 0x5000 entry_of other process

program_walks :
    (get_pte 0x7000000 kernel (walked_from kernel 100 0x5000 entry_of other process)).0
    ≡ some 0x4000
unfolding get_pte walk_p4d walk_pud walk_pmd kernel
program_walks = refl

program-Restores_example :
    let done = replay kernel 100 0x5000 entry_of other process (rsvd_main program_system []).1 in
    ((rsvd_main program_system []).0 ≡ pos 0)
    × (done.ended ≡ false)
    × (done.faults ≡ 0 + 1)
    × Restores process.globals (Outcome.returns done.globals (pos 0))
program-Restores_example =
    program-Restores kernel 100 0x5000 entry_of other process 0x4000 refl refl program_walks refl
      (omega arith) clear (omega arith)

-- The other two programs where every call succeeds.
abbrev success : Env ProgramCall
success t ProgramCall.open_demo = answer 3
success t (ProgramCall.mmap executable populated) = answer 0x7000000
success t c = answer 0

others_exit : ((tlb_main success []).0 ≡ pos 0) × ((ptw_main success []).0 ≡ pos 0)
unfolding tlb_main ptw_main demo_program clear_rounds
others_exit = (refl, refl)
