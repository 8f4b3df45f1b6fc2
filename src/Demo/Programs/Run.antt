-- ===== src/Demo/Programs/Run.antt =====
-- The program rsvd/mmap_tlb.c on the module rsvd/btplus.c and the hook of rsvd/fault.c.
use cryptodev.Prelude.{
  ℕ, zero, suc, ◌+◌, ◌-◌, ◌%◌, ◌^◌, ◌<◌, ◌==◌, ℤ, pos, negsuc, is_negative, ◌≡◌, refl, ap, sym,
  subst, Bool, true, false, Option, none, some, [], ◌∷◌, arith, if◌then◌else◌,
}
use cryptodev.Prelude.Bits.{bit_at, bit_at-bit_or}
use cryptodev.Effects.{Answer, Env, Trace, answer, call, int_of}
use cryptodev.Demo.Calls.{DemoCall}
use cryptodev.Demo.Fault.{FaultEnd, rsvd_fault}
use cryptodev.Demo.Modules.{rsvd_module}
use cryptodev.Demo.Pages.{
  Globals, Outcome, demo_open, demo_write, demo_read, demo_release, mark, unmark, fault_hook,
}
use cryptodev.Demo.Pages.Walk.{get_pte}
use cryptodev.Demo.Pages.Laws.{unmark-mark, unmark-clear}
use cryptodev.Demo.Pages.Session.{Restores}
use cryptodev.Demo.Programs.{ProgramCall, map_failed, demo_program, store_and_show, rsvd_main}

-- What the process has come to. `faults` counts its faults on a reserved bit.
pub record Process : Type 0 where
  pub globals : Globals
  pub calls : Trace DemoCall
  pub faults : ℕ
  pub ended : Bool

abbrev word_of : ℤ → ℕ
word_of (pos n) = n
word_of (negsuc n) = 2 ^ 64 - 1 - n

-- A kernel that finds this word behind the argument of `write`.
abbrev pub holding : ℕ → Env DemoCall → Env DemoCall
holding a env t (DemoCall.read_word p) = answer a
holding a env t c = env t c

-- The process goes on with what an operation returns; a NULL pointer ends it.
abbrev after : Process → Outcome × Trace DemoCall → Process × Answer
after s (Outcome.crash, t) = (record s { calls = t; ended = true }, answer 0)
after s (Outcome.returns g v, t) = (record s { calls = t; globals = g }, answer (word_of v))

module _ (env : Env DemoCall) (pid buff : ℕ) (entry_of : ℕ → Option ℕ)
    (other : ProgramCall → Answer) where
  -- An access to an address, as often as the handler has it made again: the processor reports a fault
  -- on a reserved bit (8), by a user (4), if bit 50 of the entry is set.
  unfoldable pub touch : ℕ → ℕ → Process → Process
  touch zero addr s = record s { ended = true }
  touch (suc retries) addr s = elim (entry_of addr) [
    | none ↦ s
    | some p ↦
        if bit_at 50 (s.globals.ptes p) == 0
        then s
        else (let (g, how) = rsvd_fault (8 + 4) addr s.globals in
            let s' = record s { globals = g; faults = s.faults + 1 } in
            let again = touch retries addr s' in
            elim how [ FaultEnd.taken ↦ again | _ ↦ record s' { ended = true } ])
  ]

  -- The operations of the device are those of rsvd/btplus.c; `other` answers the other calls.
  unfoldable pub serve : ProgramCall → Process → Process × Answer
  unfolding touch
  serve ProgramCall.open_demo s =
      ((after s (rsvd_module.opens pid s.globals env s.calls)).0, other ProgramCall.open_demo)
  serve (ProgramCall.write fd held) s =
      after s (rsvd_module.writes buff s.globals (holding held env) s.calls)
  serve (ProgramCall.read fd) s = after s (rsvd_module.reads s.globals env s.calls)
  serve (ProgramCall.close fd) s = after s (rsvd_module.releases s.globals env s.calls)
  serve (ProgramCall.store addr value) s = (touch 2 addr s, other (ProgramCall.store addr value))
  serve (ProgramCall.load addr) s = (touch 2 addr s, other (ProgramCall.load addr))
  serve (ProgramCall.memset addr value n) s =
      (touch 2 addr s, other (ProgramCall.memset addr value n))
  serve c s = (s, other c)

  unfoldable pub replay : Process → Trace ProgramCall → Process
  replay s [] = s
  replay s (e ∷ t) = (serve e.call (replay s t)).0

  abbrev pub system : Process → Env ProgramCall
  system s t c = (serve c (replay s t)).1

  module _ (s : Process) where
    -- The trace when the kernel walks the page table for `read`.
    abbrev pub walked_from : Trace DemoCall
    walked_from =
        (call (DemoCall.read_word buff) (holding (other (ProgramCall.mmap false true)).value env)
          (call DemoCall.try_module_get env s.calls).1).1

    touch-clear :
        (k addr p : ℕ) (q : Process)
        → entry_of addr ≡ some p
        → bit_at 50 (q.globals.ptes p) ≡ 0
        → touch (suc k) addr q ≡ q
    unfolding touch
    touch-clear k addr p q e clear = ground arith

    touch-marked :
        (addr p : ℕ) (q : Process)
        → entry_of addr ≡ some p
        → q.globals.gpte ≡ some p
        → q.globals.gptr ≡ addr
        → q.globals.rsvd_fault_hook ≡ true
        → bit_at 50 (q.globals.ptes p) ≡ 1
        → bit_at 50 ((unmark p q.globals).ptes p) ≡ 0
        → touch 2 addr q ≡ record q { globals = unmark p q.globals; faults = q.faults + 1 }
    unfolding touch rsvd_fault fault_hook
    touch-marked addr p q e g a hook marked clear = ground arith

    abbrev pub ptr : ℕ
    ptr = (other (ProgramCall.mmap false true)).value

    abbrev done : Process
    done = replay s (rsvd_main (system s) []).1

    -- The program rsvd/mmap_tlb.c on the module rsvd/btplus.c: if the device can be opened and the
    -- page be mapped, the walk of `read` finds an entry for it, and that is the entry that the
    -- processor uses, then the program exits with 0, and no operation has followed a NULL pointer. Of
    -- its two accesses to the page, just one faulted on the reserved bit, and the hook took that fault.
    -- All page table entries and the count of openings are as they were before, the hook is off, and
    -- no process is watched. The entry is a 64-bit word whose bit 50 is clear, and the count is below
    -- 2^32.
    pub program-Restores :
        (p : ℕ)
        → is_negative (int_of (other ProgramCall.open_demo)) ≡ false
        → (ptr == map_failed) ≡ false
        → (get_pte ptr env walked_from).0 ≡ some p
        → entry_of ptr ≡ some p
        → s.globals.ptes p < 2 ^ 64
        → bit_at 50 (s.globals.ptes p) ≡ 0
        → s.globals.device_opened < 2 ^ 32
        → ((rsvd_main (system s) []).0 ≡ pos 0)
          × (done.ended ≡ s.ended)
          × (done.faults ≡ s.faults + 1)
          × Restores s.globals (Outcome.returns done.globals (pos 0))
    unfolding rsvd_main demo_program store_and_show serve replay demo_open demo_write demo_read
        demo_release
    program-Restores p opens maps w e small clear few =
        let g1 : Globals = record s.globals {
          device_opened = (s.globals.device_opened + 1) % 2 ^ 32;
          page_fault_pid = pos pid;
          rsvd_fault_hook = true;
        } in
        let g3 : Globals = mark p (record g1 { gptr = ptr; gpte = some p }) in
        let q3 : Process = record s { globals = g3; calls = (get_pte ptr env walked_from).1 } in
        let q4 : Process = record q3 { globals = unmark p g3; faults = s.faults + 1 } in
        let set : bit_at 50 (g3.ptes p) ≡ 1 = ground (arith, bit_at-bit_or 50 (s.globals.ptes p)) in
        let reset : bit_at 50 ((unmark p g3).ptes p) ≡ 0 =
          ground (arith, unmark-mark (s.globals.ptes p) small clear) in
        let one : touch 2 ptr q3 ≡ q4 = touch-marked ptr p q3 e refl refl refl set reset in
        let two : touch 2 ptr q4 ≡ q4 = touch-clear 1 ptr p q4 e reset in
        let closed : Process = record q4 {
          globals = unmark p (record q4.globals {
            device_opened = (q4.globals.device_opened + 2 ^ 32 - 1) % 2 ^ 32;
            page_fault_pid = negsuc 0;
            rsvd_fault_hook = false;
          });
          calls = (call DemoCall.module_put env q4.calls).1;
        } in
        let same : done ≡ closed = ground (arith, w, one, two) in
        (
          ground (arith, w, one, two),
          ap (λ x. x.ended) same,
          ap (λ x. x.faults) same,
          subst (λ (x : Process). Restores s.globals (Outcome.returns x.globals (pos 0))) (sym same)
              (
                refl,
                λ q. ground (
                  arith,
                  unmark-mark (s.globals.ptes p) small clear,
                  unmark-clear (s.globals.ptes p) small clear,
                ),
                omega arith,
                refl,
                refl,
              ),
        )
