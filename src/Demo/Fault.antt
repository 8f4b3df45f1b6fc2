-- ===== src/Demo/Fault.antt =====
-- What bechmark-test/Demo/part1/rsvd/fault.c adds to the page fault handler of Linux: a fault on a
-- reserved bit goes to the hook of btplus.c, if that is set.
use cryptodev.Prelude.{ℕ, ◌==◌, is_nonzero, bit_and, if◌then◌else◌}
use cryptodev.Demo.Pages.{Globals, fault_hook}

-- `X86_PF_RSVD`
abbrev pub x86_pf_rsvd : ℕ
x86_pf_rsvd = 8

-- The fault goes on to the handler of Linux, it is reported as a corrupted page table, or the access
-- is made again.
pub data FaultEnd : Type 0 where
  passed_on corrupted taken : FaultEnd

unfoldable pub rsvd_fault : (error_code address : ℕ) → Globals → Globals × FaultEnd
rsvd_fault error_code address g =
    if bit_and error_code x86_pf_rsvd == 0
    then (g, FaultEnd.passed_on)
    else if g.rsvd_fault_hook
    then (let (g', v) = fault_hook address g in
        (g', if is_nonzero v then FaultEnd.corrupted else FaultEnd.taken))
    else (g, FaultEnd.corrupted)
