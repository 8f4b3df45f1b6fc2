-- ===== src/Demo/Pages/Session.antt =====
-- One use of the device of btplus.c: it is opened, an address is written, a read marks the page of
-- that address, and it is closed.
use cryptodev.Prelude.{
  ℕ, ◌+◌, ◌-◌, ◌%◌, ◌^◌, ◌<◌, pos, negsuc, ◌≡◌, true, false, some, arith, sym, refl,
}
use mathlib.Core.Path.{subst}
use cryptodev.Prelude.Bits.{bit_at}
use cryptodev.Effects.{Env, Trace, call, run}
use cryptodev.Demo.Calls.{DemoCall, DemoIo}
use cryptodev.Demo.Pages.{
  Globals, Outcome, mark, unmark, demo_open, demo_write, demo_read, demo_release,
}
use cryptodev.Demo.Pages.Walk.{get_pte}
use cryptodev.Demo.Pages.Laws.{unmark-mark}

-- The next operation, on the globals that the one before leaves.
abbrev pub then_with : DemoIo Outcome → (Globals → DemoIo Outcome) → DemoIo Outcome
then_with m next env t =
    let (o, t') = m env t in
    elim o [ Outcome.crash ↦ (Outcome.crash, t') | Outcome.returns g v ↦ next g env t' ]

unfoldable pub session : (pid buff : ℕ) → Globals → DemoIo Outcome
session pid buff g =
    then_with (demo_open pid g)
      (λ g1. then_with (demo_write buff g1) (λ g2. then_with (demo_read g2) demo_release))

-- The operation has not crashed, all page table entries and the count of openings are those of `g`,
-- the fault hook is off and no process is watched.
abbrev pub Restores : Globals → Outcome → Type 0
Restores g Outcome.crash = true ≡ false
Restores g (Outcome.returns g' v) =
    (v ≡ pos 0)
    × ((q : ℕ) → g'.ptes q ≡ g.ptes q)
    × (g'.device_opened ≡ g.device_opened)
    × (g'.rsvd_fault_hook ≡ false)
    × (g'.page_fault_pid ≡ negsuc 0)

module _ (env : Env DemoCall) (buff : ℕ) (t : Trace DemoCall) where
  -- The trace when the address is read from the caller, and the address.
  abbrev pub opened : Trace DemoCall
  opened = (run DemoCall.try_module_get env t).1

  abbrev pub address : ℕ
  address = (env opened (DemoCall.read_word buff)).value

  -- A use of the device whose address has a page table entry does not crash. It leaves all page table
  -- entries and the count of openings as they were before; the fault hook is off and no process is
  -- watched. The entry is a 64-bit word whose bit 50 is clear.
  pub session-Restores :
      (pid : ℕ) (g : Globals) (p : ℕ)
      → g.device_opened < 2 ^ 32
      → (get_pte address env (call (DemoCall.read_word buff) env opened).1).0 ≡ some p
      → g.ptes p < 2 ^ 64
      → bit_at 50 (g.ptes p) ≡ 0
      → Restores g (session pid buff g env t).0
  unfolding session demo_open demo_write demo_read demo_release
  session-Restores pid g p few w small clear =
      let marked : Globals = mark p (record g {
        device_opened = (g.device_opened + 1) % 2 ^ 32;
        page_fault_pid = pos pid;
        rsvd_fault_hook = true;
        gptr = address;
        gpte = some p;
      }) in
      let closed : Globals = unmark p (record marked {
        device_opened = (marked.device_opened + 2 ^ 32 - 1) % 2 ^ 32;
        page_fault_pid = negsuc 0;
        rsvd_fault_hook = false;
      }) in
      let step : (session pid buff g env t).0 ≡ Outcome.returns closed (pos 0) =
        ground (arith, w) in
      subst (Restores g) (sym step)
        (refl, (λ q. ground (arith, unmark-mark (g.ptes p) small clear)), omega arith, refl, refl)
