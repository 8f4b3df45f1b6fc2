-- ===== src/Demo/Modules.antt =====
-- The modules built from btplus.c, each as the table of its operations: the one under rsvd, and those
-- under TLB_miss_Count and ptw_tlb_mod, whose source is the same.
use cryptodev.Prelude.{ℕ, ℤ, ◌≡◌, refl, Option, List, true, false}
use cryptodev.Effects.{Env, Trace}
use cryptodev.Demo.Calls.{DemoCall, DemoIo}
use cryptodev.Demo.Chrdev.{Registered, Initialized, demo_devnode, init_module, cleanup_module}
use cryptodev.Demo.Pages.{
  Globals, Outcome, demo_open, demo_release, demo_read, demo_write, plain_open, plain_release,
  plain_read,
}
use cryptodev.Demo.Pages.Walk.{get_pte}

-- `open` is given the number of the calling process, and `write` the address of its buffer.
pub record Module : Type 0 where
  pub opens : ℕ → Globals → DemoIo Outcome
  pub releases : Globals → DemoIo Outcome
  pub reads : Globals → DemoIo Outcome
  pub writes : ℕ → Globals → DemoIo Outcome
  pub walks : ℕ → DemoIo (Option ℕ)
  pub devnode : (ℤ → ℕ → ℕ) → ℤ → ℕ → Option ℕ → Option ℕ × Option (List ℕ)
  pub initializes : DemoIo Initialized
  pub cleans_up : Registered → DemoIo (Unit {0})

abbrev pub rsvd_module : Module
rsvd_module = record {
  opens = demo_open;
  releases = demo_release;
  reads = demo_read;
  writes = demo_write;
  walks = get_pte;
  devnode = demo_devnode;
  initializes = init_module;
  cleans_up = cleanup_module;
}

abbrev pub tlb_module : Module
tlb_module = record {
  opens = λ pid. plain_open;
  releases = plain_release;
  reads = plain_read;
  writes = demo_write;
  walks = get_pte;
  devnode = demo_devnode;
  initializes = init_module;
  cleans_up = cleanup_module;
}

abbrev pub ptw_module : Module
ptw_module = tlb_module

-- The operation returns, and leaves every page table entry.
abbrev Harmless : Globals → Outcome → Type 0
Harmless g Outcome.crash = true ≡ false
Harmless g (Outcome.returns g' v) = g'.ptes ≡ g.ptes

-- The operations of the modules without marks follow no NULL pointer, and leave every page table
-- entry as it is, whatever the walk finds.
pub tlb_module-Harmless :
    (pid buff : ℕ) (g : Globals) (env : Env DemoCall) (t : Trace DemoCall)
    → Harmless g (tlb_module.opens pid g env t).0
      × Harmless g (tlb_module.releases g env t).0
      × Harmless g (tlb_module.reads g env t).0
      × Harmless g (tlb_module.writes buff g env t).0
unfolding plain_open plain_release plain_read demo_write
tlb_module-Harmless pid buff g env t = (refl, refl, refl, refl)
