-- ===== src/Demo/Pages.antt =====
-- The file operations of btplus.c: bechmark-test/Demo/part1/rsvd/btplus.c, and the other version,
-- TLB_miss_Count/btplus.c, whose operations neither mark the entry nor set the fault hook.
pub mod Walk
pub mod Laws
pub mod Session
use cryptodev.Prelude.{
  ℕ, ◌+◌, ◌-◌, ◌/◌, ◌%◌, ◌^◌, ℤ, pos, negsuc, Bool, true, false, ◌&&◌, Option, none, some, ◌==◌,
  if◌then◌else◌, bit_and, bit_or,
}
use cryptodev.Effects.{call, run, pure, ◌>>=◌, ◌>>◌}
use cryptodev.Demo.Calls.{DemoCall, DemoIo}
use cryptodev.Demo.Pages.Walk.{get_pte}

-- The globals of the module, those of the patched kernel that it sets, and the page table entries
-- by their address. `gpte` is none for NULL; `rsvd_fault_hook` says whether the hook is set.
pub record Globals : Type 0 where
  pub device_opened : ℕ
  pub gptr : ℕ
  pub gpte : Option ℕ
  pub page_fault_pid : ℤ
  pub rsvd_fault_hook : Bool
  pub ptes : ℕ → ℕ

-- A NULL pointer is followed, or the operation returns.
pub data Outcome : Type 0 where
  crash : Outcome
  returns : Globals → ℤ → Outcome

-- `0x1UL << 50`, and its complement
abbrev pub reserved : ℕ
reserved = 2 ^ 50

abbrev pub not_reserved : ℕ
not_reserved = 2 ^ 64 - 1 - 2 ^ 50

abbrev pub store : ℕ → ℕ → (ℕ → ℕ) → ℕ → ℕ
store p v m q = if q == p then v else m q

-- `gpte->pte |= …` and `gpte->pte &= ~…`
abbrev pub mark : ℕ → Globals → Globals
mark p g = record g { ptes = store p (bit_or (g.ptes p) reserved) g.ptes }

abbrev pub unmark : ℕ → Globals → Globals
unmark p g = record g { ptes = store p (bit_and (g.ptes p) not_reserved) g.ptes }

-- `device_opened` is a 32-bit counter.
unfoldable pub demo_open : ℕ → Globals → DemoIo Outcome
demo_open pid g = do
  run DemoCall.try_module_get
  pure (
      Outcome.returns
        (record g {
          device_opened = (g.device_opened + 1) % 2 ^ 32;
          page_fault_pid = pos pid;
          rsvd_fault_hook = true;
        })
        (pos 0))

unfoldable pub demo_release : Globals → DemoIo Outcome
demo_release g =
    let g' : Globals = record g {
      device_opened = (g.device_opened + 2 ^ 32 - 1) % 2 ^ 32;
      page_fault_pid = negsuc 0;
      rsvd_fault_hook = false;
    } in
    elim g'.gpte [
      | none ↦ pure Outcome.crash
      | some p ↦ do run DemoCall.module_put; pure (Outcome.returns (unmark p g') (pos 0))
    ]

unfoldable pub demo_read : Globals → DemoIo Outcome
demo_read g = do
  pte ← get_pte g.gptr
  elim pte [
    | none ↦ pure Outcome.crash
    | some p ↦ pure (Outcome.returns (mark p (record g { gpte = some p })) (pos 0))
  ]

-- The word at `buff`, whatever the length of the write.
unfoldable pub demo_write : ℕ → Globals → DemoIo Outcome
demo_write buff g = do
  w ← call (DemoCall.read_word buff)
  pure (Outcome.returns (record g { gptr = w.value }) (pos 8))

-- The hook of the fault handler: 0 if the fault is its own.
unfoldable pub fault_hook : ℕ → Globals → Globals × ℤ
fault_hook address g = elim g.gpte [
  | none ↦ (g, negsuc 0)
  | some p ↦ if g.gptr / 2 ^ 12 == address / 2 ^ 12 then (unmark p g, pos 0) else (g, negsuc 0)
]

-- The version without marks: its open, release and read.
unfoldable pub plain_open : Globals → DemoIo Outcome
plain_open g = do
  run DemoCall.try_module_get
  pure (Outcome.returns (record g { device_opened = (g.device_opened + 1) % 2 ^ 32 }) (pos 0))

unfoldable pub plain_release : Globals → DemoIo Outcome
plain_release g = do
  run DemoCall.module_put
  pure (
      Outcome.returns (record g { device_opened = (g.device_opened + 2 ^ 32 - 1) % 2 ^ 32 })
        (pos 0))

unfoldable pub plain_read : Globals → DemoIo Outcome
plain_read g = do pte ← get_pte g.gptr; pure (Outcome.returns (record g { gpte = pte }) (pos 0))
