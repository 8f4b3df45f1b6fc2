-- ===== src/Demo/Pages/Walk.antt =====
-- `get_pte` of btplus.c: the walk over the page table, from the area of the address down.
use cryptodev.Prelude.{ℕ, Option, none, some, if◌then◌else◌}
use cryptodev.Effects.{Answer, call, pure, is_zero, ◌>>=◌, when◌then◌else◌}
use cryptodev.Demo.Calls.{DemoCall, DemoIo}

abbrev pub pointer : Answer → Option ℕ
pointer a = if is_zero a then none else some a.value

-- The test of an entry: if it does not hold the walk goes on, and else it ends with NULL.
abbrev unless : DemoCall → DemoIo (Option ℕ) → DemoIo (Option ℕ)
unless test next = do a ← call test; when is_zero a then next else pure none

unfoldable pub walk_pmd : (pmd address : ℕ) → DemoIo (Option ℕ)
walk_pmd pmd address = unless (DemoCall.pmd_none pmd) (
    unless (DemoCall.pmd_trans_huge pmd)
      (do pte ← call (DemoCall.pte_offset_map pmd address); pure (pointer pte)))

unfoldable pub walk_pud : (pud address : ℕ) → DemoIo (Option ℕ)
walk_pud pud address = unless (DemoCall.pud_none pud) (
    unless (DemoCall.pud_bad pud)
      (do pmd ← call (DemoCall.pmd_offset pud address); walk_pmd pmd.value address))

unfoldable pub walk_p4d : (p4d address : ℕ) → DemoIo (Option ℕ)
walk_p4d p4d address = unless (DemoCall.p4d_none p4d) (
    unless (DemoCall.p4d_bad p4d)
      (do pud ← call (DemoCall.pud_offset p4d address); walk_pud pud.value address))

unfoldable pub get_pte : ℕ → DemoIo (Option ℕ)
get_pte address = do
  vma ← call (DemoCall.find_vma address)
  when is_zero vma then pure none else (do
    pgd ← call (DemoCall.pgd_offset address)
    unless (DemoCall.pgd_none pgd.value) (
        unless (DemoCall.pgd_bad pgd.value)
          (do p4d ← call (DemoCall.p4d_offset pgd.value address); walk_p4d p4d.value address)))
