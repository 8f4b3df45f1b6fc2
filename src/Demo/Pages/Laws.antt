-- ===== src/Demo/Pages/Laws.antt =====
-- The operations of btplus.c: the mark on a page table entry, and what the walk has tested.
use cryptodev.Prelude.{
  ℕ, suc, not, ◌&&◌, ◌||◌, [], ◌∷◌, ◌↔◌, ◌+◌, ◌-◌, ◌^◌, ◌<◌, ◌≡◌, ◌≢◌, Bool, true, false, Option,
  none, some, if◌then◌else◌, arith, bit_and, bit_or,
}
use cryptodev.Prelude.Bits.{bit_at, all_but, bit_and-bit_or, bit_and-all_but}
use cryptodev.Effects.{Env, Trace, call, is_zero}
use cryptodev.Demo.Calls.{DemoCall}
use cryptodev.Demo.Pages.{Globals, Outcome, demo_read, demo_release}
use cryptodev.Demo.Pages.Walk.{walk_pmd, walk_pud, walk_p4d, get_pte}

pub unmark-mark :
    (v : ℕ) → v < 2 ^ 64 → bit_at 50 v ≡ 0 → bit_and (bit_or v (2 ^ 50)) (2 ^ 64 - 1 - 2 ^ 50) ≡ v
unfolding all_but
unmark-mark v small clear = bit_and-bit_or 64 50 v small (omega arith) clear

pub unmark-clear : (v : ℕ) → v < 2 ^ 64 → bit_at 50 v ≡ 0 → bit_and v (2 ^ 64 - 1 - 2 ^ 50) ≡ v
unfolding all_but
unmark-clear v small clear = bit_and-all_but 64 50 v small (omega arith) clear

-- A read follows a NULL pointer exactly if the walk gives no entry for the address that was written
-- last, and a release does exactly if no read has set `gpte`.
pub crash_iff :
    (env : Env DemoCall) (g : Globals) (t : Trace DemoCall)
    → (((demo_read g env t).0 ≡ Outcome.crash) ↔ ((get_pte g.gptr env t).0 ≡ none))
      × (((demo_release g env t).0 ≡ Outcome.crash) ↔ (g.gpte ≡ none))
unfolding demo_read demo_release
crash_iff env g t = ground arith

-- The tests of page table entries.
abbrev is_test : DemoCall → Bool
is_test (DemoCall.pgd_none e) = true
is_test (DemoCall.pgd_bad e) = true
is_test (DemoCall.p4d_none e) = true
is_test (DemoCall.p4d_bad e) = true
is_test (DemoCall.pud_none e) = true
is_test (DemoCall.pud_bad e) = true
is_test (DemoCall.pmd_none e) = true
is_test (DemoCall.pmd_trans_huge e) = true
is_test _ = false

-- The calls whose NULL ends the walk.
abbrev may_be_null : DemoCall → Bool
may_be_null (DemoCall.find_vma a) = true
may_be_null (DemoCall.pte_offset_map e a) = true
may_be_null _ = false

-- How many tests a trace has passed, and how many tests and calls have ended a walk.
unfoldable pub passed : Trace DemoCall → ℕ
passed [] = 0
passed (e ∷ t) = if is_test e.call && is_zero e.reply then suc (passed t) else passed t

unfoldable pub stopped : Trace DemoCall → ℕ
stopped [] = 0
stopped (e ∷ t) =
    if is_test e.call && not (is_zero e.reply) || may_be_null e.call && is_zero e.reply
    then suc (stopped t)
    else stopped t

-- If the walk gives an entry, it is not NULL, and the entries of all four levels above it have passed
-- both their tests. If it gives none, exactly one test or one call ended it.
abbrev pub Walked : (passed_before stopped_before : ℕ) → Option ℕ × Trace DemoCall → Type 0
Walked n m (some p, t) = (p ≢ 0) × (passed t ≡ 8 + n) × (stopped t ≡ m)
Walked n m (none, t) = stopped t ≡ suc m

module _ (env : Env DemoCall) where
  walk_pmd-Walked :
      (e address n m : ℕ) (t : Trace DemoCall)
      → passed t ≡ 6 + n
      → stopped t ≡ m
      → Walked n m (walk_pmd e address env t)
  unfolding walk_pmd passed stopped
  walk_pmd-Walked e address n m t h k = ground arith

  walk_pud-Walked :
      (e address n m : ℕ) (t : Trace DemoCall)
      → passed t ≡ 4 + n
      → stopped t ≡ m
      → Walked n m (walk_pud e address env t)
  unfolding walk_pud passed stopped
  walk_pud-Walked e address n m t h k =
      let t1 = (call (DemoCall.pud_none e) env t).1 in
      let t2 = (call (DemoCall.pud_bad e) env t1).1 in
      let (a, t3) = call (DemoCall.pmd_offset e address) env t2 in
      ground (arith, walk_pmd-Walked a.value address n m t3)

  walk_p4d-Walked :
      (e address n m : ℕ) (t : Trace DemoCall)
      → passed t ≡ 2 + n
      → stopped t ≡ m
      → Walked n m (walk_p4d e address env t)
  unfolding walk_p4d passed stopped
  walk_p4d-Walked e address n m t h k =
      let t1 = (call (DemoCall.p4d_none e) env t).1 in
      let t2 = (call (DemoCall.p4d_bad e) env t1).1 in
      let (a, t3) = call (DemoCall.pud_offset e address) env t2 in
      ground (arith, walk_pud-Walked a.value address n m t3)

  -- If `get_pte` gives an entry, it is not NULL, and the entries of all four levels above it have
  -- passed both their tests, eight in all. If it gives none, exactly one test failed or one call
  -- returned NULL.
  pub get_pte_walks :
      (address : ℕ) (t : Trace DemoCall) → Walked (passed t) (stopped t) (get_pte address env t)
  unfolding get_pte passed stopped
  get_pte_walks address t =
      let t1 = (call (DemoCall.find_vma address) env t).1 in
      let (d, t2) = call (DemoCall.pgd_offset address) env t1 in
      let t3 = (call (DemoCall.pgd_none d.value) env t2).1 in
      let t4 = (call (DemoCall.pgd_bad d.value) env t3).1 in
      let (a, t5) = call (DemoCall.p4d_offset d.value address) env t4 in
      ground (arith, walk_p4d-Walked a.value address (passed t) (stopped t) t5)
