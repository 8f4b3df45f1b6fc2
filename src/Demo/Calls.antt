-- ===== src/Demo/Calls.antt =====
-- What the modules call of the kernel, and what a trace of such calls keeps.
use cryptodev.Prelude.{ℕ, ℤ, is_negative, is_nonzero, List, [], ◌∷◌, ◌==◌, if◌then◌else◌}
use cryptodev.Effects.{is_err, Io, Trace, int_of}

pub data DemoCall : Type 0 where
  -- registration
  register_chrdev : DemoCall
  unregister_chrdev : (major : ℤ) → DemoCall
  class_create : DemoCall
  class_destroy device_create device_destroy : (class : ℕ) → DemoCall
  sysfs_create_group sysfs_remove_group : DemoCall
  try_module_get module_put : DemoCall
  -- the walk over the page table; the tests get the pointer to the entry
  find_vma : (address : ℕ) → DemoCall
  pgd_offset : (address : ℕ) → DemoCall
  p4d_offset pud_offset pmd_offset pte_offset_map : (entry address : ℕ) → DemoCall
  pgd_none pgd_bad p4d_none p4d_bad pud_none pud_bad pmd_none pmd_trans_huge :
      (entry : ℕ) → DemoCall
  -- a word of the caller's memory
  read_word : (address : ℕ) → DemoCall

abbrev pub DemoIo : Type 0 → Type 0
DemoIo A = Io DemoCall A

-- What is registered and not given back.
pub data Kind : Type 0 where
  chrdev class device group not_kept : Kind

abbrev number : Kind → ℕ
number Kind.chrdev = 0
number Kind.class = 1
number Kind.device = 2
number Kind.group = 3
number Kind.not_kept = 4

-- A thing is given back once; to give back one that is not there leaves a mark.
abbrev pub drop : Kind → List Kind → List Kind
drop k [] = Kind.not_kept ∷ []
drop k (l ∷ ls) = if number k == number l then ls else l ∷ drop k ls

unfoldable pub kept : Trace DemoCall → List Kind
kept [] = []
kept (e ∷ t) = elim e.call [
  | DemoCall.register_chrdev ↦ if is_negative (int_of e.reply) then kept t else Kind.chrdev ∷ kept t
  | DemoCall.unregister_chrdev major ↦ drop Kind.chrdev (kept t)
  | DemoCall.class_create ↦ if is_err e.reply then kept t else Kind.class ∷ kept t
  | DemoCall.class_destroy c ↦ drop Kind.class (kept t)
  | DemoCall.device_create c ↦ if is_err e.reply then kept t else Kind.device ∷ kept t
  | DemoCall.device_destroy c ↦ drop Kind.device (kept t)
  | DemoCall.sysfs_create_group ↦
      if is_nonzero (int_of e.reply) then kept t else Kind.group ∷ kept t
  | DemoCall.sysfs_remove_group ↦ drop Kind.group (kept t)
  | _ ↦ kept t
]
