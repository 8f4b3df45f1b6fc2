-- ===== src/Demo/Chrdev/Laws.antt =====
-- What the initialization of the demonstration modules keeps, and what their cleanup gives back.
use cryptodev.Prelude.{
  ℕ, suc, ◌==◌, if◌then◌else◌, pos, is_negative, is_nonzero, ◌≡◌, true, none, some, List, [], ◌∷◌,
  arith,
}
use cryptodev.Effects.{Env, Trace, int_of}
use cryptodev.Demo.Calls.{DemoCall, Kind, kept}
use cryptodev.Demo.Chrdev.{
  Initialized, error_class, error_device, init_module, cleanup_module, memtrack_init_module,
  memtrack_cleanup_module,
}

-- How often sysfs_create_group failed.
unfoldable pub failed_groups : Trace DemoCall → ℕ
failed_groups [] = 0
failed_groups (e ∷ t) = elim e.call [
  | DemoCall.sysfs_create_group ↦
      if is_nonzero (int_of e.reply) then suc (failed_groups t) else failed_groups t
  | _ ↦ failed_groups t
]

module _ (env : Env DemoCall) where
  abbrev pub Starts : List Kind → Initialized × Trace DemoCall → Type 0
  Starts ks ((none, v), t) = (is_negative v ≡ true) × (kept t ≡ ks)
  Starts ks ((some my, v), t) =
      (v ≡ pos 0)
      × (kept t ≡ Kind.device ∷ Kind.class ∷ Kind.chrdev ∷ ks)
      × (kept (cleanup_module my env t).1 ≡ ks)

  abbrev pub MemtrackStarts : List Kind → (failures : ℕ) → Initialized × Trace DemoCall → Type 0
  MemtrackStarts ks failures ((none, v), t) =
      (is_nonzero v ≡ true)
      × (kept t ≡ (if failed_groups t == failures then ks else Kind.device ∷ ks))
  MemtrackStarts ks failures ((some my, v), t) =
      (v ≡ pos 0)
      × (kept t ≡ Kind.group ∷ Kind.device ∷ Kind.class ∷ Kind.chrdev ∷ ks)
      × (kept (memtrack_cleanup_module my env t).1 ≡ ks)

  -- `init_module` of btplus.c returns 0 with the device number, the class and the device registered,
  -- and `cleanup_module` then gives back all three; or it returns a negative number, and nothing is
  -- registered that was not before.
  pub init_cleanup : (t : Trace DemoCall) → Starts (kept t) (init_module env t)
  unfolding init_module cleanup_module error_class error_device kept
  init_cleanup t = ground arith

  -- `init_module` of mem_tracker.c, the same with a group of attributes: it returns 0 with all four
  -- registered, and `cleanup_module` gives them back; or it returns a number other than 0. Then the
  -- device stays registered if it was sysfs_create_group that failed, and nothing else does.
  pub memtrack_init_cleanup :
      (t : Trace DemoCall) → MemtrackStarts (kept t) (failed_groups t) (memtrack_init_module env t)
  unfolding memtrack_init_module memtrack_cleanup_module error_class error_device kept failed_groups
  memtrack_init_cleanup t = ground arith
