-- ===== src/Demo/Chrdev.antt =====
-- `init_module` and `cleanup_module` of bechmark-test/Demo/part1: of btplus.c, and of
-- sysfs/mem_tracker.c, which adds a group of attributes. The names of the class and the device are
-- left out, and so are the messages.
pub mod Laws
use cryptodev.Prelude.{
  ℕ, ℤ, pos, is_negative, is_nonzero, Option, none, some, List, ◌==◌, if◌then◌else◌,
}
use cryptodev.Effects.{is_err, ptr_err, call, run, pure, int_of, ◌>>=◌, ◌>>◌, when◌then◌else◌}
use cryptodev.Demo.Calls.{DemoCall, DemoIo}

-- The globals that a successful initialization leaves, none if it fails, and the result.
pub record Registered : Type 0 where
  pub major : ℤ
  pub class : ℕ

abbrev pub Initialized : Type 0
Initialized = Option Registered × ℤ

-- What stands at `mode` afterwards, none for NULL, and the name of the node, which is always NULL. The
-- number of a device is `devt`; how MKDEV makes it from two numbers is a parameter. 0666 is 438.
unfoldable pub demo_devnode :
    (mkdev : ℤ → ℕ → ℕ) (major : ℤ) (devt : ℕ) (mode : Option ℕ) → Option ℕ × Option (List ℕ)
demo_devnode mkdev major devt none = (none, none)
demo_devnode mkdev major devt (some m) = (some (if devt == mkdev major 0 then 438 else m), none)

abbrev pub memtrack_devnode : (ℤ → ℕ → ℕ) → ℤ → ℕ → Option ℕ → Option ℕ × Option (List ℕ)
memtrack_devnode = demo_devnode

unfoldable pub error_class : ℤ → ℤ → DemoIo Initialized
error_class major err = do run (DemoCall.unregister_chrdev major); pure (none, err)

unfoldable pub error_device : ℤ → ℕ → ℤ → DemoIo Initialized
error_device major class err = do run (DemoCall.class_destroy class); error_class major err

unfoldable pub init_module : DemoIo Initialized
init_module = do
  m ← call DemoCall.register_chrdev
  let major = int_of m
  when is_negative major then pure (none, major) else (do
    c ← call DemoCall.class_create
    when is_err c then error_class major (ptr_err c) else (do
      d ← call (DemoCall.device_create c.value)
      when is_err d
          then error_device major c.value (ptr_err d)
          else pure (some (record { major = major; class = c.value }), pos 0)))

unfoldable pub cleanup_module : Registered → DemoIo (Unit {0})
cleanup_module g = do
  run (DemoCall.device_destroy g.class)
  run (DemoCall.class_destroy g.class)
  run (DemoCall.unregister_chrdev g.major)

unfoldable pub memtrack_init_module : DemoIo Initialized
memtrack_init_module = do
  m ← call DemoCall.register_chrdev
  let major = int_of m
  when is_negative major then pure (none, major) else (do
    c ← call DemoCall.class_create
    when is_err c then error_class major (ptr_err c) else (do
      d ← call (DemoCall.device_create c.value)
      when is_err d then error_device major c.value (ptr_err d) else (do
        s ← call DemoCall.sysfs_create_group
        when is_nonzero (int_of s)
            then error_device major c.value (int_of s)
            else pure (some (record { major = major; class = c.value }), pos 0))))

unfoldable pub memtrack_cleanup_module : Registered → DemoIo (Unit {0})
memtrack_cleanup_module g = do
  run (DemoCall.device_destroy g.class)
  run (DemoCall.class_destroy g.class)
  run (DemoCall.unregister_chrdev g.major)
  run DemoCall.sysfs_remove_group
