-- ===== src/Testcases/Steps.antt =====
-- The calls of a test program, one by one, on the driver.
use Prim.Native.String.{String}
use cryptodev.Prelude.{
  ℕ, ◌+◌, ◌*◌, ◌<◌, ℤ, ◌≡◌, ◌≢◌, ◌∙◌, refl, sym, subst, true, false, is_negative, Option, none,
  some, List, [], ◌∷◌, arith,
}
use cryptodev.Memory.{Bytes}
use cryptodev.Effects.{Answer, Env, Trace, int_of, call}
use cryptodev.Kernel.{Call}
use cryptodev.Driver.Device.{Job, ConfigMem, CryptodevData}
use cryptodev.Driver.Card.{memory, pending}
use cryptodev.Driver.Open.{new_job, pci_open, pci_release}
use cryptodev.Driver.Ioctl.{job_ioctl, pci_unlocked_ioctl}
use cryptodev.Crypter.Syscalls.{Syscall, create_handle, close_handle}
use cryptodev.Crypter.Settings.{ConfigType, set_key, set_config}
use cryptodev.Crypter.Settings.Laws.{key_of-bytes}
use cryptodev.System.Moments.{◌⊑◌, same, later, ⊑-trans, set_config-goes_on}
use cryptodev.System.{State, serve, replay, system}
use cryptodev.Testcases.{is_error, say, say_int, say_msg, configure}

-- There is a job with this key.
abbrev pub HasKey : ℕ → Option Job → Type 0
HasKey k none = true ≡ false
HasKey k (some job) = job.keyab ≡ k

module _ (env : Env Call) (fuel : ℕ) (dev : CryptodevData) (other : Syscall → Answer) (s : State)
    (m : Bytes) (space : ConfigMem) where
  abbrev at : Trace Syscall → State
  at = replay env fuel dev other s

  abbrev sys : Env Syscall
  sys = system env fuel dev other s

  -- The key, and the caller's memory and the card's work as they were.
  abbrev pub Keeps : ℕ → (t t' : Trace Syscall) → Type 0
  Keeps k t t' =
      HasKey k (at t').file.private_data
      × (memory m (at t').trace ≡ memory m (at t).trace)
      × (pending space (at t').trace ≡ pending space (at t).trace)

  pub quiet-Keeps : (k : ℕ) (u t t' : Trace Syscall) → at t' ≡ at t → Keeps k u t → Keeps k u t'
  quiet-Keeps k u t t' quiet kept =
      subst
        (λ (x : State).
          HasKey k x.file.private_data
          × (memory m x.trace ≡ memory m (at u).trace)
          × (pending space x.trace ≡ pending space (at u).trace))
        (sym quiet) kept

  pub create_handle-Keeps :
      (t : Trace Syscall)
      → ((t : Trace Call) (n : ℕ) → (env t (Call.kzalloc n)).value ≢ 0)
      → is_negative (int_of (other Syscall.open_device)) ≡ false
      → (is_error (create_handle sys t).0 ≡ false) × Keeps 0 t (create_handle sys t).1
  unfolding create_handle replay serve pci_open new_job memory pending
  create_handle-Keeps t allocates opens = ground (arith, allocates (at t).trace 24)

  pub set_key-Keeps :
      (fd : ℤ) (a b k : ℕ) (t : Trace Syscall)
      → HasKey k (at t).file.private_data
      → a < 256
      → b < 256
      → (is_error (set_key fd a b sys t).0 ≡ false) × Keeps (a * 256 + b) t (set_key fd a b sys t).1
  unfolding set_key replay serve pci_unlocked_ioctl job_ioctl memory pending
  set_key-Keeps fd a b k t has ha hb = ground (arith, key_of-bytes a b ha hb)

  pub set_config-Keeps :
      (fd : ℤ) (type : ConfigType) (value k : ℕ) (t : Trace Syscall)
      → HasKey k (at t).file.private_data
      → Keeps k t (set_config fd type value sys t).1
  unfolding set_config replay serve pci_unlocked_ioctl job_ioctl memory pending
  set_config-Keeps fd ConfigType.dmas value k t has = ground arith
  set_config-Keeps fd ConfigType.interrupts value k t has = ground arith

  pub configure-Keeps :
      (fd : ℤ) (config : List (ConfigType × ℕ)) (k : ℕ) (t : Trace Syscall)
      → HasKey k (at t).file.private_data
      → Keeps k t (configure fd config sys t).1
  unfolding configure
  configure-Keeps fd [] k t has = (has, refl, refl)
  configure-Keeps fd ((type, value) ∷ rest) k t has =
      let (kept, fixed, idle) = set_config-Keeps fd type value k t has in
      let (kept', fixed', idle') =
        configure-Keeps fd rest k (set_config fd type value sys t).1 kept in
      (kept', fixed' ∙ fixed, idle' ∙ idle)

  -- What is printed changes nothing.
  pub say_int-quiet :
      (l : Option String) (n : ℤ) (t : Trace Syscall) → at (say_int l n sys t).1 ≡ at t
  unfolding replay serve
  say_int-quiet none n t = refl
  say_int-quiet (some l) n t = refl

  pub say_msg-quiet :
      (l : Option String) (msg : String) (t : Trace Syscall) → at (say_msg l msg sys t).1 ≡ at t
  unfolding replay serve
  say_msg-quiet none msg t = refl
  say_msg-quiet (some l) msg t = refl

  pub say-quiet : (l : Option String) (t : Trace Syscall) → at (say l sys t).1 ≡ at t
  unfolding replay serve
  say-quiet none t = refl
  say-quiet (some l) t = refl

  pub printf_text-quiet :
      (l : String) (addr : ℕ) (t : Trace Syscall)
      → at (call (Syscall.printf_text l addr) sys t).1 ≡ at t
  unfolding replay serve
  printf_text-quiet l addr t = refl

  pub close_handle-quiet :
      (fd : ℤ) (t : Trace Syscall)
      → memory m (at (close_handle fd sys t).1).trace ≡ memory m (at t).trace
  unfolding close_handle replay serve pci_release memory pending
  close_handle-quiet fd t = ground arith

module _ (env : Env Syscall) where
  pub say_int-goes_on : (l : Option String) (n : ℤ) (t : Trace Syscall) → t ⊑ (say_int l n env t).1
  say_int-goes_on none n t = same
  say_int-goes_on (some l) n t = later _ same

  pub say_msg-goes_on :
      (l : Option String) (msg : String) (t : Trace Syscall) → t ⊑ (say_msg l msg env t).1
  say_msg-goes_on none msg t = same
  say_msg-goes_on (some l) msg t = later _ same

  pub say-goes_on : (l : Option String) (t : Trace Syscall) → t ⊑ (say l env t).1
  say-goes_on none t = same
  say-goes_on (some l) t = later _ same

  pub configure-goes_on :
      (fd : ℤ) (config : List (ConfigType × ℕ)) (t : Trace Syscall)
      → t ⊑ (configure fd config env t).1
  unfolding configure
  configure-goes_on fd [] t = same
  configure-goes_on fd ((type, value) ∷ rest) t =
      let t' = (set_config fd type value env t).1 in
      ⊑-trans t t' (configure fd rest env t').1 (set_config-goes_on env fd type value t)
        (configure-goes_on fd rest t')
