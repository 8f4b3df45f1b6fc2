-- ===== src/Demo/Tracker.antt =====
-- The file operations and the attribute of bechmark-test/Demo/part1/sysfs/mem_tracker.c. How sprintf
-- prints a number and how sscanf reads one are parameters.
use cryptodev.Prelude.{
  ℕ, suc, ◌+◌, ◌-◌, ◌%◌, ◌^◌, ℤ, pos, ◌≡◌, Option, none, some, List, [], ◌∷◌, arith,
}
use cryptodev.Effects.{Env, Trace, run, pure, ◌>>◌}
use cryptodev.Demo.Calls.{DemoCall, DemoIo}

-- The globals of the module. `device_opened` is a 32-bit counter.
pub record Tracker : Type 0 where
  pub device_opened : ℕ
  pub command : ℤ

unfoldable pub memtrack_open : Tracker → DemoIo (Tracker × ℤ)
memtrack_open g = do
  run DemoCall.try_module_get
  pure (record g { device_opened = (g.device_opened + 1) % 2 ^ 32 }, pos 0)

unfoldable pub memtrack_release : Tracker → DemoIo (Tracker × ℤ)
memtrack_release g = do
  run DemoCall.module_put
  pure (record g { device_opened = (g.device_opened + 2 ^ 32 - 1) % 2 ^ 32 }, pos 0)

-- Both only print a message.
unfoldable pub memtrack_read : Tracker → DemoIo (Tracker × ℤ)
memtrack_read g = pure (g, pos 0)

unfoldable pub memtrack_write : Tracker → DemoIo (Tracker × ℤ)
memtrack_write g = pure (g, pos 0)

module _ (sprintf : ℤ → List ℕ) (sscanf : List ℕ → Option ℤ) where
  -- The text that the attribute shows; its length is what sprintf returns.
  unfoldable pub memtrack_command_show : Tracker → List ℕ
  memtrack_command_show g = sprintf g.command

  -- A text that is no number leaves the command; the whole text counts as written either way.
  unfoldable pub memtrack_command_set : List ℕ → (count : ℕ) → Tracker → Tracker × ℕ
  memtrack_command_set buf count g = elim (sscanf buf) [
    | none ↦ (g, count)
    | some n ↦ (record g { command = n }, count)
  ]

-- An attribute: who may read and write it, and what reading and writing it do.
pub record Attribute : Type 0 where
  pub mode : ℕ
  pub shows : Tracker → List ℕ
  pub stores : List ℕ → (count : ℕ) → Tracker → Tracker × ℕ

module _ (sprintf : ℤ → List ℕ) (sscanf : List ℕ → Option ℤ) where
  -- 0644 is 420.
  abbrev pub memtrack_command_attribute : Attribute
  memtrack_command_attribute = record {
    mode = 420;
    shows = memtrack_command_show sprintf sscanf;
    stores = memtrack_command_set sprintf sscanf;
  }

  abbrev pub memtrack_attrs : List Attribute
  memtrack_attrs = memtrack_command_attribute ∷ []

  -- If sscanf reads the numbers that sprintf prints, then what was read from an attribute of the group
  -- can be written back, later and by then to any state: it makes the attribute read the same again.
  pub written_back :
      ((n : ℤ) → sscanf (sprintf n) ≡ some n)
      → (count : ℕ) (g later : Tracker)
      → memtrack_command_attribute.shows
          (memtrack_command_attribute.stores (memtrack_command_attribute.shows g) count later).0
        ≡ memtrack_command_attribute.shows g
  unfolding memtrack_command_show memtrack_command_set
  written_back reads count g later = ground (arith, reads g.command)

-- A call of one of the file operations.
pub data Operation : Type 0 where
  open_file release_file read_file write_file : Operation

unfoldable pub operate : Operation → Tracker → DemoIo (Tracker × ℤ)
unfolding memtrack_open memtrack_release memtrack_read memtrack_write
operate Operation.open_file = memtrack_open
operate Operation.release_file = memtrack_release
operate Operation.read_file = memtrack_read
operate Operation.write_file = memtrack_write

unfoldable pub operate_all :
    List Operation → Tracker → Env DemoCall → Trace DemoCall → Tracker × Trace DemoCall
operate_all [] g env t = (g, t)
operate_all (o ∷ os) g env t = let ((g', v), t') = operate o g env t in operate_all os g' env t'

-- How often a trace takes the module, and how often it gives it back.
unfoldable pub gets : Trace DemoCall → ℕ
gets [] = 0
gets (e ∷ t) = elim e.call [ DemoCall.try_module_get ↦ suc (gets t) | _ ↦ gets t ]

unfoldable pub puts : Trace DemoCall → ℕ
puts [] = 0
puts (e ∷ t) = elim e.call [ DemoCall.module_put ↦ suc (puts t) | _ ↦ puts t ]

-- After any sequence of operations the counter has moved by as much as the use of the module has,
-- counted in 32 bits.
pub operate_all-counts :
    (os : List Operation) (g : Tracker) (env : Env DemoCall) (t : Trace DemoCall)
    → let (g', t') = operate_all os g env t in
      (g'.device_opened + puts t' + gets t) % 2 ^ 32 ≡ (g.device_opened + gets t' + puts t) % 2 ^ 32
unfolding operate_all operate gets puts
operate_all-counts [] g env t = omega arith
operate_all-counts (Operation.open_file ∷ os) g env t =
    let ((g', v), t') = memtrack_open g env t in omega (arith, operate_all-counts os g' env t')
operate_all-counts (Operation.release_file ∷ os) g env t =
    let ((g', v), t') = memtrack_release g env t in omega (arith, operate_all-counts os g' env t')
operate_all-counts (Operation.read_file ∷ os) g env t = operate_all-counts os g env t
operate_all-counts (Operation.write_file ∷ os) g env t = operate_all-counts os g env t
