-- ===== src/Driver/Ioctl/Laws.antt =====
-- What each request of `pci_unlocked_ioctl` changes, and what it leaves alone.
use cryptodev.Prelude.{
  ℕ, pos, neg, ◌≡◌, ◌≢◌, Bool, true, false, ◌&&◌, ◌||◌, List, ◌∷◌, ◌==◌, if◌then◌else◌, arith,
}
use cryptodev.Effects.{Env, Trace, event}
use cryptodev.Kernel.{Call}
use cryptodev.Kernel.Errno.{eagain, einval}
use cryptodev.Driver.Device.{Job, Request, set_key___, set_config, set_encryp, set_mmap__, other}
use cryptodev.Driver.Ioctl.{u8_at, u32_at, job_ioctl}

abbrev is_config : Request → Bool
is_config set_config = true
is_config _ = false

abbrev is_encryp : Request → Bool
is_encryp set_encryp = true
is_encryp _ = false

abbrev is_mmap : Request → Bool
is_mmap set_mmap__ = true
is_mmap _ = false

-- A flag that one byte of a request sets and another clears.
abbrev flag : Bool → (set clear : ℕ) → ℕ → Bool → Bool
flag here set clear b old =
    if here && b == set then true else if here && b == clear then false else old

-- The bytes that a request takes.
abbrev takes : Request → ℕ → Bool
takes set_key___ b = true
takes set_config b = b == 10 || b == 20 || b == 30 || b == 40
takes set_encryp b = b == 50 || b == 60
takes set_mmap__ b = b == 70 || b == 80
takes other b = false

-- How many bytes a request copies.
abbrev size_of : Request → ℕ
size_of set_key___ = 4
size_of _ = 1

abbrev key_after : Request → List ℕ → ℕ → ℕ
key_after set_key___ bs old = u32_at bs
key_after _ bs old = old

-- A request whose argument can be read. Byte 30 of SET_CONFIG turns MMIO on and 40 off, 10 turns
-- interrupts on and 20 off; byte 50 of SET_ENCRYP sets the direction to encryption and 60 to
-- decryption; byte 80 of SET_MMAP__ marks the caller's memory as not mapped and 70 as mapped. Any
-- other byte is refused with -EINVAL and changes nothing. SET_KEY___ stores four bytes, the lowest
-- first. No request changes the length or the buffer of the job.
pub ioctl_sets :
    (env : Env Call) (cmd : Request) (arg : ℕ) (job : Job) (t : Trace Call) (bs : List ℕ)
    → env t (Call.copy_from_user arg (size_of cmd)) ≡ record { value = 0; bytes = bs }
    → let (job', v) = (job_ioctl cmd arg job env t).0 in
      let b = u8_at bs in
      (job'.is_m ≡ flag (is_config cmd) 30 40 b job.is_m)
      × (job'.is_i ≡ flag (is_config cmd) 10 20 b job.is_i)
      × (job'.is_e ≡ flag (is_encryp cmd) 50 60 b job.is_e)
      × (job'.is_not_mm ≡ flag (is_mmap cmd) 80 70 b job.is_not_mm)
      × (job'.keyab ≡ key_after cmd bs job.keyab)
      × (job'.len ≡ job.len)
      × (job'.msg ≡ job.msg)
      × (v ≡ (if takes cmd b then pos 0 else neg einval))
unfolding job_ioctl
ioctl_sets env cmd arg job t bs read = ground arith

-- A request whose argument cannot be read returns -EAGAIN and leaves the job as it was, but for
-- SET_KEY___, which has already overwritten the key.
pub ioctl_faults :
    (env : Env Call) (cmd : Request) (arg : ℕ) (job : Job) (t : Trace Call)
    → cmd ≢ other
    → (env t (Call.copy_from_user arg (size_of cmd))).value ≢ 0
    → let a = env t (Call.copy_from_user arg (size_of cmd)) in
      job_ioctl cmd arg job env t ≡ (
        (record job { keyab = key_after cmd a.bytes job.keyab }, neg eagain),
        event (Call.copy_from_user arg (size_of cmd)) a ∷ t,
      )
unfolding job_ioctl
ioctl_faults env cmd arg job t known fault = ground arith
