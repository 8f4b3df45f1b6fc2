-- ===== src/Crypter/Settings.antt =====
-- `set_key` and `set_config` of src/crypter.c.
pub mod Laws
use cryptodev.Prelude.{
  ℕ, ◌*◌, ◌/◌, ◌%◌, ◌^◌, ℤ, pos, Bool, true, false, ◌&&◌, List, [], ◌∷◌, ◌==◌, if◌then◌else◌,
  bit_or,
}
use cryptodev.Effects.{call, pure, ◌>>=◌, when◌then◌else◌}
use cryptodev.Driver.Device.{Request, interrupt, nointerrupt, mmio, dma}
use cryptodev.Crypter.Syscalls.{Syscall, SysIo, failed, error, set, unset}

-- The memory of a `uint32_t`, the lowest byte first.
abbrev pub u32_bytes : ℕ → List ℕ
u32_bytes k = (k % 256) ∷ (k / 256 % 256) ∷ (k / 65536 % 256) ∷ (k / 16777216 % 256) ∷ []

-- `key = a; key = key << 8; key = key | b`
abbrev pub key_of : ℕ → ℕ → ℕ
key_of a b = bit_or (a * 2 ^ 8 % 2 ^ 32) b

unfoldable pub set_key : ℤ → (a b : ℕ) → SysIo ℤ
set_key cdev a b = do
  r ← call (Syscall.ioctl cdev Request.set_key___ (u32_bytes (key_of a b)))
  when failed r then pure error else pure (pos 0)

-- `config_t`
pub data ConfigType : Type 0 where
  interrupts dmas : ConfigType

abbrev is_dma : ConfigType → Bool
is_dma ConfigType.dmas = true
is_dma ConfigType.interrupts = false

abbrev is_interrupt : ConfigType → Bool
is_interrupt ConfigType.interrupts = true
is_interrupt ConfigType.dmas = false

-- The byte that the `if` ladder picks.
abbrev pub config_byte : ConfigType → ℕ → ℕ
config_byte type value =
    if is_dma type && value == set
    then dma
    else if is_dma type && value == unset
    then mmio
    else if is_interrupt type && value == set
    then interrupt
    else nointerrupt

unfoldable pub set_config : ℤ → ConfigType → ℕ → SysIo ℤ
set_config cdev type value = do
  r ← call (Syscall.ioctl cdev Request.set_config (config_byte type value ∷ []))
  when failed r then pure error else pure (pos 0)
