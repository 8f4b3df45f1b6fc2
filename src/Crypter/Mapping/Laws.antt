-- ===== src/Crypter/Mapping/Laws.antt =====
-- `map_card` and `unmap_card` of src/crypter.c: the addresses that they map and unmap.
use cryptodev.Prelude.{
  ℕ, ◌+◌, ◌-◌, ◌%◌, ◌^◌, ◌≤◌, ◌<◌, ℤ, ◌≡◌, ◌≢◌, Option, none, some, [], ◌∷◌, arith,
}
use cryptodev.Effects.{Env, Trace}
use cryptodev.Crypter.Syscalls.{Syscall}
use cryptodev.Crypter.Mapping.{card_size, map_card, unmap_card}

-- The area that a trace unmapped last.
pub last_munmap : Trace Syscall → Option (ℕ × ℕ)
last_munmap [] = none
last_munmap (e ∷ t) = elim e.call [
  | Syscall.munmap addr length ↦ some (addr, length)
  | _ ↦ last_munmap t
]

module _ (env : Env Syscall) (fd : ℤ) (size : ℕ) (t : Trace Syscall) where
  abbrev base : ℕ
  base = (env t (Syscall.mmap fd card_size)).value

  -- If `map_card` returns an address and not NULL, the size is at most 1 MB, the address is 0xA8
  -- past the base that the system mapped, and `unmap_card` of it unmaps the whole area, from that
  -- base on. The system's address is below 2^64.
  pub map_unmap :
      (u : Trace Syscall)
      → base < 2 ^ 64
      → (map_card fd size env t).0 ≢ 0
      → (size ≤ 2 ^ 20)
        × ((map_card fd size env t).0 ≡ (base + 0xA8) % 2 ^ 64)
        × (last_munmap (unmap_card (map_card fd size env t).0 env u).1 ≡ some (base, 2 ^ 20))
  unfolding map_card unmap_card last_munmap
  map_unmap u small found = ground arith

  -- If mmap fails, which it reports by the address 2^64 - 1, `map_card` returns the address 0xA7
  -- and not NULL.
  pub map_failure_missed : size ≤ 2 ^ 20 → base ≡ 2 ^ 64 - 1 → (map_card fd size env t).0 ≡ 0xA7
  unfolding map_card
  map_failure_missed small failed = ground arith

  -- The card's memory is too small for what is asked if the size is within 0xA8 bytes of 1 MB, and
  -- `map_card` returns an address all the same: the data would end past the mapped area.
  pub map_overruns :
      2 ^ 20 - 0xA8 < size
      → size ≤ 2 ^ 20
      → 0 < base
      → base + 2 ^ 20 ≤ 2 ^ 64
      → ((map_card fd size env t).0 ≡ base + 0xA8)
        × (base + 2 ^ 20 < (map_card fd size env t).0 + size)
  unfolding map_card
  map_overruns large small found fits = ground arith
