-- ===== src/Memory.antt =====
-- The bytes of a process by their address: what the driver reads with copy_from_user and writes with
-- copy_to_user.
pub mod Laws
use cryptodev.Prelude.{ℕ, zero, suc, ◌+◌, ◌==◌, List, [], ◌∷◌, if◌then◌else◌}

abbrev pub Bytes : Type 0
Bytes = ℕ → ℕ

abbrev pub length : List ℕ → ℕ
length [] = 0
length (b ∷ bs) = suc (length bs)

abbrev pub take : ℕ → List ℕ → List ℕ
take zero bs = []
take (suc n) [] = []
take (suc n) (b ∷ bs) = b ∷ take n bs

-- The `n` bytes from an address on.
unfoldable pub read : Bytes → (addr n : ℕ) → List ℕ
read m addr zero = []
read m addr (suc n) = m addr ∷ read m (addr + 1) n

-- The memory with some bytes put at an address.
unfoldable pub poke : (addr : ℕ) → List ℕ → Bytes → Bytes
poke addr [] m q = m q
poke addr (b ∷ bs) m q = if q == addr then b else poke (addr + 1) bs m q
