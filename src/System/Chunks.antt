-- ===== src/System/Chunks.antt =====
-- What encrypt and decrypt of src/crypter.c are for: a function of the caller's bytes, applied to one
-- piece of at most 32768 bytes after the other.
pub mod Inverse
pub mod Pieces
use cryptodev.Prelude.{ℕ, zero, suc, ◌+◌, List, ltb, if◌then◌else◌}
use cryptodev.Memory.{Bytes, take, read, poke}
use cryptodev.Crypter.Transfer.{count_of, rest_of}

abbrev pub chunk : (List ℕ → List ℕ) → (addr n : ℕ) → Bytes → Bytes
chunk f addr n m = poke addr (take n (f (read m addr n))) m

-- With as many pieces as the fuel allows.
unfoldable pub chunkwise : (fuel : ℕ) → (List ℕ → List ℕ) → (addr length : ℕ) → Bytes → Bytes
chunkwise zero f addr length m = m
chunkwise (suc fuel) f addr length m =
    let n = count_of length in
    let m' = chunk f addr n m in
    let later = chunkwise fuel f (addr + n) (rest_of length) m' in
    if ltb 0 (rest_of length) then later else m'
