-- ===== src/System/Chunks/Pieces.antt =====
-- What stands where after a function was applied to the pieces of a range of memory.
use cryptodev.Prelude.{
  ℕ, zero, suc, ◌+◌, ◌-◌, ◌*◌, ◌/◌, ◌≤◌, ◌<◌, ◌≡◌, ◌⊎◌, ◌∙◌, ap, subst, refl, true, inl, inr, List,
  ltb, Bool-cases, arith,
}
use cryptodev.Memory.{Bytes, length, read, poke}
use cryptodev.Memory.Laws.{
  length-read, take-length, poke-outside, read-congr, read-poke, read-poke_outside,
}
use cryptodev.Crypter.Transfer.{count_of, rest_of}
use cryptodev.System.Chunks.{chunk, chunkwise}

module _ (f : List ℕ → List ℕ) (same : (bs : List ℕ) → length (f bs) ≡ length bs) where
  pub chunk_lem : (addr n : ℕ) (m : Bytes) → chunk f addr n m ≡ poke addr (f (read m addr n)) m
  chunk_lem addr n m =
      ap (λ bs. poke addr bs m)
        (take-length n (f (read m addr n)) (same (read m addr n) ∙ length-read m addr n))

  length-piece : (m : Bytes) (addr n : ℕ) → length (f (read m addr n)) ≡ n
  length-piece m addr n = same (read m addr n) ∙ length-read m addr n

  chunk-outside :
      (addr n : ℕ) (m : Bytes) (q : ℕ) → (q < addr) ⊎ (addr + n ≤ q) → chunk f addr n m q ≡ m q
  chunk-outside addr n m q o =
      rw (chunk_lem addr n m)
        (poke-outside addr (f (read m addr n)) m q (ground (arith, o, length-piece m addr n)))

  pub chunkwise-outside :
      (k addr len : ℕ) (m : Bytes) (q : ℕ)
      → (q < addr) ⊎ (addr + len ≤ q)
      → chunkwise k f addr len m q ≡ m q
  unfolding chunkwise
  chunkwise-outside zero addr len m q o = refl
  chunkwise-outside (suc k) addr len m q o =
      let n = count_of len in
      let here : chunk f addr n m q ≡ m q = chunk-outside addr n m q (ground arith) in
      elim (Bool-cases (ltb 0 (rest_of len))) [
        | inl more ↦ rw more (
            chunkwise-outside k (addr + n) (rest_of len) (chunk f addr n m) q (ground arith) ∙ here)
        | inr last ↦ rw last here
      ]

  read-chunk : (addr n : ℕ) (m : Bytes) → read (chunk f addr n m) addr n ≡ f (read m addr n)
  read-chunk addr n m = rw (chunk_lem addr n m) (
      subst (λ k. read (poke addr (f (read m addr n)) m) addr k ≡ f (read m addr n))
        (length-piece m addr n) (read-poke addr (f (read m addr n)) m))

  first_piece :
      (k addr n rest : ℕ) (m : Bytes)
      → read (chunkwise k f (addr + n) rest (chunk f addr n m)) addr n ≡ f (read m addr n)
  first_piece k addr n rest m =
      read-congr (chunkwise k f (addr + n) rest (chunk f addr n m)) (chunk f addr n m) addr n
        (λ q low high. chunkwise-outside k (addr + n) rest (chunk f addr n m) q (inl high))
      ∙ read-chunk addr n m

  read-chunk_beyond :
      (addr n p l : ℕ) (m : Bytes) → addr + n ≤ p → read (chunk f addr n m) p l ≡ read m p l
  read-chunk_beyond addr n p l m beyond =
      rw (chunk_lem addr n m)
        (read-poke_outside p l addr (f (read m addr n)) m (omega (arith, length-piece m addr n)))

  -- Piece number `i` stands for the function of what stood there.
  pub read-chunkwise :
      (k addr len i : ℕ) (m : Bytes)
      → len / 32768 < k
      → i * 32768 < len
      → let n = count_of (len - i * 32768) in
        read (chunkwise k f addr len m) (addr + i * 32768) n ≡ f (read m (addr + i * 32768) n)
  unfolding chunkwise
  read-chunkwise zero addr len i m enough inside = elim enough [ ]
  read-chunkwise (suc k) addr len zero m enough inside =
      let start : addr + 0 ≡ addr = omega arith in
      let whole : len - 0 ≡ len = omega arith in
      elim (Bool-cases (ltb 0 (rest_of len))) [
        | inl more ↦ rw (more, start, whole) (first_piece k addr (count_of len) (rest_of len) m)
        | inr last ↦ rw (last, start, whole) (read-chunk addr (count_of len) m)
      ]
  read-chunkwise (suc k) addr len (suc i) m enough inside =
      let more : ltb 0 (rest_of len) ≡ true = ground arith in
      let place : addr + suc i * 32768 ≡ addr + count_of len + i * 32768 = ground arith in
      let rest : len - suc i * 32768 ≡ rest_of len - i * 32768 = ground arith in
      let n = count_of (rest_of len - i * 32768) in
      rw (more, place, rest)
        (read-chunkwise k (addr + count_of len) (rest_of len) i (chunk f addr (count_of len) m)
            (ground arith) (ground arith)
          ∙ ap f (
              read-chunk_beyond addr (count_of len) (addr + count_of len + i * 32768) n m
                (omega arith)))
