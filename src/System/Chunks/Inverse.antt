-- ===== src/System/Chunks/Inverse.antt =====
-- A function applied to the pieces of a range of memory, and then its inverse.
use cryptodev.Prelude.{
  ℕ, zero, suc, ◌+◌, ◌≤◌, ◌<◌, ◌≡◌, ◌∙◌, ap, subst, sym, refl, inl, inr, List, [], ◌∷◌, ltb,
  Bool-cases, arith,
}
use cryptodev.Memory.{Bytes, length, take, read, poke}
use cryptodev.Memory.Laws.{
  length-read, take-length, poke_comm, read-poke, poke-read-poke, read-poke_outside,
}
use cryptodev.Crypter.Transfer.{count_of, rest_of}
use cryptodev.System.Chunks.{chunk, chunkwise}
use cryptodev.System.Chunks.Pieces.{chunk_lem}

abbrev pub IsBytes : List ℕ → Type 0
IsBytes [] = Unit
IsBytes (b ∷ bs) = (b < 256) × IsBytes bs

read-IsBytes : (m : Bytes) (addr n : ℕ) → ((q : ℕ) → m q < 256) → IsBytes (read m addr n)
unfolding read
read-IsBytes m addr zero small = tt
read-IsBytes m addr (suc n) small = (small addr, read-IsBytes m (addr + 1) n small)

module _ (f : List ℕ → List ℕ) (same : (bs : List ℕ) → length (f bs) ≡ length bs) where
  -- What stands below the range stays, and is not read.
  poke-chunk :
      (addr n a : ℕ) (bs : List ℕ) (m : Bytes)
      → a + length bs ≤ addr
      → chunk f addr n (poke a bs m) ≡ poke a bs (chunk f addr n m)
  poke-chunk addr n a bs m apart =
      rw (read-poke_outside addr n a bs m apart)
        (poke_comm addr a (take n (f (read m addr n))) bs m apart)

  poke-chunkwise :
      (k addr len a : ℕ) (bs : List ℕ) (m : Bytes)
      → a + length bs ≤ addr
      → chunkwise k f addr len (poke a bs m) ≡ poke a bs (chunkwise k f addr len m)
  unfolding chunkwise
  poke-chunkwise zero addr len a bs m apart = refl
  poke-chunkwise (suc k) addr len a bs m apart = elim (Bool-cases (ltb 0 (rest_of len))) [
    | inl more ↦
        rw (more, poke-chunk addr (count_of len) a bs m apart)
          (poke-chunkwise k (addr + count_of len) (rest_of len) a bs _ (omega arith))
    | inr last ↦ rw last (poke-chunk addr (count_of len) a bs m apart)
  ]

module _ (f g : List ℕ → List ℕ) (same : (bs : List ℕ) → length (f bs) ≡ length bs)
    (inverse : (bs : List ℕ) → IsBytes bs → g (f bs) ≡ bs) where
  -- The inverse puts back the piece that was changed, whatever else happened.
  chunk-poke :
      (addr n : ℕ) (m later : Bytes)
      → ((q : ℕ) → m q < 256)
      → chunk g addr n (poke addr (f (read m addr n)) later)
        ≡ poke addr (read m addr n) (poke addr (f (read m addr n)) later)
  chunk-poke addr n m later small =
      let bs = f (read m addr n) in
      let back : read (poke addr bs later) addr n ≡ bs =
        subst (λ k. read (poke addr bs later) addr k ≡ bs)
          (same (read m addr n) ∙ length-read m addr n) (read-poke addr bs later) in
      rw
        (
          back,
          inverse (read m addr n) (read-IsBytes m addr n small),
          take-length n (read m addr n) (length-read m addr n),
        )
        refl

  undo_more :
      (k addr n rest : ℕ) (m : Bytes)
      → ((q : ℕ) → m q < 256)
      → chunk g addr n (chunkwise k f (addr + n) rest (chunk f addr n m))
        ≡ chunkwise k f (addr + n) rest m
  undo_more k addr n rest m small =
      let old = read m addr n in
      let fits : length (f old) ≡ n = same old ∙ length-read m addr n in
      let later = chunkwise k f (addr + n) rest in
      ap (λ x. chunk g addr n (later x)) (chunk_lem f same addr n m)
      ∙ ap (chunk g addr n) (poke-chunkwise f same k (addr + n) rest addr (f old) m (omega arith))
      ∙ chunk-poke addr n m (later m) small
      ∙ ap (poke addr old)
          (sym (poke-chunkwise f same k (addr + n) rest addr (f old) m (omega arith)))
      ∙ sym (
          poke-chunkwise f same k (addr + n) rest addr old (poke addr (f old) m)
            (omega (arith, length-read m addr n)))
      ∙ ap later (poke-read-poke addr n (f old) m (omega arith))

  pub chunkwise-chunkwise :
      (k addr len : ℕ) (m : Bytes)
      → ((q : ℕ) → m q < 256)
      → chunkwise k g addr len (chunkwise k f addr len m) ≡ m
  unfolding chunkwise
  chunkwise-chunkwise zero addr len m small = refl
  chunkwise-chunkwise (suc k) addr len m small =
      let n = count_of len in
      let old = read m addr n in
      elim (Bool-cases (ltb 0 (rest_of len))) [
        | inl more ↦
            rw (more, undo_more k addr n (rest_of len) m small)
              (chunkwise-chunkwise k (addr + n) (rest_of len) m small)
        | inr last ↦
            rw (last, chunk_lem f same addr n m, chunk-poke addr n m m small)
              (poke-read-poke addr n (f old) m (omega (arith, same old, length-read m addr n)))
      ]
