-- ===== src/Memory/Laws.antt =====
-- Reads and writes of memory, inside and outside of what was written.
use cryptodev.Prelude.{
  ℕ, zero, suc, ◌+◌, ◌≤◌, ◌<◌, ◌≡◌, ◌⊎◌, inl, inr, refl, sym, ltb, leb, ◌||◌, List, [], ◌∷◌, ap₂,
  ◌∙◌, fun_ext, Bool-cases, arith,
}
use cryptodev.Memory.{Bytes, length, take, read, poke}

pub length-read : (m : Bytes) (addr n : ℕ) → length (read m addr n) ≡ n
unfolding read
length-read m addr zero = refl
length-read m addr (suc n) = omega (arith, length-read m (addr + 1) n)

pub take-length : (n : ℕ) (bs : List ℕ) → length bs ≡ n → take n bs ≡ bs
take-length zero [] e = refl
take-length zero (b ∷ bs) e = absurd (omega arith)
take-length (suc n) [] e = refl
take-length (suc n) (b ∷ bs) e = ground (arith, take-length n bs)

pub poke-outside :
    (addr : ℕ) (bs : List ℕ) (m : Bytes) (q : ℕ)
    → (q < addr) ⊎ (addr + length bs ≤ q)
    → poke addr bs m q ≡ m q
unfolding poke
poke-outside addr [] m q o = refl
poke-outside addr (b ∷ bs) m q o = ground (arith, poke-outside (addr + 1) bs m q)

-- Two memories that agree on a range read the same there.
pub read-congr :
    (m m' : Bytes) (addr n : ℕ)
    → ((q : ℕ) → addr ≤ q → q < addr + n → m q ≡ m' q)
    → read m addr n ≡ read m' addr n
unfolding read
read-congr m m' addr zero agree = refl
read-congr m m' addr (suc n) agree =
    ap₂ ◌∷◌ (agree addr (omega arith) (omega arith))
      (read-congr m m' (addr + 1) n (λ q low high. agree q (omega arith) (omega arith)))

-- Where two memories agree they still do after the same write.
pub poke-congr :
    (addr : ℕ) (bs : List ℕ) (m m' : Bytes) (q : ℕ)
    → m q ≡ m' q
    → poke addr bs m q ≡ poke addr bs m' q
unfolding poke
poke-congr addr [] m m' q e = e
poke-congr addr (b ∷ bs) m m' q e = ground (arith, poke-congr (addr + 1) bs m m' q e)

-- Inside of what is written the old memory does not matter.
pub poke-inside :
    (addr : ℕ) (bs : List ℕ) (m m' : Bytes) (q : ℕ)
    → addr ≤ q
    → q < addr + length bs
    → poke addr bs m q ≡ poke addr bs m' q
unfolding poke
poke-inside addr [] m m' q low high = absurd (omega arith)
poke-inside addr (b ∷ bs) m m' q low high = ground (arith, poke-inside (addr + 1) bs m m' q)

pub read-poke : (addr : ℕ) (bs : List ℕ) (m : Bytes) → read (poke addr bs m) addr (length bs) ≡ bs
unfolding read poke
read-poke addr [] m = refl
read-poke addr (b ∷ bs) m =
    let later : read (poke addr (b ∷ bs) m) (addr + 1) (length bs) ≡ bs =
      read-congr (poke addr (b ∷ bs) m) (poke (addr + 1) bs m) (addr + 1) (length bs)
        (λ q low high. ground arith)
      ∙ read-poke (addr + 1) bs m in
    ap₂ ◌∷◌ (ground arith) later

-- To write back what was read changes nothing.
pub poke-read : (addr n : ℕ) (m : Bytes) (q : ℕ) → poke addr (read m addr n) m q ≡ m q
unfolding read poke
poke-read addr zero m q = refl
poke-read addr (suc n) m q = ground (arith, poke-read (addr + 1) n m q)

-- Writes to disjoint places can change places.
pub poke_comm :
    (a addr : ℕ) (xs bs : List ℕ) (m : Bytes)
    → addr + length bs ≤ a
    → poke a xs (poke addr bs m) ≡ poke addr bs (poke a xs m)
poke_comm a addr xs bs m apart = fun_ext (λ q. elim (Bool-cases (ltb q a)) [
  | inl below ↦
      poke-outside a xs (poke addr bs m) q (inl (ground arith))
      ∙ sym (poke-congr addr bs (poke a xs m) m q (poke-outside a xs m q (inl (ground arith))))
  | inr above ↦
      poke-congr a xs (poke addr bs m) m q (poke-outside addr bs m q (inr (ground arith)))
      ∙ sym (poke-outside addr bs (poke a xs m) q (inr (ground arith)))
])

-- To write back what was there before undoes a write.
pub poke-read-poke :
    (addr n : ℕ) (bs : List ℕ) (m : Bytes)
    → length bs ≤ n
    → poke addr (read m addr n) (poke addr bs m) ≡ m
poke-read-poke addr n bs m fits = fun_ext (λ q. elim (Bool-cases (ltb q addr || leb (addr + n) q)) [
  | inl outside ↦
      poke-outside addr (read m addr n) (poke addr bs m) q (ground (arith, length-read m addr n))
      ∙ poke-outside addr bs m q (ground arith)
  | inr inside ↦
      poke-inside addr (read m addr n) (poke addr bs m) m q (ground arith)
        (ground (arith, length-read m addr n))
      ∙ poke-read addr n m q
])

-- A read beyond a write.
pub read-poke_outside :
    (a n addr : ℕ) (bs : List ℕ) (m : Bytes)
    → addr + length bs ≤ a
    → read (poke addr bs m) a n ≡ read m a n
read-poke_outside a n addr bs m apart =
    read-congr (poke addr bs m) m a n (λ q low high. poke-outside addr bs m q (inr (omega arith)))
