-- ===== src/Crypter/Transfer/Tiling.antt =====
-- The pieces that `encrypt` and `decrypt` of src/crypter.c write, against the caller's data.
use cryptodev.Prelude.{
  ℕ, zero, suc, ◌+◌, ◌-◌, ◌/◌, ◌%◌, ◌^◌, ◌≤◌, ◌<◌, ℤ, pos, ap, ◌≡◌, ◌⊎◌, inl, inr, true, false,
  Option, some, List, [], ◌∷◌, ◌++◌, append_assoc, append-nil, ltb, ◌==◌, arith, if◌then◌else◌,
  Bool-cases, ◌∙◌, sym, refl,
}
use mathlib.Core.Path.{subst, subst₂}
use cryptodev.Effects.{Env, Trace, Answer, call}
use cryptodev.Driver.Device.{Request, mmap, unmmap, buffersize}
use cryptodev.Crypter.Syscalls.{Syscall, failed_long, error}
use cryptodev.Crypter.Transfer.{write_chunks, count_of, rest_of, transfer}

-- The pieces that a trace writes, in the order of the calls.
unfoldable pub pieces : Trace Syscall → List (ℕ × ℕ)
pieces [] = []
pieces (e ∷ t) = elim e.call [
  | Syscall.write fd addr count ↦ pieces t ++ (addr, count) ∷ []
  | _ ↦ pieces t
]

-- Pieces of at most 32768 bytes, each beginning where the one before ends, from `addr` on, that are
-- `length` bytes in all.
abbrev pub Tiles : (addr length : ℕ) → List (ℕ × ℕ) → Type 0
Tiles addr length [] = length ≡ 0
Tiles addr length ((a, n) ∷ cs) =
    (a ≡ addr) × (n ≤ 32768) × (n ≤ length) × Tiles (addr + n) (length - n) cs

-- The same, and something may be missing at the end.
abbrev pub TilesPart : (addr length : ℕ) → List (ℕ × ℕ) → Type 0
TilesPart addr length [] = Unit
TilesPart addr length ((a, n) ∷ cs) =
    (a ≡ addr) × (n ≤ 32768) × (n ≤ length) × TilesPart (addr + n) (length - n) cs

-- A run from `t` on has ended with 0 or ERROR. The pieces that it wrote, `cs`, tile the data from
-- the front, and all of the data if it ended with 0.
pub record Covered (addr length : ℕ) (t : Trace Syscall) (out : Option ℤ × Trace Syscall)
    : Type 0 where
  pub cs : List (ℕ × ℕ)
  pub more : pieces out.1 ≡ pieces t ++ cs
  pub part : TilesPart addr length cs
  pub whole : out.0 ≡ some (pos 0) → Tiles addr length cs
  pub ends : (out.0 ≡ some (pos 0)) ⊎ (out.0 ≡ some error)

-- One piece, and then what follows it.
Covered-cons :
    (addr length addr' rest n : ℕ) (t t' : Trace Syscall) {out : Option ℤ × Trace Syscall}
    → addr' ≡ addr + n
    → rest ≡ length - n
    → pieces t' ≡ pieces t ++ (addr, n) ∷ []
    → n ≤ 32768
    → n ≤ length
    → Covered addr' rest t' out
    → Covered addr length t out
Covered-cons addr length addr' rest n t t' ea er ep small fits w = record {
  cs = (addr, n) ∷ w.cs;
  more = w.more ∙ ap (λ l. l ++ w.cs) ep ∙ append_assoc (pieces t) ((addr, n) ∷ []) w.cs;
  part = (refl, small, fits, subst₂ (λ a l. TilesPart a l w.cs) ea er w.part);
  whole = λ e. (refl, small, fits, subst₂ (λ a l. Tiles a l w.cs) ea er (w.whole e));
  ends = w.ends;
}

Covered-nothing :
    (addr length : ℕ) (t t' : Trace Syscall)
    → pieces t' ≡ pieces t
    → Covered addr length t (some error, t')
Covered-nothing addr length t t' e = record {
  cs = [];
  more = e ∙ sym (append-nil (pieces t));
  part = tt;
  whole = λ z. ground arith;
  ends = inr refl;
}

Covered-from :
    (addr length : ℕ) (t t' : Trace Syscall) {out : Option ℤ × Trace Syscall}
    → pieces t' ≡ pieces t
    → Covered addr length t' out
    → Covered addr length t out
Covered-from addr length t t' e w = record {
  cs = w.cs;
  more = w.more ∙ ap (λ l. l ++ w.cs) e;
  part = w.part;
  whole = w.whole;
  ends = w.ends;
}

module _ (env : Env Syscall) (fd : ℤ) where
  write_chunks-more :
      (fuel addr length : ℕ) (t : Trace Syscall)
      → failed_long (env t (Syscall.write fd addr (count_of length))) ≡ false
      → ltb 0 (rest_of length) ≡ true
      → write_chunks (suc fuel) fd addr length env t
        ≡ write_chunks fuel fd
            ((addr + count_of length) % 2 ^ 64)
            (rest_of length)
            env
            (call (Syscall.write fd addr (count_of length)) env t).1
  unfolding write_chunks
  write_chunks-more fuel addr length t good more = ground arith

  write_chunks-Covered :
      (fuel addr length : ℕ) (t : Trace Syscall)
      → length / buffersize < fuel
      → addr + length < 2 ^ 64
      → Covered addr length t (write_chunks fuel fd addr length env t)
  unfolding write_chunks pieces
  write_chunks-Covered zero addr length t h b = elim h [ ]
  write_chunks-Covered (suc fuel) addr length t h b =
      let (w, t') = call (Syscall.write fd addr (count_of length)) env t in
      elim (Bool-cases (failed_long w)) [
        | inl bad ↦ record {
          cs = (addr, count_of length) ∷ [];
          more = ground arith;
          part = ground arith;
          whole = ground arith;
          ends = ground arith;
        }
        | inr good ↦ elim (Bool-cases (ltb 0 (rest_of length))) [
          | inl further ↦
              subst (Covered addr length t)
                (sym (write_chunks-more fuel addr length t good further))
                (Covered-cons addr length _ _ (count_of length) t t' (ground arith) (ground arith)
                  refl (ground arith) (ground arith)
                  (write_chunks-Covered fuel _ _ t' (ground arith) (ground arith)))
          | inr last ↦ record {
            cs = (addr, count_of length) ∷ [];
            more = ground arith;
            part = ground arith;
            whole = ground arith;
            ends = ground arith;
          }
        ]
      ]

  abbrev after_encryp : ℕ → Trace Syscall → Answer × Trace Syscall
  after_encryp direction = call (Syscall.ioctl fd Request.set_encryp (direction ∷ [])) env

  abbrev after_mmap : (direction is_mapped : ℕ) → Trace Syscall → Answer × Trace Syscall
  after_mmap direction is_mapped t =
      call (Syscall.ioctl fd Request.set_mmap__ ((if is_mapped == 0 then unmmap else mmap) ∷ []))
        env (after_encryp direction t).1

  -- Where `transfer` ends, or goes on.
  transfer-cases :
      (direction addr length is_mapped : ℕ) (t : Trace Syscall)
      → let t1 = (after_encryp direction t).1 in
        let t2 = (after_mmap direction is_mapped t).1 in
        (transfer direction fd addr length is_mapped env t ≡ (some error, t1))
        ⊎ ((transfer direction fd addr length is_mapped env t ≡ (some error, t2))
            ⊎ (transfer direction fd addr length is_mapped env t
                ≡ write_chunks (length / buffersize + 1) fd addr length env t2))
  unfolding transfer
  transfer-cases direction addr length is_mapped t = ground arith

  -- `encrypt` (direction 50) and `decrypt` (60) return, with 0 or with ERROR. The pieces that they
  -- write are at most 32768 bytes each, begin at the caller's address, and each begins where the
  -- one before ends; if the result is 0 they are exactly the caller's data. The data must not run
  -- over the end of the address space.
  pub transfer_tiles :
      (direction addr length is_mapped : ℕ) (t : Trace Syscall)
      → addr + length < 2 ^ 64
      → Covered addr length t (transfer direction fd addr length is_mapped env t)
  unfolding pieces
  transfer_tiles direction addr length is_mapped t b =
      let t1 = (after_encryp direction t).1 in
      let t2 = (after_mmap direction is_mapped t).1 in
      elim (transfer-cases direction addr length is_mapped t) [
        | inl e ↦ subst (Covered addr length t) (sym e) (Covered-nothing addr length t t1 refl)
        | inr (inl e) ↦
            subst (Covered addr length t) (sym e) (Covered-nothing addr length t t2 refl)
        | inr (inr e) ↦ subst (Covered addr length t) (sym e) (
            Covered-from addr length t t2 refl
              (write_chunks-Covered (length / buffersize + 1) addr length t2 (omega arith) b))
      ]
