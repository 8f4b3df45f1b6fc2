-- ===== src/Bench/Mapped/Work.antt =====
-- What the benchmarks on mapped memory have the card work on.
use Prim.Native.String.{String}
use cryptodev.Prelude.{
  ℕ, zero, suc, ◌+◌, ◌*◌, ◌%◌, ◌^◌, ◌≤◌, ℤ, ◌≡◌, Bool, true, false, List, [], ◌∷◌, ◌++◌,
  append_assoc, append-nil, sym, ◌∙◌, ap, refl, arith, if◌then◌else◌,
}
use cryptodev.Effects.{Env, Trace, call, run, when◌then◌else◌}
use cryptodev.Driver.Device.{Request}
use cryptodev.Crypter.Syscalls.{Syscall}
use cryptodev.Crypter.Transfer.{write_chunks, transfer, encrypt, decrypt}
use cryptodev.Bench.{chunk_addr}
use cryptodev.Bench.Laws.{Works}
use cryptodev.Bench.Mapped.{print_chars, print_chunk, shown_round, plain_round, mapped_chunks}

-- A call of strncpy, or a write to the card in a direction, which is the byte of the last request for
-- one: 50 to encrypt and 60 to decrypt, and 0 where there was none.
pub data Work : Type 0 where
  strncpy : (dst src n : ℕ) → Work
  work_on : (direction addr n : ℕ) → Work

abbrev first_of : List ℕ → ℕ
first_of [] = 0
first_of (b ∷ bs) = b

unfoldable pub direction_of : Trace Syscall → ℕ
direction_of [] = 0
direction_of (e ∷ t) = elim e.call [
  | Syscall.ioctl fd request bytes ↦ elim request [
    | Request.set_encryp ↦ first_of bytes
    | _ ↦ direction_of t
  ]
  | _ ↦ direction_of t
]

-- The works of a trace, in the order of the calls.
unfoldable pub works_of : Trace Syscall → List Work
works_of [] = []
works_of (e ∷ t) = elim e.call [
  | Syscall.strncpy dst src n ↦ works_of t ++ Work.strncpy dst src n ∷ []
  | Syscall.write fd addr n ↦ works_of t ++ Work.work_on (direction_of t) addr n ∷ []
  | _ ↦ works_of t
]

-- What one round makes of a chunk, and all rounds.
abbrev pub runs : Bool → ℕ → List Work
runs true device =
    Work.work_on 50 device 4096 ∷ Work.work_on 60 device 4096 ∷ Work.work_on 50 device 4096 ∷ []
runs false device = Work.work_on 50 device 4096 ∷ Work.work_on 60 device 4096 ∷ []

unfoldable pub mapped_rounds : Bool → (n chunk buffer device : ℕ) → List Work
mapped_rounds shown zero chunk buffer device = []
mapped_rounds shown (suc n) chunk buffer device =
    Work.strncpy device (buffer + chunk * 4096) 4096 ∷ runs shown device
    ++ mapped_rounds shown n (suc chunk) buffer device

-- What follows is added at the end.
grow :
    (t u v : Trace Syscall) (xs ys : List Work)
    → works_of u ≡ works_of t ++ xs
    → works_of v ≡ works_of u ++ ys
    → works_of v ≡ works_of t ++ (xs ++ ys)
grow t u v xs ys e f = f ∙ ap (λ l. l ++ ys) e ∙ append_assoc (works_of t) xs ys

module _ (env : Env Syscall) (works : Works env) where
  print_chars-works :
      (n addr : ℕ) (t : Trace Syscall) → works_of (print_chars n addr env t).1 ≡ works_of t
  unfolding print_chars works_of
  print_chars-works zero addr t = refl
  print_chars-works (suc n) addr t =
      print_chars-works n ((addr + 1) % 2 ^ 64) (run (Syscall.printf_char addr) env t).1

  print_chunk-works :
      (title : String) (addr : ℕ) (t : Trace Syscall)
      → works_of (print_chunk title addr env t).1 ≡ works_of t
  unfolding print_chunk works_of
  print_chunk-works title addr t = print_chars-works 4096 addr (run (Syscall.printf title) env t).1

  transfer-works :
      (direction : ℕ) (fd : ℤ) (addr : ℕ) (t : Trace Syscall)
      → works_of (transfer direction fd addr 4096 1 env t).1
        ≡ works_of t ++ Work.work_on direction addr 4096 ∷ []
  unfolding transfer write_chunks works_of direction_of
  transfer-works direction fd addr t =
      let first = Syscall.ioctl fd Request.set_encryp (direction ∷ []) in
      let t1 = (call first env t).1 in
      let second = Syscall.ioctl fd Request.set_mmap__ (70 ∷ []) in
      let t2 = (call second env t1).1 in
      ground (
        arith,
        works.sets t fd Request.set_encryp (direction ∷ []),
        works.sets t1 fd Request.set_mmap__ (70 ∷ []),
        works.writes t2 fd addr 4096,
      )

  plain_round-works :
      (fd : ℤ) (device : ℕ) (t : Trace Syscall)
      → works_of (plain_round fd device env t).1 ≡ works_of t ++ runs false device
  unfolding plain_round encrypt decrypt
  plain_round-works fd device t =
      let there = Work.work_on 50 device 4096 ∷ [] in
      let back = Work.work_on 60 device 4096 ∷ [] in
      let t1 = (encrypt fd device 4096 1 env t).1 in
      grow t t1 _ there back (transfer-works 50 fd device t) (transfer-works 60 fd device t1)

  shown_round-works :
      (fd : ℤ) (device : ℕ) (t : Trace Syscall)
      → works_of (shown_round fd device env t).1 ≡ works_of t ++ runs true device
  unfolding shown_round encrypt decrypt
  shown_round-works fd device t =
      let there = Work.work_on 50 device 4096 ∷ [] in
      let back = Work.work_on 60 device 4096 ∷ [] in
      let t1 = (encrypt fd device 4096 1 env t).1 in
      let t2 = (print_chunk "Encrypt: " device env t1).1 in
      let t3 = (decrypt fd device 4096 1 env t2).1 in
      let t4 = (print_chunk "Decrypt: " device env t3).1 in
      let t5 = (encrypt fd device 4096 1 env t4).1 in
      let e2 = print_chunk-works "Encrypt: " device t1 ∙ transfer-works 50 fd device t in
      let e4 = print_chunk-works "Decrypt: " device t3 ∙ transfer-works 60 fd device t2 in
      let e6 = print_chunk-works "Encrypt: " device t5 ∙ transfer-works 50 fd device t4 in
      grow t t4 _ (there ++ back) there (grow t t2 t4 there back e2 e4) e6

  round-works :
      (shown : Bool) (fd : ℤ) (device : ℕ) (t : Trace Syscall)
      → works_of ((when shown then shown_round fd device else plain_round fd device) env t).1
        ≡ works_of t ++ runs shown device
  round-works true = shown_round-works
  round-works false = plain_round-works

  -- The loops of mmap.c (true) and mmap_interrupt.c (false), when the driver takes every request and
  -- every write: for each whole chunk of the file, in order, they call strncpy with the card's mapped
  -- memory, the chunk and 4096, and then write to the card just once for each of these requests, with
  -- that memory and 4096: to encrypt, to decrypt and, in mmap.c, to encrypt again. They make no other
  -- write. What strncpy copies is not stated. The file lies within the address space, and 32-bit
  -- numbers hold its offsets.
  pub mapped_covers :
      (shown : Bool) (n chunk : ℕ) (fd : ℤ) (buffer device : ℕ) (t : Trace Syscall)
      → (chunk + n) * 4096 ≤ 2 ^ 32
      → buffer + (chunk + n) * 4096 ≤ 2 ^ 64
      → works_of (mapped_chunks shown n chunk fd buffer device env t).1
        ≡ works_of t ++ mapped_rounds shown n chunk buffer device
  unfolding mapped_chunks mapped_rounds works_of
  mapped_covers shown zero chunk fd buffer device t small fits = sym (append-nil (works_of t))
  mapped_covers shown (suc n) chunk fd buffer device t small fits =
      let a = chunk_addr buffer chunk in
      let exact : a ≡ buffer + chunk * 4096 = omega arith in
      let t1 = (run (Syscall.strncpy device a 4096) env t).1 in
      let t2 = ((when shown then shown_round fd device else plain_round fd device) env t1).1 in
      let first = Work.strncpy device (buffer + chunk * 4096) 4096 ∷ [] in
      let loaded : works_of t1 ≡ works_of t ++ first =
        ap (λ b. works_of t ++ Work.strncpy device b 4096 ∷ []) exact in
      let t3 = (mapped_chunks shown n (suc chunk) fd buffer device env t2).1 in
      grow t t2 t3 (first ++ runs shown device) (mapped_rounds shown n (suc chunk) buffer device)
        (grow t t1 t2 first (runs shown device) loaded (round-works shown fd device t1))
        (mapped_covers shown n (suc chunk) fd buffer device t2 (omega arith) (omega arith))
