-- ===== src/Bench/Laws.antt =====
-- Which bytes the benchmarks send to the card.
use cryptodev.Prelude.{
  ℕ, zero, suc, ◌+◌, ◌*◌, ◌/◌, ◌^◌, ◌≤◌, ◌<◌, ℤ, pos, negsuc, ◌≡◌, List, [], ◌∷◌, ◌++◌,
  append_assoc, append-nil, sym, ◌∙◌, ap, arith,
}
use cryptodev.Effects.{Env, Trace, call, int_of}
use cryptodev.Driver.Device.{Request}
use cryptodev.Crypter.Syscalls.{Syscall, create_handle, close_handle}
use cryptodev.Crypter.Settings.{ConfigType, u32_bytes, key_of, set_key, set_config}
use cryptodev.Crypter.Transfer.{write_chunks, transfer, encrypt, decrypt}
use cryptodev.Crypter.Transfer.Tiling.{pieces}
use cryptodev.Bench.{MappedFile, unsigned, chunk_addr, chunks, on_card}

-- The driver takes every request and every write, and the device can be opened.
pub record Works (env : Env Syscall) : Type 0 where
  pub opens : (t : Trace Syscall) → (env t Syscall.open_device).value < 2 ^ 31
  pub sets :
      (t : Trace Syscall) (fd : ℤ) (request : Request) (bytes : List ℕ)
      → (env t (Syscall.ioctl fd request bytes)).value ≡ 0
  pub writes :
      (t : Trace Syscall) (fd : ℤ) (addr n : ℕ) → (env t (Syscall.write fd addr n)).value ≡ 0

-- Each chunk goes to the card twice: to be encrypted and to be decrypted.
unfoldable pub rounds : (n chunk buffer : ℕ) → List (ℕ × ℕ)
rounds zero chunk buffer = []
rounds (suc n) chunk buffer =
    (buffer + chunk * 4096, 4096) ∷ (buffer + chunk * 4096, 4096) ∷ rounds n (suc chunk) buffer

append-two :
    {A : Type 0} (l : List A) (x y : A) (r : List A)
    → ((l ++ x ∷ []) ++ y ∷ []) ++ r ≡ l ++ x ∷ y ∷ r
append-two l x y r = append_assoc (l ++ x ∷ []) (y ∷ []) r ∙ append_assoc l (x ∷ []) (y ∷ r)

pub unsigned-bound : (n : ℤ) → unsigned n < 2 ^ 32
unsigned-bound (pos n) = omega arith
unsigned-bound (negsuc n) = omega arith

module _ (env : Env Syscall) (works : Works env) where
  -- Data that fits into one piece goes out as one piece.
  write_chunks-pieces :
      (fd : ℤ) (addr : ℕ) (t : Trace Syscall)
      → pieces (write_chunks 1 fd addr 4096 env t).1 ≡ pieces t ++ (addr, 4096) ∷ []
  unfolding write_chunks pieces
  write_chunks-pieces fd addr t = ground (arith, works.writes t fd addr 4096)

  transfer-pieces :
      (direction : ℕ) (fd : ℤ) (addr : ℕ) (t : Trace Syscall)
      → pieces (transfer direction fd addr 4096 0 env t).1 ≡ pieces t ++ (addr, 4096) ∷ []
  unfolding transfer pieces
  transfer-pieces direction fd addr t =
      let first = Syscall.ioctl fd Request.set_encryp (direction ∷ []) in
      let t1 = (call first env t).1 in
      let second = Syscall.ioctl fd Request.set_mmap__ (80 ∷ []) in
      let t2 = (call second env t1).1 in
      ground (
        arith,
        works.sets t fd Request.set_encryp (direction ∷ []),
        works.sets t1 fd Request.set_mmap__ (80 ∷ []),
        write_chunks-pieces fd addr t2,
      )

  chunks-pieces :
      (n chunk : ℕ) (fd : ℤ) (buffer : ℕ) (t : Trace Syscall)
      → (chunk + n) * 4096 ≤ 2 ^ 32
      → buffer + (chunk + n) * 4096 ≤ 2 ^ 64
      → pieces (chunks n chunk fd buffer env t).1 ≡ pieces t ++ rounds n chunk buffer
  unfolding chunks encrypt decrypt rounds
  chunks-pieces zero chunk fd buffer t small fits = sym (append-nil (pieces t))
  chunks-pieces (suc n) chunk fd buffer t small fits =
      let a = chunk_addr buffer chunk in
      let exact : a ≡ buffer + chunk * 4096 = omega arith in
      let t1 = (transfer 50 fd a 4096 0 env t).1 in
      let t2 = (transfer 60 fd a 4096 0 env t1).1 in
      chunks-pieces n (suc chunk) fd buffer t2 (omega arith) (omega arith)
      ∙ ap (λ l. l ++ rounds n (suc chunk) buffer)
          (transfer-pieces 60 fd a t1 ∙ ap (λ l. l ++ (a, 4096) ∷ []) (transfer-pieces 50 fd a t))
      ∙ append-two (pieces t) (a, 4096) (a, 4096) (rounds n (suc chunk) buffer)
      ∙ ap (λ b. pieces t ++ (b, 4096) ∷ (b, 4096) ∷ rounds n (suc chunk) buffer) exact

  close_handle-pieces : (fd : ℤ) (t : Trace Syscall) → pieces (close_handle fd env t).1 ≡ pieces t
  unfolding close_handle pieces
  close_handle-pieces fd t = ground arith

  -- `main` of the benchmarks from the handle on, when the driver takes every request and every write:
  -- for each whole chunk of 4096 bytes of the file, in order, it writes that chunk twice to the
  -- card, and nothing else; a rest shorter than a chunk is never sent. The file lies within the
  -- address space.
  pub benchmark_covers :
      (dma interrupt : ℕ) (file : MappedFile) (t : Trace Syscall)
      → file.buffer + unsigned file.file_size ≤ 2 ^ 64
      → pieces (on_card dma interrupt file env t).1
        ≡ pieces t ++ rounds (unsigned file.file_size / 4096) 0 file.buffer
  unfolding on_card create_handle set_config set_key pieces
  benchmark_covers dma interrupt file t fits =
      let (h, t1) = call Syscall.open_device env t in
      let fd = int_of h in
      let t2 = (set_config fd ConfigType.dmas dma env t1).1 in
      let t3 = (set_config fd ConfigType.interrupts interrupt env t2).1 in
      let t4 = (set_key fd 30 17 env t3).1 in
      let n = unsigned file.file_size / 4096 in
      let t5 = (chunks n 0 fd file.buffer env t4).1 in
      ground (
        arith,
        works.opens t,
        works.sets t3 fd Request.set_key___ (u32_bytes (key_of 30 17)),
        chunks-pieces n 0 fd file.buffer t4 (omega (arith, unsigned-bound file.file_size))
            (omega arith),
        close_handle-pieces fd t5,
      )
