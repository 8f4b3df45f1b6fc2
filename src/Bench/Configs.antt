-- ===== src/Bench/Configs.antt =====
-- How the benchmarks configure the driver.
use cryptodev.Prelude.{
  ℕ, zero, suc, ◌+◌, ◌/◌, ◌<◌, ℤ, ◌≡◌, ◌⊎◌, inl, inr, List, [], ◌∷◌, refl, ◌∙◌, arith, ◌==◌,
  if◌then◌else◌, Option-cases,
}
use cryptodev.Effects.{Env, Trace, call, int_of}
use cryptodev.Driver.Device.{Request, buffersize}
use cryptodev.Crypter.Syscalls.{Syscall, create_handle, close_handle}
use cryptodev.Crypter.Settings.{ConfigType, set_key, set_config}
use cryptodev.Crypter.Transfer.{write_chunks, transfer, encrypt, decrypt}
use cryptodev.Bench.{MappedFile, unsigned, chunk_addr, map_file, chunks, on_card, benchmark}

-- The bytes of the SET_CONFIG requests of a trace, the latest first.
unfoldable pub configs : Trace Syscall → List (List ℕ)
configs [] = []
configs (e ∷ t) = elim e.call [
  | Syscall.ioctl fd request bytes ↦ elim request [
    | Request.set_config ↦ bytes ∷ configs t
    | _ ↦ configs t
  ]
  | _ ↦ configs t
]

module _ (env : Env Syscall) where
  write_chunks-configs :
      (fuel : ℕ) (fd : ℤ) (addr n : ℕ) (t : Trace Syscall)
      → configs (write_chunks fuel fd addr n env t).1 ≡ configs t
  unfolding write_chunks configs
  write_chunks-configs zero fd addr n t = refl
  write_chunks-configs (suc fuel) fd addr n t = grind (arith, write_chunks-configs fuel)

  transfer-configs :
      (direction : ℕ) (fd : ℤ) (addr n : ℕ) (t : Trace Syscall)
      → configs (transfer direction fd addr n 0 env t).1 ≡ configs t
  unfolding transfer configs
  transfer-configs direction fd addr n t =
      let t1 = (call (Syscall.ioctl fd Request.set_encryp (direction ∷ [])) env t).1 in
      let t2 = (call (Syscall.ioctl fd Request.set_mmap__ (80 ∷ [])) env t1).1 in
      ground (arith, write_chunks-configs (n / buffersize + 1) fd addr n t2)

  chunks-configs :
      (n chunk : ℕ) (fd : ℤ) (buffer : ℕ) (t : Trace Syscall)
      → configs (chunks n chunk fd buffer env t).1 ≡ configs t
  unfolding chunks encrypt decrypt
  chunks-configs zero chunk fd buffer t = refl
  chunks-configs (suc n) chunk fd buffer t =
      let a = chunk_addr buffer chunk in
      let t1 = (transfer 50 fd a 4096 0 env t).1 in
      chunks-configs n (suc chunk) fd buffer _
      ∙ transfer-configs 60 fd a 4096 t1
      ∙ transfer-configs 50 fd a 4096 t

  close_handle-configs :
      (fd : ℤ) (t : Trace Syscall) → configs (close_handle fd env t).1 ≡ configs t
  unfolding close_handle configs
  close_handle-configs fd t = ground arith

  -- What the requests of `main` are, if the device could be opened.
  abbrev pub Configures : (dma interrupt : ℕ) → Trace Syscall → Trace Syscall → Type 0
  Configures dma interrupt t t' =
      configs t'
      ≡ ((if interrupt == 1 then 10 else 20) ∷ [])
        ∷ ((if dma == 1 then 40 else 30) ∷ [])
        ∷ configs t

  on_card-Configures :
      (dma interrupt : ℕ) (file : MappedFile) (t : Trace Syscall)
      → dma < 2
      → interrupt < 2
      → (configs (on_card dma interrupt file env t).1 ≡ configs t)
        ⊎ Configures dma interrupt t (on_card dma interrupt file env t).1
  unfolding on_card create_handle set_config set_key configs
  on_card-Configures dma interrupt file t d i =
      let (h, t1) = call Syscall.open_device env t in
      let fd = int_of h in
      let t2 = (set_config fd ConfigType.dmas dma env t1).1 in
      let t3 = (set_config fd ConfigType.interrupts interrupt env t2).1 in
      let t4 = (set_key fd 30 17 env t3).1 in
      let n = unsigned file.file_size / 4096 in
      let t5 = (chunks n 0 fd file.buffer env t4).1 in
      ground (arith, chunks-configs n 0 fd file.buffer t4, close_handle-configs fd t5)

  map_file-configs : (t : Trace Syscall) → configs (map_file env t).1 ≡ configs t
  unfolding map_file configs
  map_file-configs t = ground arith

  -- A benchmark sends no configuration at all, or it sends two requests: 40 for DMA or 30 for MMIO,
  -- and then 10 for interrupts or 20 for none, as its two parameters say, which are SET (1) or UNSET
  -- (0).
  pub benchmark-Configures :
      (dma interrupt : ℕ) (t : Trace Syscall)
      → dma < 2
      → interrupt < 2
      → (configs (benchmark dma interrupt env t).1 ≡ configs t)
        ⊎ Configures dma interrupt t (benchmark dma interrupt env t).1
  unfolding benchmark
  benchmark-Configures dma interrupt t d i = elim (Option-cases (map_file env t).0) [
    | inl absent ↦ ground (arith, map_file-configs t)
    | inr (file, found) ↦
        ground (arith, map_file-configs t, on_card-Configures dma interrupt file (map_file env t).1)
  ]
