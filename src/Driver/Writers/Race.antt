-- ===== src/Driver/Writers/Race.antt =====
-- Two threads that write through one open file.
use cryptodev.Prelude.{ℕ, ◌≡◌, refl, inl, [], ◌∷◌}
use cryptodev.Effects.{Env}
use cryptodev.Kernel.{Call}
use cryptodev.Driver.Device.{Request}
use cryptodev.Driver.Open.{new_job}
use cryptodev.Driver.Ioctl.{job_ioctl}
use cryptodev.Driver.Writers.{Registers, Args, Pc, Move}
use cryptodev.Driver.Writers.System.{System, Reach, start, go}

abbrev pub shared : ℕ → ℕ
shared i = 0

-- The caller passes the byte 80, for memory that is not mapped.
unfoldable pub unmapping : Env Call
unmapping t c = record { value = 0; bytes = 80 ∷ [] }

module _ (card : Registers) where
  -- On one open file, for whatever two addresses vmalloc gives and whatever the two calls are: two
  -- threads can run `pci_write` so that the second overwrites `msg` of the first, after which both
  -- give the second buffer to vfree and no one the first; both calls return.
  pub buffer_lost :
      (a b : Args) (p q : ℕ)
      → (s : System) × Reach shared card s
        × (s.allocated ≡ q ∷ p ∷ [])
        × (s.freed ≡ q ∷ q ∷ [])
        × (s.pc 0 ≡ Pc.idle)
        × (s.pc 1 ≡ Pc.idle)
  unfolding new_job job_ioctl unmapping
  buffer_lost a b p q =
      let r0 = go shared 0 start (Move.ioctl Request.set_mmap__ 0 unmapping []) in
      let r1 = go shared 0 r0 (Move.enter a (inl refl)) in
      let r2 = go shared 0 r1 Move.set_len in
      let r3 = go shared 0 r2 (Move.alloc p refl) in
      let r4 = go shared 1 r3 (Move.enter b (inl refl)) in
      let r5 = go shared 1 r4 Move.set_len in
      let r6 = go shared 1 r5 (Move.alloc q refl) in
      let r7 = go shared 0 r6 Move.copy_in in
      let r8 = go shared 0 r7 Move.down_interrupted in
      let r9 = go shared 1 r8 Move.copy_in in
      let r10 = go shared 1 r9 Move.down_interrupted in
      let r11 = go shared 0 r10 (Move.free refl) in
      let r12 = go shared 1 r11 (Move.free refl) in
      let r13 = go shared 0 r12 Move.clear in
      let r14 = go shared 1 r13 Move.clear in (_, r14, refl, refl, refl, refl)
