-- ===== src/Driver/Writers/Progress.antt =====
-- Who can go on, in every reachable state.
use cryptodev.Prelude.{ℕ, ◌==◌, ◌≡◌, sym, subst, ◌⊎◌, inl, inr, true, Bool-cases, [], arith}
use cryptodev.Driver.Writers.{Registers, View, Args, Pc, Move, inside}
use cryptodev.Driver.Writers.System.{System, view, Reach}
use cryptodev.Driver.Writers.Exclusive.{Reach-Exclusive}

-- Who is inside always has a next step.
abbrev pub CanMove : View → Pc → Type 0
CanMove v p = (w : View) × (q : Pc) × Move v p w q

inside-CanMove : (v : View) (p : Pc) → inside p ≡ true → CanMove v p
inside-CanMove v (Pc.locked a) x = (_, _, Move.set_keys)
inside-CanMove v (Pc.keyed a) x = elim (Bool-cases v.job.is_m) [
  | inl m ↦ (_, _, Move.mmio_len m)
  | inr d ↦ (_, _, Move.dma_map_error d)
]
inside-CanMove v (Pc.mmio_sized a) x = elim (Bool-cases v.job.is_not_mm) [
  | inl b ↦ (_, _, Move.mmio_load b)
  | inr b ↦ (_, _, Move.mmio_loaded_already b)
]
inside-CanMove v (Pc.mmio_loaded a) x = (_, _, Move.set_status)
inside-CanMove v (Pc.mmio_commanded a) x = (_, _, Move.mmio_start)
inside-CanMove v (Pc.mmio_running a) x = elim (Bool-cases v.job.is_not_mm) [
  | inl b ↦ (_, _, Move.mmio_fetch [] b)
  | inr b ↦ (_, _, Move.mmio_done b)
]
inside-CanMove v (Pc.dma_mapped a h) x = (_, _, Move.dma_addr)
inside-CanMove v (Pc.dma_addressed a) x = (_, _, Move.dma_len)
inside-CanMove v (Pc.dma_sized a) x = (_, _, Move.dma_start)
inside-CanMove v (Pc.dma_running a) x = (_, _, Move.dma_unmap [])
inside-CanMove v (Pc.fetched a) x = (_, _, Move.copy_out)
inside-CanMove v Pc.out_up x = (_, _, Move.up)
inside-CanMove v _ x = ground arith

module _ (file : ℕ → ℕ) where
  -- Whatever files the threads use and whatever they have done, a thread that is about to take the
  -- semaphore either can take it, or there is a thread between `down` and `up` that can go on.
  pub no_deadlock :
      {card : Registers} {s : System} {a : Args} (i : ℕ)
      → Reach file card s
      → s.pc i ≡ Pc.filled a
      → ((w : View) × Move (view file s i) (s.pc i) w (Pc.locked a))
        ⊎ ((j : ℕ) × (inside (s.pc j) ≡ true) × CanMove (view file s j) (s.pc j))
  no_deadlock {s} {a} i r at =
      let e = Reach-Exclusive file r in
      elim (Bool-cases (s.semaphore == 0)) [
        | inl zero ↦
            let (j, x) = e.taken (ground arith) in
            inr (j, x, inside-CanMove (view file s j) (s.pc j) x)
        | inr one ↦ inl (
          record (view file s i) { semaphore = 0 },
          subst
              (λ p. Move (view file s i) p (record (view file s i) { semaphore = 0 }) (Pc.locked a))
              (sym at) (Move.down 0 (ground (arith, e.bound))),
        )
      ]
