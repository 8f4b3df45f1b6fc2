-- ===== src/Driver/Writers/Tests.antt =====
-- Two threads on files of their own: the first waits for the card, the second for the semaphore.
use cryptodev.Prelude.{ℕ, ◌%◌, ◌^◌, ◌≡◌, ◌⊎◌, inl, refl, true, none, some, [], ◌∷◌, arith}
use cryptodev.Driver.Device.{Request}
use cryptodev.Driver.Open.{new_job}
use cryptodev.Driver.Ioctl.{job_ioctl}
use cryptodev.Driver.Card.{requested}
use cryptodev.Driver.Writers.{Registers, View, Args, Pc, Move, inside}
use cryptodev.Driver.Writers.System.{System, view, Reach, start, go}
use cryptodev.Driver.Writers.Exclusive.{mutual_exclusion}
use cryptodev.Driver.Writers.Progress.{CanMove, no_deadlock}
use cryptodev.Driver.Writers.Own.{settings, data_or, own_run}
use cryptodev.Driver.Writers.Buffers.{count, every_buffer_freed}
use cryptodev.Driver.Writers.Race.{shared, unmapping, buffer_lost}

abbrev own : ℕ → ℕ
own i = i

abbrev card : Registers
card = record {
  keys = 0;
  len_msg = 0;
  status = 0;
  copied = [];
  addr_op = 0;
  dlen_msg = 0;
  mapping = (0, []);
  last_start = none;
}

abbrev first : Args
first = record { len = 3; bytes = 1 ∷ 2 ∷ 3 ∷ [] }

abbrev second : Args
second = record { len = 2; bytes = 8 ∷ 9 ∷ [] }

contended :
    (s : System) × Reach own card s × (s.pc 0 ≡ Pc.mmio_running first) × (s.pc 1 ≡ Pc.filled second)
unfolding new_job job_ioctl unmapping
contended =
    let r0 = go own 0 start (Move.ioctl Request.set_mmap__ 0 unmapping []) in
    let r1 = go own 0 r0 (Move.enter first (inl refl)) in
    let r2 = go own 0 r1 Move.set_len in
    let r3 = go own 0 r2 (Move.alloc 0x1000 refl) in
    let r4 = go own 0 r3 Move.copy_in in
    let r5 = go own 0 r4 (Move.down 0 refl) in
    let r6 = go own 1 r5 (Move.ioctl Request.set_mmap__ 0 unmapping []) in
    let r7 = go own 0 r6 Move.set_keys in
    let r8 = go own 1 r7 (Move.enter second (inl refl)) in
    let r9 = go own 0 r8 (Move.mmio_len refl) in
    let r10 = go own 1 r9 Move.set_len in
    let r11 = go own 0 r10 (Move.mmio_load refl) in
    let r12 = go own 1 r11 (Move.alloc 0x2000 refl) in
    let r13 = go own 0 r12 Move.set_status in
    let r14 = go own 1 r13 Move.copy_in in
    let r15 = go own 0 r14 Move.mmio_start in (_, r15, refl, refl)

-- The first is interrupted while the second holds its own buffer.
both_done :
    (s : System) × Reach own card s
    × ((i : ℕ) → s.pc i ≡ Pc.idle)
    × (s.allocated ≡ 0x2000 ∷ 0x1000 ∷ [])
unfolding new_job job_ioctl unmapping
both_done =
    let r0 = go own 0 start (Move.ioctl Request.set_mmap__ 0 unmapping []) in
    let r1 = go own 0 r0 (Move.enter first (inl refl)) in
    let r2 = go own 0 r1 Move.set_len in
    let r3 = go own 0 r2 (Move.alloc 0x1000 refl) in
    let r4 = go own 1 r3 (Move.ioctl Request.set_mmap__ 0 unmapping []) in
    let r5 = go own 1 r4 (Move.enter second (inl refl)) in
    let r6 = go own 1 r5 Move.set_len in
    let r7 = go own 1 r6 (Move.alloc 0x2000 refl) in
    let r8 = go own 0 r7 Move.copy_in in
    let r9 = go own 0 r8 Move.down_interrupted in
    let r10 = go own 1 r9 (Move.copy_fault (8 ∷ [])) in
    let r11 = go own 1 r10 (Move.free refl) in
    let r12 = go own 0 r11 (Move.free refl) in
    let r13 = go own 0 r12 Move.clear in
    let r14 = go own 1 r13 Move.clear in (_, r14, λ i. ground arith, refl)

every_buffer_freed_example : count 0x1000 both_done.0.allocated ≡ count 0x1000 both_done.0.freed
every_buffer_freed_example = every_buffer_freed own (λ i j e. e) 0x1000 both_done.1 both_done.2

abbrev s : System
s = contended.0

inside_first : inside (s.pc 0) ≡ true
unfolding contended
inside_first = refl

mutual_exclusion_example : (◌≡◌ {A = ℕ} 0 0) × (s.semaphore ≡ 0)
mutual_exclusion_example = mutual_exclusion own 0 0 contended.1 inside_first inside_first

no_deadlock_example :
    ((w : View) × Move (view own s 1) (s.pc 1) w (Pc.locked second))
    ⊎ ((j : ℕ) × (inside (s.pc j) ≡ true) × CanMove (view own s j) (s.pc j))
no_deadlock_example = no_deadlock own 1 contended.1 contended.3

own_run_example :
    (settings s.card.last_start ≡ some (requested (s.jobs 0) (3 % 2 ^ 32) none))
    × (data_or (1 ∷ 2 ∷ 3 ∷ []) (s.jobs 0).is_not_mm s.card.last_start ≡ some (1 ∷ 2 ∷ 3 ∷ []))
own_run_example = own_run own (λ i j e. e) 0 first contended.1 (inl contended.2)

buffer_lost_example :
    (t : System) × Reach shared card t
    × (t.allocated ≡ 0x2000 ∷ 0x1000 ∷ [])
    × (t.freed ≡ 0x2000 ∷ 0x2000 ∷ [])
    × (t.pc 0 ≡ Pc.idle)
    × (t.pc 1 ≡ Pc.idle)
buffer_lost_example = buffer_lost card first second 0x1000 0x2000
