-- ===== src/Driver/Writers/Buffers.antt =====
-- The buffers that threads on files of their own get from vmalloc and give to vfree.
use cryptodev.Prelude.{
  ℕ, zero, suc, ◌+◌, ◌≤◌, ◌<◌, ◌==◌, ◌≡◌, ap, refl, Bool, true, false, ◌&&◌, List, [], ◌∷◌, inl,
  inr, Bool-cases, if◌then◌else◌, arith,
}
use cryptodev.Driver.Device.{Job}
use cryptodev.Driver.Write.{msg_addr}
use cryptodev.Driver.Writers.{Registers, View, Pc, Move}
use cryptodev.Driver.Writers.System.{System, put, Step, pick, Reach, start, later, init}

-- How often an address stands in a list.
abbrev pub count : ℕ → List ℕ → ℕ
count x [] = 0
count x (p ∷ ps) = (if p == x then 1 else 0) + count x ps

-- From vmalloc on, up to vfree.
abbrev pub has_buffer : Pc → Bool
has_buffer Pc.idle = false
has_buffer (Pc.entered a) = false
has_buffer (Pc.sized a) = false
has_buffer Pc.clearing = false
has_buffer _ = true

-- How often a thread holds an address.
abbrev pub holds : ℕ → Pc → Job → ℕ
holds x p job = if has_buffer p && job.is_not_mm && msg_addr job.msg == x then 1 else 0

-- A step of a thread keeps the balance of every address.
pub Move-balance :
    {v w : View} {p q : Pc} (x : ℕ)
    → Move v p w q
    → count x w.allocated + count x v.freed + holds x p v.job
      ≡ count x v.allocated + count x w.freed + holds x q w.job
Move-balance x (Move.ioctl cmd arg env t) = refl
Move-balance x (Move.use_mapped b) = ground arith
Move-balance x (Move.alloc p b) = ground arith
Move-balance x (Move.free b) = ground arith
Move-balance x (Move.keep b) = ground arith
Move-balance x Move.copy_in = ground arith
Move-balance x (Move.copy_fault bytes) = ground arith
Move-balance x _ = ground arith

-- The sum over the threads below `n`.
pub total : ℕ → (ℕ → ℕ) → ℕ
total zero f = 0
total (suc n) f = total n f + f n

total-congr : (n : ℕ) (f g : ℕ → ℕ) → ((j : ℕ) → j < n → f j ≡ g j) → total n f ≡ total n g
unfolding total
total-congr zero f g same = refl
total-congr (suc n) f g same =
    omega (arith, total-congr n f g (λ j lt. same j (omega arith)), same n (omega arith))

-- Two families that differ at one thread.
total-change :
    (n i : ℕ) (f g : ℕ → ℕ)
    → ((j : ℕ) → (i == j) ≡ false → f j ≡ g j)
    → i < n
    → total n g + f i ≡ total n f + g i
unfolding total
total-change zero i f g same lt = absurd (omega arith)
total-change (suc n) i f g same lt = elim (Bool-cases (i == n)) [
  | inl last ↦
      let e : i ≡ n = ground arith in
      omega (arith, total-congr n f g (λ j below. same j (ground arith)), ap f e, ap g e)
  | inr other ↦ omega (arith, total-change n i f g same (ground arith), same n other)
]

total-zero : (n : ℕ) (f : ℕ → ℕ) → ((j : ℕ) → f j ≡ 0) → total n f ≡ 0
unfolding total
total-zero zero f none = refl
total-zero (suc n) f none = omega (arith, total-zero n f none, none n)

module _ (file : ℕ → ℕ) (distinct : (i j : ℕ) → file i ≡ file j → i ≡ j) (x : ℕ) where
  abbrev held : System → ℕ → ℕ
  held s i = holds x (s.pc i) (s.jobs (file i))

  -- What was given out was given back or is held, for any number of threads from some on.
  record Balanced (s : System) : Type 0 where
    enough : ℕ
    even : (n : ℕ) → enough ≤ n → count x s.allocated ≡ count x s.freed + total n (held s)

  Step-Balanced : {s t : System} → Step file s t → Balanced s → Balanced t
  Step-Balanced {s} (pick i {v} {p} m) b = record {
    enough = suc i + b.enough;
    even = λ n big.
        let moved = Move-balance x m in
        let others : (j : ℕ) → (i == j) ≡ false → held s j ≡ held (put file s i v p) j = λ j apart.
          let other_file : (file i == file j) ≡ false = ground (arith, distinct i j) in
          rw (apart, other_file) refl in
        let sums = total-change n i (held s) (held (put file s i v p)) others (omega arith) in
        let here : held (put file s i v p) i ≡ holds x p v.job =
          let same : (i == i) ≡ true = ground arith in
          let same_file : (file i == file i) ≡ true = ground arith in rw (same, same_file) refl in
        omega (arith, b.even n (omega arith));
  }

  Reach-Balanced : {card : Registers} {s : System} → Reach file card s → Balanced s
  Reach-Balanced {card = card} start = record {
    enough = 0;
    even = λ n big. omega (arith, total-zero n (held (init file card)) (λ j. refl));
  }
  Reach-Balanced (later r m) = Step-Balanced m (Reach-Balanced r)

  -- With each thread on a file of its own, in every reachable state in which no thread is inside of
  -- a call, every address was given to vfree as often as vmalloc gave it out.
  pub every_buffer_freed :
      {card : Registers} {s : System}
      → Reach file card s
      → ((i : ℕ) → s.pc i ≡ Pc.idle)
      → count x s.allocated ≡ count x s.freed
  every_buffer_freed {s} r rest =
      let b = Reach-Balanced r in
      let none_held : (i : ℕ) → held s i ≡ 0 = λ i. rw (rest i) refl in
      omega (arith, b.even b.enough (omega arith), total-zero b.enough (held s) none_held)
