-- ===== src/Driver/Writers/Exclusive.antt =====
-- Who is between `down` and `up`, in every reachable state.
use cryptodev.Prelude.{ℕ, ◌+◌, ◌≤◌, ◌==◌, ◌≡◌, refl, inl, inr, true, false, Bool-cases, arith}
use cryptodev.Driver.Writers.{Registers, View, Pc, Move, inside}
use cryptodev.Driver.Writers.System.{System, view, update, Step, pick, Reach, start, later}
use cryptodev.Driver.Writers.Local.{hold, Move-semaphore}

-- The semaphore is 1 with nobody inside, or 0 with one thread inside.
pub record Exclusive (s : System) : Type 0 where
  pub bound : s.semaphore ≤ 1
  pub free : (i : ℕ) → s.semaphore ≡ 1 → inside (s.pc i) ≡ false
  pub taken : s.semaphore ≡ 0 → (i : ℕ) × (inside (s.pc i) ≡ true)
  pub unique : (i j : ℕ) → inside (s.pc i) ≡ true → inside (s.pc j) ≡ true → i ≡ j

-- The part of a thread in the count.
room : {s : System} (i : ℕ) → Exclusive s → s.semaphore + hold (s.pc i) ≤ 1
room {s} i e = elim (Bool-cases (inside (s.pc i))) [
  | inl x ↦ ground (arith, e.bound, e.free i)
  | inr x ↦ ground (arith, e.bound)
]

none_inside : (p : Pc) → hold p ≡ 0 → inside p ≡ false
none_inside p h = ground arith

some_inside : (p : Pc) → inside p ≡ true → hold p ≡ 1
some_inside p h = ground arith

-- A thread that was inside keeps the others out, and keeps the semaphore at 0.
others_out :
    {s : System} (i j : ℕ)
    → Exclusive s
    → (i == j) ≡ false
    → inside (s.pc j) ≡ true
    → (hold (s.pc i) ≡ 0) × (s.semaphore ≡ 0)
others_out {s} i j e apart x = elim (Bool-cases (inside (s.pc i))) [
  | inl y ↦ absurd (ground (arith, e.unique i j))
  | inr y ↦ (ground arith, omega (arith, room j e, some_inside (s.pc j) x))
]

module _ (file : ℕ → ℕ) where
  Step-taken :
      {s : System} {v : View} (i : ℕ) (p : Pc)
      → Exclusive s
      → Move (view file s i) (s.pc i) v p
      → v.semaphore ≡ 0
      → (j : ℕ) × (inside (update s.pc i p j) ≡ true)
  Step-taken {s} {v} i p e m zero =
      let count : v.semaphore + hold p ≡ s.semaphore + hold (s.pc i) = Move-semaphore m in
      elim (Bool-cases (inside p)) [
        | inl x ↦ (i, ground arith)
        | inr x ↦
            let out : hold p ≡ 0 = ground arith in
            let (j, y) = e.taken (omega arith) in
            let apart : (i == j) ≡ false = elim (Bool-cases (i == j)) [
              | inl same ↦
                  let e' : i ≡ j = ground arith in
                  let inside_i : inside (s.pc i) ≡ true = rw e' y in
                  absurd (omega (arith, some_inside (s.pc i) inside_i))
              | inr other ↦ other
            ] in
            (j, rw apart y)
      ]

  pub Step-Exclusive : {s t : System} → Step file s t → Exclusive s → Exclusive t
  Step-Exclusive {s} (pick i {v} {p} m) e =
      let count : v.semaphore + hold p ≡ s.semaphore + hold (s.pc i) = Move-semaphore m in
      let small : s.semaphore + hold (s.pc i) ≤ 1 = room i e in
      record {
        bound = omega arith;
        free = λ j one. elim (Bool-cases (i == j)) [
          | inl same ↦ rw same (none_inside p (omega arith))
          | inr apart ↦ rw apart (elim (Bool-cases (inside (s.pc j))) [
            | inl x ↦ absurd (omega (arith, others_out i j e apart x))
            | inr x ↦ x
          ])
        ];
        taken = λ zero. Step-taken i p e m zero;
        unique = λ j k x y. elim (Bool-cases (i == j)) [
          | inl same ↦ elim (Bool-cases (i == k)) [
            | inl same' ↦ ground arith
            | inr apart ↦ absurd (
                omega (arith, others_out i k e apart (rw apart at y), some_inside p (rw same at x)))
          ]
          | inr apart ↦ elim (Bool-cases (i == k)) [
            | inl same ↦ absurd (
                omega (arith, others_out i j e apart (rw apart at x), some_inside p (rw same at y)))
            | inr apart' ↦ e.unique j k (rw apart at x) (rw apart' at y)
          ]
        ];
      }

  pub Reach-Exclusive : {card : Registers} {s : System} → Reach file card s → Exclusive s
  Reach-Exclusive start = record {
    bound = omega arith;
    free = λ i one. refl;
    taken = λ zero. absurd (omega arith);
    unique = λ i j x y. ground arith;
  }
  Reach-Exclusive (later r m) = Step-Exclusive m (Reach-Exclusive r)

  -- Whatever files the threads use, at most one of them is between `down` and `up` of `pci_write`,
  -- and the semaphore is 0 while one is.
  pub mutual_exclusion :
      {card : Registers} {s : System} (i j : ℕ)
      → Reach file card s
      → inside (s.pc i) ≡ true
      → inside (s.pc j) ≡ true
      → (i ≡ j) × (s.semaphore ≡ 0)
  mutual_exclusion {s} i j r x y =
      let e = Reach-Exclusive r in
      (e.unique i j x y, omega (arith, room i e, some_inside (s.pc i) x))
