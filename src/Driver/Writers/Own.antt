-- ===== src/Driver/Writers/Own.antt =====
-- Threads on files of their own: what each relies on, in every reachable state.
use cryptodev.Prelude.{
  ℕ, ◌==◌, ◌%◌, ◌^◌, ◌≡◌, sym, ap, ◌⊎◌, subst, ◌∙◌, Bool, Option, List, none, true, false, some,
  inl, inr, Bool-cases, arith,
}
use cryptodev.Driver.Device.{Job}
use cryptodev.Driver.Card.{Operation, requested}
use cryptodev.Driver.Writers.{Registers, View, Args, Pc, Move, inside, mmio_running, dma_running}
use cryptodev.Driver.Writers.System.{System, view, Step, pick, Reach, start, later}
use cryptodev.Driver.Writers.Local.{Relies, asked, Move-card, Relies-outside, Move-Relies}
use cryptodev.Driver.Writers.Exclusive.{Exclusive, Reach-Exclusive}

-- What an operation says without its content, and its content where that counts.
abbrev pub settings : Option Operation → Option Operation
settings none = none
settings (some o) = some (record o { content = none })

abbrev pub data_or : List ℕ → Bool → Option Operation → Option (List ℕ)
data_or bytes false o = some bytes
data_or bytes true none = none
data_or bytes true (some o) = o.content

data_or-asked :
    (a : Args) (job : Job) (card : Registers)
    → data_or a.bytes job.is_not_mm (some (asked job a card)) ≡ some a.bytes
data_or-asked a job card = ground arith

module _ (file : ℕ → ℕ) (distinct : (i j : ℕ) → file i ≡ file j → i ≡ j) where
  abbrev pub AllRely : System → Type 0
  AllRely s = (i : ℕ) → Relies (s.pc i) s.card (s.jobs (file i))

  -- A thread that stands still while another one moves.
  bystander :
      {s : System} {v : View} {q : Pc} (i j : ℕ)
      → Exclusive s
      → Move (view file s i) (s.pc i) v q
      → (i == j) ≡ false
      → Relies (s.pc j) s.card (s.jobs (file j))
      → Relies (s.pc j) v.card (s.jobs (file j))
  bystander {s} {v} i j e m apart r = elim (Bool-cases (inside (s.pc j))) [
    | inl x ↦
        let out : inside (s.pc i) ≡ false = elim (Bool-cases (inside (s.pc i))) [
          | inl y ↦ absurd (ground (arith, e.unique i j))
          | inr y ↦ y
        ] in
        subst (λ c. Relies (s.pc j) c (s.jobs (file j))) (sym (Move-card m out)) r
    | inr x ↦ Relies-outside (s.pc j) s.card v.card (s.jobs (file j)) x r
  ]

  Step-AllRely : {s t : System} → Exclusive s → Step file s t → AllRely s → AllRely t
  Step-AllRely {s} e (pick i {v} {p} m) all j = elim (Bool-cases (i == j)) [
    | inl same ↦
        let e' : i ≡ j = ground arith in
        let same_file : (file i == file j) ≡ true = ground (arith, ap file e') in
        rw (same, same_file) (Move-Relies m (all i))
    | inr apart ↦
        let other_file : (file i == file j) ≡ false = ground (arith, distinct i j) in
        rw (apart, other_file) (bystander {s = s} {v = v} {q = p} i j e m apart (all j))
  ]

  pub Reach-AllRely : {card : Registers} {s : System} → Reach file card s → AllRely s
  Reach-AllRely start = λ i. tt
  Reach-AllRely (later r m) = Step-AllRely (Reach-Exclusive file r) m (Reach-AllRely r)

  -- If every thread works on an open file of its own, then while a thread waits for the card, by
  -- either way, the driver has last asked the card for just what that thread's call asks for: with
  -- the key, the direction, the interrupt flag and the way of the thread's own job, and with the
  -- length of its call as a 32-bit number; and, if the thread is not on mapped memory, with the bytes
  -- that were at its caller's address. No other thread, wherever it stands, gets in between. Whether
  -- the card accepts the start is not stated: it does not while it is busy, as after a wait that a
  -- signal has ended.
  pub own_run :
      {card : Registers} {s : System} (i : ℕ) (a : Args)
      → Reach file card s
      → (s.pc i ≡ mmio_running a) ⊎ (s.pc i ≡ dma_running a)
      → let job = s.jobs (file i) in
        (settings s.card.last_start ≡ some (requested job (a.len % 2 ^ 32) none))
        × (data_or a.bytes job.is_not_mm s.card.last_start ≡ some a.bytes)
  own_run {s} i a r w =
      let job = s.jobs (file i) in
      let whole : s.card.last_start ≡ some (asked job a s.card) = elim w [
        | inl p ↦ subst (λ q. Relies q s.card job) p (Reach-AllRely r i)
        | inr p ↦ subst (λ q. Relies q s.card job) p (Reach-AllRely r i)
      ] in
      (ap settings whole, ap (data_or a.bytes job.is_not_mm) whole ∙ data_or-asked a job s.card)
