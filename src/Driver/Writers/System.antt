-- ===== src/Driver/Writers/System.antt =====
-- Any number of threads on any number of open files, interleaved in any order.
use cryptodev.Prelude.{ℕ, ◌==◌, List, [], if◌then◌else◌}
use cryptodev.Driver.Device.{Job}
use cryptodev.Driver.Open.{new_job}
use cryptodev.Driver.Writers.{Registers, View, Pc, Move}

-- The jobs by their file, and where each thread stands.
pub record System : Type 0 where
  pub semaphore : ℕ
  pub card : Registers
  pub jobs : ℕ → Job
  pub allocated : List ℕ
  pub freed : List ℕ
  pub pc : ℕ → Pc

abbrev pub update : {A : Type 0} → (ℕ → A) → ℕ → A → ℕ → A
update f i a j = if i == j then a else f j

module _ (file : ℕ → ℕ) where
  abbrev pub view : System → ℕ → View
  view s i = record {
    semaphore = s.semaphore;
    card = s.card;
    job = s.jobs (file i);
    allocated = s.allocated;
    freed = s.freed;
  }

  abbrev pub put : System → ℕ → View → Pc → System
  put s i v p = record {
    semaphore = v.semaphore;
    card = v.card;
    jobs = update s.jobs (file i) v.job;
    allocated = v.allocated;
    freed = v.freed;
    pc = update s.pc i p;
  }

  pub data Step (s : System) : System → Type 0 where
    pick : (i : ℕ) {v : View} {p : Pc} → Move (view s i) (s.pc i) v p → Step s (put s i v p)

  -- After a probe, which sets the semaphore to 1, with files that were just opened.
  abbrev pub init : Registers → System
  init card = record {
    semaphore = 1;
    card = card;
    jobs = λ f. new_job;
    allocated = [];
    freed = [];
    pc = λ i. Pc.idle;
  }

  pub data Reach (card : Registers) : System → Type 0 where
    start : Reach card (init card)
    later : {s t : System} → Reach card s → Step s t → Reach card t

  -- One more step of thread `i`.
  pub go :
      {card : Registers} {s : System} {v : View} {p : Pc} (i : ℕ)
      → Reach card s
      → Move (view s i) (s.pc i) v p
      → Reach card (put s i v p)
  go i r m = later r (pick i m)
