-- ===== src/System/Tests.antt =====
-- A machine with a card that really encrypts, and runs of the library on it.
use cryptodev.Prelude.{
  ℕ, ◌+◌, ◌-◌, ◌*◌, ◌/◌, ◌%◌, ◌^◌, ◌<◌, ◌==◌, pos, ◌≡◌, ◌≢◌, refl, Bool, true, false, none, some,
  List, [], ◌∷◌, inl, arith,
}
use cryptodev.Memory.{Bytes, length, read, poke, take}
use cryptodev.Effects.{Answer, Env, Trace, answer}
use cryptodev.Kernel.{Call}
use cryptodev.Driver.Device.{Job, is_not_live, setup_configspace}
use cryptodev.Driver.Wait.Progress.{polls, Completes}
use cryptodev.Driver.Card.{Operation, operations, requested, pending, memory, Reads, Crypts}
use cryptodev.Driver.Write.{pci_write}
use cryptodev.Driver.Write.Answer.{HasSettings}
use cryptodev.Driver.Write.Effect.{write_crypts}
use cryptodev.Driver.Write.Success.{Succeeds, write_succeeds}
use cryptodev.Crypter.Syscalls.{Syscall}
use cryptodev.Crypter.Transfer.{encrypt, decrypt, transfer, count_of}
use cryptodev.System.{State, replay, system}
use cryptodev.System.Settings.{byte_of, directed}
use cryptodev.System.Chunks.Inverse.{IsBytes}
use cryptodev.System.Transfer.Refinement.{transfer_refines}
use cryptodev.System.Transfer.Success.{transfer_succeeds}
use cryptodev.System.Transfer.Roundtrip.{IsCipher, decrypt-encrypt}
use cryptodev.Driver.Tests.{base, space, probed, dma_job, mmio_job, opened, busy_bit}

-- A byte is moved by the key.
abbrev pub shift : ℕ → ℕ → ℕ
shift k b = (b + k % 256) % 256

abbrev pub unshift : ℕ → ℕ → ℕ
unshift k b = (b + 256 - k % 256) % 256

abbrev pub caesar : Bool → ℕ → List ℕ → List ℕ
caesar true k [] = []
caesar true k (b ∷ bs) = shift k b ∷ caesar true k bs
caesar false k [] = []
caesar false k (b ∷ bs) = unshift k b ∷ caesar false k bs

length-caesar : (e : Bool) (k : ℕ) (bs : List ℕ) → length (caesar e k bs) ≡ length bs
length-caesar true k [] = refl
length-caesar true k (b ∷ bs) = omega (arith, length-caesar true k bs)
length-caesar false k [] = refl
length-caesar false k (b ∷ bs) = omega (arith, length-caesar false k bs)

caesar-inverse : (k : ℕ) (bs : List ℕ) → IsBytes bs → caesar false k (caesar true k bs) ≡ bs
caesar-inverse k [] h = refl
caesar-inverse k (b ∷ bs) (h, hs) = ground (arith, caesar-inverse k bs hs)

pub caesar-IsCipher : (k : ℕ) → IsCipher caesar k
caesar-IsCipher k = record { same = length-caesar true k; inverse = caesar-inverse k }

-- What the card gives back for its latest operation.
abbrev pub worked : List Operation → List ℕ
worked [] = []
worked (o ∷ os) = elim o.content [
  | none ↦ []
  | some bytes ↦ elim o.key [
    | none ↦ []
    | some k ↦ elim o.command [ none ↦ [] | some c ↦ caesar (c / 2 % 2 == 0) k bytes ]
  ]
]

abbrev pub text : Bytes
text q = q % 251

-- The card gives nothing back while it is busy.
abbrev pub given : Trace Call → List ℕ
given t = elim (pending space t) [ none ↦ worked (operations space t) | some way ↦ [] ]

unfoldable pub sim : Env Call
sim t (Call.kzalloc n) = answer 0x1000
sim t (Call.vmalloc n) = answer 0x2000
sim t (Call.copy_from_user p n) = record { value = 0; bytes = read (memory text t) p n }
sim t (Call.ioread8 a) = busy_bit (polls t)
sim t (Call.readq a) = busy_bit (polls t)
sim t (Call.memcpy_fromio a n) = record { value = 0; bytes = given t }
sim t (Call.dma_map_single bytes n) = answer 0x3000
sim t (Call.dma_unmap_single h n) = record { value = 0; bytes = given t }
sim t call = answer 0

worked-requested :
    (job : Job) (n : ℕ) (content : List ℕ) (before os : List Operation)
    → os ≡ requested job n (some content) ∷ before
    → worked os ≡ caesar job.is_e job.keyab content
worked-requested job n content before os e = ground arith

given-requested :
    (t : Trace Call) (job : Job) (n : ℕ) (content : List ℕ) (before : List Operation)
    → pending space t ≡ none
    → operations space t ≡ requested job n (some content) ∷ before
    → given t ≡ caesar job.is_e job.keyab content
given-requested t job n content before done e =
    ground (arith, worked-requested job n content before (operations space t) e)

pub sim-Crypts : Crypts sim (setup_configspace base 0x100000) caesar
unfolding sim
sim-Crypts = record {
  by_mmio = λ t job n content before i took done e. given-requested t job n content before done e;
  by_dma = λ t job h n content before i took done e. given-requested t job n content before done e;
}

pub sim-Reads : Reads sim text
unfolding sim
sim-Reads = record { reads = λ t p n z. refl }

pub sim-Succeeds : Succeeds sim
unfolding sim is_not_live
sim-Succeeds = record {
  allocates = λ t n h. ground arith;
  copies_in = λ t p n. refl;
  copies_out = λ t p n bytes. refl;
  downs = λ t. refl;
  waits = λ t. refl;
  maps = λ t h. refl;
  lives = λ t live. refl;
}

pub sim_allocates : (t : Trace Call) (n : ℕ) → (sim t (Call.kzalloc n)).value ≢ 0
unfolding sim
sim_allocates t n = ground arith

pub sim-Completes : Completes sim 2
unfolding sim
sim-Completes = record { status_clears = λ t a h. ground arith; cmd_clears = λ t a h. ground arith }

write_runs : (pci_write 3 probed (opened dma_job) 1000 200 sim []).0.1 ≡ some (pos 0)
write_runs =
    write_succeeds sim sim-Succeeds 2 sim-Completes 3 (omega arith) probed (opened dma_job) 1000 200
      [] {job = dma_job} {space = space} refl refl refl (omega arith)

mmio_succeeds : (pci_write 3 probed (opened mmio_job) 1000 200 sim []).0.1 ≡ some (pos 0)
mmio_succeeds =
    write_succeeds sim sim-Succeeds 2 sim-Completes 3 (omega arith) probed (opened mmio_job) 1000
      200 [] {job = mmio_job} {space = space} refl refl refl (omega arith)

at_rest : pending space [] ≡ none
unfolding pending
at_rest = refl

write_crypts_example :
    (memory text (pci_write 3 probed (opened dma_job) 1000 200 sim []).1
      ≡ poke 1000
          (take (200 % 2 ^ 32) (caesar true 0x1e32 (read (memory text []) 1000 (200 % 2 ^ 32))))
          (memory text []))
    × (pending space (pci_write 3 probed (opened dma_job) 1000 200 sim []).1 ≡ none)
write_crypts_example =
    write_crypts sim base 0x100000 text caesar sim-Crypts sim-Reads 3 probed (opened dma_job) 1000
      200 [] {job = dma_job} refl refl refl at_rest write_runs

abbrev other : Syscall → Answer
other c = answer 0

abbrev begin : State
begin = record { file = opened dma_job; trace = [] }

abbrev sim_system : Env Syscall
sim_system = system sim 3 probed other begin

has_job : HasSettings dma_job (replay sim 3 probed other begin []).file.private_data
unfolding replay
has_job = ground arith

begin_at_rest : pending space (replay sim 3 probed other begin []).trace ≡ none
unfolding replay pending
begin_at_rest = refl

-- Two pieces.
transfer_succeeds_example :
    (transfer (byte_of true) (pos 3) 1000 40000 0 sim_system []).0 ≡ some (pos 0)
transfer_succeeds_example =
    transfer_succeeds sim sim-Succeeds 2 sim-Completes 3 (omega arith) probed space refl other begin
      true (pos 3) 1000 40000 [] dma_job has_job (omega arith)

transfer_runs : (transfer (byte_of true) (pos 3) 1000 40000 0 sim_system []).0 ≡ some (pos 0)
transfer_runs =
    transfer_succeeds sim sim-Succeeds 2 sim-Completes 3 (omega arith) probed space refl other begin
      true (pos 3) 1000 40000 [] dma_job has_job (omega arith)

encrypt_runs : (encrypt (pos 3) 1000 40000 0 sim_system []).0 ≡ some (pos 0)
unfolding encrypt
encrypt_runs = transfer_runs

transfer_refines_example :
    let out = transfer (byte_of true) (pos 3) 1000 40000 0 sim_system [] in
    let before = memory text (replay sim 3 probed other begin []).trace in
    let after = replay sim 3 probed other begin out.1 in
    (read (memory text after.trace) (1000 + 1 * 32768) (count_of (40000 - 1 * 32768))
      ≡ caesar true 0x1e32 (read before (1000 + 1 * 32768) (count_of (40000 - 1 * 32768))))
    × (memory text after.trace 999 ≡ before 999)
    × HasSettings (directed true dma_job) after.file.private_data
transfer_refines_example =
    transfer_refines sim base 0x100000 text caesar sim-Crypts sim-Reads 3 probed refl other begin
      true (pos 3) 1000 40000 [] dma_job 1 999 has_job (omega arith) begin_at_rest
      (length-caesar true 0x1e32) transfer_runs (omega arith) (inl (omega arith))

abbrev encrypted : Trace Syscall
encrypted = (encrypt (pos 3) 1000 40000 0 sim_system []).1

still_has_job :
    HasSettings
      (directed true dma_job)
      (replay sim 3 probed other begin encrypted).file.private_data
unfolding encrypt
still_has_job =
    (transfer_refines sim base 0x100000 text caesar sim-Crypts sim-Reads 3 probed refl other begin
      true (pos 3) 1000 40000 [] dma_job 1 999 has_job (omega arith) begin_at_rest
      (length-caesar true 0x1e32) transfer_runs (omega arith) (inl (omega arith))).2

decrypt_runs : (decrypt (pos 3) 1000 40000 0 sim_system encrypted).0 ≡ some (pos 0)
unfolding decrypt
decrypt_runs =
    transfer_succeeds sim sim-Succeeds 2 sim-Completes 3 (omega arith) probed space refl other begin
      false (pos 3) 1000 40000 encrypted (directed true dma_job) still_has_job (omega arith)

bytes_begin : (q : ℕ) → memory text (replay sim 3 probed other begin []).trace q < 256
unfolding replay memory
bytes_begin q = omega arith

decrypt-encrypt_example :
    memory text
      (replay sim 3 probed other begin (decrypt (pos 3) 1000 40000 0 sim_system encrypted).1).trace
    ≡ memory text (replay sim 3 probed other begin []).trace
decrypt-encrypt_example =
    decrypt-encrypt sim base 0x100000 text caesar sim-Crypts sim-Reads 3 probed refl other begin
      (pos 3) 1000 40000 [] dma_job has_job (omega arith) begin_at_rest (caesar-IsCipher 0x1e32)
      bytes_begin encrypt_runs decrypt_runs
