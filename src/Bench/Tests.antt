-- ===== src/Bench/Tests.antt =====
-- Runs of the benchmarks.
use cryptodev.System.Moments.{◌⊑◌}
use cryptodev.System.Chunks.{chunk}
use cryptodev.Driver.Card.{pending}
use cryptodev.Effects.{Trace}
use cryptodev.Driver.Tests.{space}
use cryptodev.Prelude.{ℕ, none, ◌+◌, ◌*◌, ◌<◌, true, ◌⊎◌, ◌/◌, pos, ◌≡◌, refl, [], ◌∷◌, ◌++◌, arith}
use cryptodev.Effects.{Answer, Env, answer}
use cryptodev.Crypter.Syscalls.{Syscall, set, unset, create_handle, close_handle}
use cryptodev.Crypter.Settings.{set_key, set_config}
use cryptodev.Crypter.Transfer.{write_chunks, transfer, encrypt, decrypt}
use cryptodev.Crypter.Transfer.Tiling.{pieces}
use cryptodev.Bench.{MappedFile, unsigned, map_file, chunks, on_card, benchmark, dma_main}
use cryptodev.Bench.Laws.{Works, rounds, benchmark_covers}
use cryptodev.Bench.Mapped.{mapped_chunks}
use cryptodev.Bench.Mapped.Work.{works_of, mapped_rounds, mapped_covers}
use cryptodev.Driver.Card.{memory}
use cryptodev.Driver.Tests.{base, probed}
use cryptodev.System.{State, replay, system as system_of}
use cryptodev.System.Tests.{
  text, caesar, caesar-IsCipher, sim, sim-Crypts, sim-Reads, sim-Succeeds, sim-Completes,
  sim_allocates,
}
use cryptodev.Bench.Restored.{benchmark_restores}
use cryptodev.Bench.Configs.{configs, Configures, benchmark-Configures}

-- A system with a file of 9000 bytes.
unfoldable system : Env Syscall
system t Syscall.open_device = answer 3
system t (Syscall.open_file name) = answer 4
system t (Syscall.fstat fd) = answer 9000
system t (Syscall.mmap_file fd n) = answer 0x700000
system t call = answer 0

-- Two chunks go out; the rest of 808 bytes does not.
dma_sends :
    pieces (dma_main system []).1
    ≡ (0x700000, 4096) ∷ (0x700000, 4096) ∷ (0x701000, 4096) ∷ (0x701000, 4096) ∷ []
unfolding dma_main benchmark map_file on_card chunks encrypt decrypt transfer write_chunks
    create_handle close_handle set_config set_key pieces system
dma_sends = refl

system-Works : Works system
unfolding system
system-Works = record {
  opens = λ t. omega arith;
  sets = λ t fd request bytes. refl;
  writes = λ t fd addr n. refl;
}

abbrev file : MappedFile
file = record { file_desc = pos 4; file_size = pos 9000; buffer = 0x700000 }

benchmark_reaches_all :
    pieces (on_card set unset file system []).1
    ≡ pieces [] ++ rounds (unsigned (pos 9000) / 4096) 0 0x700000
benchmark_reaches_all = benchmark_covers system system-Works set unset file [] (omega arith)

dma-Configures :
    (configs (benchmark set unset system []).1 ≡ configs [])
    ⊎ Configures system set unset [] (benchmark set unset system []).1
dma-Configures = benchmark-Configures system set unset [] (omega arith) (omega arith)

mapped_covers_example :
    works_of (mapped_chunks true 2 0 (pos 3) 0x700000 0x8000A8 system []).1
    ≡ works_of [] ++ mapped_rounds true 2 0 0x700000 0x8000A8
mapped_covers_example =
    mapped_covers system system-Works true 2 0 (pos 3) 0x700000 0x8000A8 [] (omega arith)
      (omega arith)

abbrev other : Syscall → Answer
other c = answer 3

abbrev begin : State
begin = record { file = record { addr = 0; private_data = none }; trace = [] }

small : (q : ℕ) → memory text (replay sim 3 probed other begin []).trace q < 256
unfolding replay memory
small q = omega arith

at_rest : pending space (replay sim 3 probed other begin []).trace ≡ none
unfolding replay pending
at_rest = refl

abbrev last : Trace Syscall
last = (on_card set unset file (system_of sim 3 probed other begin) []).1

benchmark_restores_example :
    (memory text (replay sim 3 probed other begin last).trace
      ≡ memory text (replay sim 3 probed other begin []).trace)
    × ((i : ℕ)
        → i < unsigned (pos 9000) / 4096
        → (u : Trace Syscall) × ([] ⊑ u)
          × (u ⊑ last)
          × (memory text (replay sim 3 probed other begin u).trace
              ≡ chunk
                  (caesar true (30 * 256 + 17))
                  (0x700000 + i * 4096)
                  4096
                  (memory text (replay sim 3 probed other begin []).trace)))
benchmark_restores_example =
    benchmark_restores sim base 0x100000 text caesar sim-Crypts sim-Reads sim-Succeeds 2
      sim-Completes 3 (omega arith) probed refl other begin sim_allocates refl set unset file []
      (omega arith) (caesar-IsCipher (30 * 256 + 17)) small at_rest
