-- ===== src/Testcases/Tests.antt =====
-- The child of test3.c on the machine of System/Tests.antt, and a run of mmap.c.
use cryptodev.System.Moments.{◌⊑◌}
use cryptodev.System.Chunks.{chunkwise}
use cryptodev.Driver.Card.{pending}
use cryptodev.Effects.{Trace}
use cryptodev.Driver.Tests.{space}
use cryptodev.Prelude.{◌/◌, ℕ, ◌+◌, ◌*◌, ◌<◌, ◌≡◌, refl, true, none, [], ◌∷◌, arith}
use cryptodev.Effects.{Answer, Env, answer}
use cryptodev.Driver.Card.{memory}
use cryptodev.Driver.Tests.{base, probed}
use cryptodev.Crypter.Syscalls.{Syscall, create_handle, close_handle}
use cryptodev.Crypter.Settings.{set_key, set_config}
use cryptodev.Crypter.Mapping.{map_card, unmap_card}
use cryptodev.Crypter.Transfer.{encrypt, decrypt, transfer, write_chunks}
use cryptodev.Bench.Mapped.Work.{Work, works_of, direction_of}
use cryptodev.System.{State, replay, system}
use cryptodev.System.Tests.{
  text, caesar, caesar-IsCipher, sim, sim-Crypts, sim-Reads, sim-Succeeds, sim-Completes,
  sim_allocates,
}
use cryptodev.Testcases.{session, configure}
use cryptodev.Testcases.Mapped.{mmap_script, on_mapped_text, mapped_main}
use cryptodev.Testcases.Programs.{test3_child}
use cryptodev.Testcases.Restored.{session_restores}

abbrev other : Syscall → Answer
other c = answer 3

abbrev begin : State
begin = record { file = record { addr = 0; private_data = none }; trace = [] }

abbrev sim_system : Env Syscall
sim_system = system sim 3 probed other begin

small : (q : ℕ) → memory text (replay sim 3 probed other begin []).trace q < 256
unfolding replay memory
small q = omega arith

at_rest : pending space (replay sim 3 probed other begin []).trace ≡ none
unfolding replay pending
at_rest = refl

-- The text has 19 bytes.
session_restores_example :
    ((session test3_child 1000 19 sim_system []).0 ≡ true)
    × (memory text
          (replay sim 3 probed other begin (session test3_child 1000 19 sim_system []).1).trace
        ≡ memory text (replay sim 3 probed other begin []).trace)
    × ((u : Trace Syscall) × ([] ⊑ u)
        × (u ⊑ (session test3_child 1000 19 sim_system []).1)
        × (memory text (replay sim 3 probed other begin u).trace
            ≡ chunkwise
                (19 / 32768 + 1)
                (caesar true (40 * 256 + 15))
                1000
                19
                (memory text (replay sim 3 probed other begin []).trace)))
unfolding test3_child
session_restores_example =
    session_restores sim base 0x100000 text caesar sim-Crypts sim-Reads sim-Succeeds 2 sim-Completes
      3 (omega arith) probed refl other begin sim_allocates refl test3_child 1000 19 []
      (omega arith) (omega arith) (omega arith) (omega arith) (caesar-IsCipher (40 * 256 + 15))
      small at_rest

-- A system where every call succeeds, the text has 27 bytes, and the card is mapped at 0x100000.
abbrev mapping : Env Syscall
mapping t (Syscall.strlen msg) = answer 27
mapping t Syscall.open_device = answer 3
mapping t (Syscall.mmap fd length) = answer 0x100000
mapping t c = answer 0

-- mmap.c works on the text twice, where it lies in the card's data area.
mapped_main_works :
    works_of (mapped_main 0x7000 mapping []).1
    ≡ Work.work_on 50 0x1000A8 27 ∷ Work.work_on 60 0x1000A8 27 ∷ []
unfolding works_of direction_of mapped_main on_mapped_text mmap_script configure create_handle
    close_handle set_key set_config map_card unmap_card encrypt decrypt transfer write_chunks
mapped_main_works = refl
