-- ===== src/Crypter/Tests.antt =====
-- Runs of the library on a simulated operating system.
use cryptodev.Prelude.{
  ℕ, ◌%◌, ◌^◌, ◌+◌, ◌-◌, ◌≤◌, ◌<◌, ◌≡◌, ◌≢◌, pos, refl, true, false, some, List, [], ◌∷◌, arith,
}
use cryptodev.Effects.{Env, answer}
use cryptodev.Kernel.{Call}
use cryptodev.Driver.Device.{Request}
use cryptodev.Driver.Ioctl.{job_ioctl}
use cryptodev.Driver.Tests.{dma_job}
use cryptodev.Crypter.Syscalls.{Syscall}
use cryptodev.Crypter.Transfer.{write_chunks, transfer}
use cryptodev.Crypter.Transfer.Tiling.{pieces, Covered, transfer_tiles}
use cryptodev.Crypter.Settings.{ConfigType, set_key, set_config}
use cryptodev.Crypter.Settings.Laws.{
  sent, set_key_reaches_job, set_config_reaches_job, set_config_misreads,
}
use cryptodev.Crypter.Mapping.{card_size, map_card, unmap_card}
use cryptodev.Crypter.Mapping.Laws.{last_munmap, map_unmap, map_failure_missed, map_overruns}

-- A system on which everything succeeds, and one on which `mmap` fails.
unfoldable system : Env Syscall
system t Syscall.open_device = answer 3
system t (Syscall.mmap fd n) = answer 0x700000
system t call = answer 0

unfoldable exhausted : Env Syscall
exhausted t (Syscall.mmap fd n) = answer (2 ^ 64 - 1)
exhausted t call = answer 0

-- A kernel that reads these bytes from the caller's memory.
unfoldable reading : List ℕ → Env Call
reading bytes t (Call.copy_from_user p n) = record { value = 0; bytes = bytes }
reading bytes t call = answer 0

-- 70000 bytes go out in three pieces.
sends_pieces :
    pieces (transfer 50 (pos 3) 0x5000 70000 0 system []).1
    ≡ (0x5000, 32768) ∷ (0xd000, 32768) ∷ (0x15000, 4464) ∷ []
unfolding transfer write_chunks pieces system
sends_pieces = refl

transfer_tiles_example : Covered 0x5000 70000 [] (transfer 50 (pos 3) 0x5000 70000 0 system [])
transfer_tiles_example = transfer_tiles system (pos 3) 50 0x5000 70000 0 [] (omega arith)

-- `set_key 30 50`, and what the driver reads of it.
abbrev key_sent : List ℕ
key_sent = sent (set_key (pos 3) 30 50 system []).1

reads_key :
    reading key_sent [] (Call.copy_from_user 0x5000 4) ≡ record { value = 0; bytes = key_sent }
unfolding reading
reads_key = refl

set_key_reaches_job_example :
    (job_ioctl Request.set_key___ 0x5000 dma_job (reading key_sent) []).0
    ≡ (record dma_job { keyab = 7730 }, pos 0)
set_key_reaches_job_example =
    set_key_reaches_job system (pos 3) [] (reading key_sent) 0x5000 dma_job [] 30 50 (omega arith)
      (omega arith) reads_key

abbrev config_sent : ℕ → List ℕ
config_sent value = sent (set_config (pos 3) ConfigType.dmas value system []).1

reads_config :
    (value : ℕ)
    → reading (config_sent value) [] (Call.copy_from_user 0x5000 1)
      ≡ record { value = 0; bytes = config_sent value }
unfolding reading
reads_config value = refl

set_config_reaches_job_example :
    (job_ioctl Request.set_config 0x5000 dma_job (reading (config_sent 0)) []).0
    ≡ (record dma_job { is_m = true }, pos 0)
set_config_reaches_job_example =
    set_config_reaches_job system (pos 3) [] (reading (config_sent 0)) 0x5000 dma_job []
      ConfigType.dmas 0 (omega arith) (reads_config 0)

set_config_misread :
    (job_ioctl Request.set_config 0x5000 dma_job (reading (config_sent 2)) []).0
    ≡ (record dma_job { is_i = false }, pos 0)
set_config_misread =
    set_config_misreads system (pos 3) [] (reading (config_sent 2)) 0x5000 dma_job [] 2
      (omega arith) (reads_config 2)

maps : (system [] (Syscall.mmap (pos 3) card_size)).value ≡ 0x700000
unfolding system
maps = refl

maps_below : (system [] (Syscall.mmap (pos 3) card_size)).value < 2 ^ 64
maps_below = ground (arith, maps)

maps_inside : (system [] (Syscall.mmap (pos 3) card_size)).value + 2 ^ 20 ≤ 2 ^ 64
maps_inside = ground (arith, maps)

maps_somewhere : 0 < (system [] (Syscall.mmap (pos 3) card_size)).value
maps_somewhere = ground (arith, maps)

finds : (map_card (pos 3) 4096 system []).0 ≢ 0
unfolding map_card system
finds = ground arith

map_then_unmap :
    (4096 ≤ 2 ^ 20)
    × ((map_card (pos 3) 4096 system []).0
        ≡ ((system [] (Syscall.mmap (pos 3) card_size)).value + 0xA8) % 2 ^ 64)
    × (last_munmap (unmap_card (map_card (pos 3) 4096 system []).0 system []).1
        ≡ some ((system [] (Syscall.mmap (pos 3) card_size)).value, 2 ^ 20))
map_then_unmap = map_unmap system (pos 3) 4096 [] [] maps_below finds

fails : (exhausted [] (Syscall.mmap (pos 3) card_size)).value ≡ 2 ^ 64 - 1
unfolding exhausted
fails = refl

map_failure_is_missed : (map_card (pos 3) 4096 exhausted []).0 ≡ 0xA7
map_failure_is_missed = map_failure_missed exhausted (pos 3) 4096 [] (omega arith) fails

map_overruns_example :
    ((map_card (pos 3) 1048576 system []).0
      ≡ (system [] (Syscall.mmap (pos 3) card_size)).value + 0xA8)
    × ((system [] (Syscall.mmap (pos 3) card_size)).value + 2 ^ 20
        < (map_card (pos 3) 1048576 system []).0 + 1048576)
map_overruns_example =
    map_overruns system (pos 3) 1048576 [] (omega arith) (omega arith) maps_somewhere maps_inside
