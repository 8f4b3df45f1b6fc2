-- ===== src/Driver/Tests/Life.antt =====
-- A life of the driver on the simulated machine.
use cryptodev.Prelude.{◌≡◌, none, true, List, [], ◌∷◌, arith}
use cryptodev.Kernel.Resources.{held}
use cryptodev.Driver.Device.{Request}
use cryptodev.Driver.Open.{File}
use cryptodev.Driver.Probe.{no_device}
use cryptodev.Driver.Life.{FileCall, life}
use cryptodev.Driver.Life.Balance.{life_balanced}
use cryptodev.Driver.Tests.{machine, machine-Completes, machine-Unsignalled, card}

-- A file for unmapped memory that is written twice, one that is closed at once, and one that is written
-- with the settings of a new job, after a request that the driver does not know.
abbrev calls : List (List FileCall)
calls =
    (FileCall.ioctl Request.set_mmap__ 0x5000
      ∷ FileCall.write 0x5000 4
      ∷ FileCall.mmap (record { vm_start = 0x7000; vm_end = 0x8000; vm_pgoff = 0 })
      ∷ FileCall.write 0x5004 8
      ∷ [])
    ∷ []
    ∷ (FileCall.ioctl Request.other 0 ∷ FileCall.write 0x5000 4 ∷ [])
    ∷ []

abbrev closed : File
closed = record { addr = 0; private_data = none }

life_balanced_example :
    ((life 3 136 card no_device calls closed machine []).0 ≡ true)
    × (held (life 3 136 card no_device calls closed machine []).1 ≡ held [])
life_balanced_example =
    life_balanced machine 2 machine-Completes machine-Unsignalled 3 136 card no_device (omega arith)
      calls closed []
