-- ===== src/Driver/Writers/Alone/Tests.antt =====
-- A call by DMA with interrupts, as steps of one thread.
use cryptodev.Prelude.{ℤ, pos, ◌≡◌, refl, none, some, Option, [], ◌∷◌, ◌+◌}
use cryptodev.Effects.{Trace, answer, event}
use cryptodev.Kernel.{Call}
use cryptodev.Driver.Device.{setup_configspace, is_not_live}
use cryptodev.Driver.Card.{last_copy, operations}
use cryptodev.Driver.Open.{File}
use cryptodev.Driver.Wait.{event_wait}
use cryptodev.Driver.Wait.Progress.{polls}
use cryptodev.Driver.Write.{
  out_free, out_up, copy_back, locked_write, buffered_write, job_write, pci_write, dma_transfer,
  dma_mapped, dma_start, dma_finish,
}
use cryptodev.Driver.Writers.{Registers, View, Pc}
use cryptodev.Driver.Writers.Alone.{Moves, given, returned, Shows}
use cryptodev.Driver.Writers.Alone.Refines.{write_refines}
use cryptodev.Driver.Tests.{base, machine, probed, dma_job, opened}

abbrev card : Registers
card = record {
  keys = 0;
  len_msg = 0;
  status = 0;
  copied = 7 ∷ [];
  addr_op = 0;
  dlen_msg = 0;
  mapping = (0, []);
  last_start = none;
}

abbrev outside : View
outside = record { semaphore = 1; card = card; job = dma_job; allocated = []; freed = [] }

abbrev copied : Trace Call
copied = event (Call.memcpy_toio (base + 0xA8) (7 ∷ []) 1) (answer 0) ∷ []

abbrev ran : (File × Option ℤ) × Trace Call
ran = pci_write 4 probed (opened dma_job) 0x5000 4 machine copied

copied-Shows : Shows base 0x100000 copied outside
unfolding last_copy operations given returned
copied-Shows = record { area = refl; ran = refl; taken = refl; freed = refl }

returns_zero : ran.0.1 ≡ some (pos 0)
unfolding pci_write job_write is_not_live buffered_write locked_write dma_transfer dma_mapped
    dma_start dma_finish copy_back out_up out_free event_wait machine polls setup_configspace
returns_zero = refl

write_refines_example :
    (w : View) × Moves outside Pc.idle w Pc.idle
    × (ran.0.0.private_data ≡ some w.job)
    × (w.semaphore ≡ 1)
    × Shows base 0x100000 ran.1 w
write_refines_example =
    write_refines machine base 0x100000 outside 4 probed (opened dma_job) 0x5000 4 0 copied
      {r = pos 0} refl refl refl copied-Shows returns_zero
