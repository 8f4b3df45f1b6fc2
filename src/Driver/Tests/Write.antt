-- ===== src/Driver/Tests/Write.antt =====
-- Runs of `pci_write` on the simulated machine.
use cryptodev.Prelude.{
  ◌%◌, ◌^◌, ◌+◌, ℤ, pos, neg, bit_and, ◌≡◌, ◌≢◌, inl, inr, refl, true, false, Option, none, some,
  [], ◌∷◌, arith,
}
use cryptodev.Effects.{Trace, answer, event}
use cryptodev.Kernel.{Call}
use cryptodev.Kernel.Errno.{einval, enodev, erestartsys}
use cryptodev.Kernel.Resources.{Kind, resource, held}
use cryptodev.Driver.Device.{Job, setup_configspace, is_not_live}
use cryptodev.Driver.Open.{File}
use cryptodev.Driver.Card.{last_copy, last_from_user, last_to_user, requested, operations}
use cryptodev.Driver.Wait.{busy_wait, event_wait}
use cryptodev.Driver.Wait.Progress.{polls}
use cryptodev.Driver.Write.{
  out_free, out_up, copy_back, mmio_start, mmio_finish, mmio_transfer, dma_start, dma_finish,
  dma_mapped, dma_transfer, locked_write, buffered_write, job_write, pci_write,
}
use cryptodev.Driver.Write.Finish.{locked}
use cryptodev.Driver.Write.Data.{Delivered}
use cryptodev.Driver.Write.Correct.{write_runs_job, mapped_write_runs_job}
use cryptodev.Driver.Write.Balance.{write_releases}
use cryptodev.Driver.Write.Answer.{HasSettings, IsAnswer, pci_write-Answers}
use cryptodev.Driver.Write.Guarded.{guarded, write_guarded}
use cryptodev.Driver.Write.Progress.{write_returns}
use cryptodev.Driver.Write.Leak.{interrupted_dma_leaks}
use cryptodev.Driver.Write.Refusals.{
  mapped_dma_refused, live_written, live_reply, dead_card_refused,
}
use cryptodev.Driver.Tests.{
  base, space, machine, signalled, dead, machine-Completes, machine-Unsignalled, probed, dma_job,
  mmio_job, mapped_job, opened,
}

abbrev written_by : Job → (File × Option ℤ) × Trace Call
written_by job = pci_write 4 probed (opened job) 0x5000 4 machine []

dma_runs : (written_by dma_job).0.1 ≡ some (pos 0)
unfolding pci_write job_write is_not_live buffered_write locked_write dma_transfer dma_mapped
    dma_start dma_finish copy_back out_up out_free event_wait machine polls setup_configspace
dma_runs = refl

mapped_runs : (written_by mapped_job).0.1 ≡ some (pos 0)
unfolding pci_write job_write is_not_live locked_write mmio_transfer mmio_start mmio_finish out_up
    out_free busy_wait machine polls setup_configspace
mapped_runs = refl

-- The card gives back what it computed, and the driver hands it to the caller.
dma_delivers : last_to_user (written_by dma_job).1 ≡ some (0x5000, 9 ∷ 9 ∷ [])
unfolding pci_write job_write is_not_live buffered_write locked_write dma_transfer dma_mapped
    dma_start dma_finish copy_back out_up out_free event_wait machine polls setup_configspace
    last_to_user
dma_delivers = refl

write_runs_job_example :
    (operations (setup_configspace base 0x100000) (written_by dma_job).1
      ≡ requested dma_job (4 % 2 ^ 32) (last_from_user (written_by dma_job).1)
        ∷ operations (setup_configspace base 0x100000) [])
    × Delivered 0x5000 (written_by dma_job).1
write_runs_job_example =
    write_runs_job machine base 0x100000 4 probed (opened dma_job) 0x5000 4 [] {job = dma_job} refl
      refl refl dma_runs

mapped_run :
    (mapped_job.is_m ≡ true)
    × (operations (setup_configspace base 0x100000) (written_by mapped_job).1
        ≡ requested mapped_job (4 % 2 ^ 32) (last_copy (base + 0xA8) [])
          ∷ operations (setup_configspace base 0x100000) [])
mapped_run =
    mapped_write_runs_job machine base 0x100000 4 probed (opened mapped_job) 0x5000 4 []
      {job = mapped_job} refl refl refl mapped_runs

write_releases_example :
    (held (written_by dma_job).1 ≡ held [])
    × ((job' : Job) × ((written_by dma_job).0.0.private_data ≡ some job') × (job'.msg ≡ none))
write_releases_example =
    write_releases machine 4 probed (opened dma_job) 0x5000 4 [] {job = dma_job} {v = pos 0} refl
      refl (inr (inr machine-Unsignalled)) dma_runs

write_guarded_example : guarded space.live (written_by mmio_job).1 ≡ guarded space.live []
write_guarded_example = write_guarded machine space 4 probed (opened mmio_job) 0x5000 4 [] refl

write_returns_example : (pci_write 3 probed (opened mmio_job) 0x5000 4 machine []).0.1 ≢ none
write_returns_example =
    write_returns machine 2 machine-Completes 3 (omega arith) probed (opened mmio_job) 0x5000 4 []

-- A job whose buffer is allocated, with the semaphore down and the buffer mapped for the card.
abbrev filled : Job
filled = record dma_job {
  len = 4;
  msg = some (record { addr = 0x2000; bytes = 1 ∷ 2 ∷ 3 ∷ 4 ∷ [] });
}

abbrev up_to_map : Trace Call
up_to_map =
    event (Call.dma_mapping_error 0x3000) (answer 0)
    ∷ event (Call.dma_map_single (1 ∷ 2 ∷ 3 ∷ 4 ∷ []) 4) (answer 0x3000)
    ∷ event Call.down_interruptible (answer 0)
    ∷ event (Call.vmalloc 4) (answer 0x2000)
    ∷ []

holds_all : held up_to_map ≡ resource Kind.dma 0x3000 ∷ locked filled []
unfolding held
holds_all = refl

is_signalled :
    (dma_mapped 4 space filled 0x5000 0x3000 signalled up_to_map).0.result ≡ some (neg erestartsys)
unfolding dma_mapped dma_start dma_finish out_up out_free event_wait signalled machine
is_signalled = refl

interrupted_dma_leaks_example :
    held (dma_mapped 4 space filled 0x5000 0x3000 signalled up_to_map).1
    ≡ resource Kind.dma 0x3000 ∷ []
interrupted_dma_leaks_example =
    interrupted_dma_leaks signalled [] 4 space filled 0x5000 0x3000 up_to_map holds_all is_signalled

abbrev refused_job : Job
refused_job = record mapped_job { is_m = false }

mapped_dma_is_refused :
    pci_write 4 probed (opened refused_job) 0x5000 4 machine []
    ≡ ((opened refused_job, some (neg einval)), [])
mapped_dma_is_refused =
    mapped_dma_refused machine 4 probed (opened refused_job) 0x5000 4 [] {job = refused_job}
      {space = space} refl refl refl refl

shows_dead : bit_and (live_reply dead space []).value 0x0fffffff ≢ 0
unfolding dead
shows_dead = ground arith

dead_card_is_refused : pci_write 4 probed (opened dma_job) 0x5000 4 dead [] ≡ (
  (opened dma_job, some (neg enodev)),
  event (Call.ioread32 space.live) (live_reply dead space []) ∷ live_written dead space [],
)
dead_card_is_refused =
    dead_card_refused dead 4 probed (opened dma_job) 0x5000 4 [] {job = dma_job} {space = space}
      refl refl (inl refl) shows_dead

pci_write-Answers_example :
    HasSettings dma_job (written_by dma_job).0.0.private_data × IsAnswer (written_by dma_job).0.1
pci_write-Answers_example =
    pci_write-Answers machine 4 probed (opened dma_job) 0x5000 4 [] {job = dma_job} refl
