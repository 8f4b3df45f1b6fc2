-- ===== src/System/Mapped/Tests.antt =====
-- encrypt of two pieces of mapped memory, and encrypt and decrypt of a short one, on the machine of System/Tests.antt.
use cryptodev.Prelude.{ℕ, ◌+◌, ◌≡◌, pos, refl, true, none, some, List, ◌++◌, [], ◌∷◌, arith}
use cryptodev.Effects.{Trace, Env, Answer, answer, event}
use cryptodev.Kernel.{Call}
use cryptodev.Driver.Device.{setup_configspace, is_not_live}
use cryptodev.Driver.Card.{last_copy, operations, offsets, bare, memory}
use cryptodev.Driver.Ioctl.{job_ioctl, pci_unlocked_ioctl}
use cryptodev.Driver.Wait.{busy_wait}
use cryptodev.Driver.Wait.Progress.{polls}
use cryptodev.Driver.Write.{
  out_free, out_up, mmio_start, mmio_finish, mmio_transfer, locked_write, job_write, pci_write,
}
use cryptodev.Driver.Write.Answer.{HasSettings}
use cryptodev.Driver.Tests.{base, probed, mmio_job, opened}
use cryptodev.Crypter.Syscalls.{Syscall}
use cryptodev.Crypter.Transfer.{transfer, write_chunks}
use cryptodev.System.{State, serve, replay, system}
use cryptodev.System.Settings.{byte_of}
use cryptodev.System.Tests.{sim, text}
use cryptodev.System.Mapped.{area_job, sum, Cut, started, places}
use cryptodev.System.Mapped.Runs.{mapped_transfer_runs}

abbrev other : Syscall → Answer
other c = answer 0

abbrev begin : State
begin = record {
  file = opened mmio_job;
  trace = event (Call.memcpy_toio (base + 0xA8) (7 ∷ []) 1) (answer 0) ∷ [];
}

abbrev sim_system : Env Syscall
sim_system = system sim 3 probed other begin

has_job : HasSettings mmio_job (replay sim 3 probed other begin []).file.private_data
unfolding replay
has_job = ground arith

abbrev after : Trace Syscall
after = (transfer (byte_of true) (pos 3) 0x7000 40000 1 sim_system []).1

mapped_runs : (transfer (byte_of true) (pos 3) 0x7000 40000 1 sim_system []).0 ≡ some (pos 0)
unfolding transfer write_chunks replay serve pci_unlocked_ioctl job_ioctl pci_write job_write
    is_not_live locked_write mmio_transfer mmio_start mmio_finish out_up out_free busy_wait sim
    polls setup_configspace
mapped_runs = refl

mapped_transfer_runs_example :
    let t = (replay sim 3 probed other begin []).trace in
    let t' = (replay sim 3 probed other begin after).trace in
    let space = setup_configspace base 0x100000 in
    (mmio_job.is_m ≡ true)
    × ((ns : List ℕ) × (bare (operations space t')
          ≡ started (area_job true mmio_job) none ns ++ bare (operations space t))
        × (offsets space t' ≡ places ns ++ offsets space t)
        × (sum ns ≡ 40000)
        × Cut ns)
    × (last_copy (base + 0xA8) t' ≡ last_copy (base + 0xA8) t)
    × (memory text t' ≡ memory text t)
    × HasSettings (area_job true mmio_job) (replay sim 3 probed other begin after).file.private_data
mapped_transfer_runs_example =
    mapped_transfer_runs sim base 0x100000 text 3 probed refl other begin true (pos 3) 0x7000 40000
      1 [] mmio_job has_job refl mapped_runs
