-- ===== src/Driver/Tests/Files.antt =====
-- Runs of the file operations and the interrupt handler on the simulated machine.
use cryptodev.Prelude.{
  ◌+◌, ◌≤◌, ◌<◌, ◌^◌, pos, neg, ◌≡◌, ◌≢◌, ◌⊎◌, inl, inr, refl, true, none, some, [], ◌∷◌, arith,
  if◌then◌else◌, ◌==◌, ◌||◌,
}
use cryptodev.Effects.{event}
use cryptodev.Kernel.{Call}
use cryptodev.Kernel.Errno.{enomem, eagain, ebusy, einval}
use cryptodev.Kernel.Resources.{Kind, resource, held}
use cryptodev.Driver.Device.{Request, buffersize, setup_configspace}
use cryptodev.Driver.Device.Layout.{areas, Fills, registers_fill}
use cryptodev.Driver.Open.{File, new_job, pci_open, pci_release}
use cryptodev.Driver.Open.Laws.{open_release}
use cryptodev.Driver.Ioctl.{u32_at, job_ioctl}
use cryptodev.Driver.Ioctl.Laws.{ioctl_sets, ioctl_faults}
use cryptodev.Driver.Card.{last_write}
use cryptodev.Driver.Irq.{irq_handled, pci_irq_handle, VmArea, pci_mmap}
use cryptodev.Driver.Irq.Mmap.{last_remap, card_frame, mmap_maps}
use cryptodev.Driver.Irq.Laws.{wakes, irq_acknowledges, irq_ignores}
use cryptodev.Driver.Tests.{base, space, machine, faulty, card, probed, dma_job}

abbrev closed : File
closed = record { addr = 0; private_data = none }

open_then_release :
    let ((opened, v), t') = pci_open closed machine [] in
    ((v ≡ neg enomem) × (held t' ≡ held []) × (opened ≡ closed))
    ⊎ ((v ≡ pos 0)
        × (held t' ≡ resource Kind.memory opened.addr ∷ held [])
        × (opened.private_data ≡ some new_job)
        × (held (pci_release opened machine t').1 ≡ held [])
        × ((pci_release opened machine t').0.0.private_data ≡ none))
open_then_release = open_release machine closed []

reads :
    machine [] (Call.copy_from_user 0x5000 1) ≡ record { value = 0; bytes = 30 ∷ 50 ∷ 0 ∷ 0 ∷ [] }
unfolding machine
reads = refl

-- Byte 30 turns MMIO on, and nothing else changes.
ioctl_sets_example :
    let (job', v) = (job_ioctl Request.set_config 0x5000 dma_job machine []).0 in
    (job'.is_m ≡ true)
    × (job'.is_i ≡ true)
    × (job'.is_e ≡ true)
    × (job'.is_not_mm ≡ true)
    × (job'.keyab ≡ 0x1e32)
    × (job'.len ≡ 0)
    × (job'.msg ≡ none)
    × (v ≡ pos 0)
ioctl_sets_example =
    ioctl_sets machine Request.set_config 0x5000 dma_job [] (30 ∷ 50 ∷ 0 ∷ 0 ∷ []) reads

does_fault : (faulty [] (Call.copy_from_user 0x5000 4)).value ≢ 0
unfolding faulty
does_fault = ground arith

ioctl_faults_example : job_ioctl Request.set_key___ 0x5000 dma_job faulty [] ≡ (
  (record dma_job { keyab = u32_at (faulty [] (Call.copy_from_user 0x5000 4)).bytes }, neg eagain),
  event (Call.copy_from_user 0x5000 4) (faulty [] (Call.copy_from_user 0x5000 4)) ∷ [],
)
ioctl_faults_example =
    ioctl_faults faulty Request.set_key___ 0x5000 dma_job [] (ground arith) does_fault

irq_acknowledges_example :
    let status = (machine [] (Call.ioread32 space.interrupt_status)).value in
    let (v, t') = pci_irq_handle (some card) probed machine [] in
    let known = status == 0x001 || status == 0x100 in
    (last_write space.interrupt_ack t' ≡ some status)
    × (wakes t' ≡ wakes [] + (if known then 1 else 0))
    × (v ≡ (if known then irq_handled else neg einval))
irq_acknowledges_example = irq_acknowledges machine card probed space [] refl refl

irq_ignored : pci_irq_handle none probed machine [] ≡ (neg ebusy, [])
irq_ignored = irq_ignores machine none probed [] (inr (inl refl))

registers_fill_example :
    let m = setup_configspace base 0x100000 in
    Fills m.start (base + 0x100000) (areas m) × (m.r1.start + buffersize ≤ m.r1.last)
registers_fill_example = registers_fill base 0x100000

abbrev area : VmArea
area = record { vm_start = 0x700000; vm_end = 0x800000; vm_pgoff = 1 }

frames_below : 1 + card_frame machine area probed [] < 2 ^ 64
unfolding machine
frames_below = ground arith

mmap_maps_example :
    let ((vmas', v), t') = pci_mmap probed area machine [] in
    (last_remap t'
      ≡ some (record {
        addr = 0x700000;
        frame = 1 + card_frame machine area probed [];
        bytes = 0x100000;
      }))
    × ((v ≡ pos 0) ⊎ (v ≡ neg eagain))
    × (vmas' ≡ record area { vm_pgoff = 1 + card_frame machine area probed [] })
mmap_maps_example = mmap_maps machine area probed [] {dev = card} refl frames_below
