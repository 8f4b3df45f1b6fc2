-- ===== src/Driver/Tests.antt =====
-- A simulated machine on which the driver runs, and the data of the runs.
mod Probe
mod Wait
mod Write
mod Files
mod Life
use cryptodev.Prelude.{
  ℕ, ◌<◌, ◌≤◌, ◌≡◌, zero, suc, none, some, true, false, List, [], ◌∷◌, ltb, ◌==◌, if◌then◌else◌,
  arith,
}
use cryptodev.Effects.{Answer, Env, Trace, answer, event}
use cryptodev.Kernel.{Call}
use cryptodev.Driver.Device.{
  Job, PciDev, ConfigMem, CryptodevData, setup_configspace, pci_cryptocard_device,
}
use cryptodev.Driver.Open.{File}
use cryptodev.Driver.Wait.{is_busy}
use cryptodev.Driver.Wait.Laws.{Unsignalled}
use cryptodev.Driver.Wait.Progress.{polls, Completes}

-- Where the card is mapped, and the addresses of some registers.
abbrev pub base : ℕ
base = 0x10000

abbrev pub space : ConfigMem
space = setup_configspace base 0x100000

-- The card: its identifier, the inverted `live`, and a DMA interrupt.
abbrev card_register : ℕ → ℕ
card_register a =
    if a == 0x10000
    then 0x010C5730
    else if a == 0x10004
    then 0xf0000000
    else if a == 0x10024
    then 0x100
    else 0

-- It is busy for two reads.
abbrev pub busy_bit : ℕ → Answer
busy_bit n = answer (if ltb n 2 then 1 else 0)

-- A machine on which everything succeeds.
unfoldable pub machine : Env Call
machine t (Call.kzalloc n) = answer 0x1000
machine t (Call.vmalloc n) = answer 0x2000
machine t (Call.copy_from_user p n) = record { value = 0; bytes = 30 ∷ 50 ∷ 0 ∷ 0 ∷ [] }
machine t (Call.ioread32 a) = answer (card_register a)
machine t (Call.ioread8 a) = busy_bit (polls t)
machine t (Call.readq a) = busy_bit (polls t)
machine t (Call.memcpy_fromio a n) = record { value = 0; bytes = 7 ∷ 8 ∷ [] }
machine t (Call.dma_map_single bytes n) = answer 0x3000
machine t (Call.dma_unmap_single h n) = record { value = 0; bytes = 9 ∷ 9 ∷ [] }
machine t (Call.pci_ioremap_bar bar) = answer base
machine t (Call.pci_resource_len bar) = answer 0x100000
machine t (Call.pci_resource_start bar) = answer 0xfe000000
machine t call = answer 0

-- The same, but the card stays busy and every wait ends by a signal.
unfoldable pub signalled : Env Call
unfolding machine
signalled t (Call.readq a) = answer 1
signalled t Call.wait_event = answer 1
signalled t c = machine t c

-- The same, but the caller's memory cannot be read.
unfoldable pub faulty : Env Call
unfolding machine
faulty t (Call.copy_from_user p n) = record { value = 1; bytes = [] }
faulty t c = machine t c

-- The same, but the card does not invert `live`.
unfoldable pub dead : Env Call
unfolding machine
dead t (Call.ioread32 a) = answer 0x0fffffff
dead t c = machine t c

pub machine-Completes : Completes machine 2
unfolding machine
machine-Completes = record {
  status_clears = λ t a h. ground arith;
  cmd_clears = λ t a h. ground arith;
}

pub machine-Unsignalled : Unsignalled machine
unfolding machine
machine-Unsignalled = record { waits = λ t. ground arith }

abbrev pub card : PciDev
card = record { irq = 11; device = pci_cryptocard_device }

abbrev pub probed : CryptodevData
probed = record { cdev = 0x1000; pdev = some card; configspace = some space; space_addr = 0x1000 }

-- Encryption by DMA with interrupts, of a buffer of the caller's.
abbrev pub dma_job : Job
dma_job = record {
  is_e = true;
  is_m = false;
  is_i = true;
  is_not_mm = true;
  len = 0;
  msg = none;
  keyab = 0x1e32;
}

abbrev pub mmio_job : Job
mmio_job = record dma_job { is_m = true; is_i = false }

abbrev pub mapped_job : Job
mapped_job = record mmio_job { is_not_mm = false }

abbrev pub opened : Job → File
opened job = record { addr = 0x1000; private_data = some job }
