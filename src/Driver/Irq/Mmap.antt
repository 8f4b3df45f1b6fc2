-- ===== src/Driver/Irq/Mmap.antt =====
-- Which physical memory `pci_mmap` maps.
use cryptodev.Prelude.{
  ℕ, ◌+◌, ◌-◌, ◌/◌, ◌^◌, ◌<◌, pos, neg, ◌≡◌, ◌⊎◌, Option, none, some, [], ◌∷◌, arith,
}
use cryptodev.Effects.{Env, Trace}
use cryptodev.Kernel.{Call}
use cryptodev.Kernel.Errno.{eagain}
use cryptodev.Driver.Device.{PciDev, CryptodevData}
use cryptodev.Driver.Irq.{VmArea, pci_mmap}

pub record Remap : Type 0 where
  pub addr : ℕ
  pub frame : ℕ
  pub bytes : ℕ

-- What a trace mapped last into a process.
unfoldable pub last_remap : Trace Call → Option Remap
last_remap [] = none
last_remap (e ∷ t) = elim e.call [
  | Call.io_remap_pfn_range a f n ↦ some (record { addr = a; frame = f; bytes = n })
  | _ ↦ last_remap t
]

module _ (env : Env Call) (vmas : VmArea) (mycryptodev : CryptodevData) (t : Trace Call) where
  -- The first page frame of the card.
  abbrev pub card_frame : ℕ
  card_frame = (env t (Call.pci_resource_start 0)).value / 2 ^ 12

  -- With a card present, `pci_mmap` maps the whole area that the caller asks for, to the frames from
  -- the card's first frame plus the caller's page offset on, and returns 0 or -EAGAIN: no size
  -- and no offset is refused. The sum of the two numbers is below 2^64.
  pub mmap_maps :
      {dev : PciDev}
      → mycryptodev.pdev ≡ some dev
      → vmas.vm_pgoff + card_frame < 2 ^ 64
      → let ((vmas', v), t') = pci_mmap mycryptodev vmas env t in
        (last_remap t'
          ≡ some (record {
            addr = vmas.vm_start;
            frame = vmas.vm_pgoff + card_frame;
            bytes = vmas.vm_end - vmas.vm_start;
          }))
        × ((v ≡ pos 0) ⊎ (v ≡ neg eagain))
        × (vmas' ≡ record vmas { vm_pgoff = vmas.vm_pgoff + card_frame })
  unfolding pci_mmap last_remap
  mmap_maps p b = ground arith
