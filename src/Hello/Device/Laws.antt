-- ===== src/Hello/Device/Laws.antt =====
-- The emulated device under any sequence of accesses, and the memory of its buffer.
use cryptodev.Prelude.{ℕ, ◌≡◌, ◌==◌, false, Option, none, some, List, [], ◌∷◌, if◌then◌else◌, arith}
use cryptodev.Effects.{Env, Trace, is_zero}
use cryptodev.Hello.Device.{
  PciHelloDevState, hello_iowrite, hello_ioread, hello_mmioread, hello_mmiowrite, SetupCall,
  hello_io_setup, pci_hellodev_realize, pci_hellodev_uninit,
}

-- One write access, and what it leaves.
pub data Access : Type 0 where
  io mmio : (addr value : ℕ) → Access

unfoldable pub step : Access → PciHelloDevState → PciHelloDevState
unfolding hello_iowrite hello_mmiowrite
step (Access.io addr value) d = hello_iowrite addr value d
step (Access.mmio addr value) d = hello_mmiowrite addr value d

-- The device after some writes.
infix 5 ◌⇒◌
pub data ◌⇒◌ : PciHelloDevState → PciHelloDevState → Type 0 where
  stay : {d : PciHelloDevState} → d ⇒ d
  move : {d d' : PciHelloDevState} (a : Access) → step a d ⇒ d' → d ⇒ d'

-- The line is asserted exactly if the device says that it threw an interrupt.
abbrev pub Sound : PciHelloDevState → Type 0
Sound d = d.threw_irq ≡ (if d.line then 1 else 0)

step-Sound : (a : Access) (d : PciHelloDevState) → Sound d → Sound (step a d)
unfolding step hello_iowrite hello_mmiowrite
step-Sound (Access.io addr value) d s = ground arith
step-Sound (Access.mmio addr value) d s = ground arith

step-id : (a : Access) (d : PciHelloDevState) → (step a d).id ≡ d.id
unfolding step hello_iowrite hello_mmiowrite
step-id (Access.io addr value) d = ground arith
step-id (Access.mmio addr value) d = ground arith

pub realize-Sound :
    (env : Env SetupCall) (t : Trace SetupCall) (d : PciHelloDevState)
    → d.line ≡ false
    → Sound (pci_hellodev_realize d env t).0.0
unfolding pci_hellodev_realize hello_io_setup
realize-Sound env t d low = ground arith

pub reached-Sound : (d d' : PciHelloDevState) → Sound d → d ⇒ d' → Sound d'
reached-Sound d _ s stay = s
reached-Sound d d' s (move a m) = reached-Sound (step a d) d' (step-Sound a d s) m

-- Whatever is written to a device whose line agrees with `threw_irq`: the port and register 0 then
-- both read 1 if the line is asserted and 0 if not, and register 4 reads the same identifier as
-- before, also after writes to register 4.
pub accesses_keep :
    (d d' : PciHelloDevState)
    → Sound d
    → d ⇒ d'
    → (hello_ioread 0 d' ≡ (if d'.line then 1 else 0))
      × (hello_mmioread 0 d' ≡ (if d'.line then 1 else 0))
      × (hello_mmioread 4 d' ≡ hello_mmioread 4 d)
unfolding hello_ioread hello_mmioread
accesses_keep d _ s stay = ground arith
accesses_keep d d' s (move a m) =
    ground (arith, step-id a d, accesses_keep (step a d) d' (step-Sound a d s) m)

-- The buffers that a trace has allocated and not freed.
unfoldable pub remove_one : ℕ → List ℕ → List ℕ
remove_one p [] = []
remove_one p (q ∷ qs) = if q == p then qs else q ∷ remove_one p qs

abbrev pub free_in : Option ℕ → List ℕ → List ℕ
free_in none held = held
free_in (some p) held = remove_one p held

unfoldable pub allocated : Trace SetupCall → List ℕ
unfolding remove_one
allocated [] = []
allocated (e ∷ t) = elim e.call [
  | SetupCall.malloc n ↦ if is_zero e.reply then allocated t else e.reply.value ∷ allocated t
  | SetupCall.free p ↦ free_in p (allocated t)
  | _ ↦ allocated t
]

-- The device is set up exactly if `msi_init` returns 0; it then holds the buffer that it allocated
-- and `uninit` gives that back. If `msi_init` fails the buffer is allocated all the same.
pub realize_uninit :
    (env : Env SetupCall) (d : PciHelloDevState) (t : Trace SetupCall)
    → let ((d', ok), t') = pci_hellodev_realize d env t in
      (allocated t' ≡ elim d'.dma_buf [ none ↦ allocated t | some p ↦ p ∷ allocated t ])
      × (hello_mmioread 4 d' ≡ 0x1337)
      × (hello_ioread 0 d' ≡ 0)
      × (allocated (pci_hellodev_uninit d' env t').1 ≡ allocated t)
unfolding pci_hellodev_realize pci_hellodev_uninit hello_io_setup hello_mmioread hello_ioread
    allocated remove_one
realize_uninit env d t = ground arith
