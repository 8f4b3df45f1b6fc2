-- ===== src/Kernel/Resources.antt =====
-- What a trace of kernel calls has acquired and not yet given back.
use cryptodev.Prelude.{ℕ, Bool, ◌&&◌, List, [], ◌∷◌, ◌==◌, if◌then◌else◌}
use cryptodev.Effects.{Answer, Trace, is_zero}
use cryptodev.Kernel.{Call}

pub data Kind : Type 0 where
  memory buffer device regions mapping irq_line chrdev node semaphore dma not_held : Kind

-- The pointer or handle tells resources of one kind apart; 0 where there is only one.
pub record Resource : Type 0 where
  pub kind : Kind
  pub id : ℕ

abbrev pub resource : Kind → ℕ → Resource
resource k i = record { kind = k; id = i }

abbrev code : Kind → ℕ
code Kind.memory = 0
code Kind.buffer = 1
code Kind.device = 2
code Kind.regions = 3
code Kind.mapping = 4
code Kind.irq_line = 5
code Kind.chrdev = 6
code Kind.node = 7
code Kind.semaphore = 8
code Kind.dma = 9
code Kind.not_held = 10

abbrev same : Resource → Resource → Bool
same r s = code r.kind == code s.kind && r.id == s.id

-- A resource is given back once. To give back one that is not held leaves a mark.
abbrev pub release : Resource → List Resource → List Resource
release r [] = resource Kind.not_held r.id ∷ []
release r (s ∷ held) = if same r s then held else s ∷ release r held

abbrev if_pointer : Kind → Answer → List Resource → List Resource
if_pointer k a held = if is_zero a then held else resource k a.value ∷ held

abbrev if_success : Resource → Answer → List Resource → List Resource
if_success r a held = if is_zero a then r ∷ held else held

-- Pointers are acquired if they are not NULL, the rest if the call returns 0.
abbrev pub effect : Call → Answer → List Resource → List Resource
effect (Call.kzalloc n) a held = if_pointer Kind.memory a held
effect (Call.kfree p) a held = release (resource Kind.memory p) held
effect (Call.vmalloc n) a held = if_pointer Kind.buffer a held
effect (Call.vfree p) a held = release (resource Kind.buffer p) held
effect Call.pci_enable_device a held = if_success (resource Kind.device 0) a held
effect Call.pci_disable_device a held = release (resource Kind.device 0) held
effect Call.pci_request_regions a held = if_success (resource Kind.regions 0) a held
effect Call.pci_release_regions a held = release (resource Kind.regions 0) held
effect (Call.pci_ioremap_bar bar) a held = if_pointer Kind.mapping a held
effect (Call.iounmap p) a held = release (resource Kind.mapping p) held
effect (Call.request_irq i) a held = if_success (resource Kind.irq_line i) a held
effect (Call.devm_request_irq i p) a held = if_success (resource Kind.irq_line i) a held
effect (Call.free_irq i) a held = release (resource Kind.irq_line i) held
effect Call.alloc_chrdev_region a held = if_success (resource Kind.chrdev 0) a held
effect Call.unregister_chrdev_region a held = release (resource Kind.chrdev 0) held
effect (Call.cdev_add p) a held = if_success (resource Kind.node p) a held
effect (Call.cdev_del p) a held = release (resource Kind.node p) held
effect Call.down_interruptible a held = if_success (resource Kind.semaphore 0) a held
effect Call.up a held = release (resource Kind.semaphore 0) held
effect (Call.dma_mapping_error h) a held = if_success (resource Kind.dma h) a held
effect (Call.dma_unmap_single h n) a held = release (resource Kind.dma h) held
effect _ a held = held

unfoldable pub held : Trace Call → List Resource
held [] = []
held (e ∷ t) = effect e.call e.reply (held t)
