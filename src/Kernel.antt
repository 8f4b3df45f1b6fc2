-- ===== src/Kernel.antt =====
-- What drivers/cryptocard_mod.c calls of the kernel and of the card, and its error numbers.
pub mod Errno
pub mod Resources
use cryptodev.Prelude.{ℕ, List}
use cryptodev.Effects.{Io}

-- One constructor for each kernel function or register access that the driver uses. An address of
-- the card is the pointer that `pci_ioremap_bar` gave plus an offset.
pub data Call : Type 0 where
  -- memory
  kzalloc vmalloc : (size : ℕ) → Call
  kfree vfree : (p : ℕ) → Call
  copy_from_user : (src n : ℕ) → Call
  copy_to_user : (dst : ℕ) → (bytes : List ℕ) → (n : ℕ) → Call
  -- waiting
  sema_init : (count : ℕ) → Call
  init_waitqueue_head down_interruptible up wait_event wake_up_interruptible : Call
  -- registers and memory of the card
  ioread8 ioread32 readq : (addr : ℕ) → Call
  iowrite32 writeq : (value addr : ℕ) → Call
  memcpy_toio : (addr : ℕ) → (bytes : List ℕ) → (n : ℕ) → Call
  memcpy_fromio : (addr n : ℕ) → Call
  -- direct memory access
  dma_set_mask : (mask : ℕ) → Call
  dma_map_single : (bytes : List ℕ) → (n : ℕ) → Call
  dma_mapping_error : (handle : ℕ) → Call
  dma_unmap_single : (handle n : ℕ) → Call
  -- the PCI device, its interrupt and the character device
  pci_enable_device pci_disable_device pci_request_regions pci_release_regions : Call
  pci_ioremap_bar pci_resource_len pci_resource_start : (bar : ℕ) → Call
  iounmap : (addr : ℕ) → Call
  request_irq free_irq : (irq : ℕ) → Call
  alloc_chrdev_region unregister_chrdev_region : Call
  cdev_init cdev_add cdev_del : (cdev : ℕ) → Call
  io_remap_pfn_range : (start pfn size : ℕ) → Call
  -- ports, and what the demonstration drivers use besides
  inl : (port : ℕ) → Call
  outl outb : (value port : ℕ) → Call
  pci_read_config_byte : (offset : ℕ) → Call
  devm_request_irq : (irq dev_info : ℕ) → Call
  pci_set_drvdata : (info : ℕ) → Call
  platform_get_resource platform_get_irq : Call
  devm_ioremap_resource : (res : ℕ) → Call

abbrev pub KernelIo : Type 0 → Type 0
KernelIo A = Io Call A
