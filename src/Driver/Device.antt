-- ===== src/Driver/Device.antt =====
-- The data of drivers/cryptocard_mod.c: the constants, the structs, the register map and the
-- liveness test.
pub mod Layout
use cryptodev.Prelude.{ℕ, ◌+◌, Bool, not, Option, List, ◌==◌, bit_and}
use cryptodev.Effects.{call, run, pure, ◌>>=◌, ◌>>◌}
use cryptodev.Kernel.{Call, KernelIo}

-- The bytes that the library sends with an ioctl request.
abbrev pub interrupt : ℕ
interrupt = 10

abbrev pub nointerrupt : ℕ
nointerrupt = 20

abbrev pub mmio : ℕ
mmio = 30

abbrev pub dma : ℕ
dma = 40

abbrev pub encrypt : ℕ
encrypt = 50

abbrev pub decrypt : ℕ
decrypt = 60

abbrev pub mmap : ℕ
mmap = 70

abbrev pub unmmap : ℕ
unmmap = 80

abbrev pub buffersize : ℕ
buffersize = 32768

-- The request numbers of ioctl; `other` is any number that the driver does not know.
pub data Request : Type 0 where
  set_key___ set_config set_encryp set_mmap__ other : Request

abbrev pub pci_cryptocard_device : ℕ
pci_cryptocard_device = 0xdeba

abbrev pub pci_cryptocard_idfier : ℕ
pci_cryptocard_idfier = 0x010C5730

-- A kernel buffer behind `msg`: its address and what it holds.
pub record Buffer : Type 0 where
  pub addr : ℕ
  pub bytes : List ℕ

-- `struct job`, the state of an open file; `msg` is none for NULL.
pub record Job : Type 0 where
  pub is_e : Bool
  pub is_m : Bool
  pub is_i : Bool
  pub is_not_mm : Bool
  pub len : ℕ
  pub msg : Option Buffer
  pub keyab : ℕ

-- `struct mem_region`
pub record MemRegion : Type 0 where
  pub start : ℕ
  pub last : ℕ

-- `struct config_mem`: where the registers of the card are mapped.
pub record ConfigMem : Type 0 where
  pub start : ℕ
  pub id : ℕ
  pub live : ℕ
  pub keys : ℕ
  pub len_msg : ℕ
  pub r5 : MemRegion
  pub status : ℕ
  pub interrupt_status : ℕ
  pub r4 : MemRegion
  pub interrupt_raise : ℕ
  pub interrupt_ack : ℕ
  pub r3 : MemRegion
  pub data_addr : ℕ
  pub r2 : MemRegion
  pub addr_op : ℕ
  pub dlen_msg : ℕ
  pub cmd : ℕ
  pub r1 : MemRegion
  pub size : ℕ

-- What the driver reads of a `struct pci_dev`.
pub record PciDev : Type 0 where
  pub irq : ℕ
  pub device : ℕ

-- `struct cryptodev_data`, with none for NULL; `configspace` points to an allocation, whose
-- address is `space_addr`. The semaphore and the wait queue are the kernel's.
pub record CryptodevData : Type 0 where
  pub cdev : ℕ
  pub pdev : Option PciDev
  pub configspace : Option ConfigMem
  pub space_addr : ℕ

abbrev region : ℕ → ℕ → MemRegion
region a b = record { start = a; last = b }

unfoldable pub setup_configspace : ℕ → ℕ → ConfigMem
setup_configspace start size = record {
  start = start;
  id = start + 0x0;
  live = start + 0x4;
  keys = start + 0x8;
  len_msg = start + 0xC;
  r5 = region (start + 0x10) (start + 0x1F);
  status = start + 0x20;
  interrupt_status = start + 0x24;
  r4 = region (start + 0x28) (start + 0x5F);
  interrupt_raise = start + 0x60;
  interrupt_ack = start + 0x64;
  r3 = region (start + 0x68) (start + 0x7F);
  data_addr = start + 0x80;
  r2 = region (start + 0x88) (start + 0x8F);
  addr_op = start + 0x90;
  dlen_msg = start + 0x98;
  cmd = start + 0xA0;
  r1 = region (start + 0xA8) (start + 0xFFFFF);
  size = size;
}

-- The driver writes a value to the card's register `live` and reads it back; the card is live if
-- the bits of the value come back cleared.
unfoldable pub is_not_live : ℕ → ℕ → KernelIo Bool
is_not_live live value = do
  run (Call.iowrite32 value live)
  a ← call (Call.ioread32 live)
  pure (not (bit_and a.value value == 0))
