-- ===== src/Lib.antt =====
-- The CryptoCard driver and its user library.
--
-- The program has two parts in C. drivers/cryptocard_mod.c is a Linux driver for a PCI card that
-- encrypts and decrypts: it offers a character device whose ioctl sets up a job (key, direction,
-- MMIO or DMA, interrupts, whose memory) and whose write runs the card on the caller's bytes.
-- src/crypter.c with include/crypter.h is the library that programs call: it opens the device,
-- sends the ioctl requests and cuts data into writes of at most 32768 bytes.
--
-- Effects.antt: code that calls something outside. Each call is an event of a trace, the latest
--   first, and the other side is a function from the trace so far and the call to the answer. It is
--   a parameter everywhere, so a theorem holds for whatever the kernel, the card and other
--   processes answer, up to the hypotheses it names.
-- Prelude.antt: shared names, Boolean tests, the integers that C functions return, bytes in words.
-- Kernel.antt: what the driver calls, error numbers (Errno), and what a trace has acquired and not
--   yet given back (Resources).
-- Memory.antt: the bytes of the caller by their address, and reads and writes of them.
-- Driver.antt, for drivers/cryptocard_mod.c:
--   Device: structs, constants, setup_configspace, is_not_live; Layout: where the registers lie.
--   Card: what the register accesses of a trace ask of the card, and what its copies do to the
--   caller's memory, independent of the driver's code. Two records of it state what the kernel's
--   copy and the card are documented to do (CS730_2019_20_PA.pdf, pages 2 and 3: a busy card accepts
--   no start, and its result is there once the busy bit is clear); theorems that need them take them
--   as hypotheses.
--   Open: pci_open, pci_release. Ioctl: pci_unlocked_ioctl. Irq: pci_irq_handle, pci_mmap.
--   Wait: the busy loops and wait_event_interruptible. Write: pci_write, one definition for each
--   piece of it and for each label. Probe: cryptocard_probe with its labels, cryptocard_remove.
--   Tables: the file operations, the supported devices and the PCI driver, as records. Life: the order
--   in which the kernel calls them, from the probe to the removal.
--   Writers: pci_write once more, an access to shared state at a time, as steps of any number of
--   threads on any number of open files (System), between which ioctl may change the jobs; Alone
--   relates it to Write.
--   Their children hold the proofs, and Tests a simulated machine with runs on it.
-- Crypter.antt, for src/crypter.c: Syscalls (create_handle, close_handle), Transfer (encrypt,
--   decrypt), Settings (set_key, set_config), Mapping (map_card, unmap_card), Tests.
-- System.antt: the library on the driver. The calls of the library that are ioctl or write on an
--   open file run pci_unlocked_ioctl and pci_write, which have a trace of their own; open and close
--   run pci_open and pci_release. Settings is about the two ioctls of encrypt and decrypt, Write about
--   one write, Chunks about a function that is applied to one piece of memory after the other,
--   Transfer about encrypt and decrypt as a whole, Mapped about them on the card's mapped memory, and
--   Tests has a machine whose card moves each byte by the key. Moments has the points that a run of
--   the library goes through.
-- Testcases.antt, for the test programs under test-cases: the body that their processes share; Programs
--   and Forks have the main functions and the script of each process. Steps and Restored run a
--   process on the driver, by System.antt. Mapped is the program mmap.c.
-- Hello.antt, for the demonstration under bechmark-test/Demo/part2: Device is the emulated PCI device
--   pci_device/hello_tic.c, Driver its drivers pci_driver/irq.c, mmio.c, portio.c and driver_pci.c,
--   Platform the driver pci_driver/driver_platform.c. Modules has the tables of the device and of
--   each driver.
-- Demo.antt, for the kernel modules under bechmark-test/Demo/part1: Chrdev is init_module and
--   cleanup_module of rsvd/btplus.c and sysfs/mem_tracker.c, Pages the file operations and the fault
--   hook of btplus.c on page table entries, Pages/Walk its get_pte. Modules has the tables of operations
--   of btplus.c under rsvd, TLB_miss_Count and ptw_tlb_mod, Tracker the file operations and the
--   attribute of mem_tracker.c. Calls has what they call. Fault is what rsvd/fault.c adds to the fault
--   handler, and Programs the programs rsvd/mmap_tlb.c, TLB_miss_Count/mmap_tlb.c and
--   ptw_tlb_mod/mmap_test.c; Programs/Run runs the first on its module.
-- Bench.antt, for the benchmarks bechmark-test/dma.c, dma_interrupt.c, mmio.c, mmio_interrupt.c;
--   Mapped for mmap.c and mmap_interrupt.c, FileCreate for file_create.c;
--   Restored runs a benchmark on the driver.
-- The two parts meet in the bytes of the ioctl requests, where Crypter/Settings/Laws.antt runs the
-- driver's ioctl on what the library sent, and in System.antt.
--
-- Bounds. Numbers are natural numbers; a length stored in an unsigned int is taken modulo 2^32,
-- user addresses modulo 2^64. The waiting loops take fuel, one unit for each read of the register,
-- and give no result when it runs out; more fuel than the reads for which the card stays busy is
-- enough. The loop of encrypt and decrypt takes length / 32768 + 1 units, which is always enough.
-- In Demo/Programs/Run an access to memory is made at most twice, once more after a fault.
--
-- Not modelled: what the kernel and the card do (they are the parameter), page protections, the
-- messages of the kernel modules, bechmark-test/Demo/part1/hello_mod/hello.c, which does nothing but
-- print, and drivers/cryptocard_mod.mod.c, which the build generates.
-- bechmark-test/Demo/part1/rsvd/fault.c is code of the Linux kernel; of it, the test for a reserved
-- bit that was added is modelled. In Driver/Write a call runs alone; Driver/Writers interleaves calls,
-- and does not say which starts the card accepts or what it computes. System follows one open file of
-- the card at a time, and copies that the programs make themselves do not show in the memory of
-- Driver/Card, which is that of the calls of the driver.
pub mod Prelude
pub mod Effects
pub mod Kernel
pub mod Memory
pub mod Driver
pub mod Crypter
pub mod System
pub mod Testcases
pub mod Hello
pub mod Demo
pub mod Bench
