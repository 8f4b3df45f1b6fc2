-- ===== src/Demo.antt =====
-- The demonstration modules of bechmark-test/Demo/part1 that offer a character device: the memory
-- tracker sysfs/mem_tracker.c, and btplus.c, of which rsvd has one version and TLB_miss_Count and
-- ptw_tlb_mod another.
pub mod Calls
pub mod Chrdev
pub mod Pages
pub mod Tracker
pub mod Modules
pub mod Fault
pub mod Programs
pub mod Tests
