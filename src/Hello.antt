-- ===== src/Hello.antt =====
-- The demonstration of a PCI device and its drivers, bechmark-test/Demo/part2.
pub mod Device
pub mod Driver
pub mod Platform
pub mod Modules
