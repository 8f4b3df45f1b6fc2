-- ===== src/Driver.antt =====
-- The kernel driver, drivers/cryptocard_mod.c: one child for each group of its functions.
pub mod Device
pub mod Card
pub mod Open
pub mod Ioctl
pub mod Wait
pub mod Write
pub mod Writers
pub mod Probe
pub mod Irq
pub mod Tables
pub mod Life
pub mod Tests
