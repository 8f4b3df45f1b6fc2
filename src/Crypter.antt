-- ===== src/Crypter.antt =====
-- The user library: src/crypter.c with include/crypter.h.
pub mod Syscalls
pub mod Transfer
pub mod Settings
pub mod Mapping
mod Tests
