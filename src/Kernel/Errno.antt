-- ===== src/Kernel/Errno.antt =====
-- The Linux error numbers that drivers/cryptocard_mod.c returns, negated.
use cryptodev.Prelude.{ℕ}

abbrev pub enomem : ℕ
enomem = 12

abbrev pub eagain : ℕ
eagain = 11

abbrev pub ebusy : ℕ
ebusy = 16

abbrev pub enodev : ℕ
enodev = 19

abbrev pub einval : ℕ
einval = 22

abbrev pub erestartsys : ℕ
erestartsys = 512
