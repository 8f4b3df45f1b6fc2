-- ===== src/Driver/Open/Laws.antt =====
-- `pci_open` and `pci_release` of drivers/cryptocard_mod.c: what they allocate and free.
use cryptodev.Prelude.{pos, neg, ◌≡◌, ◌⊎◌, none, some, ◌∷◌, arith}
use cryptodev.Effects.{Env, Trace}
use cryptodev.Kernel.{Call}
use cryptodev.Kernel.Errno.{enomem}
use cryptodev.Kernel.Resources.{Kind, resource, held}
use cryptodev.Driver.Open.{File, new_job, pci_open, pci_release}

-- Opening a file fails with -ENOMEM and holds nothing more, or the file gets an allocated job with
-- no buffer. To release the opened file gives back what the opening acquired, and the file has no
-- job any more.
pub open_release :
    (env : Env Call) (file : File) (t : Trace Call)
    → let ((opened, v), t') = pci_open file env t in
      ((v ≡ neg enomem) × (held t' ≡ held t) × (opened ≡ file))
      ⊎ ((v ≡ pos 0)
          × (held t' ≡ resource Kind.memory opened.addr ∷ held t)
          × (opened.private_data ≡ some new_job)
          × (held (pci_release opened env t').1 ≡ held t)
          × ((pci_release opened env t').0.0.private_data ≡ none))
unfolding pci_open pci_release held
open_release env file t = ground arith
