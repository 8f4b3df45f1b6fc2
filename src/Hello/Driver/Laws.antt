-- ===== src/Hello/Driver/Laws.antt =====
-- What a probe of the demonstration drivers holds when it ends, and what a removal leaves.
use cryptodev.Prelude.{ℕ, pos, neg, ◌≡◌, ◌⊎◌, none, some, List, ◌∷◌, arith}
use cryptodev.Effects.{Env, Trace, call}
use cryptodev.Kernel.{Call}
use cryptodev.Kernel.Errno.{enomem, enodev}
use cryptodev.Kernel.Resources.{Kind, Resource, resource, held}
use cryptodev.Hello.Driver.{
  TicInfo, Probed, Variant, finish, finish_irq, finish_mmio, finish_portio, out_free, out_disable,
  out_unrequest, out_iounmap, probe_bars, hello_tic_probe, sizeof_tic_info, hello_tic_remove,
}

-- The interrupt line of irq.c; the other two take none.
abbrev pub line_of : Variant → TicInfo → List Resource → List Resource
line_of Variant.irq info r = resource Kind.irq_line info.irq ∷ r
line_of Variant.mmio info r = r
line_of Variant.portio info r = r

abbrev pub mapped : ℕ → TicInfo → List Resource → List Resource
mapped p info r =
    resource Kind.mapping info.mem.start
    ∷ resource Kind.regions 0
    ∷ resource Kind.device 0
    ∷ resource Kind.memory p
    ∷ r

-- A probe ends well, with all that belongs to its `info` held, or it fails with nothing held.
abbrev pub Ends : Variant → List Resource → Probed × Trace Call → Type 0
Ends v r ((none, e), t) = ((e ≡ neg enodev) ⊎ (e ≡ neg enomem)) × (held t ≡ r)
Ends v r ((some (p, info), e), t) = (e ≡ pos 0) × (held t ≡ line_of v info (mapped p info r))

module _ (env : Env Call) (r : List Resource) where
  finish-Ends :
      (v : Variant) (p : ℕ) (info : TicInfo) (t : Trace Call)
      → held t ≡ mapped p info r
      → Ends v r (finish v p info env t)
  unfolding finish_irq finish_mmio finish_portio out_iounmap out_unrequest out_disable out_free held
  finish-Ends Variant.irq p info t h = ground arith
  finish-Ends Variant.mmio p info t h = ground arith
  finish-Ends Variant.portio p info t h = ground arith

-- The probes of irq.c, mmio.c and portio.c: a probe that fails returns -ENODEV or -ENOMEM and holds
-- nothing that it did not hold before; one that succeeds returns 0 and holds the memory of `info`,
-- the PCI device, its regions and the mapping, and in irq.c the interrupt line.
pub hello_probe_all_or_nothing :
    (env : Env Call) (v : Variant) (t : Trace Call) → Ends v (held t) (hello_tic_probe v env t)
unfolding hello_tic_probe probe_bars out_unrequest out_disable out_free held
hello_probe_all_or_nothing env v t =
    let (i, t1) = call (Call.kzalloc sizeof_tic_info) env t in
    let t2 = (call Call.pci_enable_device env t1).1 in
    let t3 = (call Call.pci_request_regions env t2).1 in
    let (io, t4) = call (Call.pci_resource_start 0) env t3 in
    let (io_size, t5) = call (Call.pci_resource_len 0) env t4 in
    let (m, t6) = call (Call.pci_ioremap_bar 1) env t5 in
    let (m_size, t7) = call (Call.pci_resource_len 1) env t6 in
    let info : TicInfo = record {
      mem = record { start = m.value; size = m_size.value };
      port = record { start = io.value; size = io_size.value };
      irq = 0;
    } in
    ground (arith, finish-Ends env (held t) v i.value info t7)

-- A removal of a probed device gives back the mapping, the regions, the device and the memory of
-- `info`. The interrupt line of irq.c is still held when it returns, while the memory that the
-- handler reads is freed.
pub hello_remove_keeps_line :
    (env : Env Call) (v : Variant) (p : ℕ) (info : TicInfo) (r : List Resource) (t : Trace Call)
    → held t ≡ line_of v info (mapped p info r)
    → held (hello_tic_remove (p, info) env t).1 ≡ line_of v info r
unfolding hello_tic_remove held
hello_remove_keeps_line env Variant.irq p info r t h = ground arith
hello_remove_keeps_line env Variant.mmio p info r t h = ground arith
hello_remove_keeps_line env Variant.portio p info r t h = ground arith
