-- ===== src/Driver/Tests/Probe.antt =====
-- A probe and a removal on the simulated machine.
use cryptodev.Prelude.{ap, true, some, pos, ◌≡◌, refl, []}
use cryptodev.Effects.{Trace}
use cryptodev.Kernel.{Call}
use cryptodev.Kernel.Resources.{held}
use cryptodev.Driver.Device.{setup_configspace, is_not_live}
use cryptodev.Driver.Probe.{
  no_device, probe_chrdev, probe_card, probe_pci, cryptocard_probe, cryptocard_remove,
}
use cryptodev.Driver.Probe.Laws.{registered, Ends, probe_all_or_nothing, remove_releases}
use cryptodev.Driver.Probe.Checked.{last_answer, is_inverted, probe_checks_card}
use cryptodev.Driver.Card.{last_read}
use cryptodev.Driver.Tests.{space, machine, card, probed}

probe_all_or_nothing_example :
    Ends card no_device (held []) (cryptocard_probe 136 card no_device machine [])
probe_all_or_nothing_example = probe_all_or_nothing machine 136 card no_device []

abbrev after_probe : Trace Call
after_probe = (cryptocard_probe 136 card no_device machine []).1

probe_succeeds : (cryptocard_probe 136 card no_device machine []).0 ≡ (probed, pos 0)
unfolding cryptocard_probe probe_pci probe_card probe_chrdev is_not_live setup_configspace machine
probe_succeeds = refl

probe_registers : held after_probe ≡ registered card probed []
unfolding cryptocard_probe probe_pci probe_card probe_chrdev is_not_live setup_configspace machine
    held
probe_registers = refl

removal :
    let (my', t') = cryptocard_remove card probed machine after_probe in
    (held t' ≡ []) × (my' ≡ no_device)
removal = remove_releases machine card probed [] after_probe probe_registers

probe_checks_card_example :
    (last_read space.id after_probe ≡ some 0x010C5730)
    × (is_inverted (last_answer space.live after_probe) ≡ true)
probe_checks_card_example =
    probe_checks_card machine 136 card no_device [] space (ap (λ p. p.1) probe_succeeds)
      (ap (λ p. p.0.configspace) probe_succeeds)
