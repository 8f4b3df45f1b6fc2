-- ===== src/Driver/Tests/Wait.antt =====
-- The two waits on a card that is busy for two reads.
use cryptodev.Prelude.{◌≡◌, ◌∙◌, refl, sym, ap, true, false, [], ◌∷◌, arith}
use cryptodev.Effects.{Env, Trace, answer}
use cryptodev.Kernel.{Call}
use cryptodev.Driver.Wait.{wait_for}
use cryptodev.Driver.Wait.Progress.{polls}
use cryptodev.Driver.Wait.Agree.{awake, Undisturbed, Agree, waits-Agree}
use cryptodev.Driver.Tests.{busy_bit}

slow_card : Env Call
slow_card t (Call.ioread8 a) = busy_bit (polls t)
slow_card t (Call.readq a) = busy_bit (polls t)
slow_card t c = answer 0

polls-awake : (t : Trace Call) → polls (awake t) ≡ polls t
unfolding polls awake
polls-awake [] = refl
polls-awake (e ∷ t) = ground (arith, polls-awake t)

same_polls : (t t' : Trace Call) → awake t ≡ awake t' → polls t ≡ polls t'
same_polls t t' e = sym (polls-awake t) ∙ ap polls e ∙ polls-awake t'

slow_card-Undisturbed : Undisturbed slow_card
unfolding slow_card
slow_card-Undisturbed = record {
  same = λ t t' c e. ground (arith, same_polls t t' e);
  waits = λ t. refl;
}

waits-Agree_example :
    let on_status = Call.ioread8 0x10020 in
    let on_cmd = Call.readq 0x10020 in
    Agree (wait_for true 5 on_status slow_card []) (wait_for false 5 on_status slow_card [])
    × Agree (wait_for true 5 on_cmd slow_card []) (wait_for false 5 on_cmd slow_card [])
waits-Agree_example = waits-Agree slow_card slow_card-Undisturbed 5 0x10020 []
