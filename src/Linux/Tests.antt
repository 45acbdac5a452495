-- ===== src/Linux/Tests.antt =====
-- The witness of the theorem on src/linux.rs.
use rustybug.Prelude.Texts.{codes}
use rustybug.Linux.{launch_program}
use rustybug.Linux.Launch.{Launches, launch_program-Launches}
use rustybug.Prelude.{◌≡◌, refl, sym, false, bit_or}
use rustybug.Prelude.Outcome.{ok}
use rustybug.Host.Toy.{Machine, toy, at_rest}
use rustybug.Linux.{addr_no_randomize, disable_aslr, is_aslr_enabled}
use rustybug.Linux.Aslr.{PersonalityLaws, disable_aslr-is_aslr_enabled}

toy-PersonalityLaws : PersonalityLaws toy
toy-PersonalityLaws = record { get_set = λ p n m m' e. sym (λ i. ok ((e i).1.persona)) }

abbrev changed : Machine
changed = record at_rest { persona = bit_or 0 addr_no_randomize }

turned_off : disable_aslr toy at_rest ≡ (ok tt, changed)
unfolding disable_aslr
turned_off = refl

disable_aslr-is_aslr_enabled_example : is_aslr_enabled toy changed ≡ false
disable_aslr-is_aslr_enabled_example =
    disable_aslr-is_aslr_enabled toy toy-PersonalityLaws at_rest changed turned_off

launch_program-Launches_example :
    (let (r, os') = launch_program toy (codes "a.out") at_rest in
      Launches toy (codes "a.out") at_rest r os')
launch_program-Launches_example = launch_program-Launches toy (codes "a.out") at_rest
