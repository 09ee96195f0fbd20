-- ===== src/Linux/Keyboard/Tests.antt =====
-- The keyboard on a map of three keys, with a device that refuses its second write.
use hardware_simulator.Prelude.{
  ◌≡◌, refl, true, false, List, [], ◌∷◌, ◌==◌, if◌then◌else◌, contains,
}
use hardware_simulator.Prelude.Int.{pos, negsuc}
use hardware_simulator.Linux.Uinput.{ev_key, syn_report}
use hardware_simulator.Linux.Keyboard.{
  Evdev, new_system, Command, press_or_release, clear_all, keycode, initialize, synchronize,
  send_key, send, run_command, run, einval, enomem,
}
use hardware_simulator.Linux.Keyboard.Mirror.{Mirrors, run-Mirrors}
use hardware_simulator.Linux.Keyboard.Outcomes.{send_settles}

abbrev working : Evdev
working = record {
  key_mappings = (0x41, 30) ∷ (0x42, 48) ∷ (0x10, 42) ∷ [];
  new_device = true;
  create_result = pos 0;
  answer = λ n e. pos 0;
}

abbrev flaky : Evdev
flaky = record working { answer = λ n e. if n == 1 then negsuc 4 else pos 0 }

abbrev typing : List Command
typing =
    press_or_release (pos 0x41) true
    ∷ press_or_release (pos 0x42) true
    ∷ press_or_release (pos 0x41) true
    ∷ press_or_release (pos 0x42) false
    ∷ []

typing_history :
    (run working new_system typing).uinput.accepted
    ≡ syn_report ∷ ev_key 48 0 ∷ syn_report ∷ ev_key 48 1 ∷ syn_report ∷ ev_key 30 1 ∷ []
unfolding run run_command send send_key synchronize initialize keycode
typing_history = refl

typing_pressed : (run working new_system typing).pressed ≡ 30 ∷ []
unfolding run run_command send send_key synchronize initialize keycode
typing_pressed = refl

unmapped_key : send working new_system (pos 0x43) true ≡ (new_system, einval)
unfolding send keycode
unmapped_key = refl

-- The synchronisation that failed is made up by the repeated call.
retried_sync : (run flaky new_system (press_or_release (pos 0x41) true ∷ [])).sync_pending ≡ true
unfolding run run_command send send_key synchronize initialize keycode
retried_sync = refl

no_device : (send (record working { new_device = false }) new_system (pos 0x41) true).1 ≡ enomem
unfolding send initialize keycode
no_device = refl

run-Mirrors_example : Mirrors (run flaky new_system (clear_all ∷ typing))
run-Mirrors_example = run-Mirrors flaky new_system (clear_all ∷ typing) (λ c. refl)

send_settles_example : contains 30 (send working new_system (pos 0x41) true).0.pressed ≡ true
unfolding send send_key synchronize initialize keycode
send_settles_example = (send_settles working new_system (pos 0x41) true refl).0
