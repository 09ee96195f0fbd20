-- ===== src/Windows/Gamepad/Tests.antt =====
-- A pad that is made, subscribed and removed.
use hardware_simulator.Prelude.{
  ℕ, ◌<◌, ◌≡◌, refl, ◌≢◌, true, false, some, List, [], ◌∷◌, arith, ltb, if◌then◌else◌,
}
use hardware_simulator.Prelude.Int.{pos}
use hardware_simulator.Windows.Gamepad.{
  put, Manager, new_manager, Creation, unregister_rumble, subscribe_fresh, subscribe_rumble,
  create_in, create_game_controller, initialize_vigem, remove_taken, remove_game_controller,
  resolve_rumble, register_callback, remove_callback,
}
use hardware_simulator.Windows.Gamepad.Calls.{Call, create, subscribe, step, run}
use hardware_simulator.Windows.Gamepad.Cookies.{IsValid}
use hardware_simulator.Windows.Gamepad.Cookies.Runs.{run-IsValid, new_manager-IsValid, IsDead}
use hardware_simulator.Windows.Gamepad.Slots.{taken_at, create_game_controller_takes}

abbrev fine : Creation
fine = record { client = true; connects = true; pad = 40; accepts = true }

abbrev refused : Creation
refused = record fine { pad = 41; accepts = false }

abbrev opening : List Call
opening = create fine ∷ create refused ∷ subscribe (pos 1) 7 90 1024 true ∷ []

abbrev opened : Manager
opened = run opening new_manager

resolved : resolve_rumble 1 opened ≡ some (1, 7)
unfolding run step create_game_controller initialize_vigem create_in subscribe_rumble
    unregister_rumble subscribe_fresh register_callback remove_callback resolve_rumble
resolved = refl

-- A refused pad keeps its slot.
second_slot : opened.controllers 1 ≡ 41
unfolding run step create_game_controller initialize_vigem create_in subscribe_rumble
    unregister_rumble subscribe_fresh register_callback remove_callback
second_slot = refl

run-IsValid_example : IsValid opened
run-IsValid_example = run-IsValid opening new_manager new_manager-IsValid

abbrev closed : Manager
closed = (remove_game_controller (pos 1) true false opened).1

closed-IsDead : IsDead 1 closed
unfolding run step create_game_controller initialize_vigem create_in subscribe_rumble
    unregister_rumble subscribe_fresh register_callback remove_callback remove_game_controller
    remove_taken
closed-IsDead = record { given = omega arith; gone = refl }

-- Two pads stand in the slots 1 and 2.
abbrev two_pads : Manager
two_pads = record new_manager { initialized = true; controllers = put 0 40 (put 1 41 (λ i. 0)) }

create_game_controller_takes_example :
    create_game_controller refused two_pads ≡ taken_at 2 refused two_pads
create_game_controller_takes_example =
    create_game_controller_takes 2 refused two_pads refl (omega arith) two_taken refl
  where
    two_taken : (k : ℕ) → k < 2 → two_pads.controllers k ≢ 0
    two_taken k l e = absurd (ground arith)

-- Four refused pads leave no slot.
abbrev four_pads : Manager
four_pads = record new_manager { initialized = true; controllers = λ i. if ltb i 4 then 41 else 0 }
