-- ===== src/Linux/Wheel/Tests.antt =====
-- Small scrolls add up to a detent, on each device by itself.
use hardware_simulator.Prelude.{◌≡◌, refl, true, false, List, [], ◌∷◌, arith}
use hardware_simulator.Prelude.Int.{pos, negsuc, ◌+ℤ◌}
use hardware_simulator.Linux.Wheel.{new_mouse, WheelCall, scroll_vertically, switch_mode, run_wheel}
use hardware_simulator.Linux.Wheel.Balance.{IsBalanced, travelled, run_wheel-IsBalanced}

abbrev three_scrolls : List WheelCall
three_scrolls =
    scroll_vertically (pos 100)
    ∷ switch_mode true
    ∷ scroll_vertically (negsuc 49)
    ∷ switch_mode false
    ∷ scroll_vertically (pos 30)
    ∷ []

one_detent : (run_wheel (new_mouse true true) three_scrolls).remainder false true ≡ pos 10
unfolding run_wheel ◌+ℤ◌
one_detent = refl

detents_written : travelled false 8 (run_wheel (new_mouse true true) three_scrolls).written ≡ pos 1
unfolding run_wheel ◌+ℤ◌
detents_written = refl

run_wheel-IsBalanced_example : IsBalanced (run_wheel (new_mouse false true) three_scrolls)
run_wheel-IsBalanced_example =
    run_wheel-IsBalanced (new_mouse false true) three_scrolls (λ mode axis. omega arith)
