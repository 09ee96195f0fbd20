-- ===== src/Linux/Mouse/Tests.antt =====
-- The mouse with doubles that are whole numbers, one monitor, and a device whose first creation fails.
use hardware_simulator.Prelude.{
  ◌≡◌, refl, ◌↔◌, inl, inr, Bool, true, false, Option, none, some, List, [], ◌∷◌, arith, ltb, All,
}
use hardware_simulator.Prelude.Int.{ℤ, pos, ◌+ℤ◌, ◌-ℤ◌, min_ℤ, max_ℤ}
use hardware_simulator.Linux.Values.{
  float_value, int_value, bool_value, Args, arg_map, get_int_arg, get_bool_arg, get_double_arg,
  error, uinput_unavailable,
}
use hardware_simulator.Linux.Monitors.{XServer, get_monitors, get_root_bounds, widen_all}
use hardware_simulator.Linux.Integral.{whole, with_nan, with_nan_laws}
use hardware_simulator.Linux.Mouse.{
  horizontal_scroll, relative, MouseMode, MouseButton, find_button, move, move_abs, press, release,
  left, MouseEnv, new_state, rank, set_mouse_mode, mouse_button_to_inputtino, get_mouse, with_mouse,
  motion_args, move_relative, perform_mouse_move_relative, move_absolute,
  perform_mouse_move_absolute, button_args, change_button, perform_mouse_button,
}
use hardware_simulator.Linux.Mouse.Calls.{
  MouseCall, mouse_move_r, mouse_move_a, mouse_press, mouse_scroll, perform_mouse_scroll,
  scroll_args, scroll_both, logical_scroll_to_linux_wheel, run_mouse_call, run_mouse,
}
use hardware_simulator.Linux.Mouse.Pairing.{Inv, IsPaired}
use hardware_simulator.Linux.Mouse.Pairing.Runs.{run_mouse-IsPaired, run_mouse-is_down_on}
use hardware_simulator.Linux.Mouse.Pairing.Down.{is_down_on}
use hardware_simulator.Linux.Mouse.Target.{InRange, IsSolid}
use hardware_simulator.Linux.Mouse.Target.Runs.{run_mouse-InRange}

abbrev desk : XServer
desk = record { xrr_monitors = none; display_width = pos 1920; display_height = pos 1080 }

abbrev env : MouseEnv
env = record { doubles = whole; create_ok = λ n. ltb 0 n; x_server = some desk }

abbrev at : ℤ → ℤ → Args ℤ
at x y = arg_map (("x", int_value x) ∷ ("y", int_value y) ∷ ("screenId", int_value (pos 0)) ∷ [])

abbrev button : ℤ → Bool → Args ℤ
button id down = arg_map (("isDown", bool_value down) ∷ ("buttonId", int_value id) ∷ [])

-- The left button goes down on the relative device, the pointer jumps, and the release goes back.
abbrev drag : List (MouseCall ℤ)
drag =
    mouse_move_r (at (pos 3) (pos 4))
    ∷ mouse_press (button (pos 1) true)
    ∷ mouse_press (button (pos 1) true)
    ∷ mouse_move_a (at (pos 1) (pos 1))
    ∷ mouse_press (button (pos 1) false)
    ∷ mouse_press (button (pos 9) true)
    ∷ []

drag_log :
    (run_mouse env new_state drag).device
    ≡ release left
      ∷ move (pos 0) (pos 0)
      ∷ move_abs (pos 1919) (pos 1079) (pos 1920) (pos 1080)
      ∷ press left
      ∷ press left
      ∷ []
unfolding run_mouse run_mouse_call perform_mouse_move_relative motion_args get_double_arg
    get_int_arg get_bool_arg with_mouse get_mouse move_relative perform_mouse_move_absolute
    move_absolute get_monitors get_root_bounds widen_all min_ℤ max_ℤ ◌+ℤ◌ ◌-ℤ◌ perform_mouse_button
    button_args change_button mouse_button_to_inputtino set_mouse_mode rank
drag_log = refl

no_device :
    (perform_mouse_move_relative env new_state (at (pos 3) (pos 4))).1 ≡ error uinput_unavailable
unfolding perform_mouse_move_relative motion_args get_double_arg get_int_arg with_mouse get_mouse
no_device = refl

new_state-Inv : Inv new_state
new_state-Inv = record { mode = refl; holds = λ b. refl; paired = tt; ordered = tt }

run_mouse-IsPaired_example :
    IsPaired (run_mouse env new_state drag).device
    × ((b : MouseButton) (m : MouseMode)
        → find_button b (run_mouse env new_state drag).pressed ≡ some m
        → is_down_on m b (run_mouse env new_state drag).device ≡ true)
run_mouse-IsPaired_example = run_mouse-IsPaired env new_state drag new_state-Inv

run_mouse-is_down_on_example :
    (is_down_on relative left (run_mouse env new_state drag).device ≡ true)
    ↔ (find_button left (run_mouse env new_state drag).pressed ≡ some relative)
unfolding run_mouse run_mouse_call perform_mouse_move_relative motion_args get_double_arg
    get_int_arg get_bool_arg with_mouse get_mouse move_relative perform_mouse_move_absolute
    move_absolute get_monitors get_root_bounds widen_all min_ℤ max_ℤ ◌+ℤ◌ ◌-ℤ◌ perform_mouse_button
    button_args change_button mouse_button_to_inputtino set_mouse_mode rank
run_mouse-is_down_on_example =
    run_mouse-is_down_on env new_state drag new_state-Inv (inr refl, (inl refl, tt)) left relative

-- The left button, pressed again after a jump, stays down on the relative device.
abbrev pressed_twice : List (MouseCall ℤ)
pressed_twice =
    mouse_move_r (at (pos 3) (pos 4))
    ∷ mouse_move_r (at (pos 3) (pos 4))
    ∷ mouse_press (button (pos 1) true)
    ∷ mouse_move_a (at (pos 1) (pos 1))
    ∷ mouse_press (button (pos 1) true)
    ∷ mouse_press (button (pos 1) false)
    ∷ []

stays_down : is_down_on relative left (run_mouse env new_state pressed_twice).device ≡ true
unfolding run_mouse run_mouse_call perform_mouse_move_relative motion_args get_double_arg
    get_int_arg get_bool_arg with_mouse get_mouse move_relative perform_mouse_move_absolute
    move_absolute get_monitors get_root_bounds widen_all min_ℤ max_ℤ ◌+ℤ◌ ◌-ℤ◌ perform_mouse_button
    button_args change_button mouse_button_to_inputtino set_mouse_mode rank
stays_down = refl

forgotten : (run_mouse env new_state pressed_twice).pressed ≡ []
unfolding run_mouse run_mouse_call perform_mouse_move_relative motion_args get_double_arg
    get_int_arg get_bool_arg with_mouse get_mouse move_relative perform_mouse_move_absolute
    move_absolute get_monitors get_root_bounds widen_all min_ℤ max_ℤ ◌+ℤ◌ ◌-ℤ◌ perform_mouse_button
    button_args change_button mouse_button_to_inputtino set_mouse_mode rank
forgotten = refl

one_screen : (display : XServer) → some desk ≡ some display → All IsSolid (get_monitors display)
unfolding get_monitors
one_screen display e = let same : desk ≡ display = cc in rw (← same) (omega arith)

-- A jump to what is no number, and a scroll by it.
abbrev nan_env : MouseEnv
nan_env = record { doubles = with_nan; create_ok = λ n. true; x_server = some desk }

abbrev nan_calls : List (MouseCall (Option ℤ))
nan_calls =
    mouse_move_a (
      arg_map
        (("x", float_value none) ∷ ("y", int_value (pos 1)) ∷ ("screenId", int_value (pos 0)) ∷ []))
    ∷ mouse_scroll (arg_map (("dx", int_value (pos 200)) ∷ ("dy", float_value none) ∷ []))
    ∷ []

nan_log :
    (run_mouse nan_env new_state nan_calls).device
    ≡ horizontal_scroll (pos 200) ∷ move_abs (pos 1919) (pos 1079) (pos 1920) (pos 1080) ∷ []
unfolding run_mouse run_mouse_call perform_mouse_move_relative motion_args get_double_arg
    get_int_arg get_bool_arg with_mouse get_mouse move_relative perform_mouse_move_absolute
    move_absolute get_monitors get_root_bounds widen_all min_ℤ max_ℤ ◌+ℤ◌ ◌-ℤ◌ perform_mouse_button
    button_args change_button mouse_button_to_inputtino set_mouse_mode rank perform_mouse_scroll
    scroll_args scroll_both logical_scroll_to_linux_wheel
nan_log = refl

run_mouse-InRange_example : All InRange (run_mouse nan_env new_state nan_calls).device
run_mouse-InRange_example =
    run_mouse-InRange nan_env with_nan_laws one_screen new_state nan_calls
      (record { log = tt; last = omega arith })
