-- ===== src/Linux/Plugin/Tests.antt =====
-- A key and a button that are held, and their release.
use hardware_simulator.Prelude.{◌≡◌, refl, inl, true, none, [], ◌∷◌, arith}
use hardware_simulator.Prelude.Int.{ℤ, pos}
use hardware_simulator.Linux.Values.{
  int_value, bool_value, Args, arg_map, get_int_arg, get_bool_arg,
}
use hardware_simulator.Linux.Integral.{whole}
use hardware_simulator.Linux.Keyboard.{
  Evdev, new_system, keycode, initialize, synchronize, send_key, send, release_all, clear,
}
use hardware_simulator.Linux.Mouse.{
  press, rank, MouseEnv, new_state, left, relative, get_mouse, set_mouse_mode,
}
use hardware_simulator.Linux.Mouse.Calls.{
  release_buttons, release_if_there, clear_buttons_of, clear_all_pressed_mouse_buttons,
}
use hardware_simulator.Linux.Plugin.{
  Devices, key_args, send_code, perform_key_event, clear_all_pressed_events,
}
use hardware_simulator.Linux.Plugin.Released.{IsReleased, clear_all_pressed_events_releases}
use hardware_simulator.Linux.Mouse.Pairing.{Inv}

abbrev keys : Evdev
keys = record {
  key_mappings = (0x41, 30) ∷ [];
  new_device = true;
  create_result = pos 0;
  answer = λ n e. pos 0;
}

abbrev env : MouseEnv
env = record { doubles = whole; create_ok = λ n. true; x_server = none }

abbrev letter_a : Args ℤ
letter_a = arg_map (("code", int_value (pos 0x41)) ∷ ("isDown", bool_value true) ∷ [])

abbrev idle : Devices
idle = record {
  system = new_system;
  mouse = record new_state { pressed = (left, relative) ∷ []; device = press left ∷ [] };
}

abbrev held : Devices
held = (perform_key_event keys env letter_a idle).0

held_key : held.system.keyboard.pressed ≡ 30 ∷ []
unfolding perform_key_event key_args send_code get_int_arg get_bool_arg send send_key synchronize
    initialize keycode
held_key = refl

held-Inv : Inv held.mouse
unfolding perform_key_event key_args send_code get_int_arg get_bool_arg rank keycode
held-Inv = record {
  mode = refl;
  holds = λ b. ground arith;
  paired = tt;
  ordered = (omega arith, tt);
}

clear_all_pressed_events_releases_example : IsReleased (clear_all_pressed_events keys env held).0
unfolding perform_key_event key_args send_code get_int_arg get_bool_arg send send_key synchronize
    initialize keycode clear_all_pressed_events clear release_all clear_all_pressed_mouse_buttons
    clear_buttons_of release_if_there release_buttons set_mouse_mode get_mouse
clear_all_pressed_events_releases_example =
    clear_all_pressed_events_releases keys env held held-Inv (inl refl, tt) (λ c. ground arith) refl
