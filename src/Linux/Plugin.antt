-- ===== src/Linux/Plugin.antt =====
-- linux/hardware_simulator_plugin.cc: the key handler, and the release of every key and button.
pub mod Released
mod Tests
use hardware_simulator.Prelude.{Bool, true, Option, none, some, ◌==◌, if◌then◌else◌}
use hardware_simulator.Prelude.Int.{ℤ, is_negative}
use hardware_simulator.Linux.Values.{
  Args, get_int_arg, get_bool_arg, Response, success_null, error, bad_args, unsupported,
  uinput_unavailable,
}
use hardware_simulator.Linux.Keyboard.{Evdev, System, keycode, send, clear}
use hardware_simulator.Linux.Mouse.{MouseEnv, MouseState}
use hardware_simulator.Linux.Mouse.Calls.{clear_all_pressed_mouse_buttons}

-- `g_keyboard` with the kernel's side of it, and the globals of the mouse.
pub record Devices : Type 0 where
  pub system : System
  pub mouse : MouseState

-- The answer to a release: the mouse's error, or the keyboard's.
abbrev pub release_answer : Option Response → Bool → Response
release_answer (some response) failed = response
release_answer none failed = if failed then error uinput_unavailable else success_null

module _ (keys : Evdev) (env : MouseEnv) where
  unfoldable pub key_args : {D : Type 0} → Args D → Option (ℤ × Bool)
  key_args args =
      let (code, ok) = get_int_arg args "code" true in
      let (is_down, ok') = get_bool_arg args "isDown" ok in
      if ok' then some (code, is_down) else none

  unfoldable pub send_code : ℤ → Bool → Devices → Devices × Response
  send_code code is_down d =
      if keycode keys code == 0
      then (d, error unsupported)
      else let (s, result) = send keys d.system code is_down in
        (
          record d { system = s },
          if is_negative result then error uinput_unavailable else success_null,
        )

  unfoldable pub perform_key_event : {D : Type 0} → Args D → Devices → Devices × Response
  unfolding send_code key_args
  perform_key_event args d = elim (key_args args) [
    | none ↦ (d, error bad_args)
    | some (code, is_down) ↦ send_code code is_down d
  ]

  -- The keys are released also when the mouse gave an error, which is the answer then.
  unfoldable pub clear_all_pressed_events : Devices → Devices × Response
  clear_all_pressed_events d =
      let m = clear_all_pressed_mouse_buttons env d.mouse in
      let k = clear keys d.system in
      (record { system = k.0; mouse = m.0 }, release_answer m.1 (is_negative k.1))
