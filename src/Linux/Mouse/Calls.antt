-- ===== src/Linux/Mouse/Calls.antt =====
-- linux/hardware_simulator_plugin.cc: scrolling, the monitor count, the release of every button, and
-- sequences of mouse calls.
use hardware_simulator.Prelude.{
  Bool, true, false, not, Option, none, some, List, [], ◌∷◌, if◌then◌else◌, length,
}
use hardware_simulator.Prelude.Int.{ℤ, pos, negsuc, neg, eqb_ℤ}
use hardware_simulator.Linux.Values.{
  Doubles, Args, get_double_arg, Response, success_null, success_int, error, bad_args,
  display_unavailable, uinput_unavailable,
}
use hardware_simulator.Linux.Monitors.{get_monitors}
use hardware_simulator.Linux.Mouse.{
  MouseMode, MouseButton, MouseOp, release, vertical_scroll, horizontal_scroll, MouseState,
  MouseEnv, call_device, set_mouse_mode, get_mouse, with_mouse, perform_mouse_move_relative,
  perform_mouse_move_absolute, perform_mouse_button,
}

-- `kMaxLinuxWheelDistance`: about 100 notches.
abbrev pub max_linux_wheel_distance : ℤ
max_linux_wheel_distance = pos 12000

unfoldable pub logical_scroll_to_linux_wheel : (d : Doubles) → d.D → Bool → ℤ
logical_scroll_to_linux_wheel d delta invert =
    if not (d.is_finite delta)
    then pos 0
    else let direction = d.of_int (if invert then negsuc 0 else pos 1) in
      d.round (
        d.clamp_d (d.mul_d delta direction) (d.of_int (neg max_linux_wheel_distance))
          (d.of_int max_linux_wheel_distance))

-- `buttons` with each one released in the mode in which it was pressed.
unfoldable pub release_buttons : List (MouseButton × MouseMode) → MouseState → MouseState
release_buttons [] s = s
release_buttons ((b, m) ∷ ps) s = release_buttons ps (call_device (release b) (set_mouse_mode m s))

-- The mouse calls that the method channel delivers.
pub data MouseCall (D : Type 0) : Type 0 where
  mouse_move_r mouse_move_a mouse_press mouse_scroll : Args D → MouseCall D
  clear_buttons : MouseCall D

module _ (env : MouseEnv) where
  open env use {doubles, x_server}
  open doubles use {D}

  abbrev pub scroll_if_moved : (ℤ → MouseOp) → ℤ → MouseState → MouseState
  scroll_if_moved op distance s = if eqb_ℤ distance (pos 0) then s else call_device (op distance) s

  unfoldable pub scroll_args : Args D → Option (D × D)
  scroll_args args =
      let (dx, ok) = get_double_arg doubles args "dx" true in
      let (dy, ok') = get_double_arg doubles args "dy" ok in if ok' then some (dx, dy) else none

  unfoldable pub scroll_both : D → D → MouseState → MouseState × Response
  scroll_both dx dy t = (
    scroll_if_moved horizontal_scroll (logical_scroll_to_linux_wheel doubles dx false)
        (scroll_if_moved vertical_scroll (logical_scroll_to_linux_wheel doubles dy true) t),
    success_null,
  )

  unfoldable pub perform_mouse_scroll : MouseState → Args D → MouseState × Response
  perform_mouse_scroll s args = elim (scroll_args args) [
    | none ↦ (s, error bad_args)
    | some (dx, dy) ↦ with_mouse env s (scroll_both dx dy)
  ]

  unfoldable pub get_monitor_count : Response
  get_monitor_count = elim x_server [
    | none ↦ error display_unavailable
    | some display ↦ success_int (pos (length (get_monitors display)))
  ]

  -- Where the device is not to be had, the map is put back.
  unfoldable pub release_if_there :
      List (MouseButton × MouseMode) → MouseState × Bool → MouseState × Option Response
  release_if_there ps (t, true) = (release_buttons ps (record t { pressed = [] }), none)
  release_if_there ps (t, false) = (record t { pressed = ps }, some (error uinput_unavailable))

  unfoldable pub clear_buttons_of :
      List (MouseButton × MouseMode) → MouseState → MouseState × Option Response
  unfolding release_if_there
  clear_buttons_of [] s = (s, none)
  clear_buttons_of (p ∷ ps) s = release_if_there (p ∷ ps) (get_mouse env s)

  -- The error response, or none.
  unfoldable pub clear_all_pressed_mouse_buttons : MouseState → MouseState × Option Response
  unfolding clear_buttons_of
  clear_all_pressed_mouse_buttons s = clear_buttons_of s.pressed (record s { pressed = [] })

  unfoldable pub run_mouse_call : MouseState → MouseCall D → MouseState
  run_mouse_call s (mouse_move_r args) = (perform_mouse_move_relative env s args).0
  run_mouse_call s (mouse_move_a args) = (perform_mouse_move_absolute env s args).0
  run_mouse_call s (mouse_press args) = (perform_mouse_button env s args).0
  run_mouse_call s (mouse_scroll args) = (perform_mouse_scroll s args).0
  run_mouse_call s clear_buttons = (clear_all_pressed_mouse_buttons s).0

  unfoldable pub run_mouse : MouseState → List (MouseCall D) → MouseState
  run_mouse s [] = s
  run_mouse s (c ∷ cs) = run_mouse (run_mouse_call s c) cs
