-- ===== src/Linux/Mouse.antt =====
-- linux/hardware_simulator_plugin.cc: the mouse calls.
--
-- The device (inputtino) is a log of the calls made to it, newest first. Its creation may fail;
-- whether it does is a parameter, by the number of attempts so far.
pub mod Calls
pub mod Pairing
pub mod Target
pub mod Rule
mod Tests
use hardware_simulator.Prelude.{
  ℕ, suc, Bool, true, false, Option, none, some, List, [], ◌∷◌, ltb, ◌==◌, if◌then◌else◌, get_elem?,
}
use hardware_simulator.Prelude.Int.{ℤ, pos, negsuc, ◌+ℤ◌, ◌-ℤ◌}
use hardware_simulator.Linux.Values.{
  Doubles, Args, get_int_arg, get_bool_arg, get_double_arg, Response, success_null, success_int,
  error, bad_args, unsupported, display_unavailable, uinput_unavailable,
}
use hardware_simulator.Linux.Monitors.{MonitorBounds, XServer, get_monitors, get_root_bounds}

pub data MouseMode : Type 0 where
  relative absolute : MouseMode

-- The buttons of inputtino, in the order of the `switch`.
pub data MouseButton : Type 0 where
  left middle right side extra : MouseButton

unfoldable pub rank : MouseButton → ℕ
rank left = 1
rank middle = 2
rank right = 3
rank side = 4
rank extra = 5

pub data MouseOp : Type 0 where
  move : ℤ → ℤ → MouseOp
  move_abs : ℤ → ℤ → ℤ → ℤ → MouseOp
  press release : MouseButton → MouseOp
  vertical_scroll horizontal_scroll : ℤ → MouseOp

-- The globals of the file. `pressed` is the map from buttons to modes.
pub record MouseState : Type 0 where
  pub pressed : List (MouseButton × MouseMode)
  pub created : Bool
  pub attempts : ℕ
  pub current_mode : MouseMode
  pub last_abs_x : ℤ
  pub last_abs_y : ℤ
  pub last_abs_width : ℤ
  pub last_abs_height : ℤ
  pub device : List MouseOp

abbrev pub new_state : MouseState
new_state = record {
  pressed = [];
  created = false;
  attempts = 0;
  current_mode = relative;
  last_abs_x = pos 0;
  last_abs_y = pos 0;
  last_abs_width = pos 1;
  last_abs_height = pos 1;
  device = [];
}

-- The map of pressed buttons: `find`, `operator[]` and `erase`.
abbrev pub find_button : MouseButton → List (MouseButton × MouseMode) → Option MouseMode
find_button b [] = none
find_button b ((c, m) ∷ ps) =
    let rest = find_button b ps in if rank c == rank b then some m else rest

abbrev pub insert_button :
    MouseButton → MouseMode → List (MouseButton × MouseMode) → List (MouseButton × MouseMode)
insert_button b m [] = (b, m) ∷ []
insert_button b m ((c, n) ∷ ps) =
    let rest = insert_button b m ps in
    if ltb (rank b) (rank c)
    then (b, m) ∷ (c, n) ∷ ps
    else if rank c == rank b
    then (b, m) ∷ ps
    else (c, n) ∷ rest

abbrev pub erase_button :
    MouseButton → List (MouseButton × MouseMode) → List (MouseButton × MouseMode)
erase_button b [] = []
erase_button b ((c, n) ∷ ps) =
    let rest = erase_button b ps in if rank c == rank b then rest else (c, n) ∷ rest

abbrev pub call_device : MouseOp → MouseState → MouseState
call_device op s = record s { device = op ∷ s.device }

unfoldable pub set_mouse_mode : MouseMode → MouseState → MouseState
set_mouse_mode absolute s = record s {
  device = move_abs s.last_abs_x s.last_abs_y s.last_abs_width s.last_abs_height ∷ s.device;
  current_mode = absolute;
}
set_mouse_mode relative s = record s {
  device = move (pos 0) (pos 0) ∷ s.device;
  current_mode = relative;
}

unfoldable pub mouse_button_to_inputtino : ℤ → Option MouseButton
mouse_button_to_inputtino (pos n) =
    if n == 1
    then some left
    else if n == 2
    then some middle
    else if n == 3
    then some right
    else if n == 4
    then some side
    else if n == 5
    then some extra
    else none
mouse_button_to_inputtino (negsuc n) = none

-- What lies outside: doubles, the creation of the device, the X server.
pub record MouseEnv : Type 1 where
  pub doubles : Doubles
  pub create_ok : ℕ → Bool
  pub x_server : Option XServer

module _ (env : MouseEnv) where
  open env use {doubles, create_ok, x_server}
  open doubles use {D, of_int, zero_d, one_d, min_d, max_d, mul_d, round}

  unfoldable pub get_mouse : MouseState → MouseState × Bool
  get_mouse s = if s.created then (s, true) else (
    record s { created = create_ok s.attempts; attempts = suc s.attempts },
    create_ok s.attempts,
  )

  -- The part of a handler that has the device.
  unfoldable pub with_mouse :
      MouseState → (MouseState → MouseState × Response) → MouseState × Response
  with_mouse s body =
      let (t, there) = get_mouse s in if there then body t else (t, error uinput_unavailable)

  -- The arguments of both motions: `x`, `y` and `screenId`, or none if `ok` has become false.
  unfoldable pub motion_args : Args D → Option (D × D × ℤ)
  motion_args args =
      let (x, ok) = get_double_arg doubles args "x" true in
      let (y, ok') = get_double_arg doubles args "y" ok in
      let (screen, ok'') = get_int_arg args "screenId" ok' in
      if ok'' then some (x, y, screen) else none

  unfoldable pub move_relative : D → D → MouseState → MouseState × Response
  move_relative x y t = (
    record t { device = move (round x) (round y) ∷ t.device; current_mode = relative },
    success_null,
  )

  unfoldable pub perform_mouse_move_relative : MouseState → Args D → MouseState × Response
  perform_mouse_move_relative s args = elim (motion_args args) [
    | none ↦ (s, error bad_args)
    | some (x, y, screen) ↦ with_mouse s (move_relative x y)
  ]

  abbrev pub nth_monitor : List MonitorBounds → ℤ → Option MonitorBounds
  nth_monitor ms (pos n) = get_elem? ms n
  nth_monitor ms (negsuc n) = none

  -- `monitor.x - root.x + round(clamp(x) * (monitor.width - 1))`
  abbrev pub target : ℤ → ℤ → D → ℤ → ℤ
  target start root_start x size =
      start -ℤ root_start +ℤ round (mul_d (max_d zero_d (min_d one_d x)) (of_int (size -ℤ pos 1)))

  abbrev pub move_to : MouseState → MonitorBounds → MonitorBounds → D → D → MouseState
  move_to t root m x y =
      let tx = target m.x root.x x m.width in
      let ty = target m.y root.y y m.height in
      record t {
        device = move_abs tx ty root.width root.height ∷ t.device;
        current_mode = absolute;
        last_abs_x = tx;
        last_abs_y = ty;
        last_abs_width = root.width;
        last_abs_height = root.height;
      }

  unfoldable pub move_on_screen :
      Option MonitorBounds → MonitorBounds → D → D → MouseState → MouseState × Response
  move_on_screen none root x y t = (t, error bad_args)
  move_on_screen (some m) root x y t = (move_to t root m x y, success_null)

  unfoldable pub move_absolute : Option XServer → D → D → ℤ → MouseState → MouseState × Response
  unfolding move_on_screen
  move_absolute none x y screen t = (t, error display_unavailable)
  move_absolute (some display) x y screen t =
      let ms = get_monitors display in
      move_on_screen (nth_monitor ms screen) (get_root_bounds ms) x y t

  unfoldable pub perform_mouse_move_absolute : MouseState → Args D → MouseState × Response
  perform_mouse_move_absolute s args = elim (motion_args args) [
    | none ↦ (s, error bad_args)
    | some (x, y, screen) ↦ with_mouse s (move_absolute x_server x y screen)
  ]

  abbrev pub button_down : MouseState → MouseButton → MouseState
  button_down t b =
      call_device (press b) (record t { pressed = insert_button b t.current_mode t.pressed })

  abbrev pub button_up : MouseState → MouseButton → MouseState
  button_up t b = call_device (release b) (elim (find_button b t.pressed) [
    | none ↦ t
    | some m ↦ let u = set_mouse_mode m t in record u { pressed = erase_button b u.pressed }
  ])

  unfoldable pub button_args : Args D → Option (ℤ × Bool)
  button_args args =
      let (id, ok) = get_int_arg args "buttonId" true in
      let (is_down, ok') = get_bool_arg args "isDown" ok in if ok' then some (id, is_down) else none

  unfoldable pub change_button : MouseButton → Bool → MouseState → MouseState × Response
  change_button b true t = (button_down t b, success_null)
  change_button b false t = (button_up t b, success_null)

  unfoldable pub button_or_unsupported :
      Option MouseButton → Bool → MouseState → MouseState × Response
  button_or_unsupported none is_down s = (s, error unsupported)
  button_or_unsupported (some b) is_down s = with_mouse s (change_button b is_down)

  unfoldable pub perform_mouse_button : MouseState → Args D → MouseState × Response
  unfolding button_or_unsupported
  perform_mouse_button s args = elim (button_args args) [
    | none ↦ (s, error bad_args)
    | some (id, is_down) ↦ button_or_unsupported (mouse_button_to_inputtino id) is_down s
  ]
