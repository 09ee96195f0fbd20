-- ===== src/Windows/CursorLock.antt =====
-- windows/hardware_simulator_plugin.cpp: the locked cursor, its clip and the raw input.
--
-- Windows undoes what it is asked to undo: a clip, and the registration of the mouse.
-- The part of the delegate that reads the monitors again is a call of Windows/Pointer.
pub mod Held
mod Tests
use hardware_simulator.Prelude.{
  ℕ, suc, Bool, true, false, not, ◌&&◌, Option, none, some, List, [], ◌∷◌, ◌==◌, if◌then◌else◌,
}
use hardware_simulator.Prelude.Int.{ℤ, pos}
use hardware_simulator.Windows.Pointer.{Point}

-- The windows as FindFlutterWindow sees them, 0 for none: the parent of the view, and the windows of the
-- two classes.
pub record FlutterWindows : Type 0 where
  pub has_registrar : Bool
  pub native_window : ℕ
  pub runner_window : ℕ
  pub class_window : ℕ

-- What Windows answers while the cursor is locked, and the id that the registrar gives to the delegate.
pub record LockAnswers : Type 0 where
  pub windows : FlutterWindows
  pub cursor_pos : Option Point
  pub clips : Bool
  pub registers : Bool
  pub proc_id : ℕ

-- The members, and what Windows and the registrar hold: the clip, the mouse's registration, the
-- delegates, and how often the cursor was hidden and shown. `moves` is what Dart was told, and `reseeds`
-- the windows on which the cursor was placed, each with the clip at that time.
pub record CursorLock : Type 0 where
  pub cursor_locked : Bool
  pub raw_input_registered : Bool
  pub raw_input_proc : Option ℕ
  pub main_window : ℕ
  pub locked_cursor_pos : Point
  pub clip : Option Point
  pub device_registered : Bool
  pub delegates : List ℕ
  pub hides : ℕ
  pub shows : ℕ
  pub moves : List (ℤ × ℤ)
  pub reseeds : List (ℕ × Option Point)

abbrev pub unlocked : CursorLock
unlocked = record {
  cursor_locked = false;
  raw_input_registered = false;
  raw_input_proc = none;
  main_window = 0;
  locked_cursor_pos = record { x = pos 0; y = pos 0 };
  clip = none;
  device_registered = false;
  delegates = [];
  hides = 0;
  shows = 0;
  moves = [];
  reseeds = [];
}

unfoldable pub find_flutter_window : FlutterWindows → ℕ
find_flutter_window w =
    if not w.has_registrar
    then 0
    else if not (w.native_window == 0)
    then w.native_window
    else if not (w.runner_window == 0)
    then w.runner_window
    else w.class_window

unfoldable pub subscribe_to_raw_input_data : LockAnswers → CursorLock → Bool × CursorLock
subscribe_to_raw_input_data a s =
    if s.raw_input_registered
    then (true, s)
    else if not a.windows.has_registrar
    then (false, s)
    else if not a.registers
    then (false, s)
    else (
      true,
      record s {
        device_registered = true;
        raw_input_proc = some a.proc_id;
        delegates = a.proc_id ∷ s.delegates;
        raw_input_registered = true;
      },
    )

abbrev pub without_id : ℕ → List ℕ → List ℕ
without_id i [] = []
without_id i (j ∷ js) = let rest = without_id i js in if i == j then rest else j ∷ rest

abbrev pub unregister_delegate : Option ℕ → List ℕ → List ℕ
unregister_delegate none ids = ids
unregister_delegate (some i) ids = without_id i ids

unfoldable pub unsubscribe_from_raw_input_data : CursorLock → CursorLock
unsubscribe_from_raw_input_data s = if not s.raw_input_registered then s else record s {
  delegates = unregister_delegate s.raw_input_proc s.delegates;
  raw_input_proc = none;
  device_registered = false;
  raw_input_registered = false;
}

-- ShowCursor, with whether the cursor is to be shown.
abbrev pub show_cursor : Bool → CursorLock → CursorLock
show_cursor true s = record s { shows = suc s.shows }
show_cursor false s = record s { hides = suc s.hides }

-- From the clip on: the raw input, without which the lock is taken back.
unfoldable pub lock_at : LockAnswers → CursorLock → CursorLock
unfolding subscribe_to_raw_input_data
lock_at a s =
    let hidden =
      show_cursor false (record s { clip = some s.locked_cursor_pos; cursor_locked = true }) in
    let (ok, t) = subscribe_to_raw_input_data a hidden in
    if not ok then show_cursor true (record t { clip = none; cursor_locked = false }) else t

unfoldable pub lock_cursor : LockAnswers → CursorLock → CursorLock
unfolding find_flutter_window lock_at
lock_cursor a s =
    let found = record s { main_window = find_flutter_window a.windows } in
    if s.cursor_locked then s else if found.main_window == 0 then found else elim a.cursor_pos [
      | none ↦ found
      | some p ↦
          let at : CursorLock = record found { locked_cursor_pos = p } in
          if not a.clips then at else lock_at a at
    ]

unfoldable pub unlock_cursor : CursorLock → CursorLock
unfolding unsubscribe_from_raw_input_data
unlock_cursor s =
    if not s.cursor_locked
    then s
    else let t = unsubscribe_from_raw_input_data (record s { clip = none }) in
      record (show_cursor true (record t { cursor_locked = false })) { main_window = 0 }

-- The cursor is placed on the window that was locked, while nothing is clipped.
unfoldable pub unlock_cursor_and_reseed : CursorLock → CursorLock
unfolding unsubscribe_from_raw_input_data
unlock_cursor_and_reseed s =
    if not s.cursor_locked
    then s
    else let t = unsubscribe_from_raw_input_data (record s { clip = none }) in
      let u = record t { cursor_locked = false; reseeds = (s.main_window, t.clip) ∷ t.reseeds } in
      record (show_cursor true u) { main_window = 0 }

-- The delegate on WM_INPUT, with whether there is a channel and the motion, if it is told and a mouse's.
unfoldable pub on_raw_input : Bool → Option (ℤ × ℤ) → CursorLock → CursorLock
on_raw_input channel moved s = elim moved [
  | none ↦ s
  | some d ↦ if s.cursor_locked && channel then record s { moves = d ∷ s.moves } else s
]
