-- ===== src/Linux/Capture/Tests.antt =====
-- A capture on X11 that loses focus, and one on Wayland that the compositor confirms.
use hardware_simulator.Prelude.{ℕ, ◌≡◌, refl, true, false, some, List, [], ◌∷◌, ◌==◌}
use hardware_simulator.Prelude.Int.{ℤ, pos}
use hardware_simulator.Linux.Integral.{whole}
use hardware_simulator.Linux.Capture.{
  new_impl, notify, motion, blank_cursor, restore_cursor, grab, ungrab, open_raw, close_raw,
  add_watch, remove_watch, focus_lost, locked_reason, timed_out, x11, wayland, global_added,
  pointer_constraints, relative_pointer_manager, confirm, hide, release, supported, registry_events,
  registry_event, global,
}
use hardware_simulator.Linux.Capture.Lock.{
  Desktop, pointer_owned, lock, request, lock_x11, lock_wayland,
}
use hardware_simulator.Linux.Capture.Raw.{
  DeviceClass, Pending, raw_event, other_event, axis_values, relative_device, read_event,
  read_events, read_raw,
}
use hardware_simulator.Linux.Capture.Events.{
  Event, lock_call, lost_focus, lock_confirmed, lock_timed_out, relative_motion, raw_ready, step,
  run, dispose,
}
use hardware_simulator.Linux.Capture.Safety.{told, IsHonest, IsIdle}
use hardware_simulator.Linux.Capture.Safety.Locks.{Answered, lock-Answered}
use hardware_simulator.Linux.Capture.Safety.Runs.{run-IsHonest, run-IsIdle, new_impl-Inv}

abbrev x_desktop : Desktop
x_desktop = record {
  display = x11 true;
  mapped = true;
  top_is_window = true;
  window_active = true;
  has_window = true;
  raw_opens = true;
  xinput_ok = true;
  grab_ok = true;
  has_pointer = false;
  has_surface = false;
}

abbrev wayland_desktop : Desktop
wayland_desktop = record x_desktop {
  display =
      wayland (global_added 4 pointer_constraints ∷ global_added 7 relative_pointer_manager ∷ [])
        true;
  has_pointer = true;
  has_surface = true;
}

-- A mouse with two relative axes, and a tablet with absolute ones.
abbrev devices : ℕ → List (List DeviceClass)
devices source =
    (record { is_valuator = true; mode_relative = source == 11; number = 0 }
      ∷ record { is_valuator = true; mode_relative = source == 11; number = 1 }
      ∷ [])
    ∷ []

abbrev moves : List (Pending ℤ)
moves =
    raw_event true
      (record { source = 12; mask = true ∷ true ∷ []; raw_values = pos 500 ∷ pos 9 ∷ [] })
    ∷ raw_event true (record { source = 11; mask = false ∷ true ∷ []; raw_values = pos 3 ∷ [] })
    ∷ other_event
    ∷ []

abbrev x_history : List (Event whole)
x_history = lock_call (pos 5) x_desktop ∷ raw_ready false moves devices ∷ lost_focus ∷ []

x_log :
    (run whole x_history (new_impl ℤ)).log
    ≡ notify (pos 5) false focus_lost
      ∷ restore_cursor
      ∷ close_raw
      ∷ remove_watch
      ∷ ungrab
      ∷ motion (pos 5) (pos 0) (pos 3)
      ∷ notify (pos 5) true locked_reason
      ∷ add_watch
      ∷ grab
      ∷ blank_cursor
      ∷ open_raw
      ∷ []
unfolding run step lock supported release request lock_x11 hide confirm read_raw read_events
    read_event relative_device axis_values
x_log = refl

abbrev wayland_history : List (Event whole)
wayland_history =
    lock_call (pos 6) wayland_desktop
    ∷ relative_motion (pos 1) (pos 1)
    ∷ lock_confirmed
    ∷ relative_motion (pos 2) (pos 1)
    ∷ lock_timed_out
    ∷ []

wayland_told : told (run whole wayland_history (new_impl ℤ)).log ≡ some (pos 6)
unfolding run step lock supported registry_events registry_event global release request lock_wayland
    hide confirm
wayland_told = refl

lock-Answered_example : Answered (lock (pos 5) (record x_desktop { grab_ok = false }) (new_impl ℤ))
lock-Answered_example =
    lock-Answered (pos 5) (record x_desktop { grab_ok = false }) (new_impl ℤ) (new_impl-Inv whole)

grab_refused : (lock (pos 5) (record x_desktop { grab_ok = false }) (new_impl ℤ)).1 ≡ pointer_owned
unfolding lock supported release request lock_x11 hide
grab_refused = refl

run-IsHonest_example : IsHonest (run whole wayland_history (new_impl ℤ)).log
run-IsHonest_example = (run-IsHonest whole wayland_history).0

run-IsIdle_example : IsIdle (dispose whole (run whole x_history (new_impl ℤ)))
run-IsIdle_example = (run-IsIdle whole x_history timed_out).2
