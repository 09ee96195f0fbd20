-- ===== src/Linux/Immersive/Tests.antt =====
-- A capture on X11, and one on Wayland whose roundtrip brings the focus back.
use hardware_simulator.Prelude.{◌≡◌, refl, true, false, List, [], ◌∷◌, arith}
use hardware_simulator.Linux.Immersive.{
  grab, ungrab, inhibit, add_watch, Impl, new_impl, focus_changed, global, removed, x11, wayland,
  World, release, set_enabled_with, signal, signals, captured, capture_x11, inhibit_shortcuts,
  capture_wayland, capture, prepare_body, prepare, set_enabled, check_focus, Event, enable,
  signalled, focus_checked, step, run,
}
use hardware_simulator.Linux.Immersive.Holding.{IsHeld}
use hardware_simulator.Linux.Immersive.Holding.Runs.{run-IsHeld}

abbrev x_world : World
x_world = record {
  top_is_window = true;
  mapped = true;
  active = true;
  native_window = true;
  display = x11;
  grab_ok = true;
  signals = [];
  roundtrip_ok = true;
  seat = true;
  surface = true;
  window_destroyed = false;
  still_mapped = true;
  still_active = true;
}

abbrev wayland_world : World
wayland_world = record x_world {
  display = wayland;
  signals = global true 5 ∷ focus_changed true ∷ [];
}

-- A grab that loses the focus, then an inhibitor whose manager goes away.
abbrev events : List Event
events =
    enable x_world true
    ∷ focus_checked false
    ∷ enable wayland_world true
    ∷ enable wayland_world true
    ∷ signalled wayland_world (removed 5)
    ∷ []

one_of_each : (run events new_impl).window ≡ false
unfolding run step set_enabled set_enabled_with prepare prepare_body capture capture_x11
    capture_wayland inhibit_shortcuts captured signals signal release check_focus
one_of_each = refl

held_between :
    (run (enable x_world true ∷ focus_checked false ∷ enable wayland_world true ∷ []) new_impl).log
    ≡ inhibit ∷ ungrab ∷ add_watch ∷ grab ∷ []
unfolding run step set_enabled set_enabled_with prepare prepare_body capture capture_x11
    capture_wayland inhibit_shortcuts captured signals signal release check_focus
held_between = refl

run-IsHeld_example : IsHeld (run events new_impl)
run-IsHeld_example = run-IsHeld events new_impl (record {
  kind = refl;
  watched = refl;
  one = refl;
  managed = refl;
  asked = refl;
  grab_count = omega arith;
  inhibit_count = omega arith;
})

abbrev preparing : Impl
preparing = record new_impl { top = true; wanted = true; preparing = true; registry = true }
