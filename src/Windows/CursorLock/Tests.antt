-- ===== src/Windows/CursorLock/Tests.antt =====
-- Runs of the cursor's lock.
use hardware_simulator.Prelude.{◌≡◌, refl, inl, true, false, none, some, List, [], ◌∷◌}
use hardware_simulator.Prelude.Int.{pos}
use hardware_simulator.Windows.Pointer.{Point}
use hardware_simulator.Windows.CursorLock.{
  FlutterWindows, LockAnswers, unlocked, find_flutter_window, subscribe_to_raw_input_data,
  unsubscribe_from_raw_input_data, lock_at, lock_cursor, unlock_cursor, unlock_cursor_and_reseed,
  on_raw_input,
}
use hardware_simulator.Windows.CursorLock.Held.{
  Call, lock, unlock, reseed, raw_input, step, run, IsSettled, run-IsSettled,
}

abbrev windows : FlutterWindows
windows = record { has_registrar = true; native_window = 0; runner_window = 7; class_window = 9 }

abbrev place : Point
place = record { x = pos 40; y = pos 30 }

abbrev willing : LockAnswers
willing = record {
  windows = windows;
  cursor_pos = some place;
  clips = true;
  registers = true;
  proc_id = 5;
}

abbrev moved : List Call
moved = lock willing ∷ raw_input true (some (pos 2, pos 1)) ∷ lock willing ∷ []

run-IsSettled_example :
    IsSettled (run (lock willing ∷ raw_input true (some (pos 2, pos 1)) ∷ reseed ∷ []) unlocked)
run-IsSettled_example =
    run-IsSettled (lock willing ∷ raw_input true (some (pos 2, pos 1)) ∷ reseed ∷ []) unlocked
      (inl (refl, refl, refl, refl, refl, refl, refl))

still_locked : (run moved unlocked).delegates ≡ 5 ∷ []
unfolding run step lock_cursor lock_at find_flutter_window subscribe_to_raw_input_data on_raw_input
still_locked = refl

placed_free : (run (lock willing ∷ reseed ∷ unlock ∷ []) unlocked).reseeds ≡ (7, none) ∷ []
unfolding run step lock_cursor lock_at find_flutter_window subscribe_to_raw_input_data
    unlock_cursor_and_reseed unsubscribe_from_raw_input_data unlock_cursor
placed_free = refl

refused : (lock_cursor (record willing { registers = false }) unlocked).clip ≡ none
unfolding lock_cursor lock_at find_flutter_window subscribe_to_raw_input_data
refused = refl
