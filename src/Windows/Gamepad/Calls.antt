-- ===== src/Windows/Gamepad/Calls.antt =====
-- windows/gamecontroller_manager.cc: the calls of the plugin and of ViGEm, in any order.
use hardware_simulator.Prelude.{ℕ, Bool, List, [], ◌∷◌}
use hardware_simulator.Prelude.Int.{ℤ}
use hardware_simulator.Windows.Gamepad.{
  Manager, Creation, create_game_controller, remove_game_controller, subscribe_rumble,
  stop_rumble_notifications, on_rumble,
}

-- Each with what ViGEm answers to it; a rumble may come at any time and with any cookie.
pub data Call : Type 0 where
  create : Creation → Call
  remove : ℤ → Bool → Bool → Call
  subscribe : ℤ → ℕ → ℕ → ℕ → Bool → Call
  stop : Call
  rumble : ℕ → ℕ → ℕ → Call

unfoldable pub step : Call → Manager → Manager
step (create c) m = (create_game_controller c m).1
step (remove id accepts resubscribes) m = (remove_game_controller id accepts resubscribes m).1
step (subscribe id token window message driver_accepts) m =
    (subscribe_rumble id token window message driver_accepts m).1
step stop m = stop_rumble_notifications m
step (rumble cookie large small) m = on_rumble cookie large small m

unfoldable pub run : List Call → Manager → Manager
run [] m = m
run (c ∷ cs) m = run cs (step c m)
