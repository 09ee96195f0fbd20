-- ===== src/Windows/Displays/Console/Switching.antt =====
-- windows/virtual_display_control.cc: when the console is given to another session.
use hardware_simulator.Prelude.{ℕ, ◌≡◌, ◌⊎◌, true, false, List, [], ◌∷◌, ◌==◌}
use hardware_simulator.Windows.Displays.Console.{
  Session, Desk, has_active_display, is_candidate, has_active_rdp_session,
}

-- A session of the list, not that of the services, has this id and a user.
abbrev pub IsUserSession : ℕ → List Session → Type 0
IsUserSession sid [] = ⊥
IsUserSession sid (s ∷ ss) = ((s.session_id ≡ sid) × (is_candidate s ≡ true)) ⊎ IsUserSession sid ss

-- The conditions under which `tscon` is run on a session.
abbrev pub MayTake : Desk → List Session → ℕ → Type 0
MayTake d ss sid =
    (has_active_display d.adapters ≡ false)
    × (has_active_rdp_session d ≡ false)
    × ((d.console == sid) ≡ false)
    × IsUserSession sid ss
