-- ===== src/Windows/Displays/Console.antt =====
-- windows/virtual_display_control.cc: the session of the console.
pub mod Switching
use hardware_simulator.Prelude.{
  ℕ, Bool, true, false, not, ◌&&◌, ◌||◌, Option, none, some, List, [], ◌∷◌, ◌==◌, if◌then◌else◌,
}

-- A session as the two enumerations see it. `has_user` is whether a user's name is told and not empty,
-- `rdp_protocol` whether the protocol is told to be RDP, and `rdp_station` whether its station's name
-- starts with "RDP-".
pub record Session : Type 0 where
  pub session_id : ℕ
  pub has_user : Bool
  pub is_disconnected : Bool
  pub is_active : Bool
  pub rdp_protocol : Bool
  pub rdp_station : Bool

-- Windows: which adapters are active, the sessions as they are enumerated twice, if they are, the
-- console's session, and whether `tscon` ends well on a session.
pub record Desk : Type 0 where
  pub adapters : List Bool
  pub sessions_for_target : Option (List Session)
  pub sessions_for_rdp : Option (List Session)
  pub console : ℕ
  pub tscon : ℕ → Bool

unfoldable pub has_active_display : List Bool → Bool
has_active_display [] = false
has_active_display (a ∷ others) = a || has_active_display others

abbrev pub is_candidate : Session → Bool
is_candidate s = not (s.session_id == 0) && s.has_user

-- The loop, with `firstUser`; it stops at a disconnected session.
unfoldable pub choose_session : ℕ → List Session → ℕ
choose_session first_user [] = first_user
choose_session first_user (s ∷ ss) =
    let first = if first_user == 0 then s.session_id else first_user in
    let later = choose_session first ss in
    let rest = choose_session first_user ss in
    if not (is_candidate s) then rest else if s.is_disconnected then s.session_id else later

unfoldable pub find_target_session : Desk → ℕ
unfolding choose_session
find_target_session d = elim d.sessions_for_target [ none ↦ 0 | some ss ↦ choose_session 0 ss ]

unfoldable pub any_rdp : List Session → Bool
any_rdp [] = false
any_rdp (s ∷ ss) = (s.is_active && (s.rdp_protocol || s.rdp_station)) || any_rdp ss

unfoldable pub has_active_rdp_session : Desk → Bool
unfolding any_rdp
has_active_rdp_session d = elim d.sessions_for_rdp [ none ↦ false | some ss ↦ any_rdp ss ]

-- The answer, and the session that `tscon` was run on.
unfoldable pub ensure_console_for_display : Desk → Bool × Option ℕ
unfolding has_active_display find_target_session has_active_rdp_session
ensure_console_for_display d =
    if has_active_display d.adapters
    then (true, none)
    else let target = find_target_session d in
      if target == 0
      then (false, none)
      else if d.console == target
      then (true, none)
      else if has_active_rdp_session d
      then (false, none)
      else (d.tscon target, some target)
