-- ===== src/Windows/Tracking.antt =====
-- windows/hardware_simulator_plugin.cpp: the globals that track what is held down, and the keys.
--
-- A time point is a number of milliseconds, and `now` of a call is its argument. A `std::unordered_map`
-- is a list of entries in the order of its iteration.
pub mod Actions
pub mod Touch
pub mod Pen
pub mod Repeat
pub mod Slots
pub mod Phases
pub mod Clearing
mod Tests
use hardware_simulator.Prelude.{
  ℕ, Bool, true, false, not, ◌&&◌, Option, none, some, List, [], ◌∷◌, ◌==◌, if◌then◌else◌, is_some,
  bool_eq,
}
use hardware_simulator.Prelude.Int.{ℤ}
use hardware_simulator.Windows.Service.{Client}
use hardware_simulator.Windows.Pointer.{MonitorInfo}
use hardware_simulator.Windows.Injection.{input, Outside, Sender, new_sender, send}
use hardware_simulator.Windows.Injection.Keys.{key_input}
use hardware_simulator.Windows.Injection.Pointers.{TouchSlot, fresh_slot, PenInfo, no_pen}

pub record KeyState : Type 0 where
  pub is_down : Bool
  pub last_event_time : ℕ

pub record TouchState (D : Type 0) : Type 0 where
  pub touch_is_down : Bool
  pub touch_x : D
  pub touch_y : D
  pub touch_screen : ℤ
  pub last_touch_time : ℕ

module _ {ℓ} {A : Type ℓ} where
  abbrev pub find_key : ℕ → List (ℕ × A) → Option A
  find_key k [] = none
  find_key k ((j, v) ∷ m) = let rest = find_key k m in if j == k then some v else rest

  abbrev pub put_key : ℕ → A → List (ℕ × A) → List (ℕ × A)
  put_key k v [] = (k, v) ∷ []
  put_key k v ((j, w) ∷ m) =
      let rest = put_key k v m in if j == k then (k, v) ∷ m else (j, w) ∷ rest

  abbrev pub erase_key : ℕ → List (ℕ × A) → List (ℕ × A)
  erase_key k [] = []
  erase_key k ((j, w) ∷ m) = let rest = erase_key k m in if j == k then m else (j, w) ∷ rest

-- `cursor_syncs` counts the calls of `CursorMonitor::syncNow`.
pub record Tracking (D : Type 0) : Type 0 where
  pub sender : Sender
  pub monitors : List MonitorInfo
  pub auto_repeat_enabled : Bool
  pub key_states : List (ℕ × KeyState)
  pub last_known_key_down : ℕ
  pub touch_states : List (ℕ × TouchState D)
  pub touch_info : List TouchSlot
  pub active_touch_slots : ℕ
  pub pen_info : PenInfo
  pub last_pen_input_time : ℕ
  pub last_pen_refresh_time : ℕ
  pub cursor_syncs : ℕ

abbrev pub new_tracking : {D : Type 0} → Client → List MonitorInfo → Tracking D
new_tracking client monitors = record {
  sender = new_sender client;
  monitors = monitors;
  auto_repeat_enabled = true;
  key_states = [];
  last_known_key_down = 0;
  touch_states = [];
  touch_info =
      fresh_slot ∷ fresh_slot ∷ fresh_slot ∷ fresh_slot ∷ fresh_slot ∷ fresh_slot ∷ fresh_slot
      ∷ fresh_slot ∷ fresh_slot ∷ fresh_slot ∷ [];
  active_touch_slots = 0;
  pen_info = no_pen;
  last_pen_input_time = 0;
  last_pen_refresh_time = 0;
  cursor_syncs = 0;
}

module _ {D : Type 0} where
  -- What a key leaves in the maps.
  unfoldable pub note_key : ℕ → Bool → ℕ → Tracking D → Tracking D
  note_key modcode is_down now s =
      if is_down
      then record s {
        key_states =
            put_key modcode (record { is_down = true; last_event_time = now }) s.key_states;
        last_known_key_down = modcode;
      }
      else if is_some (find_key modcode s.key_states)
      then record s { key_states = erase_key modcode s.key_states }
      else s

  unfoldable pub perform_key_event : Outside → ℕ → Bool → Bool → ℕ → Tracking D → Tracking D
  unfolding note_key
  perform_key_event out modcode is_down is_repeat now s =
      let t = record s { sender = send out (input (key_input out modcode is_down)) s.sender } in
      if t.auto_repeat_enabled && not is_repeat then note_key modcode is_down now t else t

  unfoldable pub set_auto_repeat_enabled : Bool → Tracking D → Tracking D
  set_auto_repeat_enabled enabled s =
      if bool_eq s.auto_repeat_enabled enabled
      then s
      else if enabled
      then record s { auto_repeat_enabled = true }
      else record s { auto_repeat_enabled = false; key_states = []; touch_states = [] }
