-- ===== src/Windows/Tracking/Tests.antt =====
-- One screen, a touch and a pen, with doubles that are whole numbers.
use hardware_simulator.Prelude.{
  ℕ, ◌≡◌, refl, Bool, true, false, none, some, List, [], ◌∷◌, ◌++◌, map, arith, take,
}
use hardware_simulator.Prelude.Int.{ℤ, pos, pos_part, neg, ltb_ℤ, leb_ℤ}
use hardware_simulator.Linux.Integral.{whole}
use hardware_simulator.Windows.Service.{new_client}
use hardware_simulator.Windows.Pointer.{
  Metrics, MonitorInfo, adjust_to_screen, adjust_to_virtual_desktop_pixels,
  monitor_rect_for_screen_id, normalized_point_on_monitor,
}
use hardware_simulator.Windows.Injection.{Outside}
use hardware_simulator.Windows.Injection.Pointers.{no_flags, any_flag, fresh_slot, TouchSlot}
use hardware_simulator.Windows.Tracking.{Tracking, new_tracking}
use hardware_simulator.Windows.Tracking.Touch.{
  send_touch_input as send_slots, take_slot, note_touch, touch_in, touch_slot, perform_touch_event,
}
use hardware_simulator.Windows.Tracking.Pen.{
  PenDoubles, perform_pen_hover, at_place, finish_pen, record_pen_input_after_send, hover_change,
  send_pen_input as send_pen,
}
use hardware_simulator.Windows.Tracking.Repeat.{
  Action, does, clears, run_actions, Call, key_event, touch_event, pen_hover, run, run_call,
  clear_all_pressed_events, release_keys, release_touches, clear_pen_and_buttons,
}
use hardware_simulator.Windows.Tracking.Slots.Full.{full_drops}
use hardware_simulator.Windows.Tracking.Phases.{away, RestsIn}
use hardware_simulator.Windows.Tracking.Actions.{phase_at, run_actions-RestsIn}
use hardware_simulator.Windows.Tracking.Clearing.{held_key_undefined}

abbrev windows : Outside
windows = record {
  send_input_accepts = λ n. true;
  inject_accepts = λ n. true;
  device_made = λ n. true;
  has_create = true;
  has_inject = true;
  has_destroy = true;
  input_desktop = λ n. 5;
  map_virtual_key = λ k. k;
  patience = 2;
}

abbrev screen : MonitorInfo
screen = record {
  rect = record { left = pos 0; top = pos 0; right = pos 1920; bottom = pos 1080 };
  is_primary = true;
  screen_id = pos 0;
}

abbrev metrics : Metrics
metrics = record {
  origin = record { x = pos 0; y = pos 0 };
  virtual_width = pos 1920;
  virtual_height = pos 1080;
  mul_div = λ a b c. a;
}

-- No angle but 0.
abbrev pen_doubles : PenDoubles ℤ
pen_doubles = record {
  lt_d = ltb_ℤ;
  le_d = leb_ℤ;
  div_d = λ a b. a;
  neg_d = neg;
  sin = λ a. pos 0;
  cos = λ a. pos 1;
  atan2 = λ a b. pos 0;
  pi = pos 3;
  truncate = λ a. a;
  to_uint32 = pos_part;
}

abbrev fresh : Tracking ℤ
fresh = new_tracking new_client (screen ∷ [])

abbrev hover_then_type : List (ℕ × Call ℤ)
hover_then_type =
    (10, pen_hover (pos 0) (pos 1) (pos 0))
    ∷ (20, key_event 0x41 true)
    ∷ (30, touch_event (pos 0) (pos 0) (pos 0) 7 true)
    ∷ []

-- The slot of a contact that has been lifted.
abbrev lifted : ℕ → TouchSlot
lifted id = record fresh_slot {
  is_touch = true;
  pointer_id = id;
  flags = record no_flags { up = true };
}

-- Ten contacts, one after the other.
abbrev ten_taps : Tracking ℤ
ten_taps = record fresh {
  touch_info =
      lifted 1
      ∷ lifted 2
      ∷ lifted 3
      ∷ lifted 4
      ∷ lifted 5
      ∷ lifted 6
      ∷ lifted 7
      ∷ lifted 8
      ∷ lifted 9
      ∷ lifted 10
      ∷ [];
  active_touch_slots = 10;
}

abbrev tap : ℕ → List (ℕ × Call ℤ)
tap id =
    (5, touch_event (pos 0) (pos 0) (pos 0) id true)
    ∷ (6, touch_event (pos 0) (pos 0) (pos 0) id false)
    ∷ []

-- Two taps leave two slots in use.
two_taps_stay :
    map
      (λ (t : TouchSlot). any_flag t.flags)
      (take 3 (run whole windows metrics pen_doubles (tap 1 ++ tap 2) fresh).touch_info)
    ≡ true ∷ true ∷ false ∷ []
unfolding run run_call perform_touch_event take_slot touch_in touch_slot note_touch
    adjust_to_virtual_desktop_pixels adjust_to_screen monitor_rect_for_screen_id
    normalized_point_on_monitor send_slots
two_taps_stay = refl

abbrev key_held : Tracking ℤ
key_held = record fresh {
  key_states = (0x41, record { is_down = true; last_event_time = 20 }) ∷ [];
  last_known_key_down = 0x41;
}

full_drops_example :
    perform_touch_event whole windows metrics
      (pos 0)
      (pos 0)
      (pos 0)
      11
      true
      false
      9
      (run whole windows metrics pen_doubles hover_then_type ten_taps)
    ≡ run whole windows metrics pen_doubles hover_then_type ten_taps
full_drops_example =
    full_drops whole windows metrics pen_doubles hover_then_type ten_taps (pos 0) (pos 0) (pos 0) 11
      true false 9
      (
        (refl, λ e. omega (arith, e)),
        (
          (refl, λ e. omega (arith, e)),
          (
            (refl, λ e. omega (arith, e)),
            (
              (refl, λ e. omega (arith, e)),
              (
                (refl, λ e. omega (arith, e)),
                (
                  (refl, λ e. omega (arith, e)),
                  (
                    (refl, λ e. omega (arith, e)),
                    (
                      (refl, λ e. omega (arith, e)),
                      ((refl, λ e. omega (arith, e)), ((refl, λ e. omega (arith, e)), tt)),
                    ),
                  ),
                ),
              ),
            ),
          ),
        ),
      )

abbrev no_button : ℤ → Bool
no_button b = false

-- The pen hovers, and everything is released.
abbrev hover_then_clear : List (ℕ × Action ℤ)
hover_then_clear = (10, does (pen_hover (pos 0) (pos 1) (pos 0))) ∷ (40, clears no_button) ∷ []

abbrev after_hover : Tracking ℤ
after_hover =
    run_call whole windows metrics pen_doubles 10 (pen_hover (pos 0) (pos 1) (pos 0)) fresh

hover_clears :
    run_actions whole windows metrics pen_doubles hover_then_clear fresh
    ≡ some (
        clear_pen_and_buttons whole windows metrics no_button
          (record after_hover { key_states = []; last_known_key_down = 0; touch_states = [] }))
unfolding run_actions run_call perform_pen_hover at_place finish_pen record_pen_input_after_send
    send_pen hover_change clear_all_pressed_events release_keys release_touches
    adjust_to_virtual_desktop_pixels adjust_to_screen monitor_rect_for_screen_id
    normalized_point_on_monitor
hover_clears = refl

run_actions-RestsIn_example :
    RestsIn whole pen_doubles windows metrics
      (phase_at whole pen_doubles windows metrics hover_then_clear fresh away)
      (clear_pen_and_buttons whole windows metrics no_button
        (record after_hover { key_states = []; last_known_key_down = 0; touch_states = [] }))
run_actions-RestsIn_example =
    run_actions-RestsIn whole pen_doubles windows metrics hover_then_clear fresh
      (clear_pen_and_buttons whole windows metrics no_button
        (record after_hover { key_states = []; last_known_key_down = 0; touch_states = [] }))
      away refl hover_clears

held_key_undefined_example :
    clear_all_pressed_events whole windows metrics no_button 40 key_held ≡ none
held_key_undefined_example =
    held_key_undefined whole pen_doubles windows metrics no_button 40 0x41
      (record { is_down = true; last_event_time = 20 }) [] key_held refl refl refl refl
