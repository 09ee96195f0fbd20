-- ===== src/Windows/Tracking/Repeat.antt =====
-- windows/hardware_simulator_plugin.cpp: a round of the thread that repeats what is held, the release of
-- everything, and runs of calls.
--
-- The mutex of the events makes each call and each round one step.
use hardware_simulator.Prelude.{
  ℕ, suc, ◌-◌, Bool, true, false, not, ◌&&◌, Option, none, some, List, [], ◌∷◌, leb, if◌then◌else◌,
  is_some, ◌>>=◌,
}
use hardware_simulator.Prelude.Int.{ℤ, pos}
use hardware_simulator.Linux.Values.{Doubles}
use hardware_simulator.Windows.Pointer.{Metrics}
use hardware_simulator.Windows.Injection.{Outside}
use hardware_simulator.Windows.Injection.Keys.{perform_mouse_button}
use hardware_simulator.Windows.Tracking.{
  KeyState, TouchState, Tracking, find_key, put_key, perform_key_event, set_auto_repeat_enabled,
}
use hardware_simulator.Windows.Tracking.Touch.{perform_touch_event, perform_touch_move}
use hardware_simulator.Windows.Tracking.Pen.{
  PenDoubles, PenCall, has_active_pen_pointer, has_hover_only_pen_pointer, send_pen_input,
  clear_active_pen_pointer, perform_pen_event, perform_pen_move, perform_pen_hover,
}

-- What is called, and the thread's round.
pub data Call (D : Type 0) : Type 0 where
  key_event : ℕ → Bool → Call D
  touch_event : ℤ → D → D → ℕ → Bool → Call D
  touch_move : ℤ → D → D → ℕ → Call D
  pen_event : PenCall D → Bool → Call D
  pen_move : PenCall D → Call D
  pen_hover : ℤ → D → D → Call D
  repeat_round : Call D
  auto_repeat : Bool → Call D

-- A call, or the release of everything with what `GetAsyncKeyState` answers.
pub data Action (D : Type 0) : Type 0 where
  does : Call D → Action D
  clears : (ℤ → Bool) → Action D

-- The buttons in the order of their release.
abbrev pub clear_order : List ℤ
clear_order = pos 1 ∷ pos 3 ∷ pos 2 ∷ pos 4 ∷ pos 5 ∷ []

module _ (d : Doubles) (out : Outside) (m : Metrics) where
  open d use {D}

  -- The key that went down last, half a second after it did.
  unfoldable pub repeat_key : ℕ → Tracking D → Tracking D
  unfolding perform_key_event
  repeat_key now s = elim (find_key s.last_known_key_down s.key_states) [
    | none ↦ s
    | some k ↦
        if k.is_down && leb 500 (now - k.last_event_time)
        then perform_key_event out s.last_known_key_down true true now s
        else s
  ]

  -- The contacts, each 300 ms after it was last sent.
  unfoldable pub repeat_touches : ℕ → List (ℕ × TouchState D) → Tracking D → Tracking D
  unfolding perform_touch_event
  repeat_touches now [] s = s
  repeat_touches now ((id, c) ∷ cs) s =
      let t = perform_touch_event d out m c.touch_screen c.touch_x c.touch_y id true true now s in
      repeat_touches now cs (
        if c.touch_is_down && leb 300 (now - c.last_touch_time)
        then record t {
          touch_states = put_key id (record c { last_touch_time = now }) t.touch_states;
        }
        else s)

  -- The pen leaves after a hover of 250 ms without input, or is sent again after 50 ms.
  unfoldable pub repeat_pen : ℕ → Tracking D → Tracking D
  unfolding clear_active_pen_pointer send_pen_input
  repeat_pen now s =
      if not (has_active_pen_pointer s)
      then s
      else if has_hover_only_pen_pointer s && leb 250 (now - s.last_pen_input_time)
      then clear_active_pen_pointer out s
      else if leb 50 (now - s.last_pen_refresh_time)
      then record (send_pen_input out s) { last_pen_refresh_time = now }
      else s

  -- One round of `EventMonitorThread`.
  unfoldable pub monitor_round : ℕ → Tracking D → Tracking D
  unfolding repeat_key repeat_touches repeat_pen
  monitor_round now s =
      if not s.auto_repeat_enabled
      then s
      else let t = repeat_key now s in repeat_pen now (repeat_touches now t.touch_states t)

  -- The loops of `clearAllPressedEvents` over the entries of the maps. A release erases the entry that
  -- the loop stands at; to go on from there is undefined, which is `none`.
  unfoldable pub release_keys : ℕ → List (ℕ × KeyState) → Tracking D → Option (Tracking D)
  unfolding perform_key_event
  release_keys now [] s = some s
  release_keys now ((k, st) ∷ rest) s =
      let t = if st.is_down then perform_key_event out k false false now s else s in
      let more = release_keys now rest t in if is_some (find_key k t.key_states) then more else none

  unfoldable pub release_touches : ℕ → List (ℕ × TouchState D) → Tracking D → Option (Tracking D)
  unfolding perform_touch_event
  release_touches now [] s = some s
  release_touches now ((id, c) ∷ rest) s =
      let t =
        if c.touch_is_down
        then perform_touch_event d out m c.touch_screen c.touch_x c.touch_y id false false now s
        else s in
      let more = release_touches now rest t in
      if is_some (find_key id t.touch_states) then more else none

  -- `GetAsyncKeyState` of the five buttons, asked in this order.
  unfoldable pub release_buttons : (ℤ → Bool) → List ℤ → Tracking D → Tracking D
  unfolding perform_mouse_button
  release_buttons held [] s = s
  release_buttons held (b ∷ bs) s =
      release_buttons held bs
        (if held b then record s { sender = perform_mouse_button out b true s.sender } else s)

  -- The pen, the buttons, and then the cursor if the pen was active.
  unfoldable pub clear_pen_and_buttons : (ℤ → Bool) → Tracking D → Tracking D
  unfolding clear_active_pen_pointer release_buttons
  clear_pen_and_buttons held s =
      let active = has_active_pen_pointer s in
      let t =
        release_buttons held clear_order (if active then clear_active_pen_pointer out s else s) in
      if active then record t { cursor_syncs = suc t.cursor_syncs } else t

  unfoldable pub clear_all_pressed_events : (ℤ → Bool) → ℕ → Tracking D → Option (Tracking D)
  unfolding release_keys release_touches clear_pen_and_buttons
  clear_all_pressed_events held now s = do
    t ← release_keys now s.key_states s
    let u = record t { key_states = []; last_known_key_down = 0 }
    v ← release_touches now u.touch_states u
    some (clear_pen_and_buttons held (record v { touch_states = [] }))

  module _ (pd : PenDoubles D) where
    unfoldable pub run_call : ℕ → Call D → Tracking D → Tracking D
    unfolding perform_key_event perform_touch_event perform_touch_move perform_pen_event
        perform_pen_move perform_pen_hover monitor_round set_auto_repeat_enabled
    run_call now (key_event modcode is_down) s = perform_key_event out modcode is_down false now s
    run_call now (touch_event screen_id x y id is_down) s =
        perform_touch_event d out m screen_id x y id is_down false now s
    run_call now (touch_move screen_id x y id) s = perform_touch_move d out m screen_id x y id now s
    run_call now (pen_event c is_down) s = perform_pen_event d pd out m c is_down now s
    run_call now (pen_move c) s = perform_pen_move d pd out m c now s
    run_call now (pen_hover screen_id x y) s = perform_pen_hover d pd out m screen_id x y now s
    run_call now repeat_round s = monitor_round now s
    run_call now (auto_repeat enabled) s = set_auto_repeat_enabled enabled s

    -- Each call at its time.
    unfoldable pub run : List (ℕ × Call D) → Tracking D → Tracking D
    unfolding run_call
    run [] s = s
    run ((now, c) ∷ cs) s = run cs (run_call now c s)

    -- With the release of everything among the calls; none from where that is undefined on.
    unfoldable pub run_actions : List (ℕ × Action D) → Tracking D → Option (Tracking D)
    unfolding run_call clear_all_pressed_events
    run_actions [] s = some s
    run_actions ((now, does c) ∷ more) s = run_actions more (run_call now c s)
    run_actions ((now, clears held) ∷ more) s = elim (clear_all_pressed_events held now s) [
      | none ↦ none
      | some t ↦ run_actions more t
    ]
