-- ===== src/Windows/Tracking/Slots.antt =====
-- What the calls do to the touch slots: a rule for predicates of the slots and their count.
pub mod Full
pub mod First
use hardware_simulator.Prelude.{
  ℕ, suc, ◌+◌, ◌-◌, ◌≡◌, inl, inr, Bool, true, false, not, ◌&&◌, none, some, List, [], ◌∷◌, ltb,
  leb, if◌then◌else◌, Option-cases, if_both,
}
use hardware_simulator.Prelude.Int.{ℤ}
use hardware_simulator.Linux.Values.{Doubles}
use hardware_simulator.Windows.Pointer.{Point, Metrics, adjust_to_virtual_desktop_pixels}
use hardware_simulator.Windows.Injection.{Outside}
use hardware_simulator.Windows.Injection.Pointers.{TouchSlot, PenInfo}
use hardware_simulator.Windows.Tracking.{
  TouchState, Tracking, find_key, note_key, perform_key_event, set_auto_repeat_enabled,
}
use hardware_simulator.Windows.Tracking.Touch.{
  slot_with_id, free_slot, change_slot, touch_slot, move_slot, send_touch_input, take_slot,
  note_touch, touch_in, perform_touch_event, move_in, perform_touch_move,
}
use hardware_simulator.Windows.Tracking.Pen.{
  PenDoubles, PenCall, finish_pen, has_active_pen_pointer, has_hover_only_pen_pointer,
  send_pen_input, clear_active_pen_pointer, perform_pen_event, perform_pen_move, perform_pen_hover,
  record_pen_input_after_send, placed, at_place, event_change, move_change, hover_change,
}
use hardware_simulator.Windows.Tracking.Repeat.{
  Call, key_event, touch_event, touch_move, pen_event, pen_move, pen_hover, repeat_round,
  auto_repeat, repeat_key, repeat_touches, repeat_pen, monitor_round, run_call, run,
}

abbrev pub claim : ℕ → TouchSlot → TouchSlot
claim id t = record t { pointer_id = id }

abbrev pub typed : TouchSlot → TouchSlot
typed t = record t { is_touch = true }

abbrev pub raised : ℕ → ℕ → ℕ
raised i active = if ltb (i + 1) active then active else i + 1

-- The four changes that the code makes to the slots keep the predicate.
pub record SlotRule (P : List TouchSlot → ℕ → Type 0) : Type 0 where
  pub when_claimed :
      (i id active : ℕ) (ts : List TouchSlot)
      → slot_with_id id ts ≡ none
      → free_slot ts ≡ some i
      → P ts active
      → P (change_slot i (claim id) ts) (raised i active)
  pub when_typed :
      (i active : ℕ) (ts : List TouchSlot) → P ts active → P (change_slot i typed ts) active
  pub when_touched :
      (i active : ℕ) (is_down : Bool) (p : Point) (ts : List TouchSlot)
      → P ts active
      → P (change_slot i (touch_slot is_down p) ts) active
  pub when_moved :
      (i active : ℕ) (p : Point) (ts : List TouchSlot)
      → P ts active
      → P (change_slot i (move_slot p) ts) active

module _ (P : List TouchSlot → ℕ → Type 0) (rule : SlotRule P) (d : Doubles) (out : Outside)
    (m : Metrics) where
  open d use {D}

  abbrev Holds : Tracking D → Type 0
  Holds s = P s.touch_info s.active_touch_slots

  pub take_slot-Holds : (id : ℕ) (s : Tracking D) → Holds s → Holds (take_slot d out m id s).1
  unfolding take_slot
  take_slot-Holds id s h = elim (Option-cases (slot_with_id id s.touch_info)) [
    | inr (i, e) ↦ rw (take_slot, e) h
    | inl e ↦ elim (Option-cases (free_slot s.touch_info)) [
      | inl f ↦ rw (take_slot, e, f) h
      | inr (i, f) ↦
          rw (take_slot, e, f) (rule.when_claimed i id s.active_touch_slots s.touch_info e f h)
    ]
  ]

  touch_in-Holds :
      (i : ℕ) (screen_id : ℤ) (x y : D) (id : ℕ) (is_down is_repeat : Bool) (now : ℕ)
      (s : Tracking D)
      → Holds s
      → Holds (touch_in d out m i screen_id x y id is_down is_repeat now s)
  unfolding touch_in note_touch send_touch_input
  touch_in-Holds i screen_id x y id is_down is_repeat now s h =
      let ty = rule.when_typed i s.active_touch_slots s.touch_info h in
      elim (Option-cases (adjust_to_virtual_desktop_pixels d m s.monitors screen_id x y)) [
        | inl e ↦ rw (touch_in, e) ty
        | inr (p, e) ↦
            let q = rule.when_touched i s.active_touch_slots is_down p _ ty in
            rw (touch_in, e)
              (if_both Holds _ (note_touch d out m screen_id x y id is_down now _) _
                (if_both Holds is_down _ _ q (if_both Holds _ _ _ q q)) q)
      ]

  perform_touch_event-Holds :
      (screen_id : ℤ) (x y : D) (id : ℕ) (is_down is_repeat : Bool) (now : ℕ) (s : Tracking D)
      → Holds s
      → Holds (perform_touch_event d out m screen_id x y id is_down is_repeat now s)
  unfolding perform_touch_event
  perform_touch_event-Holds screen_id x y id is_down is_repeat now s h =
      let t = take_slot-Holds id s h in
      elim (Option-cases (take_slot d out m id s).0) [
        | inl e ↦ rw (perform_touch_event, e) t
        | inr (i, e) ↦
            rw (perform_touch_event, e)
              (touch_in-Holds i screen_id x y id is_down is_repeat now _ t)
      ]

  move_in-Holds :
      (i : ℕ) (screen_id : ℤ) (x y : D) (id now : ℕ) (p : Point) (s : Tracking D)
      → Holds s
      → Holds (move_in d out m i screen_id x y id now p s)
  unfolding move_in note_touch send_touch_input
  move_in-Holds i screen_id x y id now p s h =
      let q = rule.when_moved i s.active_touch_slots p s.touch_info h in
      if_both Holds _ (note_touch d out m screen_id x y id true now _) _ q q

  perform_touch_move-Holds :
      (screen_id : ℤ) (x y : D) (id now : ℕ) (s : Tracking D)
      → Holds s
      → Holds (perform_touch_move d out m screen_id x y id now s)
  unfolding perform_touch_move
  perform_touch_move-Holds screen_id x y id now s h =
      elim (Option-cases (slot_with_id id s.touch_info)) [
        | inl e ↦ rw (perform_touch_move, e) h
        | inr (i, e) ↦
            elim (Option-cases (adjust_to_virtual_desktop_pixels d m s.monitors screen_id x y)) [
              | inl f ↦ rw (perform_touch_move, e, f) h
              | inr (p, f) ↦
                  rw (perform_touch_move, e, f) (move_in-Holds i screen_id x y id now p s h)
            ]
      ]

  perform_key_event-Holds :
      (modcode : ℕ) (is_down is_repeat : Bool) (now : ℕ) (s : Tracking D)
      → Holds s
      → Holds (perform_key_event out modcode is_down is_repeat now s)
  unfolding perform_key_event note_key
  perform_key_event-Holds modcode is_down is_repeat now s h =
      if_both Holds _ (note_key modcode is_down now _) _
        (if_both Holds is_down _ _ h (if_both Holds _ _ _ h h)) h

  finish_pen-Holds : (now : ℕ) (s : Tracking D) → Holds s → Holds (finish_pen out now s)
  unfolding finish_pen record_pen_input_after_send send_pen_input
  finish_pen-Holds now s h =
      if_both (λ t. Holds (record t { cursor_syncs = suc t.cursor_syncs })) _ _ _ h h

  at_place-Holds :
      (screen_id : ℤ) (x y : D) (change : PenInfo → PenInfo) (pd : PenDoubles D) (now : ℕ)
      (s : Tracking D)
      → Holds s
      → Holds (at_place d pd out m screen_id x y change now s)
  unfolding at_place
  at_place-Holds screen_id x y change pd now s h =
      elim (Option-cases (adjust_to_virtual_desktop_pixels d m s.monitors screen_id x y)) [
        | inl e ↦ rw (at_place, e) h
        | inr (p, e) ↦
            rw (at_place, e)
              (finish_pen-Holds now (record s { pen_info = change (placed p s.pen_info) }) h)
      ]

  clear_active_pen_pointer-Holds :
      (s : Tracking D) → Holds s → Holds (clear_active_pen_pointer out s)
  unfolding clear_active_pen_pointer send_pen_input
  clear_active_pen_pointer-Holds s h = if_both Holds _ s _ h h

  repeat_pen-Holds : (now : ℕ) (s : Tracking D) → Holds s → Holds (repeat_pen d out m now s)
  unfolding repeat_pen send_pen_input
  repeat_pen-Holds now s h =
      let again = record (send_pen_input out s) { last_pen_refresh_time = now } in
      let due = leb 50 (now - s.last_pen_refresh_time) in
      if_both Holds (not (has_active_pen_pointer s)) s _ h (
        if_both Holds (has_hover_only_pen_pointer s && leb 250 (now - s.last_pen_input_time))
          (clear_active_pen_pointer out s) (if due then again else s)
          (clear_active_pen_pointer-Holds s h) (if_both Holds due again s h h))

  repeat_key-Holds : (now : ℕ) (s : Tracking D) → Holds s → Holds (repeat_key d out m now s)
  unfolding repeat_key
  repeat_key-Holds now s h = elim (Option-cases (find_key s.last_known_key_down s.key_states)) [
    | inl e ↦ rw (repeat_key, e) h
    | inr (k, e) ↦
        rw (repeat_key, e)
          (if_both Holds _ _ s (perform_key_event-Holds s.last_known_key_down true true now s h) h)
  ]

  repeat_touches-Holds :
      (now : ℕ) (cs : List (ℕ × TouchState D)) (s : Tracking D)
      → Holds s
      → Holds (repeat_touches d out m now cs s)
  unfolding repeat_touches
  repeat_touches-Holds now [] s h = h
  repeat_touches-Holds now ((id, c) ∷ cs) s h = repeat_touches-Holds now cs _ (
      if_both Holds _ _ s
        (perform_touch_event-Holds c.touch_screen c.touch_x c.touch_y id true true now s h) h)

  monitor_round-Holds : (now : ℕ) (s : Tracking D) → Holds s → Holds (monitor_round d out m now s)
  unfolding monitor_round
  monitor_round-Holds now s h =
      let t = repeat_key d out m now s in
      if_both Holds _ s _ h (
        repeat_pen-Holds now (repeat_touches d out m now t.touch_states t)
          (repeat_touches-Holds now t.touch_states t (repeat_key-Holds now s h)))

  module _ (pd : PenDoubles D) where
    run_call-Holds :
        (now : ℕ) (c : Call D) (s : Tracking D) → Holds s → Holds (run_call d out m pd now c s)
    unfolding run_call perform_pen_event perform_pen_move perform_pen_hover set_auto_repeat_enabled
    run_call-Holds now (key_event modcode is_down) s h =
        perform_key_event-Holds modcode is_down false now s h
    run_call-Holds now (touch_event screen_id x y id is_down) s h =
        perform_touch_event-Holds screen_id x y id is_down false now s h
    run_call-Holds now (touch_move screen_id x y id) s h =
        perform_touch_move-Holds screen_id x y id now s h
    run_call-Holds now (pen_event c is_down) s h =
        at_place-Holds c.screen_id c.call_x c.call_y (event_change d pd c is_down) pd now s h
    run_call-Holds now (pen_move c) s h =
        if_both Holds (not (has_active_pen_pointer s)) s
          (at_place d pd out m c.screen_id c.call_x c.call_y (move_change d pd c) now s) h
          (at_place-Holds c.screen_id c.call_x c.call_y (move_change d pd c) pd now s h)
    run_call-Holds now (pen_hover screen_id x y) s h =
        at_place-Holds screen_id x y (hover_change d pd) pd now s h
    run_call-Holds now repeat_round s h = monitor_round-Holds now s h
    run_call-Holds now (auto_repeat enabled) s h =
        if_both Holds _ s _ h (if_both Holds enabled _ _ h h)

    -- A predicate that the changes keep, any calls and rounds keep.
    pub run_keeps :
        (cs : List (ℕ × Call D)) (s : Tracking D) → Holds s → Holds (run d out m pd cs s)
    unfolding run
    run_keeps [] s h = h
    run_keeps ((now, c) ∷ cs) s h =
        run_keeps cs (run_call d out m pd now c s) (run_call-Holds now c s h)
