-- ===== src/Windows/Tracking/Phases/Others.antt =====
-- The calls on keys and contacts leave the pen as it was.
use hardware_simulator.Prelude.{
  ℕ, ◌≡◌, refl, ap, ◌∙◌, inl, inr, Bool, true, List, [], ◌∷◌, Option-cases, if_both,
}
use hardware_simulator.Prelude.Int.{ℤ}
use hardware_simulator.Linux.Values.{Doubles}
use hardware_simulator.Windows.Pointer.{Point, Metrics, adjust_to_virtual_desktop_pixels}
use hardware_simulator.Windows.Injection.{Outside}
use hardware_simulator.Windows.Injection.Pointers.{PenInfo}
use hardware_simulator.Windows.Tracking.{
  KeyState, TouchState, Tracking, find_key, note_key, perform_key_event,
}
use hardware_simulator.Windows.Tracking.Touch.{
  slot_with_id, free_slot, send_touch_input, take_slot, note_touch, touch_in, perform_touch_event,
  move_in, perform_touch_move, change_slot, move_slot,
}
use hardware_simulator.Windows.Tracking.Repeat.{repeat_key, repeat_touches}
use hardware_simulator.Windows.Tracking.Phases.{pen_of}

module _ (d : Doubles) (out : Outside) (m : Metrics) where
  open d use {D}

  abbrev pub Alike : Tracking D → Tracking D → Type 0
  Alike s t = pen_of t ≡ pen_of s

  -- The pen and the map of keys are as before.
  abbrev pub pen_and_keys : Tracking D → (PenInfo × ℕ) × List (ℕ × KeyState)
  pen_and_keys s = (pen_of s, s.key_states)

  abbrev pub Apart : Tracking D → Tracking D → Type 0
  Apart s t = pen_and_keys t ≡ pen_and_keys s

  take_slot-Apart : (id : ℕ) (s : Tracking D) → Apart s (take_slot d out m id s).1
  unfolding take_slot
  take_slot-Apart id s = elim (Option-cases (slot_with_id id s.touch_info)) [
    | inr (i, e) ↦ rw (take_slot, e) refl
    | inl e ↦ elim (Option-cases (free_slot s.touch_info)) [
      | inl f ↦ rw (take_slot, e, f) refl
      | inr (i, f) ↦ rw (take_slot, e, f) refl
    ]
  ]

  note_touch-Apart :
      (screen_id : ℤ) (x y : D) (id : ℕ) (is_down : Bool) (now : ℕ) (s t : Tracking D)
      → Apart s t
      → Apart s (note_touch d out m screen_id x y id is_down now t)
  unfolding note_touch
  note_touch-Apart screen_id x y id is_down now s t h =
      if_both (Apart s) is_down _ _ h (if_both (Apart s) _ _ _ h h)

  touch_in-Apart :
      (i : ℕ) (screen_id : ℤ) (x y : D) (id : ℕ) (is_down is_repeat : Bool) (now : ℕ)
      (s : Tracking D)
      → Apart s (touch_in d out m i screen_id x y id is_down is_repeat now s)
  unfolding touch_in send_touch_input
  touch_in-Apart i screen_id x y id is_down is_repeat now s =
      elim (Option-cases (adjust_to_virtual_desktop_pixels d m s.monitors screen_id x y)) [
        | inl e ↦ rw (touch_in, e) refl
        | inr (p, e) ↦
            rw (touch_in, e)
              (if_both (Apart s) _ (note_touch d out m screen_id x y id is_down now _) _
                (note_touch-Apart screen_id x y id is_down now s _ refl) refl)
      ]

  pub perform_touch_event-Apart :
      (screen_id : ℤ) (x y : D) (id : ℕ) (is_down is_repeat : Bool) (now : ℕ) (s : Tracking D)
      → Apart s (perform_touch_event d out m screen_id x y id is_down is_repeat now s)
  unfolding perform_touch_event
  perform_touch_event-Apart screen_id x y id is_down is_repeat now s =
      let t = take_slot-Apart id s in
      elim (Option-cases (take_slot d out m id s).0) [
        | inl e ↦ rw (perform_touch_event, e) t
        | inr (i, e) ↦
            rw (perform_touch_event, e)
              (touch_in-Apart i screen_id x y id is_down is_repeat now _ ∙ t)
      ]

  pub perform_touch_event-Alike :
      (screen_id : ℤ) (x y : D) (id : ℕ) (is_down is_repeat : Bool) (now : ℕ) (s : Tracking D)
      → Alike s (perform_touch_event d out m screen_id x y id is_down is_repeat now s)
  perform_touch_event-Alike screen_id x y id is_down is_repeat now s =
      ap (λ (q : (PenInfo × ℕ) × List (ℕ × KeyState)). q.0)
        (perform_touch_event-Apart screen_id x y id is_down is_repeat now s)

  move_in-Alike :
      (i : ℕ) (screen_id : ℤ) (x y : D) (id now : ℕ) (p : Point) (s : Tracking D)
      → Alike s (move_in d out m i screen_id x y id now p s)
  unfolding move_in send_touch_input
  move_in-Alike i screen_id x y id now p s =
      let t : Tracking D = record s { touch_info = change_slot i (move_slot p) s.touch_info } in
      if_both (Alike s) _ (note_touch d out m screen_id x y id true now t) t
        (ap (λ (q : (PenInfo × ℕ) × List (ℕ × KeyState)). q.0)
          (note_touch-Apart screen_id x y id true now s t refl))
        refl

  pub perform_touch_move-Alike :
      (screen_id : ℤ) (x y : D) (id now : ℕ) (s : Tracking D)
      → Alike s (perform_touch_move d out m screen_id x y id now s)
  unfolding perform_touch_move
  perform_touch_move-Alike screen_id x y id now s =
      elim (Option-cases (slot_with_id id s.touch_info)) [
        | inl e ↦ rw (perform_touch_move, e) refl
        | inr (i, e) ↦
            elim (Option-cases (adjust_to_virtual_desktop_pixels d m s.monitors screen_id x y)) [
              | inl f ↦ rw (perform_touch_move, e, f) refl
              | inr (p, f) ↦
                  rw (perform_touch_move, e, f) (move_in-Alike i screen_id x y id now p s)
            ]
      ]

  pub perform_key_event-Alike :
      (modcode : ℕ) (is_down is_repeat : Bool) (now : ℕ) (s : Tracking D)
      → Alike s (perform_key_event out modcode is_down is_repeat now s)
  unfolding perform_key_event note_key
  perform_key_event-Alike modcode is_down is_repeat now s =
      if_both (Alike s) _ (note_key modcode is_down now _) _
        (if_both (Alike s) is_down _ _ refl (if_both (Alike s) _ _ _ refl refl)) refl

  pub repeat_key-Alike : (now : ℕ) (s : Tracking D) → Alike s (repeat_key d out m now s)
  unfolding repeat_key
  repeat_key-Alike now s = elim (Option-cases (find_key s.last_known_key_down s.key_states)) [
    | inl e ↦ rw (repeat_key, e) refl
    | inr (k, e) ↦
        rw (repeat_key, e)
          (if_both (Alike s) _ _ s (perform_key_event-Alike s.last_known_key_down true true now s)
            refl)
  ]

  pub repeat_touches-Alike :
      (now : ℕ) (cs : List (ℕ × TouchState D)) (s : Tracking D)
      → Alike s (repeat_touches d out m now cs s)
  unfolding repeat_touches
  repeat_touches-Alike now [] s = refl
  repeat_touches-Alike now ((id, c) ∷ cs) s =
      repeat_touches-Alike now cs _
      ∙ if_both (Alike s) _ _ s
          (perform_touch_event-Alike c.touch_screen c.touch_x c.touch_y id true true now s) refl
