-- ===== src/Windows/Tracking/Phases.antt =====
-- The pen as a machine of three phases, which the flags that stay between two calls stand for.
pub mod Others
pub mod Steps
use hardware_simulator.Prelude.{
  ℕ, suc, ◌-◌, ◌≡◌, refl, ap, ◌∙◌, inl, inr, Bool, true, false, ◌&&◌, leb, if◌then◌else◌, is_some,
  Option-cases, if_both,
}
use hardware_simulator.Prelude.Int.{ℤ}
use hardware_simulator.Linux.Values.{Doubles}
use hardware_simulator.Windows.Pointer.{Metrics, adjust_to_virtual_desktop_pixels}
use hardware_simulator.Windows.Injection.{Outside}
use hardware_simulator.Windows.Injection.Pointers.{PointerFlags, no_flags, any_flag, PenInfo}
use hardware_simulator.Windows.Tracking.{
  TouchState, Tracking, find_key, note_key, perform_key_event, set_auto_repeat_enabled,
}
use hardware_simulator.Windows.Tracking.Touch.{
  slot_with_id, free_slot, send_touch_input, take_slot, note_touch, touch_in, perform_touch_event,
  move_in, perform_touch_move,
}
use hardware_simulator.Windows.Tracking.Pen.{
  PenDoubles, PenCall, finish_pen, has_active_pen_pointer, has_hover_only_pen_pointer,
  send_pen_input, clear_active_pen_pointer, perform_pen_event, perform_pen_move, perform_pen_hover,
  record_pen_input_after_send, placed, at_place, event_change, move_change, hover_change,
  clear_edges, event_flags, pen_details,
}
use hardware_simulator.Windows.Tracking.Repeat.{
  Call, key_event, touch_event, touch_move, pen_event, pen_move, pen_hover, repeat_round,
  auto_repeat, repeat_key, repeat_touches, repeat_pen, monitor_round, run_call, run,
}

pub data PenPhase : Type 0 where
  away hovering touching : PenPhase

abbrev pub rest_flags : PenPhase → PointerFlags
rest_flags away = no_flags
rest_flags hovering = record no_flags { in_range = true }
rest_flags touching = record no_flags { in_range = true; in_contact = true }

abbrev pub moved : PenPhase → PenPhase
moved away = away
moved hovering = touching
moved touching = touching

abbrev pub idled : PenPhase → PenPhase
idled away = away
idled hovering = away
idled touching = touching

-- The fields that the pen's calls change, but for the sender and the count of cursor syncs.
abbrev pub pen_of : {D : Type 0} → Tracking D → PenInfo × ℕ
pen_of s = (s.pen_info, s.last_pen_input_time)

module _ (d : Doubles) (pd : PenDoubles d.D) (out : Outside) (m : Metrics) where
  open d use {D}

  -- Whether the call's place is on a screen.
  abbrev pub on_screen : ℤ → D → D → Tracking D → Bool
  on_screen screen_id x y s =
      is_some (adjust_to_virtual_desktop_pixels d m s.monitors screen_id x y)

  -- The phase after a call, from the phase before, the screens, and the time of the last pen input.
  abbrev pub next_phase : ℕ → Call D → Tracking D → PenPhase → PenPhase
  next_phase now (pen_event c is_down) s ph =
      if on_screen c.screen_id c.call_x c.call_y s then if is_down then touching else away else ph
  next_phase now (pen_move c) s ph =
      if on_screen c.screen_id c.call_x c.call_y s then moved ph else ph
  next_phase now (pen_hover screen_id x y) s ph = if on_screen screen_id x y s then hovering else ph
  next_phase now repeat_round s ph =
      if s.auto_repeat_enabled && leb 250 (now - s.last_pen_input_time) then idled ph else ph
  next_phase now (key_event modcode is_down) s ph = ph
  next_phase now (touch_event screen_id x y id is_down) s ph = ph
  next_phase now (touch_move screen_id x y id) s ph = ph
  next_phase now (auto_repeat enabled) s ph = ph

  -- The pen rests in a phase.
  abbrev pub RestsIn : PenPhase → Tracking D → Type 0
  RestsIn ph s = s.pen_info.pen_pointer ≡ rest_flags ph

  finish_pen-RestsIn :
      (now : ℕ) (s : Tracking D) (ph : PenPhase)
      → clear_edges s.pen_info.pen_pointer ≡ rest_flags ph
      → RestsIn ph (finish_pen out now s)
  unfolding finish_pen record_pen_input_after_send send_pen_input
  finish_pen-RestsIn now s ph h =
      if_both (λ (t : Tracking D). RestsIn ph (record t { cursor_syncs = suc t.cursor_syncs })) _ _
        _ h h

  pub at_place-RestsIn :
      (screen_id : ℤ) (x y : D) (change : PenInfo → PenInfo) (now : ℕ) (s : Tracking D)
      (ph to : PenPhase)
      → RestsIn ph s
      → ((i : PenInfo)
          → i.pen_pointer ≡ rest_flags ph
          → clear_edges (change i).pen_pointer ≡ rest_flags to)
      → RestsIn
          (if on_screen screen_id x y s then to else ph)
          (at_place d pd out m screen_id x y change now s)
  unfolding at_place
  at_place-RestsIn screen_id x y change now s ph to h k =
      elim (Option-cases (adjust_to_virtual_desktop_pixels d m s.monitors screen_id x y)) [
        | inl e ↦ rw (at_place, e) h
        | inr (p, e) ↦
            rw (at_place, e)
              (finish_pen-RestsIn now (record s { pen_info = change (placed p s.pen_info) }) to
                (k (placed p s.pen_info) h))
      ]

  lifted :
      (is_down : Bool) (ph : PenPhase)
      → clear_edges (event_flags is_down (rest_flags ph))
        ≡ rest_flags (if is_down then touching else away)
  lifted true ph = refl
  lifted false away = refl
  lifted false hovering = refl
  lifted false touching = refl

  pub event_change_rests :
      (c : PenCall D) (is_down : Bool) (ph : PenPhase) (i : PenInfo)
      → i.pen_pointer ≡ rest_flags ph
      → clear_edges (event_change d pd c is_down i).pen_pointer
        ≡ rest_flags (if is_down then touching else away)
  unfolding event_change pen_details
  event_change_rests c is_down ph i h =
      ap (λ f. clear_edges (event_flags is_down f)) h ∙ lifted is_down ph

  moving :
      (c : PenCall D) (now : ℕ) (s : Tracking D) (ph : PenPhase)
      → RestsIn ph s
      → RestsIn
          (if on_screen c.screen_id c.call_x c.call_y s then touching else ph)
          (at_place d pd out m c.screen_id c.call_x c.call_y (move_change d pd c) now s)
  unfolding move_change pen_details
  moving c now s ph h =
      at_place-RestsIn c.screen_id c.call_x c.call_y (move_change d pd c) now s ph touching h
        (λ i k. refl)

  pub perform_pen_move-RestsIn :
      (c : PenCall D) (now : ℕ) (s : Tracking D) (ph : PenPhase)
      → RestsIn ph s
      → RestsIn (next_phase now (pen_move c) s ph) (perform_pen_move d pd out m c now s)
  unfolding perform_pen_move
  perform_pen_move-RestsIn c now s away h =
      if_both (λ q. RestsIn q (perform_pen_move d pd out m c now s))
        (on_screen c.screen_id c.call_x c.call_y s) away away (stays) (stays)
    where
      stays : RestsIn away (perform_pen_move d pd out m c now s)
      stays = rw (perform_pen_move, ap any_flag h) h
  perform_pen_move-RestsIn c now s hovering h =
      rw (perform_pen_move, ap any_flag h) (moving c now s hovering h)
  perform_pen_move-RestsIn c now s touching h =
      rw (perform_pen_move, ap any_flag h) (moving c now s touching h)
