-- ===== src/Windows/Tracking/Phases/Steps.antt =====
-- Every call takes the pen from its phase to the next one.
use hardware_simulator.Prelude.{
  ℕ, ◌-◌, ◌≡◌, refl, ap, ◌∙◌, inl, inr, Bool, true, false, not, ◌&&◌, leb, if◌then◌else◌,
  Bool-cases, if_both,
}
use mathlib.Core.Path.{subst}
use hardware_simulator.Linux.Values.{Doubles}
use hardware_simulator.Windows.Pointer.{Metrics}
use hardware_simulator.Windows.Injection.{Outside}
use hardware_simulator.Windows.Injection.Pointers.{any_flag, PenInfo}
use hardware_simulator.Windows.Tracking.Touch.{perform_touch_event, perform_touch_move}
use hardware_simulator.Windows.Tracking.{Tracking, perform_key_event, set_auto_repeat_enabled}
use hardware_simulator.Windows.Tracking.Pen.{
  PenDoubles, has_hover_only_pen_pointer, send_pen_input, clear_active_pen_pointer,
  perform_pen_event, perform_pen_hover, hover_change, event_change, clear_edges, leave_flags,
}
use hardware_simulator.Windows.Tracking.Repeat.{
  Call, key_event, touch_event, touch_move, pen_event, pen_move, pen_hover, repeat_round,
  auto_repeat, repeat_key, repeat_touches, repeat_pen, monitor_round, run_call,
}
use hardware_simulator.Windows.Tracking.Phases.{
  PenPhase, away, hovering, touching, idled, pen_of, next_phase, RestsIn, perform_pen_move-RestsIn,
  at_place-RestsIn, event_change_rests,
}
use hardware_simulator.Windows.Tracking.Phases.Others.{
  perform_key_event-Alike, perform_touch_event-Alike, perform_touch_move-Alike, repeat_key-Alike,
  repeat_touches-Alike,
}

module _ (d : Doubles) (pd : PenDoubles d.D) (out : Outside) (m : Metrics) where
  open d use {D}

  -- What leaves the pen as it was leaves its phase.
  pub same_phase :
      (ph : PenPhase) (s t : Tracking D)
      → pen_of t ≡ pen_of s
      → RestsIn d pd out m ph s
      → RestsIn d pd out m ph t
  same_phase ph s t e h = ap (λ (q : PenInfo × ℕ). q.0.pen_pointer) e ∙ h

  pub left :
      (s : Tracking D) (ph : PenPhase)
      → RestsIn d pd out m ph s
      → RestsIn d pd out m away (clear_active_pen_pointer out s)
  unfolding clear_active_pen_pointer send_pen_input
  left s away h = rw (clear_active_pen_pointer, ap any_flag h) h
  left s hovering h =
      rw (clear_active_pen_pointer, ap any_flag h) (ap (λ f. clear_edges (leave_flags f)) h)
  left s touching h =
      rw (clear_active_pen_pointer, ap any_flag h) (ap (λ f. clear_edges (leave_flags f)) h)

  -- The pen's part of a round.
  sent_again :
      (now : ℕ) (s : Tracking D) (ph : PenPhase)
      → RestsIn d pd out m ph s
      → RestsIn d pd out m ph (
          if leb 50 (now - s.last_pen_refresh_time)
          then record (send_pen_input out s) { last_pen_refresh_time = now }
          else s)
  unfolding send_pen_input
  sent_again now s ph h = if_both (RestsIn d pd out m ph) _ _ s h h

  hovering_round :
      (now : ℕ) (s : Tracking D)
      → RestsIn d pd out m hovering s
      → RestsIn d pd out m
          (if leb 250 (now - s.last_pen_input_time) then away else hovering)
          (repeat_pen d out m now s)
  unfolding repeat_pen
  hovering_round now s h =
      let hover : has_hover_only_pen_pointer s ≡ true =
        ap (λ f. f.in_range && not f.in_contact) h in
      elim (Bool-cases (leb 250 (now - s.last_pen_input_time))) [
        | inl due ↦
            rw (repeat_pen, ap any_flag h, hover, due) (ap (λ f. clear_edges (leave_flags f)) h)
        | inr early ↦ rw (repeat_pen, ap any_flag h, hover, early) (sent_again now s hovering h)
      ]

  repeat_pen-RestsIn :
      (now : ℕ) (s : Tracking D) (ph : PenPhase)
      → RestsIn d pd out m ph s
      → RestsIn d pd out m
          (if leb 250 (now - s.last_pen_input_time) then idled ph else ph)
          (repeat_pen d out m now s)
  unfolding repeat_pen
  repeat_pen-RestsIn now s away h =
      if_both (λ q. RestsIn d pd out m q (repeat_pen d out m now s)) _ away away stays stays
    where
      stays : RestsIn d pd out m away (repeat_pen d out m now s)
      stays = rw (repeat_pen, ap any_flag h) h
  repeat_pen-RestsIn now s hovering h = hovering_round now s h
  repeat_pen-RestsIn now s touching h =
      if_both (λ q. RestsIn d pd out m q (repeat_pen d out m now s)) _ touching touching stays stays
    where
      stays : RestsIn d pd out m touching (repeat_pen d out m now s)
      stays =
          let hover : has_hover_only_pen_pointer s ≡ false =
            ap (λ f. f.in_range && not f.in_contact) h in
          rw (repeat_pen, ap any_flag h, hover) (sent_again now s touching h)

  -- The phase of the states that agree on the pen.
  due_alike :
      (now : ℕ) (s t : Tracking D) (ph : PenPhase)
      → pen_of t ≡ pen_of s
      → (if leb 250 (now - t.last_pen_input_time) then idled ph else ph)
        ≡ (if leb 250 (now - s.last_pen_input_time) then idled ph else ph)
  due_alike now s t ph e = ap (λ (q : PenInfo × ℕ). if leb 250 (now - q.1) then idled ph else ph) e

  enabled_round :
      (enabled due : Bool) (s t : Tracking D) (ph : PenPhase)
      → RestsIn d pd out m ph s
      → RestsIn d pd out m (if due then idled ph else ph) t
      → RestsIn d pd out m (if enabled && due then idled ph else ph) (if not enabled then s else t)
  enabled_round true due s t ph h k = k
  enabled_round false due s t ph h k = h

  monitor_round-RestsIn :
      (now : ℕ) (s : Tracking D) (ph : PenPhase)
      → RestsIn d pd out m ph s
      → RestsIn d pd out m
          (next_phase d pd out m now repeat_round s ph)
          (monitor_round d out m now s)
  unfolding monitor_round
  monitor_round-RestsIn now s ph h =
      let t = repeat_key d out m now s in
      let u = repeat_touches d out m now t.touch_states t in
      let e : pen_of u ≡ pen_of s =
        repeat_touches-Alike d out m now t.touch_states t ∙ repeat_key-Alike d out m now s in
      enabled_round s.auto_repeat_enabled (leb 250 (now - s.last_pen_input_time)) s
        (repeat_pen d out m now u) ph h
        (subst (λ q. RestsIn d pd out m q (repeat_pen d out m now u)) (due_alike now s u ph e)
          (repeat_pen-RestsIn now u ph (same_phase ph s u e h)))

  set_auto_repeat_enabled-RestsIn :
      (enabled : Bool) (s : Tracking D) (ph : PenPhase)
      → RestsIn d pd out m ph s
      → RestsIn d pd out m ph (set_auto_repeat_enabled enabled s)
  unfolding set_auto_repeat_enabled
  set_auto_repeat_enabled-RestsIn enabled s ph h =
      if_both (RestsIn d pd out m ph) _ s _ h (if_both (RestsIn d pd out m ph) enabled _ _ h h)

  pub run_call-RestsIn :
      (now : ℕ) (c : Call D) (s : Tracking D) (ph : PenPhase)
      → RestsIn d pd out m ph s
      → RestsIn d pd out m (next_phase d pd out m now c s ph) (run_call d out m pd now c s)
  unfolding run_call perform_pen_event perform_pen_hover hover_change
  run_call-RestsIn now (key_event modcode is_down) s ph h =
      same_phase ph s (perform_key_event out modcode is_down false now s)
        (perform_key_event-Alike d out m modcode is_down false now s) h
  run_call-RestsIn now (touch_event screen_id x y id is_down) s ph h =
      same_phase ph s (perform_touch_event d out m screen_id x y id is_down false now s)
        (perform_touch_event-Alike d out m screen_id x y id is_down false now s) h
  run_call-RestsIn now (touch_move screen_id x y id) s ph h =
      same_phase ph s (perform_touch_move d out m screen_id x y id now s)
        (perform_touch_move-Alike d out m screen_id x y id now s) h
  run_call-RestsIn now (pen_event c is_down) s ph h =
      at_place-RestsIn d pd out m c.screen_id c.call_x c.call_y (event_change d pd c is_down) now s
        ph (if is_down then touching else away) h (event_change_rests d pd out m c is_down ph)
  run_call-RestsIn now (pen_move c) s ph h = perform_pen_move-RestsIn d pd out m c now s ph h
  run_call-RestsIn now (pen_hover screen_id x y) s ph h =
      at_place-RestsIn d pd out m screen_id x y (hover_change d pd) now s ph hovering h
        (λ i k. refl)
  run_call-RestsIn now repeat_round s ph h = monitor_round-RestsIn now s ph h
  run_call-RestsIn now (auto_repeat enabled) s ph h = set_auto_repeat_enabled-RestsIn enabled s ph h
