-- ===== src/Windows/Tracking/Slots/First.antt =====
-- The first contact of all, and how many contacts are sent with it.
use hardware_simulator.Prelude.{
  ℕ, zero, suc, ◌≡◌, refl, sym, ◌∙◌, inl, inr, Bool, false, none, some, List, arith, ◌==◌,
  if◌then◌else◌, Option-cases, if_both, if_false,
}
use hardware_simulator.Prelude.Int.{ℤ}
use hardware_simulator.Linux.Values.{Doubles}
use hardware_simulator.Windows.Service.{Client}
use hardware_simulator.Windows.Pointer.{Metrics, MonitorInfo, adjust_to_virtual_desktop_pixels}
use hardware_simulator.Windows.Injection.{Outside}
use hardware_simulator.Windows.Tracking.{Tracking, new_tracking}
use hardware_simulator.Windows.Tracking.Touch.{
  slot_with_id, take_slot, note_touch, touch_in, send_touch_input, perform_touch_event,
}
use hardware_simulator.Windows.Tracking.Slots.Full.{first_slot-none}

module _ (d : Doubles) (out : Outside) (m : Metrics) where
  open d use {D}

  abbrev SameCount : Tracking D → Tracking D → Type 0
  SameCount s t = t.active_touch_slots ≡ s.active_touch_slots

  touch_in-SameCount :
      (i : ℕ) (screen_id : ℤ) (x y : D) (id : ℕ) (is_down is_repeat : Bool) (now : ℕ)
      (s : Tracking D)
      → SameCount s (touch_in d out m i screen_id x y id is_down is_repeat now s)
  unfolding touch_in note_touch send_touch_input
  touch_in-SameCount i screen_id x y id is_down is_repeat now s =
      elim (Option-cases (adjust_to_virtual_desktop_pixels d m s.monitors screen_id x y)) [
        | inl e ↦ rw (touch_in, e) refl
        | inr (p, e) ↦
            rw (touch_in, e)
              (if_both (SameCount s) _ (note_touch d out m screen_id x y id is_down now _) _
                (if_both (SameCount s) is_down _ _ refl (if_both (SameCount s) _ _ _ refl refl))
                refl)
      ]

  unclaimed :
      (n : ℕ) (client : Client) (monitors : List MonitorInfo)
      → slot_with_id (suc n) (new_tracking {D = D} client monitors).touch_info ≡ none
  unclaimed n client monitors =
      let z : (0 == suc n) ≡ false = ground arith in
      first_slot-none (λ t. t.pointer_id == suc n) (new_tracking {D = D} client monitors).touch_info
        (z, (z, (z, (z, (z, (z, (z, (z, (z, (z, tt))))))))))

  -- The first event of all is sent with one contact, but with none if its contact has the number 0,
  -- which the slots that are free have as well.
  pub first_contact_count :
      (client : Client) (monitors : List MonitorInfo) (screen_id : ℤ) (x y : D) (id : ℕ)
      (is_down : Bool) (now : ℕ)
      → (perform_touch_event d out m screen_id x y id is_down false now
          (new_tracking client monitors)).active_touch_slots
        ≡ (if id == 0 then 0 else 1)
  unfolding perform_touch_event take_slot
  first_contact_count client monitors screen_id x y zero is_down now =
      touch_in-SameCount 0 screen_id x y 0 is_down false now (new_tracking client monitors)
  first_contact_count client monitors screen_id x y (suc n) is_down now =
      let s : Tracking D = new_tracking client monitors in
      let found : (take_slot d out m (suc n) s).0 ≡ some 0 =
        rw (take_slot, unclaimed n client monitors) refl in
      let one : (take_slot d out m (suc n) s).1.active_touch_slots ≡ 1 =
        rw (take_slot, unclaimed n client monitors) refl in
      let z : (suc n == 0) ≡ false = ground arith in
      rw (perform_touch_event, found)
        (touch_in-SameCount 0 screen_id x y (suc n) is_down false now
            (take_slot d out m (suc n) s).1
          ∙ one
          ∙ sym (if_false (suc n == 0) 0 1 z))
