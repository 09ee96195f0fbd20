-- ===== src/Windows/Tracking/Touch.antt =====
-- windows/hardware_simulator_plugin.cpp: touch contacts in the ten slots.
use hardware_simulator.Prelude.{
  ℕ, zero, suc, ◌+◌, Bool, true, not, ◌&&◌, Option, none, some, List, [], ◌∷◌, map, ltb, ◌==◌,
  if◌then◌else◌, is_some, take,
}
use hardware_simulator.Prelude.Int.{ℤ}
use hardware_simulator.Linux.Values.{Doubles}
use hardware_simulator.Windows.Pointer.{Point, Metrics, adjust_to_virtual_desktop_pixels}
use hardware_simulator.Windows.Injection.{contacts, Outside, send}
use hardware_simulator.Windows.Injection.Pointers.{
  PointerFlags, no_flags, any_flag, TouchSlot, pointer_of,
}
use hardware_simulator.Windows.Tracking.{Tracking, find_key, put_key, erase_key}

-- The index of the first slot that passes the test.
abbrev pub first_slot : (TouchSlot → Bool) → List TouchSlot → Option ℕ
first_slot test [] = none
first_slot test (t ∷ ts) =
    let rest : Option ℕ = elim (first_slot test ts) [ none ↦ none | some i ↦ some (suc i) ] in
    if test t then some 0 else rest

abbrev pub slot_with_id : ℕ → List TouchSlot → Option ℕ
slot_with_id id ts = first_slot (λ t. t.pointer_id == id) ts

abbrev pub free_slot : List TouchSlot → Option ℕ
free_slot ts = first_slot (λ t. not (any_flag t.flags)) ts

-- A change to the slot of an index; none is out of bounds.
abbrev pub change_slot : ℕ → (TouchSlot → TouchSlot) → List TouchSlot → List TouchSlot
change_slot i f [] = []
change_slot zero f (t ∷ ts) = f t ∷ ts
change_slot (suc i) f (t ∷ ts) = t ∷ change_slot i f ts

abbrev down_flags : PointerFlags
down_flags = record no_flags {
  first_button = true;
  in_range = true;
  in_contact = true;
  down = true;
}

abbrev up_flags : PointerFlags
up_flags = record no_flags { up = true }

abbrev move_flags : PointerFlags
move_flags = record no_flags { in_range = true; in_contact = true; update = true }

-- What an event and a move write into the slot.
unfoldable pub touch_slot : Bool → Point → TouchSlot → TouchSlot
touch_slot is_down p t = record t {
  x = p.x;
  y = p.y;
  flags = if is_down then down_flags else up_flags;
  has_area = true;
  measured = true;
}

unfoldable pub move_slot : Point → TouchSlot → TouchSlot
move_slot p t = record t { x = p.x; y = p.y; flags = move_flags; has_area = true }

module _ (d : Doubles) (out : Outside) (m : Metrics) where
  open d use {D}

  -- `send_touch_input` with the slots below the count.
  unfoldable pub send_touch_input : Tracking D → Tracking D
  send_touch_input s = record s {
    sender = send out (contacts (map pointer_of (take s.active_touch_slots s.touch_info))) s.sender;
  }

  -- The search for the slot of an event: one with its id, or else the first that is free, which it
  -- takes.
  unfoldable pub take_slot : ℕ → Tracking D → Option ℕ × Tracking D
  take_slot touch_id s = elim (slot_with_id touch_id s.touch_info) [
    | some i ↦ (some i, s)
    | none ↦ elim (free_slot s.touch_info) [
      | none ↦ (none, s)
      | some i ↦ (
        some i,
        record s {
          touch_info = change_slot i (λ t. record t { pointer_id = touch_id }) s.touch_info;
          active_touch_slots =
              if ltb (i + 1) s.active_touch_slots then s.active_touch_slots else i + 1;
        },
      )
    ]
  ]

  unfoldable pub note_touch : ℤ → D → D → ℕ → Bool → ℕ → Tracking D → Tracking D
  note_touch screen_id x y touch_id is_down now s =
      if is_down
      then record s {
        touch_states =
            put_key touch_id
              (record {
                touch_is_down = true;
                touch_x = x;
                touch_y = y;
                touch_screen = screen_id;
                last_touch_time = now;
              })
              s.touch_states;
      }
      else if is_some (find_key touch_id s.touch_states)
      then record s { touch_states = erase_key touch_id s.touch_states }
      else s

  -- The event once its slot is found.
  unfoldable pub touch_in : ℕ → ℤ → D → D → ℕ → Bool → Bool → ℕ → Tracking D → Tracking D
  unfolding send_touch_input note_touch touch_slot adjust_to_virtual_desktop_pixels
  touch_in i screen_id x y touch_id is_down is_repeat now s =
      let typed = record s {
        touch_info = change_slot i (λ t. record t { is_touch = true }) s.touch_info;
      } in
      elim (adjust_to_virtual_desktop_pixels d m s.monitors screen_id x y) [
        | none ↦ typed
        | some p ↦
            let t = send_touch_input (record typed {
              touch_info = change_slot i (touch_slot is_down p) typed.touch_info;
            }) in
            if t.auto_repeat_enabled && not is_repeat
            then note_touch screen_id x y touch_id is_down now t
            else t
      ]

  unfoldable pub perform_touch_event : ℤ → D → D → ℕ → Bool → Bool → ℕ → Tracking D → Tracking D
  unfolding take_slot touch_in
  perform_touch_event screen_id x y touch_id is_down is_repeat now s =
      let (found, t) = take_slot touch_id s in
      elim found [ none ↦ t | some i ↦ touch_in i screen_id x y touch_id is_down is_repeat now t ]

  -- A move keeps a contact's entry up to date, and sends.
  unfoldable pub move_in : ℕ → ℤ → D → D → ℕ → ℕ → Point → Tracking D → Tracking D
  unfolding send_touch_input move_slot note_touch
  move_in i screen_id x y touch_id now p s =
      let t = record s { touch_info = change_slot i (move_slot p) s.touch_info } in
      send_touch_input (
        if t.auto_repeat_enabled && is_some (find_key touch_id t.touch_states)
        then note_touch screen_id x y touch_id true now t
        else t)

  unfoldable pub perform_touch_move : ℤ → D → D → ℕ → ℕ → Tracking D → Tracking D
  unfolding move_in adjust_to_virtual_desktop_pixels
  perform_touch_move screen_id x y touch_id now s = elim (slot_with_id touch_id s.touch_info) [
    | none ↦ s
    | some i ↦ elim (adjust_to_virtual_desktop_pixels d m s.monitors screen_id x y) [
      | none ↦ s
      | some p ↦ move_in i screen_id x y touch_id now p s
    ]
  ]
