-- ===== src/Windows/Tracking/Pen.antt =====
-- windows/hardware_simulator_plugin.cpp: the pen's events, and the flags that stay between them.
use hardware_simulator.Prelude.{ℕ, suc, Bool, true, false, not, ◌&&◌, none, some, if◌then◌else◌}
use hardware_simulator.Prelude.Int.{ℤ, pos}
use hardware_simulator.Linux.Values.{Doubles}
use hardware_simulator.Windows.Pointer.{Point, Metrics, adjust_to_virtual_desktop_pixels}
use hardware_simulator.Windows.Injection.{stylus, Outside, send}
use hardware_simulator.Windows.Injection.Pointers.{
  PointerFlags, no_flags, any_flag, PenInfo, pen_pointer_of,
}
use hardware_simulator.Windows.Tracking.{Tracking}

-- What the pen computes besides. `truncate` and `to_uint32` are the conversions to INT32 and UINT32.
pub record PenDoubles (D : Type 0) : Type 0 where
  pub lt_d : D → D → Bool
  pub le_d : D → D → Bool
  pub div_d : D → D → D
  pub neg_d : D → D
  pub sin : D → D
  pub cos : D → D
  pub atan2 : D → D → D
  pub pi : D
  pub truncate : D → ℤ
  pub to_uint32 : D → ℕ

-- The arguments of an event or a move.
pub record PenCall (D : Type 0) : Type 0 where
  pub screen_id : ℤ
  pub call_x : D
  pub call_y : D
  pub has_button : Bool
  pub pressure : D
  pub rotation : D
  pub tilt : D

abbrev pub clear_edges : PointerFlags → PointerFlags
clear_edges f = record f { down = false; update = false; up = false }

abbrev pub without_range : PointerFlags → PointerFlags
without_range f = record f { in_contact = false; in_range = false }

abbrev pub has_active_pen_pointer : {D : Type 0} → Tracking D → Bool
has_active_pen_pointer s = any_flag s.pen_info.pen_pointer

abbrev pub has_hover_only_pen_pointer : {D : Type 0} → Tracking D → Bool
has_hover_only_pen_pointer s =
    s.pen_info.pen_pointer.in_range && not s.pen_info.pen_pointer.in_contact

abbrev pub with_flags : {D : Type 0} → PointerFlags → Tracking D → Tracking D
with_flags f s = record s { pen_info = record (s.pen_info) { pen_pointer = f } }

unfoldable pub send_pen_input : {D : Type 0} → Outside → Tracking D → Tracking D
send_pen_input out s = record s { sender = send out (stylus (pen_pointer_of s.pen_info)) s.sender }

abbrev pub clear_pen_edge_triggered_flags : {D : Type 0} → Tracking D → Tracking D
clear_pen_edge_triggered_flags s = with_flags (clear_edges s.pen_info.pen_pointer) s

abbrev pub leave_flags : PointerFlags → PointerFlags
leave_flags f =
    let g = without_range f in
    if f.in_contact then record g { up = true } else record g { update = true }

unfoldable pub clear_active_pen_pointer : {D : Type 0} → Outside → Tracking D → Tracking D
unfolding send_pen_input
clear_active_pen_pointer out s =
    if not (has_active_pen_pointer s)
    then s
    else let t = send_pen_input out (with_flags (leave_flags s.pen_info.pen_pointer) s) in
      record (clear_pen_edge_triggered_flags t) {
        last_pen_input_time = 0;
        last_pen_refresh_time = 0;
      }

unfoldable pub record_pen_input_after_send : {D : Type 0} → ℕ → Tracking D → Tracking D
record_pen_input_after_send now s =
    if not (has_active_pen_pointer s)
    then record s { last_pen_input_time = 0; last_pen_refresh_time = 0 }
    else record s { last_pen_input_time = now; last_pen_refresh_time = now }

-- The four last steps of an event, a move and a hover.
unfoldable pub finish_pen : {D : Type 0} → Outside → ℕ → Tracking D → Tracking D
unfolding send_pen_input record_pen_input_after_send
finish_pen out now s =
    let t =
      record_pen_input_after_send now (clear_pen_edge_triggered_flags (send_pen_input out s)) in
    record t { cursor_syncs = suc t.cursor_syncs }

abbrev pen_down_flags : PointerFlags
pen_down_flags = record no_flags { in_range = true; in_contact = true; down = true }

abbrev pen_move_flags : PointerFlags
pen_move_flags = record no_flags { in_range = true; in_contact = true; update = true }

abbrev hover_flags : PointerFlags
hover_flags = record no_flags { in_range = true; update = true }

abbrev pub event_flags : Bool → PointerFlags → PointerFlags
event_flags is_down f = if is_down then pen_down_flags else record (without_range f) { up = true }

-- The place, once the type is set.
abbrev pub placed : Point → PenInfo → PenInfo
placed p i = record i { is_pen = true; pen_x = p.x; pen_y = p.y }

module _ (d : Doubles) (pd : PenDoubles d.D) where
  open d use {D, of_int, zero_d, mul_d}
  open pd use {lt_d, le_d, div_d, neg_d, sin, cos, atan2, pi, truncate, to_uint32}

  abbrev radians : D → D
  radians x = mul_d x (div_d pi (of_int (pos 180)))

  abbrev degrees : D → D
  degrees x = div_d (mul_d x (of_int (pos 180))) pi

  -- `tiltX` and `tiltY`.
  abbrev tilt_angle : (D → D) → D → D → ℤ
  tilt_angle f rotation tilt = truncate (
      degrees
        (atan2 (mul_d (f (neg_d (radians rotation))) (sin (radians tilt))) (cos (radians tilt))))

  abbrev pub rotates : D → Bool
  rotates rotation = le_d zero_d rotation && le_d rotation (of_int (pos 360))

  abbrev pub tilts : PenCall D → Bool
  tilts c = le_d zero_d c.tilt && rotates c.rotation

  -- The button, the pressure where the pen is in contact, the rotation and the tilt.
  unfoldable pub pen_details : PenCall D → PenInfo → PenInfo
  pen_details c i =
      let presses = i.pen_pointer.in_contact && lt_d zero_d c.pressure in
      record i {
        barrel = c.has_button;
        mask_pressure = presses;
        mask_rotation = rotates c.rotation;
        mask_tilt = tilts c;
        pen_pressure = if presses then to_uint32 (mul_d c.pressure (of_int (pos 1024))) else 0;
        pen_rotation = if rotates c.rotation then truncate c.rotation else pos 0;
        tilt_x = if tilts c then tilt_angle sin c.rotation c.tilt else pos 0;
        tilt_y = if tilts c then tilt_angle cos c.rotation c.tilt else pos 0;
      }

  -- What the three calls write.
  unfoldable pub event_change : PenCall D → Bool → PenInfo → PenInfo
  unfolding pen_details
  event_change c is_down i =
      pen_details c (record i { pen_pointer = event_flags is_down i.pen_pointer; eraser = false })

  unfoldable pub move_change : PenCall D → PenInfo → PenInfo
  unfolding pen_details
  move_change c i = pen_details c (record i { pen_pointer = pen_move_flags })

  unfoldable pub hover_change : PenInfo → PenInfo
  hover_change i = record i {
    pen_pointer = hover_flags;
    barrel = false;
    eraser = false;
    mask_pressure = false;
    mask_rotation = false;
    mask_tilt = false;
    pen_pressure = 0;
    pen_rotation = pos 0;
    tilt_x = pos 0;
    tilt_y = pos 0;
  }

  module _ (out : Outside) (m : Metrics) where
    -- The type is set before the place is computed, and the call ends if there is none.
    unfoldable pub at_place : ℤ → D → D → (PenInfo → PenInfo) → ℕ → Tracking D → Tracking D
    unfolding finish_pen adjust_to_virtual_desktop_pixels
    at_place screen_id x y change now s =
        elim (adjust_to_virtual_desktop_pixels d m s.monitors screen_id x y) [
          | none ↦ record s { pen_info = record (s.pen_info) { is_pen = true } }
          | some p ↦ finish_pen out now (record s { pen_info = change (placed p s.pen_info) })
        ]

    unfoldable pub perform_pen_event : PenCall D → Bool → ℕ → Tracking D → Tracking D
    unfolding at_place event_change
    perform_pen_event c is_down now s =
        at_place c.screen_id c.call_x c.call_y (event_change c is_down) now s

    unfoldable pub perform_pen_move : PenCall D → ℕ → Tracking D → Tracking D
    unfolding at_place move_change
    perform_pen_move c now s =
        if not (has_active_pen_pointer s)
        then s
        else at_place c.screen_id c.call_x c.call_y (move_change c) now s

    unfoldable pub perform_pen_hover : ℤ → D → D → ℕ → Tracking D → Tracking D
    unfolding at_place hover_change
    perform_pen_hover screen_id x y now s = at_place screen_id x y hover_change now s
