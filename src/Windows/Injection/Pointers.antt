-- ===== src/Windows/Injection/Pointers.antt =====
-- windows/hardware_simulator_plugin.cpp: the touch slots and the pen, as they are sent.
use hardware_simulator.Prelude.{ℕ, ◌+◌, Bool, false, not, ◌||◌, if◌then◌else◌}
use hardware_simulator.Prelude.Int.{ℤ, pos, ◌+ℤ◌, ◌-ℤ◌}
use hardware_simulator.Windows.Service.Messages.{Pointer, touch, pen, other_pointer}

-- POINTER_FLAG_INRANGE and its kin. `first_button` is TOUCHEVENTF_PRIMARY, which as a pointer flag is
-- POINTER_FLAG_FIRSTBUTTON.
pub record PointerFlags : Type 0 where
  pub in_range : Bool
  pub in_contact : Bool
  pub first_button : Bool
  pub down : Bool
  pub update : Bool
  pub up : Bool

abbrev pub no_flags : PointerFlags
no_flags = record {
  in_range = false;
  in_contact = false;
  first_button = false;
  down = false;
  update = false;
  up = false;
}

abbrev pub any_flag : PointerFlags → Bool
any_flag f = f.in_range || f.in_contact || f.first_button || f.down || f.update || f.up

abbrev bit : ℕ → Bool → ℕ
bit n b = if b then n else 0

abbrev pub pointer_flags_of : PointerFlags → ℕ
pointer_flags_of f =
    bit 0x2 f.in_range
    + bit 0x4 f.in_contact
    + bit 0x10 f.first_button
    + bit 0x10000 f.down
    + bit 0x20000 f.update
    + bit 0x40000 f.up

-- An entry of `g_touchInfo`. `has_area` is whether `rcContact` was set, `measured` whether the mask and
-- the pressure were.
pub record TouchSlot : Type 0 where
  pub is_touch : Bool
  pub pointer_id : ℕ
  pub flags : PointerFlags
  pub x : ℤ
  pub y : ℤ
  pub has_area : Bool
  pub measured : Bool

abbrev pub fresh_slot : TouchSlot
fresh_slot = record {
  is_touch = false;
  pointer_id = 0;
  flags = no_flags;
  x = pos 0;
  y = pos 0;
  has_area = false;
  measured = false;
}

-- The contact's area reaches 10 pixels around its point, once it has one; TOUCH_MASK_CONTACTAREA,
-- TOUCH_MASK_ORIENTATION and TOUCH_MASK_PRESSURE.
abbrev pub pointer_of : TouchSlot → Pointer
pointer_of t =
    if not t.is_touch
    then other_pointer
    else touch (record {
      pointer_id = t.pointer_id;
      pointer_flags = pointer_flags_of t.flags;
      x = t.x;
      y = t.y;
      touch_flags = 0;
      touch_mask = bit 0x7 t.measured;
      contact_left = t.x -ℤ pos (bit 10 t.has_area);
      contact_top = t.y -ℤ pos (bit 10 t.has_area);
      contact_right = t.x +ℤ pos (bit 10 t.has_area);
      contact_bottom = t.y +ℤ pos (bit 10 t.has_area);
      orientation = 0;
      pressure = bit 1024 t.measured;
    })

-- `g_penInfo`. PEN_FLAG_BARREL and PEN_FLAG_ERASER; PEN_MASK_PRESSURE and its kin.
pub record PenInfo : Type 0 where
  pub is_pen : Bool
  pub pen_pointer : PointerFlags
  pub pen_x : ℤ
  pub pen_y : ℤ
  pub barrel : Bool
  pub eraser : Bool
  pub mask_pressure : Bool
  pub mask_rotation : Bool
  pub mask_tilt : Bool
  pub pen_pressure : ℕ
  pub pen_rotation : ℤ
  pub tilt_x : ℤ
  pub tilt_y : ℤ

abbrev pub no_pen : PenInfo
no_pen = record {
  is_pen = false;
  pen_pointer = no_flags;
  pen_x = pos 0;
  pen_y = pos 0;
  barrel = false;
  eraser = false;
  mask_pressure = false;
  mask_rotation = false;
  mask_tilt = false;
  pen_pressure = 0;
  pen_rotation = pos 0;
  tilt_x = pos 0;
  tilt_y = pos 0;
}

abbrev pub pen_pointer_of : PenInfo → Pointer
pen_pointer_of p =
    if not p.is_pen
    then other_pointer
    else pen (record {
      pen_id = 0;
      pen_pointer_flags = pointer_flags_of p.pen_pointer;
      pen_x = p.pen_x;
      pen_y = p.pen_y;
      pen_flags = bit 0x1 p.barrel + bit 0x4 p.eraser;
      pen_mask = bit 0x1 p.mask_pressure + bit 0x2 p.mask_rotation + bit 0xc p.mask_tilt;
      pen_pressure = p.pen_pressure;
      rotation = p.pen_rotation;
      tilt_x = p.tilt_x;
      tilt_y = p.tilt_y;
    })
