-- ===== src/Windows/Pointer.antt =====
-- windows/pointer_coordinates.h, and the screens of windows/hardware_simulator_plugin.cpp: the list of
-- monitors, and the places that a call's fractions stand for.
--
-- Windows' devices, metrics and MulDiv are parameters, and so are doubles. Signed arithmetic is on the
-- integers: a desktop's coordinates are far from the bounds of a LONG.
pub mod Bounds
pub mod Devices
mod Tests
use hardware_simulator.Prelude.{
  ℕ, suc, Bool, not, ◌||◌, Option, none, some, List, [], ◌∷◌, if◌then◌else◌, ◌>>=◌, length,
}
use hardware_simulator.Prelude.Int.{ℤ, pos, ◌+ℤ◌, ◌-ℤ◌, ltb_ℤ, leb_ℤ, eqb_ℤ, max_ℤ}
use hardware_simulator.Linux.Values.{Doubles}

pub record Point : Type 0 where
  pub x : ℤ
  pub y : ℤ

pub record Rect : Type 0 where
  pub left : ℤ
  pub top : ℤ
  pub right : ℤ
  pub bottom : ℤ

pub record MonitorInfo : Type 0 where
  pub rect : Rect
  pub is_primary : Bool
  pub screen_id : ℤ

-- `DEVMODE` as far as it is read.
pub record DevMode : Type 0 where
  pub position : Point
  pub pels_width : ℕ
  pub pels_height : ℕ

-- A device of `EnumDisplayDevices`, with the answer of `EnumDisplaySettings`.
pub record DisplayDevice : Type 0 where
  pub active : Bool
  pub primary_device : Bool
  pub settings : Option DevMode

-- `SM_XVIRTUALSCREEN` and its kin, and `MulDiv`.
pub record Metrics : Type 0 where
  pub origin : Point
  pub virtual_width : ℤ
  pub virtual_height : ℤ
  pub mul_div : ℤ → ℤ → ℤ → ℤ

-- The static members on monitors: the list, the callbacks by id, ascending, and what they were told,
-- newest first.
pub record Screens : Type 0 where
  pub monitors : List MonitorInfo
  pub callbacks : List ℤ
  pub told : List (ℤ × ℕ)

abbrev pub no_screens : Screens
no_screens = record { monitors = []; callbacks = []; told = [] }

abbrev pub monitor_of : ℕ → DisplayDevice → DevMode → MonitorInfo
monitor_of n dev mode = record {
  rect = record {
    left = mode.position.x;
    top = mode.position.y;
    right = mode.position.x +ℤ pos mode.pels_width;
    bottom = mode.position.y +ℤ pos mode.pels_height;
  };
  is_primary = dev.primary_device;
  screen_id = pos n;
}

-- One round of the loop over the devices.
abbrev pub push_device : ℕ → DisplayDevice → List MonitorInfo → List MonitorInfo
push_device n dev rest =
    if dev.active
    then elim dev.settings [ none ↦ rest | some mode ↦ monitor_of n dev mode ∷ rest ]
    else rest

-- The loop, from the n-th device.
unfoldable pub enumerate_devices : ℕ → List DisplayDevice → List MonitorInfo
enumerate_devices n [] = []
enumerate_devices n (dev ∷ devs) = push_device n dev (enumerate_devices (suc n) devs)

unfoldable pub notify_display_count_changed : ℕ → List ℤ → List (ℤ × ℕ) → List (ℤ × ℕ)
notify_display_count_changed count [] told = told
notify_display_count_changed count (id ∷ ids) told =
    notify_display_count_changed count ids ((id, count) ∷ told)

unfoldable pub update_static_monitors : List DisplayDevice → Screens → Screens
unfolding enumerate_devices notify_display_count_changed
update_static_monitors devs s =
    let monitors = enumerate_devices 0 devs in
    record s {
      monitors = monitors;
      told = notify_display_count_changed (length monitors) s.callbacks s.told;
    }

-- `std::map`: an ascending list of keys.
unfoldable pub insert_id : ℤ → List ℤ → List ℤ
insert_id id [] = id ∷ []
insert_id id (j ∷ js) =
    let rest = insert_id id js in
    if ltb_ℤ id j then id ∷ j ∷ js else if eqb_ℤ id j then j ∷ js else j ∷ rest

unfoldable pub erase_id : ℤ → List ℤ → List ℤ
erase_id id [] = []
erase_id id (j ∷ js) = let rest = erase_id id js in if eqb_ℤ id j then js else j ∷ rest

abbrev pub add_display_count_changed_callback : ℤ → Screens → Screens
add_display_count_changed_callback id s = record s { callbacks = insert_id id s.callbacks }

abbrev pub remove_display_count_changed_callback : ℤ → Screens → Screens
remove_display_count_changed_callback id s = record s { callbacks = erase_id id s.callbacks }

unfoldable pub monitor_rect_for_screen_id : List MonitorInfo → ℤ → Option Rect
monitor_rect_for_screen_id [] screen_id = none
monitor_rect_for_screen_id (m ∷ ms) screen_id =
    let rest = monitor_rect_for_screen_id ms screen_id in
    if eqb_ℤ m.screen_id screen_id then some m.rect else rest

abbrev pub point_relative_to_virtual_desktop : Point → Point → Point
point_relative_to_virtual_desktop point virtual_origin = record {
  x = point.x -ℤ virtual_origin.x;
  y = point.y -ℤ virtual_origin.y;
}

-- `MulDiv(v, 65535, max(1, max(1, size) - 1))`.
unfoldable pub to_absolute : Metrics → ℤ → ℤ → ℤ
to_absolute m v size = m.mul_div v (pos 65535) (max_ℤ (pos 1) (max_ℤ (pos 1) size -ℤ pos 1))

abbrev pub is_empty_rect : Rect → Bool
is_empty_rect r = leb_ℤ r.right r.left || leb_ℤ r.bottom r.top

module _ (d : Doubles) where
  open d use {D, of_int, is_finite, zero_d, one_d, clamp_d, mul_d, round}

  -- `lround(clamp(fraction, 0, 1) * (size - 1))`.
  abbrev pub offset_in : ℤ → D → ℤ
  offset_in size fraction = round (mul_d (clamp_d fraction zero_d one_d) (of_int (size -ℤ pos 1)))

  unfoldable pub normalized_point_on_monitor : Rect → D → D → Option Point
  normalized_point_on_monitor r x_percent y_percent =
      if not (is_finite x_percent) || not (is_finite y_percent) || is_empty_rect r
      then none
      else some (record {
        x = r.left +ℤ offset_in (r.right -ℤ r.left) x_percent;
        y = r.top +ℤ offset_in (r.bottom -ℤ r.top) y_percent;
      })

  unfoldable pub adjust_to_screen : List MonitorInfo → ℤ → D → D → Option Point
  unfolding monitor_rect_for_screen_id normalized_point_on_monitor
  adjust_to_screen monitors screen_id x y = do
    r ← monitor_rect_for_screen_id monitors screen_id
    normalized_point_on_monitor r x y

  module _ (m : Metrics) where
    unfoldable pub adjust_to_virtual_desktop_pixels : List MonitorInfo → ℤ → D → D → Option Point
    unfolding adjust_to_screen
    adjust_to_virtual_desktop_pixels monitors screen_id x y = do
      p ← adjust_to_screen monitors screen_id x y
      some (point_relative_to_virtual_desktop p m.origin)

    unfoldable pub adjust_to_virtual_desktop : List MonitorInfo → ℤ → D → D → Option Point
    unfolding adjust_to_virtual_desktop_pixels to_absolute
    adjust_to_virtual_desktop monitors screen_id x y = do
      p ← adjust_to_virtual_desktop_pixels monitors screen_id x y
      some
          (record { x = to_absolute m p.x m.virtual_width; y = to_absolute m p.y m.virtual_height })
