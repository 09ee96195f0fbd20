-- ===== src/Windows/Pointer/Tests.antt =====
-- Two monitors, the second to the left of the first and upwards, with an inactive device between.
use hardware_simulator.Prelude.{
  ◌+◌, ◌*◌, ◌/◌, ◌≡◌, refl, sym, ap, ◌∙◌, ◌⊎◌, inl, inr, true, false, Option, none, some, List, [],
  ◌∷◌, arith, is_some, Option-cases,
}
use hardware_simulator.Prelude.Int.{ℤ, pos, negsuc, pos_part, ◌+ℤ◌, ◌-ℤ◌, max_ℤ}
use native.Mathlib.Nat.{mul-div-le}
use hardware_simulator.Linux.Integral.{whole, with_nan}
use hardware_simulator.Windows.Pointer.{
  DisplayDevice, Metrics, Screens, no_screens, enumerate_devices, notify_display_count_changed,
  update_static_monitors, add_display_count_changed_callback, insert_id, monitor_rect_for_screen_id,
  adjust_to_screen, adjust_to_virtual_desktop, adjust_to_virtual_desktop_pixels,
  normalized_point_on_monitor, to_absolute,
}
use hardware_simulator.Windows.Pointer.Devices.{device_rect, update_static_monitors_finds}
use hardware_simulator.Windows.Pointer.Bounds.{
  ClampLaws, MulDivLaws, Answers, IsAbsolute, adjust_to_virtual_desktop-IsAbsolute,
}

-- `MulDiv` on numbers that are not negative.
abbrev half_up : ℤ → ℤ → ℤ → ℤ
half_up a b c = let k = pos_part c in pos ((2 * (pos_part a * pos_part b) + k) / (2 * k))

abbrev desk : Metrics
desk = record {
  origin = record { x = negsuc 1279; y = negsuc 99 };
  virtual_width = pos 3200;
  virtual_height = pos 1180;
  mul_div = half_up;
}

abbrev first_screen : DisplayDevice
first_screen = record {
  active = true;
  primary_device = true;
  settings = some (record {
    position = record { x = pos 0; y = pos 0 };
    pels_width = 1920;
    pels_height = 1080;
  });
}

abbrev second_screen : DisplayDevice
second_screen = record {
  active = true;
  primary_device = false;
  settings = some (record {
    position = record { x = negsuc 1279; y = negsuc 99 };
    pels_width = 1280;
    pels_height = 1024;
  });
}

abbrev devices : List DisplayDevice
devices = first_screen ∷ record first_screen { active = false } ∷ second_screen ∷ []

abbrev known : Screens
known = update_static_monitors devices (add_display_count_changed_callback (pos 7) no_screens)

told_count : known.told ≡ (pos 7, 2) ∷ []
unfolding update_static_monitors notify_display_count_changed enumerate_devices insert_id
told_count = refl

inactive_screen : monitor_rect_for_screen_id known.monitors (pos 1) ≡ none
unfolding update_static_monitors enumerate_devices monitor_rect_for_screen_id
inactive_screen = refl

far_corner :
    adjust_to_virtual_desktop whole desk known.monitors (pos 0) (pos 1) (pos 1)
    ≡ some (record { x = pos 65535; y = pos 65535 })
unfolding update_static_monitors enumerate_devices monitor_rect_for_screen_id adjust_to_screen
    adjust_to_virtual_desktop adjust_to_virtual_desktop_pixels normalized_point_on_monitor
    to_absolute ◌+ℤ◌ ◌-ℤ◌ max_ℤ
far_corner = refl

-- A fraction that is no number has no place.
no_place : adjust_to_virtual_desktop with_nan desk known.monitors (pos 0) none (some (pos 1)) ≡ none
unfolding update_static_monitors enumerate_devices monitor_rect_for_screen_id adjust_to_screen
    adjust_to_virtual_desktop adjust_to_virtual_desktop_pixels normalized_point_on_monitor
no_place = refl

abbrev clamped : ℤ → Option ℤ
clamped a = with_nan.clamp_d (some a) (some (pos 0)) (some (pos 1))

factor : (a : ℤ) → (clamped a ≡ some (pos 0)) ⊎ (clamped a ≡ some (pos 1))
factor a = ground arith

clamp_laws : ClampLaws with_nan
clamp_laws = record {
  round_clamped_factor = λ x n f small. elim (Option-cases x) [
    | inl z ↦ let w : false ≡ true = sym (ap is_some z) ∙ f in absurd (cc)
    | inr (a, z) ↦ elim (factor a) [
      | inl e ↦ rw (z, e) (omega arith)
      | inr e ↦ rw (z, e) (omega arith)
    ]
  ];
}

desk_laws : MulDivLaws desk
desk_laws = record {
  nearest = λ a b c h la lb lc fits.
      ((2 * (a * b) + c) / (2 * c), refl, omega (arith, mul-div-le (2 * (a * b) + c) (2 * c)));
}

update_static_monitors_finds_example :
    monitor_rect_for_screen_id known.monitors (pos 2) ≡ device_rect 2 (some second_screen)
update_static_monitors_finds_example =
    update_static_monitors_finds devices (add_display_count_changed_callback (pos 7) no_screens) 2

adjust_to_virtual_desktop-IsAbsolute_example :
    Answers
      (λ p. IsAbsolute p.x × IsAbsolute p.y)
      (adjust_to_virtual_desktop with_nan desk known.monitors (pos 2) (some (pos 1)) (some (pos 0)))
unfolding update_static_monitors enumerate_devices ◌+ℤ◌
adjust_to_virtual_desktop-IsAbsolute_example =
    adjust_to_virtual_desktop-IsAbsolute with_nan clamp_laws desk desk_laws known.monitors (pos 2)
      (some (pos 1)) (some (pos 0)) (omega arith, omega arith)
      (
        ((omega arith, omega arith), (omega arith, omega arith)),
        (((omega arith, omega arith), (omega arith, omega arith)), tt),
      )
