-- ===== src/Linux/Monitors/Tests.antt =====
-- Two monitors, one to the left of the origin.
use hardware_simulator.Prelude.{◌≡◌, refl, some, [], ◌∷◌}
use hardware_simulator.Prelude.Int.{pos, negsuc, ◌+ℤ◌, ◌-ℤ◌, min_ℤ, max_ℤ}
use hardware_simulator.Linux.Monitors.{
  MonitorBounds, XServer, get_monitors, get_root_bounds, widen_all,
}

abbrev right_monitor : MonitorBounds
right_monitor = record { x = pos 0; y = pos 0; width = pos 1920; height = pos 1080 }

abbrev left_monitor : MonitorBounds
left_monitor = record { x = negsuc 1279; y = pos 100; width = pos 1280; height = pos 1024 }

abbrev desk : XServer
desk = record {
  xrr_monitors = some (
      record { noutput = pos 1; bounds = right_monitor }
      ∷ record { noutput = pos 0; bounds = right_monitor }
      ∷ record { noutput = pos 2; bounds = left_monitor }
      ∷ []);
  display_width = pos 3200;
  display_height = pos 1124;
}

two_monitors : get_monitors desk ≡ right_monitor ∷ left_monitor ∷ []
unfolding get_monitors
two_monitors = refl

abbrev whole_desk : MonitorBounds
whole_desk = record { x = negsuc 1279; y = pos 0; width = pos 3200; height = pos 1124 }

root_of_desk : get_root_bounds (right_monitor ∷ left_monitor ∷ []) ≡ whole_desk
unfolding get_root_bounds widen_all min_ℤ max_ℤ ◌+ℤ◌ ◌-ℤ◌
root_of_desk = refl
