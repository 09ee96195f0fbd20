-- ===== src/Linux/Monitors.antt =====
-- linux/hardware_simulator_plugin.cc: the monitors of the X display and the rectangle around them.
pub mod Enclosure
mod Tests
use hardware_simulator.Prelude.{Option, none, some, List, [], ◌∷◌, if◌then◌else◌}
use hardware_simulator.Prelude.Int.{ℤ, pos, ◌+ℤ◌, ◌-ℤ◌, leb_ℤ, min_ℤ, max_ℤ}

pub record MonitorBounds : Type 0 where
  pub x : ℤ
  pub y : ℤ
  pub width : ℤ
  pub height : ℤ

-- What XRandR reports of a monitor.
pub record XrrMonitor : Type 0 where
  pub noutput : ℤ
  pub bounds : MonitorBounds

-- The X server (not part of the repository): the list of `XRRGetMonitors`, null or not, and the size
-- of the default screen.
pub record XServer : Type 0 where
  pub xrr_monitors : Option (List XrrMonitor)
  pub display_width : ℤ
  pub display_height : ℤ

-- The loop of `get_monitors`, which skips a monitor without an output.
abbrev pub with_output : List XrrMonitor → List MonitorBounds
with_output [] = []
with_output (m ∷ ms) =
    let rest = with_output ms in if leb_ℤ m.noutput (pos 0) then rest else m.bounds ∷ rest

abbrev pub or_screen : XServer → List MonitorBounds → List MonitorBounds
or_screen x [] =
    record { x = pos 0; y = pos 0; width = x.display_width; height = x.display_height } ∷ []
or_screen x (m ∷ ms) = m ∷ ms

unfoldable pub get_monitors : XServer → List MonitorBounds
get_monitors x = or_screen x (elim x.xrr_monitors [ none ↦ [] | some ms ↦ with_output ms ])

-- The four edges that the loop of `get_root_bounds` keeps.
pub record Edges : Type 0 where
  pub left : ℤ
  pub top : ℤ
  pub right : ℤ
  pub bottom : ℤ

abbrev pub edges_of : MonitorBounds → Edges
edges_of m = record { left = m.x; top = m.y; right = m.x +ℤ m.width; bottom = m.y +ℤ m.height }

abbrev pub widen : Edges → MonitorBounds → Edges
widen e m = record {
  left = min_ℤ e.left m.x;
  top = min_ℤ e.top m.y;
  right = max_ℤ e.right (m.x +ℤ m.width);
  bottom = max_ℤ e.bottom (m.y +ℤ m.height);
}

unfoldable pub widen_all : Edges → List MonitorBounds → Edges
widen_all e [] = e
widen_all e (m ∷ ms) = widen_all (widen e m) ms

unfoldable pub get_root_bounds : List MonitorBounds → MonitorBounds
get_root_bounds [] = record { x = pos 0; y = pos 0; width = pos 1; height = pos 1 }
get_root_bounds (m ∷ ms) =
    let e = widen_all (edges_of m) (m ∷ ms) in
    record {
      x = e.left;
      y = e.top;
      width = max_ℤ (pos 1) (e.right -ℤ e.left);
      height = max_ℤ (pos 1) (e.bottom -ℤ e.top);
    }
